-- ===== src/Endpoint/Matching/Names.antt =====
-- When a name of ours matches a name of a message.
use hick.Prelude.{
  ℕ, zero, suc, ◌+◌, ◌*◌, ◌≤◌, ◌<◌, ◌≡◌, ◌↔◌, ◌⊎◌, refl, sym, ap, ◌∙◌, arith, Bool, true, false,
  List, [], ◌∷◌, map, none, some, ok, err, stuck, ◌>>=◌, >>=-eq-ok, length, ltb, ◌==◌,
  if◌then◌else◌, inl, inr, Bool-cases, to_ascii_lowercase, saturating_add, Option-cases,
}
use mathlib.Core.Path.{ap₂}
use hick.Wire.Error.{Parsed}
use hick.Wire.Name.{NameRef, NameLabels, Label, Yield, next, labels}
use hick.Wire.Name.Decode.{collect_item, collect, decode}
use hick.Owner.{Name, NameError, dot, is_empty, trim, split, validate_name, wire_length}
use hick.Owner.Text.{lower, lower-trim, split-cons}
use hick.Owner.Labels.{name_labels, IsName, trim-empty}
use hick.Endpoint.Matching.{
  zip_match, label_match, match_round, match_loop, names_match_str, names_match,
}

-- Two labels match exactly when they are the same in lower case.
zip_match-lower :
    (s i : List ℕ) → length s ≡ length i → (zip_match s i ≡ true) ↔ (lower s ≡ lower i)
unfolding zip_match
zip_match-lower [] [] h = (λ _. refl, λ _. refl)
zip_match-lower [] (b ∷ i) h = absurd (omega arith)
zip_match-lower (a ∷ s) [] h = absurd (omega arith)
zip_match-lower (a ∷ s) (b ∷ i) h =
    let (to, from) = zip_match-lower s i (omega arith) in ground arith

length-lower : (s : List ℕ) → length (lower s) ≡ length s
length-lower [] = refl
length-lower (c ∷ s) = ap suc (length-lower s)

label_match-lower : (s i : List ℕ) → (label_match s i ≡ true) ↔ (lower s ≡ lower i)
unfolding label_match
label_match-lower s i = elim (Bool-cases (length s == length i)) [
  | inl p ↦ rw (label_match, p) (zip_match-lower s i (ground arith))
  | inr p ↦ (
    λ h. let q : label_match s i ≡ false = rw (label_match, p) refl in cc,
    λ h.
        let same : length s ≡ length i = sym (length-lower s) ∙ ap length h ∙ length-lower i in
        absurd (ground arith),
  )
]

-- A round that goes on, and the end of the loop.
match_round-true :
    (s : List ℕ) (y : Yield) (continue : NameLabels → Bool)
    → match_round s y continue ≡ true
    → (iit : NameLabels) × (i : Label) × (y ≡ (iit, some (ok i)))
      × (label_match s i ≡ true)
      × (continue iit ≡ true)
unfolding match_round
match_round-true s (iit, none) continue h = cc
match_round-true s (iit, some (err e)) continue h = cc
match_round-true s (iit, some stuck) continue h = cc
match_round-true s (iit, some (ok i)) continue h = elim (Bool-cases (label_match s i)) [
  | inl p ↦
      let q : match_round s (iit, some (ok i)) continue ≡ continue iit = rw (match_round, p) refl in
      (iit, i, refl, p, sym q ∙ h)
  | inr p ↦
      let q : match_round s (iit, some (ok i)) continue ≡ false = rw (match_round, p) refl in cc
]

end_true : (iit : NameLabels) → match_loop [] iit ≡ true → (next iit).1 ≡ none
unfolding match_loop
end_true iit h = elim (Option-cases (next iit).1) [
  | inl e ↦ e
  | inr (x, e) ↦ let q : match_loop [] iit ≡ false = rw (match_loop, e) refl in cc
]

-- What is collected from an item.
collect_item-end :
    (y : Yield) (continue : NameLabels → Parsed (List Label))
    → y.1 ≡ none
    → collect_item y continue ≡ ok []
unfolding collect_item
collect_item-end (s, none) continue h = refl
collect_item-end (s, some x) continue h = cc

collect_item-ok :
    (y : Yield) (continue : NameLabels → Parsed (List Label)) (ls : List Label)
    → collect_item y continue ≡ ok ls
    → ((y.1 ≡ none) × (ls ≡ []))
      ⊎ ((s : NameLabels) × (l : Label) × (ls' : List Label) × (y ≡ (s, some (ok l)))
          × (continue s ≡ ok ls')
          × (ls ≡ l ∷ ls'))
unfolding collect_item
collect_item-ok (s, none) continue ls h = inl (refl, cc)
collect_item-ok (s, some (err e)) continue ls h = cc
collect_item-ok (s, some stuck) continue ls h = cc
collect_item-ok (s, some (ok l)) continue ls h =
    let (ls', e, same) = >>=-eq-ok (continue s) (λ r. ok (l ∷ r)) h in inr (s, l, ls', refl, e, cc)

collect_item-some :
    (y : Yield) (continue : NameLabels → Parsed (List Label)) {s : NameLabels} {l : Label}
    {ls : List Label}
    → y ≡ (s, some (ok l))
    → continue s ≡ ok ls
    → collect_item y continue ≡ ok (l ∷ ls)
unfolding collect_item
collect_item-some y continue {s} {l} {ls} h read =
    ap (λ x. collect_item x continue) h ∙ ap (λ r. r >>= λ ls'. ok (l ∷ ls')) read

match_round-go :
    (x : List ℕ) (y : Yield) (continue : NameLabels → Bool) {s : NameLabels} {l : Label}
    → y ≡ (s, some (ok l))
    → label_match x l ≡ true
    → match_round x y continue ≡ continue s
unfolding match_round
match_round-go x y continue {s} {l} h same =
    ap (λ y'. match_round x y' continue) h ∙ ap (λ b. if b then continue s else false) same

-- What a loop that matches has read of the incoming name.
match_loop-collect :
    (sit : List (List ℕ)) (iit : NameLabels) (fuel : ℕ)
    → length sit < fuel
    → match_loop sit iit ≡ true
    → (ls : List Label) × (collect fuel iit ≡ ok ls) × (map lower sit ≡ map lower ls)
unfolding collect match_loop
match_loop-collect sit iit zero lt h = absurd (omega arith)
match_loop-collect [] iit (suc fuel) lt h =
    ([], collect_item-end (next iit) (collect fuel) (end_true iit h), refl)
match_loop-collect (s ∷ sit) iit (suc fuel) lt h =
    let (iit', i, y, same, rest) = match_round-true s (next iit) (match_loop sit) h in
    let (ls, read, all) = match_loop-collect sit iit' fuel (omega arith) rest in
    (
      i ∷ ls,
      collect_item-some (next iit) (collect fuel) y read,
      ap₂ ◌∷◌ ((label_match-lower s i).0 same) all,
    )

collect-match_loop :
    (sit : List (List ℕ)) (iit : NameLabels) (fuel : ℕ) (ls : List Label)
    → collect fuel iit ≡ ok ls
    → map lower sit ≡ map lower ls
    → match_loop sit iit ≡ true
unfolding collect match_loop
collect-match_loop sit iit zero ls h same = cc
collect-match_loop [] iit (suc fuel) ls h same =
    elim (collect_item-ok (next iit) (collect fuel) ls h) [
      | inl (e, _) ↦ rw (match_loop, e) refl
      | inr (s, l, ls', y, read, eq) ↦
          let no_label : [] ≡ lower l ∷ map lower ls' = same ∙ ap (map lower) eq in cc
    ]
collect-match_loop (s ∷ sit) iit (suc fuel) ls h same =
    elim (collect_item-ok (next iit) (collect fuel) ls h) [
      | inl (_, eq) ↦ let no_label : lower s ∷ map lower sit ≡ [] = same ∙ ap (map lower) eq in cc
      | inr (iit', l, ls', y, read, eq) ↦
          let both : lower s ∷ map lower sit ≡ lower l ∷ map lower ls' = same ∙ ap (map lower) eq in
          let first : lower s ≡ lower l = cc in
          let others : map lower sit ≡ map lower ls' = cc in
          match_round-go s (next iit) (match_loop sit) y ((label_match-lower s l).1 first)
          ∙ collect-match_loop sit iit' fuel ls' read others
    ]

-- The labels of a text in lower case are in lower case.
map-lower-split : (s : List ℕ) → lower s ≡ s → map lower (split s) ≡ split s
unfolding split
map-lower-split [] h = refl
map-lower-split (c ∷ s) h =
    let head : to_ascii_lowercase c ≡ c = cc in
    let tail : lower s ≡ s = cc in
    let ih = map-lower-split s tail in
    let (l, ls, e) = split-cons s in
    let first : lower l ∷ map lower ls ≡ l ∷ ls = ap (map lower) (sym e) ∙ ih ∙ e in
    let same : lower l ≡ l = cc in
    let others : map lower ls ≡ ls = cc in
    elim (Bool-cases (c == dot)) [
      | inl p ↦ rw (p) (ap (◌∷◌ []) ih)
      | inr p ↦ rw (p, e) (ap₂ ◌∷◌ (ap₂ ◌∷◌ head same) others)
    ]

length-nonempty : (l : List ℕ) → is_empty l ≡ false → 1 ≤ length l
length-nonempty [] h = cc
length-nonempty (c ∷ l) h = omega arith

-- A name of 255 octets has at most 127 labels.
wire_length-bound :
    (ls : List (List ℕ)) (w : ℕ) {v : ℕ} → wire_length ls w ≡ ok v → v ≤ 255 → w + 2 * length ls ≤ v
unfolding wire_length
wire_length-bound [] w {v} h fits = let same : w ≡ v = cc in omega arith
wire_length-bound (l ∷ ls) w h fits = elim (Bool-cases (is_empty l)) [
  | inl p ↦ let q : wire_length (l ∷ ls) w ≡ err NameError.empty_label = rw (p) refl in cc
  | inr p ↦ elim (Bool-cases (ltb 63 (length l))) [
    | inl long ↦
        let q : wire_length (l ∷ ls) w ≡ err (NameError.label_too_long (length l)) =
          rw (p, long) refl in
        cc
    | inr short ↦
        let w' = saturating_add (saturating_add w 1) (length l) in
        let q : wire_length (l ∷ ls) w ≡ wire_length ls w' = rw (p, short) refl in
        let rest = wire_length-bound ls w' (sym q ∙ h) fits in
        let some_octet : 1 ≤ length l = length-nonempty l p in ground arith
  ]
]

few : (s : List ℕ) → validate_name s ≡ ok tt → is_empty s ≡ false → length (split (trim s)) < 128
unfolding validate_name
few s h ne = elim (Bool-cases (ltb 255 (length s))) [
  | inl long ↦
      let q : validate_name s ≡ err (NameError.name_too_long (length s)) = rw (long) refl in cc
  | inr short ↦
      let (w, ok_w, last) = >>=-eq-ok (wire_length (split (trim s)) 1) _ (rw (short, ne) at h) in
      elim (Bool-cases (ltb 255 w)) [
        | inl over ↦ let q : err (NameError.name_too_long w) ≡ ok tt = (rw (over) at last) in cc
        | inr fits ↦
            let bound = wire_length-bound (split (trim s)) 1 ok_w (ground arith) in ground arith
      ]
]

lower-labels : (n : Name) → IsName n → map lower (split (trim n.text)) ≡ split (trim n.text)
lower-labels n known = map-lower-split (trim n.text) (lower-trim n.text known.folded)

few_labels : (n : Name) → IsName n → is_empty n.text ≡ false → length (split (trim n.text)) < 128
few_labels n known some_text = few n.text known.valid some_text

-- A name of ours, other than the root, matches a name of a message exactly when that name decodes
-- and its labels, in lower case, are the labels of ours: a pointer that leads nowhere is no match,
-- and neither is a name that only begins like ours.
pub names_match_iff :
    (stored : Name) (incoming : NameRef)
    → IsName stored
    → is_empty (trim stored.text) ≡ false
    → (names_match stored incoming ≡ true)
      ↔ ((ls : List Label) × (decode incoming ≡ ok ls) × (map lower ls ≡ name_labels stored))
unfolding names_match names_match_str decode
names_match_iff stored incoming known some_label =
    let sit = split (trim stored.text) in
    let iit = labels incoming in
    let low = lower-labels stored known in
    let few = few_labels stored known (trim-empty stored.text some_label) in
    let ours : name_labels stored ≡ sit = rw (some_label) refl in
    (
      λ h.
          let (ls, read, all) = match_loop-collect sit iit 128 few h in
          (ls, read, sym all ∙ low ∙ sym ours),
      λ c. collect-match_loop sit iit 128 c.0 c.1 (low ∙ sym ours ∙ sym c.2),
    )
