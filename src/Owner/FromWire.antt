-- ===== src/Owner/FromWire.antt =====
-- `Name::from_wire_labels` of mdns-proto/src/name.rs.
use hick.Prelude.{
  ℕ, ◌≤◌, ◌≡◌, refl, sym, ap, ◌∙◌, arith, Bool, false, List, [], ◌∷◌, ◌++◌, map, none, some, ok,
  err, stuck, All, length, ◌==◌, inl, inr, Option-cases, Result-Cases, is_ok, is_err, is_stuck,
  to_ascii_lowercase, saturating_add,
}
use mathlib.Core.Path.{ap₂, subst}
use mathlib.Core.List.{append_assoc, append-nil}
use hick.Wire.Error.{Parsed}
use hick.Owner.{
  Name, dot, is_empty, trim, split, has_dot, validate_name, push_labels, from_wire_labels,
}
use hick.Owner.Text.{lower, join, trim-dot, split_label, split_first}
use hick.Owner.Labels.{labels_of, name_labels, IsName, labels-valid, split-nonempty}

-- Every label with a dot behind it.
dotted : List (List ℕ) → List ℕ
dotted [] = []
dotted (l ∷ ls) = l ++ dot ∷ dotted ls

abbrev NoDots : List (List ℕ) → Type 0
NoDots = All (λ l. has_dot l ≡ false)

has_dot-lower : (l : List ℕ) → has_dot (lower l) ≡ has_dot l
unfolding has_dot
has_dot-lower [] = refl
has_dot-lower (c ∷ l) =
    let same : (to_ascii_lowercase c == dot) ≡ (c == dot) = ground arith in
    rw (same, has_dot-lower l) refl

lower_twice : (l : List ℕ) → lower (lower l) ≡ lower l
lower_twice [] = refl
lower_twice (c ∷ l) =
    let same : to_ascii_lowercase (to_ascii_lowercase c) ≡ to_ascii_lowercase c = ground arith in
    ap₂ ◌∷◌ same (lower_twice l)

lower-append : (s t : List ℕ) → lower (s ++ t) ≡ lower s ++ lower t
lower-append [] t = refl
lower-append (c ∷ s) t = ap (◌∷◌ (to_ascii_lowercase c)) (lower-append s t)

NoDots-lower : (ls : List (List ℕ)) → NoDots ls → NoDots (map lower ls)
NoDots-lower [] h = tt
NoDots-lower (l ∷ ls) h = (has_dot-lower l ∙ h.0, NoDots-lower ls h.1)

lower-dotted : (ls : List (List ℕ)) → lower (dotted (map lower ls)) ≡ dotted (map lower ls)
unfolding dotted
lower-dotted [] = refl
lower-dotted (l ∷ ls) =
    lower-append (lower l) (dot ∷ dotted (map lower ls))
    ∙ ap₂ (λ x y. x ++ dot ∷ y) (lower_twice l) (lower-dotted ls)

dotted-join : (l : List ℕ) (ls : List (List ℕ)) → dotted (l ∷ ls) ≡ join (l ∷ ls) ++ dot ∷ []
unfolding dotted join
dotted-join l [] = refl
dotted-join l (l' ∷ ls) =
    ap (λ s. l ++ dot ∷ s) (dotted-join l' ls)
    ∙ sym (append_assoc l (dot ∷ join (l' ∷ ls)) (dot ∷ []))

split-join : (l : List ℕ) (ls : List (List ℕ)) → NoDots (l ∷ ls) → split (join (l ∷ ls)) ≡ l ∷ ls
unfolding join
split-join l [] h = split_label l h.0
split-join l (l' ∷ ls) h = split_first l _ h.0 ∙ ap (◌∷◌ l) (split-join l' ls h.1)

nonempty : (s t : List ℕ) → is_empty (s ++ dot ∷ t) ≡ false
nonempty [] t = refl
nonempty (c ∷ s) t = refl

-- The labels of a valid text of dotted labels.
labels-dotted :
    (ls : List (List ℕ))
    → NoDots ls
    → validate_name (dotted (map lower ls)) ≡ ok tt
    → labels_of (trim (dotted (map lower ls))) ≡ map lower ls
unfolding dotted trim
labels-dotted [] h v = refl
labels-dotted (l ∷ ls) h v =
    let l' = lower l in
    let ls' = map lower ls in
    let low = NoDots-lower (l ∷ ls) h in
    let cut : trim (dotted (l' ∷ ls')) ≡ join (l' ∷ ls') =
      ap trim (dotted-join l' ls') ∙ trim-dot (join (l' ∷ ls')) in
    let all = labels-valid (dotted (l' ∷ ls')) v (nonempty l' (dotted ls')) in
    let some_text =
      split-nonempty (join (l' ∷ ls'))
        (subst (λ s. All (λ x. is_empty x ≡ false) (split s)) cut all) in
    rw (cut, some_text) (split-join l' ls' low)

module _ (is_utf8 : List ℕ → Bool) where
  -- The labels that were pushed: none of them failed, and none holds a dot.
  abbrev Pushed : List (Parsed (List ℕ)) → List ℕ → List ℕ → Type 0
  Pushed ls buf out =
      (ls' : List (List ℕ)) × (ls ≡ map ok ls') × NoDots ls' × (out ≡ buf ++ dotted (map lower ls'))

  pushed_one :
      (l : List ℕ) (ls : List (Parsed (List ℕ))) (buf : List ℕ) (w : ℕ) {out : List ℕ}
      → push_labels is_utf8 (ok l ∷ ls) buf w ≡ some out
      → (length l ≤ 63)
        × (has_dot l ≡ false)
        × (push_labels is_utf8 ls
              (buf ++ (lower l ++ dot ∷ []))
              (saturating_add (saturating_add w 1) (length l))
            ≡ some out)
  unfolding push_labels
  pushed_one l ls buf w h = ground arith

  push_labels-Pushed :
      (ls : List (Parsed (List ℕ))) (buf : List ℕ) (w : ℕ) {out : List ℕ}
      → push_labels is_utf8 ls buf w ≡ some out
      → Pushed ls buf out
  unfolding push_labels dotted
  push_labels-Pushed [] buf w {out} h =
      let same : buf ≡ out = cc in ([], refl, tt, sym same ∙ sym (append-nil buf))
  push_labels-Pushed (err e ∷ ls) buf w h = cc
  push_labels-Pushed (stuck ∷ ls) buf w h = cc
  push_labels-Pushed (ok l ∷ ls) buf w {out} h =
      let w' = saturating_add (saturating_add w 1) (length l) in
      let buf' = buf ++ (lower l ++ dot ∷ []) in
      let (fits, no_dot, next) = pushed_one l ls buf w h in
      let (ls', eq, none_dotted, text) = push_labels-Pushed ls buf' w' next in
      (
        l ∷ ls',
        ap (◌∷◌ (ok l)) eq,
        (no_dot, none_dotted),
        text
            ∙ append_assoc buf (lower l ++ dot ∷ []) (dotted (map lower ls'))
            ∙ ap (λ s. buf ++ s) (append_assoc (lower l) (dot ∷ []) (dotted (map lower ls'))),
      )

  -- The name that wire labels give is well formed, and it has those labels, in lower case: none of
  -- them failed to decode, none holds a dot, and none is lost, split or joined.
  pub from_wire_labels-labels :
      (ls : List (Parsed (List ℕ))) (n : Name)
      → from_wire_labels is_utf8 ls ≡ some n
      → IsName n × ((ls' : List (List ℕ)) × (ls ≡ map ok ls') × (name_labels n ≡ map lower ls'))
  unfolding from_wire_labels
  from_wire_labels-labels ls n h = elim (Option-cases (push_labels is_utf8 ls [] 1)) [
    | inl e ↦ let s : from_wire_labels is_utf8 ls ≡ none = rw (from_wire_labels, e) refl in cc
    | inr (buf, e) ↦ elim (Result-Cases (validate_name buf)) [
      | is_err x v ↦
          let s : from_wire_labels is_utf8 ls ≡ none = rw (from_wire_labels, e, v) refl in cc
      | is_stuck v ↦
          let s : from_wire_labels is_utf8 ls ≡ none = rw (from_wire_labels, e, v) refl in cc
      | is_ok u v ↦
          let s : from_wire_labels is_utf8 ls ≡ some (record { text = buf }) =
            rw (from_wire_labels, e, v) refl in
          let same : record { text = buf } ≡ n = cc in
          let (ls', eq, none_dotted, text) = push_labels-Pushed ls [] 1 e in
          subst
            (λ (n : Name).
              IsName n
              × ((ls' : List (List ℕ)) × (ls ≡ map ok ls') × (name_labels n ≡ map lower ls')))
            same
            (
              record { valid = v; folded = ap lower text ∙ lower-dotted ls' ∙ sym text },
              (
                ls',
                eq,
                ap (λ s. labels_of (trim s)) text
                    ∙ labels-dotted ls' none_dotted (ap validate_name (sym text) ∙ v),
              ),
            )
    ]
  ]
