-- ===== src/Owner/Labels.antt =====
-- The labels of an owned name, and what the comparisons of names say of them.
use hick.Prelude.{
  ℕ, ◌≡◌, ◌≢◌, ◌↔◌, refl, sym, ap, ◌∙◌, true, false, not, ◌&&◌, List, [], ◌∷◌, none, some, ok, err,
  All, length, ltb, if◌then◌else◌, inl, inr, Bool-cases, Option-cases, saturating_add, >>=-eq-ok,
}
use mathlib.Core.Path.{subst}
use hick.Owner.{
  Name, NameError, is_empty, trim, split, split_once, eq_ignore_ascii_case, same_owner,
  is_parent_of, validate_name, wire_length,
}
use hick.Owner.Text.{
  lower, eq_ignore_ascii_case_iff, join, join-split, lower-trim, split_once-some, split_once-none,
  split-cons, lower-split_once,
}

-- The labels of a name: none for the root.
abbrev pub labels_of : List ℕ → List (List ℕ)
labels_of s = if is_empty s then [] else split s

abbrev pub name_labels : Name → List (List ℕ)
name_labels n = labels_of (trim n.text)

-- A name as the constructors of the source leave it: validated, and in lower case.
pub record IsName (n : Name) : Type 0 where
  pub valid : validate_name n.text ≡ ok tt
  pub folded : lower n.text ≡ n.text

split-ne-nil : (s : List ℕ) → split s ≢ []
split-ne-nil s h = let (l, ls, e) = split-cons s in cc

labels_of-eq : (s t : List ℕ) → labels_of s ≡ labels_of t → s ≡ t
labels_of-eq [] [] h = refl
labels_of-eq [] (d ∷ t) h = absurd (split-ne-nil (d ∷ t) (sym h))
labels_of-eq (c ∷ s) [] h = absurd (split-ne-nil (c ∷ s) h)
labels_of-eq (c ∷ s) (d ∷ t) h = sym (join-split (c ∷ s)) ∙ ap join h ∙ join-split (d ∷ t)

-- Two names are the same owner exactly when they have the same labels: one dot at the end makes no
-- difference.
pub same_owner_iff :
    (a b : Name) → IsName a → IsName b → (same_owner a b ≡ true) ↔ (name_labels a ≡ name_labels b)
unfolding same_owner
same_owner_iff a b na nb =
    let fa = lower-trim a.text na.folded in
    let fb = lower-trim b.text nb.folded in
    let (to, from) = eq_ignore_ascii_case_iff (trim a.text) (trim b.text) in
    (
      λ h. ap labels_of (sym fa ∙ to h ∙ fb),
      λ h. from (ap lower (labels_of-eq (trim a.text) (trim b.text) h)),
    )

-- No label of a valid name is empty.
wire_length-ok :
    (ls : List (List ℕ)) (w : ℕ) {v : ℕ}
    → wire_length ls w ≡ ok v
    → All (λ l. is_empty l ≡ false) ls
unfolding wire_length
wire_length-ok [] w h = tt
wire_length-ok (l ∷ ls) w h = elim (Bool-cases (is_empty l)) [
  | inl p ↦ let q : wire_length (l ∷ ls) w ≡ err NameError.empty_label = rw (p) refl in cc
  | inr p ↦ elim (Bool-cases (ltb 63 (length l))) [
    | inl long ↦
        let q : wire_length (l ∷ ls) w ≡ err (NameError.label_too_long (length l)) =
          rw (p, long) refl in
        cc
    | inr short ↦
        let w' = saturating_add (saturating_add w 1) (length l) in
        let q : wire_length (l ∷ ls) w ≡ wire_length ls w' = rw (p, short) refl in
        (p, wire_length-ok ls w' (sym q ∙ h))
  ]
]

pub labels-valid :
    (s : List ℕ)
    → validate_name s ≡ ok tt
    → is_empty s ≡ false
    → All (λ l. is_empty l ≡ false) (split (trim s))
unfolding validate_name
labels-valid s h ne = elim (Bool-cases (ltb 255 (length s))) [
  | inl long ↦
      let q : validate_name s ≡ err (NameError.name_too_long (length s)) = rw (long) refl in cc
  | inr short ↦
      let (w, ok_w, _) = >>=-eq-ok (wire_length (split (trim s)) 1) _ (rw (short, ne) at h) in
      wire_length-ok (split (trim s)) 1 ok_w
]

one_label :
    (s t : List ℕ)
    → split_once t ≡ none
    → ((not (is_empty t) && is_empty s) ≡ true) ↔ ((l : List ℕ) × (labels_of t ≡ l ∷ labels_of s))
one_label s [] e = (λ h. cc, λ h. cc h.1)
one_label [] (d ∷ t) e = (λ h. (d ∷ t, split_once-none (d ∷ t) e), λ h. refl)
one_label (c ∷ s) (d ∷ t) e = (
  λ h. cc,
  λ h.
      let only = split_once-none (d ∷ t) e in
      let nothing : split (c ∷ s) ≡ [] = cc (h.1, only) in absurd (split-ne-nil (c ∷ s) nothing),
)

split_once-empty : (s : List ℕ) {r : List ℕ × List ℕ} → split_once s ≡ some r → is_empty s ≡ false
unfolding split_once
split_once-empty [] h = cc
split_once-empty (c ∷ s) h = refl

pub trim-empty : (s : List ℕ) → is_empty (trim s) ≡ false → is_empty s ≡ false
unfolding trim
trim-empty [] h = h
trim-empty (c ∷ s) h = refl

pub split-nonempty : (s : List ℕ) → All (λ l. is_empty l ≡ false) (split s) → is_empty s ≡ false
unfolding split
split-nonempty [] h = h.0
split-nonempty (c ∷ s) h = refl

first_label :
    (b : Name) (l rest : List ℕ)
    → IsName b
    → split_once (trim b.text) ≡ some (l, rest)
    → name_labels b ≡ l ∷ labels_of rest
first_label b l rest nb e =
    let cut = split_once-some (trim b.text) l rest e in
    let some_text = split_once-empty (trim b.text) e in
    let all = labels-valid b.text nb.valid (trim-empty b.text some_text) in
    let rest_all = (subst (All (λ x. is_empty x ≡ false)) cut all).1 in
    rw (some_text, split-nonempty rest rest_all) cut

more_labels :
    (s : List ℕ) (b : Name) (l rest : List ℕ)
    → IsName b
    → lower s ≡ s
    → split_once (trim b.text) ≡ some (l, rest)
    → (eq_ignore_ascii_case s rest ≡ true) ↔ ((l : List ℕ) × (name_labels b ≡ l ∷ labels_of s))
more_labels s b l rest nb folded e =
    let (to, from) = eq_ignore_ascii_case_iff s rest in
    let low = lower-split_once (trim b.text) l rest (lower-trim b.text nb.folded) e in
    let here = first_label b l rest nb e in
    (
      λ h. (l, here ∙ ap (λ t. l ∷ labels_of t) (sym (sym folded ∙ to h ∙ low))),
      λ h.
          let same : labels_of s ≡ labels_of rest = cc (h.1, here) in
          from (ap lower (labels_of-eq s rest same)),
    )

-- A name is the parent of another exactly when the other has one label more, in front.
pub is_parent_of_iff :
    (a b : Name)
    → IsName a
    → IsName b
    → (is_parent_of a b ≡ true) ↔ ((l : List ℕ) × (name_labels b ≡ l ∷ name_labels a))
unfolding is_parent_of
is_parent_of_iff a b na nb =
    let ta = trim a.text in
    let tb = trim b.text in
    elim (Option-cases (split_once tb)) [
      | inl e ↦ rw (is_parent_of, e) (one_label ta tb e)
      | inr ((l, rest), e) ↦
          rw (is_parent_of, e) (more_labels ta b l rest nb (lower-trim a.text na.folded) e)
    ]
