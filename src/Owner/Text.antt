-- ===== src/Owner/Text.antt =====
-- The texts of names, cut at the dots.
use hick.Prelude.{
  ℕ, ◌≡◌, ◌↔◌, refl, sym, ap, ◌∙◌, arith, true, false, ◌&&◌, List, [], ◌∷◌, ◌++◌, map, none, some,
  ◌==◌, inl, inr, Bool-cases, Option-cases, to_ascii_lowercase,
}
use mathlib.Core.Path.{ap₂}
use hick.Owner.{dot, is_empty, trim, onto, split, split_once, eq_ignore_ascii_case, has_dot}

abbrev pub lower : List ℕ → List ℕ
lower = map to_ascii_lowercase

-- Equality without case.
pub eq_ignore_ascii_case_iff :
    (s t : List ℕ) → (eq_ignore_ascii_case s t ≡ true) ↔ (lower s ≡ lower t)
unfolding eq_ignore_ascii_case
eq_ignore_ascii_case_iff [] [] = (λ h. refl, λ h. refl)
eq_ignore_ascii_case_iff [] (d ∷ t) = (λ h. cc, λ h. cc)
eq_ignore_ascii_case_iff (c ∷ s) [] = (λ h. cc, λ h. cc)
eq_ignore_ascii_case_iff (c ∷ s) (d ∷ t) = let (f, g) = eq_ignore_ascii_case_iff s t in ground arith

-- The labels, with a dot between any two.
unfoldable pub join : List (List ℕ) → List ℕ
join [] = []
join (l ∷ ls) = elim ls [ [] ↦ l | _ ∷ _ ↦ l ++ dot ∷ join ls ]

-- A split has a first label.
pub split-cons : (s : List ℕ) → (l : List ℕ) × (ls : List (List ℕ)) × (split s ≡ l ∷ ls)
unfolding split
split-cons [] = ([], [], refl)
split-cons (c ∷ s) =
    let (l, ls, e) = split-cons s in
    elim (Bool-cases (c == dot)) [
      | inl p ↦ ([], l ∷ ls, rw (p, e) refl)
      | inr p ↦ (c ∷ l, ls, rw (p, e) refl)
    ]

join-onto : (c : ℕ) (l : List ℕ) (ls : List (List ℕ)) → join (onto c (l ∷ ls)) ≡ c ∷ join (l ∷ ls)
unfolding join
join-onto c l [] = refl
join-onto c l (l' ∷ ls) = refl

pub join-split : (s : List ℕ) → join (split s) ≡ s
unfolding join split
join-split [] = refl
join-split (c ∷ s) =
    let (l, ls, e) = split-cons s in
    let ih : join (l ∷ ls) ≡ s = ap join (sym e) ∙ join-split s in
    elim (Bool-cases (c == dot)) [
      | inl p ↦
          let is_dot : dot ≡ c = ground arith in
          rw (p) (ap (λ x. join ([] ∷ x)) e ∙ ap₂ ◌∷◌ is_dot ih)
      | inr p ↦ rw (p, e) (join-onto c l ls ∙ ap (◌∷◌ c) ih)
    ]

is_empty-append : (s : List ℕ) (c : ℕ) (t : List ℕ) → is_empty (s ++ c ∷ t) ≡ false
is_empty-append [] c t = refl
is_empty-append (d ∷ s) c t = refl

pub trim-dot : (s : List ℕ) → trim (s ++ dot ∷ []) ≡ s
unfolding trim
trim-dot [] = refl
trim-dot (c ∷ s) = rw (is_empty-append s dot []) (ap (◌∷◌ c) (trim-dot s))

pub lower-trim : (s : List ℕ) → lower s ≡ s → lower (trim s) ≡ trim s
unfolding trim
lower-trim [] h = refl
lower-trim (c ∷ s) h =
    let head : to_ascii_lowercase c ≡ c = cc in
    let tail : lower s ≡ s = cc in
    elim (Bool-cases (is_empty s && c == dot)) [
      | inl p ↦ rw (p) refl
      | inr p ↦ rw (p) (ap₂ ◌∷◌ head (lower-trim s tail))
    ]

pub split_once-some : (s a b : List ℕ) → split_once s ≡ some (a, b) → split s ≡ a ∷ split b
unfolding split_once split
split_once-some [] a b h = cc
split_once-some (c ∷ s) a b h = elim (Bool-cases (c == dot)) [
  | inl p ↦
      let q : split_once (c ∷ s) ≡ some ([], s) = rw (p) refl in
      let before : [] ≡ a = cc in
      let after : s ≡ b = cc in rw (p) (ap₂ (λ x y. x ∷ split y) before after)
  | inr p ↦ elim (Option-cases (split_once s)) [
    | inl e ↦ let q : split_once (c ∷ s) ≡ none = rw (p, e) refl in cc
    | inr ((a', b'), e) ↦
        let q : split_once (c ∷ s) ≡ some (c ∷ a', b') = rw (p, e) refl in
        let before : c ∷ a' ≡ a = cc in
        let after : b' ≡ b = cc in
        rw (p, split_once-some s a' b' e) (ap₂ (λ x y. x ∷ split y) before after)
  ]
]

pub split_once-none : (s : List ℕ) → split_once s ≡ none → split s ≡ s ∷ []
unfolding split_once split
split_once-none [] h = refl
split_once-none (c ∷ s) h = elim (Bool-cases (c == dot)) [
  | inl p ↦ let q : split_once (c ∷ s) ≡ some ([], s) = rw (p) refl in cc
  | inr p ↦ elim (Option-cases (split_once s)) [
    | inl e ↦ rw (p, split_once-none s e) refl
    | inr ((a', b'), e) ↦ let q : split_once (c ∷ s) ≡ some (c ∷ a', b') = rw (p, e) refl in cc
  ]
]

pub split_label : (l : List ℕ) → has_dot l ≡ false → split l ≡ l ∷ []
unfolding has_dot split
split_label [] h = refl
split_label (c ∷ l) h =
    let p : (c == dot) ≡ false = ground arith in
    let rest : has_dot l ≡ false = ground arith in rw (p, split_label l rest) refl

pub split_first : (l s : List ℕ) → has_dot l ≡ false → split (l ++ dot ∷ s) ≡ l ∷ split s
unfolding has_dot split
split_first [] s h = refl
split_first (c ∷ l) s h =
    let p : (c == dot) ≡ false = ground arith in
    let rest : has_dot l ≡ false = ground arith in rw (p, split_first l s rest) refl

pub lower-split_once : (s a b : List ℕ) → lower s ≡ s → split_once s ≡ some (a, b) → lower b ≡ b
unfolding split_once
lower-split_once [] a b f h = cc
lower-split_once (c ∷ s) a b f h =
    let tail : lower s ≡ s = cc in
    elim (Bool-cases (c == dot)) [
      | inl p ↦
          let q : split_once (c ∷ s) ≡ some ([], s) = rw (p) refl in
          let after : s ≡ b = cc in ap lower (sym after) ∙ tail ∙ after
      | inr p ↦ elim (Option-cases (split_once s)) [
        | inl e ↦ let q : split_once (c ∷ s) ≡ none = rw (p, e) refl in cc
        | inr ((a', b'), e) ↦
            let q : split_once (c ∷ s) ≡ some (c ∷ a', b') = rw (p, e) refl in
            let after : b' ≡ b = cc in
            ap lower (sym after) ∙ lower-split_once s a' b' tail e ∙ after
      ]
    ]
