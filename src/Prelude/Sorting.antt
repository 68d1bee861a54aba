-- ===== src/Prelude/Sorting.antt =====
-- What total orders, and the lists sorted by them, satisfy.
use mathlib.Core.Path.{◌≡◌, refl, sym, ap, ◌∙◌, ap₂}
use mathlib.Core.Logic.{◌⊎◌, inl, inr}
use mathlib.Core.Bool.{true, false}
use mathlib.Core.List.{List, [], ◌∷◌, Permᴰ}
use hick.Prelude.Tests.{if◌then◌else◌, Bool-cases}
use hick.Prelude.Order.{
  Ordering, less, equal, greater, reverse, is_greater, IsOrder, cmp_lists, insert, sort,
}

pub Ordering-cases : (o : Ordering) → (o ≡ equal) ⊎ ((o ≡ less) ⊎ (o ≡ greater))
Ordering-cases less = inr (inl refl)
Ordering-cases equal = inl refl
Ordering-cases greater = inr (inr refl)

module _ {A : Type 0} (cmp : A → A → Ordering) (order : IsOrder cmp) where
  cmp_lists-same : (xs : List A) → cmp_lists cmp xs xs ≡ equal
  unfolding cmp_lists
  cmp_lists-same [] = refl
  cmp_lists-same (x ∷ xs) = rw (order.same x) (cmp_lists-same xs)

  cmp_lists_unique : (xs ys : List A) → cmp_lists cmp xs ys ≡ equal → xs ≡ ys
  unfolding cmp_lists
  cmp_lists_unique [] [] h = refl
  cmp_lists_unique [] (y ∷ ys) h = cc
  cmp_lists_unique (x ∷ xs) [] h = cc
  cmp_lists_unique (x ∷ xs) (y ∷ ys) h = elim (Ordering-cases (cmp x y)) [
    | inl e ↦ ap₂ ◌∷◌ (order.unique x y e) (cmp_lists_unique xs ys (rw (e) at h))
    | inr (inl e) ↦ let no : less ≡ equal = (rw (e) at h) in cc
    | inr (inr e) ↦ let no : greater ≡ equal = (rw (e) at h) in cc
  ]

  cmp_lists-swap : (xs ys : List A) → cmp_lists cmp ys xs ≡ reverse (cmp_lists cmp xs ys)
  unfolding cmp_lists
  cmp_lists-swap [] [] = refl
  cmp_lists-swap [] (y ∷ ys) = refl
  cmp_lists-swap (x ∷ xs) [] = refl
  cmp_lists-swap (x ∷ xs) (y ∷ ys) = elim (Ordering-cases (cmp x y)) [
    | inl e ↦ rw (order.swap x y, e) (cmp_lists-swap xs ys)
    | inr (inl e) ↦ rw (order.swap x y, e) refl
    | inr (inr e) ↦ rw (order.swap x y, e) refl
  ]

  less_trans_left : (a b c : A) → cmp a b ≡ equal → cmp b c ≡ less → cmp a c ≡ less
  less_trans_left a b c p q = ap (λ x. cmp x c) (order.unique a b p) ∙ q

  less_trans_right : (a b c : A) → cmp a b ≡ less → cmp b c ≡ equal → cmp a c ≡ less
  less_trans_right a b c p q = ap (cmp a) (sym (order.unique b c q)) ∙ p

  cmp_lists-less :
      (x y : A) (xs ys : List A)
      → cmp_lists cmp (x ∷ xs) (y ∷ ys) ≡ less
      → (cmp x y ≡ less) ⊎ ((cmp x y ≡ equal) × (cmp_lists cmp xs ys ≡ less))
  unfolding cmp_lists
  cmp_lists-less x y xs ys h = elim (Ordering-cases (cmp x y)) [
    | inl e ↦ inr (e, rw (e) at h)
    | inr (inl e) ↦ inl e
    | inr (inr e) ↦ let no : greater ≡ less = (rw (e) at h) in cc
  ]

  cmp_lists_trans :
      (xs ys zs : List A)
      → cmp_lists cmp xs ys ≡ less
      → cmp_lists cmp ys zs ≡ less
      → cmp_lists cmp xs zs ≡ less
  unfolding cmp_lists
  cmp_lists_trans [] [] zs p q = cc
  cmp_lists_trans [] (y ∷ ys) [] p q = cc
  cmp_lists_trans [] (y ∷ ys) (z ∷ zs) p q = refl
  cmp_lists_trans (x ∷ xs) [] zs p q = cc
  cmp_lists_trans (x ∷ xs) (y ∷ ys) [] p q = cc
  cmp_lists_trans (x ∷ xs) (y ∷ ys) (z ∷ zs) p q = elim (cmp_lists-less x y xs ys p) [
    | inl a ↦ elim (cmp_lists-less y z ys zs q) [
      | inl b ↦ rw (order.trans x y z a b) refl
      | inr (b, _) ↦ rw (less_trans_right x y z a b) refl
    ]
    | inr (a, more) ↦ elim (cmp_lists-less y z ys zs q) [
      | inl b ↦ rw (less_trans_left x y z a b) refl
      | inr (b, more') ↦
          rw (ap (λ v. cmp v z) (order.unique x y a) ∙ b) (cmp_lists_trans xs ys zs more more')
    ]
  ]

  pub cmp_lists-IsOrder : IsOrder (cmp_lists cmp)
  cmp_lists-IsOrder = record {
    same = cmp_lists-same;
    unique = cmp_lists_unique;
    swap = cmp_lists-swap;
    trans = cmp_lists_trans;
  }

  not_greater-antisym :
      (a b : A) → is_greater (cmp a b) ≡ false → is_greater (cmp b a) ≡ false → a ≡ b
  not_greater-antisym a b p q = elim (Ordering-cases (cmp a b)) [
    | inl e ↦ order.unique a b e
    | inr (inl e) ↦
        let s : is_greater (cmp b a) ≡ true = ap is_greater (order.swap a b ∙ ap reverse e) in cc
    | inr (inr e) ↦ let s : is_greater (cmp a b) ≡ true = ap is_greater e in cc
  ]

  greater-swap : (a b : A) → is_greater (cmp a b) ≡ true → is_greater (cmp b a) ≡ false
  greater-swap a b p = elim (Ordering-cases (cmp a b)) [
    | inl e ↦ let s : is_greater (cmp a b) ≡ false = ap is_greater e in cc
    | inr (inl e) ↦ let s : is_greater (cmp a b) ≡ false = ap is_greater e in cc
    | inr (inr e) ↦ ap is_greater (order.swap a b ∙ ap reverse e)
  ]

  greater_lem : (a b : A) → is_greater (cmp a b) ≡ true → cmp b a ≡ less
  greater_lem a b p = elim (Ordering-cases (cmp a b)) [
    | inl e ↦ let s : is_greater (cmp a b) ≡ false = ap is_greater e in cc
    | inr (inl e) ↦ let s : is_greater (cmp a b) ≡ false = ap is_greater e in cc
    | inr (inr e) ↦ order.swap a b ∙ ap reverse e
  ]

  -- `x ≤ a` and `x > b` make `a > b`.
  greater_trans :
      (x a b : A)
      → is_greater (cmp x a) ≡ false
      → is_greater (cmp x b) ≡ true
      → is_greater (cmp a b) ≡ true
  greater_trans x a b p q = elim (Ordering-cases (cmp x a)) [
    | inl e ↦ ap (λ v. is_greater (cmp v b)) (sym (order.unique x a e)) ∙ q
    | inr (inl e) ↦
        ap is_greater (order.swap b a ∙ ap reverse (order.trans b x a (greater_lem x b q) e))
    | inr (inr e) ↦ let s : is_greater (cmp x a) ≡ true = ap is_greater e in cc
  ]

  insert-two :
      (a b : A) (xs : List A)
      → (if is_greater (cmp b a) then a ∷ b ∷ xs else b ∷ a ∷ xs)
        ≡ (if is_greater (cmp a b) then b ∷ a ∷ xs else a ∷ b ∷ xs)
  insert-two a b xs = elim (Bool-cases (is_greater (cmp b a))) [
    | inl p ↦ rw (p, greater-swap b a p) refl
    | inr p ↦ elim (Bool-cases (is_greater (cmp a b))) [
      | inl q ↦ rw (p, q) refl
      | inr q ↦
          let same = not_greater-antisym b a p q in
          rw (p, q) (ap₂ (λ x y. x ∷ y ∷ xs) same (sym same))
    ]
  ]

  insert-below :
      (e x : A) (xs : List A) → is_greater (cmp x e) ≡ true → insert cmp e (x ∷ xs) ≡ e ∷ x ∷ xs
  unfolding insert
  insert-below e x xs p = rw (p) refl

  insert-above :
      (e x : A) (xs : List A)
      → is_greater (cmp x e) ≡ false
      → insert cmp e (x ∷ xs) ≡ x ∷ insert cmp e xs
  unfolding insert
  insert-above e x xs p = rw (p) refl

  -- Below all the others: two elements in front.
  insert-front :
      (a b x : A) (xs : List A)
      → is_greater (cmp x a) ≡ true
      → insert cmp a (b ∷ x ∷ xs)
        ≡ (if is_greater (cmp b a) then a ∷ b ∷ x ∷ xs else b ∷ a ∷ x ∷ xs)
  unfolding insert
  insert-front a b x xs p = rw (p) refl

  -- `x` between: `x ≤ a`, `x > b`.
  insert-around :
      (a b x : A) (xs : List A)
      → is_greater (cmp x a) ≡ false
      → is_greater (cmp x b) ≡ true
      → insert cmp a (insert cmp b (x ∷ xs)) ≡ insert cmp b (insert cmp a (x ∷ xs))
  insert-around a b x xs p q =
      let b_first = greater-swap a b (greater_trans x a b p q) in
      ap (insert cmp a) (insert-below b x xs q)
      ∙ insert-above a b (x ∷ xs) b_first
      ∙ ap (◌∷◌ b) (insert-above a x xs p)
      ∙ sym (insert-below b x (insert cmp a xs) q)
      ∙ ap (insert cmp b) (sym (insert-above a x xs p))

  pub insert_comm :
      (a b : A) (xs : List A) → insert cmp a (insert cmp b xs) ≡ insert cmp b (insert cmp a xs)
  unfolding insert
  insert_comm a b [] = insert-two a b []
  insert_comm a b (x ∷ xs) = elim (Bool-cases (is_greater (cmp x a))) [
    | inl p ↦ elim (Bool-cases (is_greater (cmp x b))) [
      | inl q ↦
          ap (insert cmp a) (insert-below b x xs q)
          ∙ insert-front a b x xs p
          ∙ insert-two a b (x ∷ xs)
          ∙ sym (insert-front b a x xs q)
          ∙ ap (insert cmp b) (sym (insert-below a x xs p))
      | inr q ↦ sym (insert-around b a x xs q p)
    ]
    | inr p ↦ elim (Bool-cases (is_greater (cmp x b))) [
      | inl q ↦ insert-around a b x xs p q
      | inr q ↦
          ap (insert cmp a) (insert-above b x xs q)
          ∙ insert-above a x (insert cmp b xs) p
          ∙ ap (◌∷◌ x) (insert_comm a b xs)
          ∙ sym (insert-above b x (insert cmp a xs) q)
          ∙ ap (insert cmp b) (sym (insert-above a x xs p))
    ]
  ]

  -- Sorting forgets the order.
  pub sort-Permᴰ : {xs ys : List A} → Permᴰ xs ys → sort cmp xs ≡ sort cmp ys
  unfolding sort
  sort-Permᴰ Permᴰ.nil = refl
  sort-Permᴰ (Permᴰ.cons e d) = ap₂ (insert cmp) e (sort-Permᴰ d)
  sort-Permᴰ (Permᴰ.swap {a} {b} {l = l} e e') =
      insert_comm a b (sort cmp l) ∙ ap₂ (λ x y. insert cmp x (insert cmp y (sort cmp l))) e' e
  sort-Permᴰ (Permᴰ.trans d d') = sort-Permᴰ d ∙ sort-Permᴰ d'
