-- ===== src/Wire/Reader/Items.antt =====
-- The loops over the items of a section.
use hick.Prelude.{
  none, some, ℕ, zero, suc, ◌≤◌, ◌≡◌, ◌≢◌, refl, sym, ap, ◌∙◌, arith, List, [], ◌∷◌, ok, err, stuck,
  ◌==◌, true, saturating_sub, Bool-cases, inl, inr, Result-Cases, is_ok, is_err, is_stuck,
}
use hick.Wire.Error.{Parsed}
use hick.Wire.Reader.{Cursor, next_item, items}

module _ {A : Type 0} (parse : List ℕ → ℕ → Parsed (A × ℕ)) where
  pub next_done : (s : Cursor) → s.remaining ≡ 0 → next_item parse s ≡ (s, none)
  unfolding next_item
  next_done s h =
      let none_left : (s.remaining == 0) ≡ true = ground arith in rw (next_item, none_left) refl

  -- A round of the loop, for what `next` answered.
  pub items-end :
      (fuel : ℕ) (s : Cursor) {s' : Cursor}
      → next_item parse s ≡ (s', none)
      → items parse (suc fuel) s ≡ []
  unfolding items
  items-end fuel s h = ap (λ y. elim y.1 [ none ↦ [] | some item ↦ item ∷ items parse fuel y.0 ]) h

  pub items-next :
      (fuel : ℕ) (s : Cursor) {s' : Cursor} {item : Parsed A}
      → next_item parse s ≡ (s', some item)
      → items parse (suc fuel) s ≡ item ∷ items parse fuel s'
  unfolding items
  items-next fuel s h = ap (λ y. elim y.1 [ none ↦ [] | some item ↦ item ∷ items parse fuel y.0 ]) h

  items-done : (fuel : ℕ) (s : Cursor) → s.remaining ≡ 0 → items parse fuel s ≡ []
  unfolding items
  items-done zero s h = refl
  items-done (suc fuel) s h = items-end fuel s (next_done s h)

  items_fuel :
      (fuel fuel' : ℕ) (s : Cursor)
      → ((c : ℕ) → parse s.message c ≢ stuck)
      → s.remaining ≤ fuel
      → s.remaining ≤ fuel'
      → items parse fuel s ≡ items parse fuel' s
  unfolding next_item items
  items_fuel zero fuel' s ends le le' = sym (items-done fuel' s (omega arith))
  items_fuel (suc fuel) zero s ends le le' = items-done (suc fuel) s (omega arith)
  items_fuel (suc fuel) (suc fuel') s ends le le' = elim (Bool-cases (s.remaining == 0)) [
    | inl p ↦
        let no_more : s.remaining ≡ 0 = ground arith in
        items-done (suc fuel) s no_more ∙ sym (items-done (suc fuel') s no_more)
    | inr p ↦ elim (Result-Cases (parse s.message s.cursor)) [
      | is_stuck e ↦ absurd (ends s.cursor e)
      | is_err e h ↦
          let s' = record s { remaining = 0 } in
          let n : next_item parse s ≡ (s', some (err e)) = rw (next_item, p, h) refl in
          items-next fuel s n
          ∙ ap (◌∷◌ (err e)) (items-done fuel s' refl ∙ sym (items-done fuel' s' refl))
          ∙ sym (items-next fuel' s n)
      | is_ok r h ↦
          let s' = record s { cursor = r.1; remaining = saturating_sub s.remaining 1 } in
          let n : next_item parse s ≡ (s', some (ok r.0)) = rw (next_item, p, h) refl in
          items-next fuel s n
          ∙ ap (◌∷◌ (ok r.0)) (items_fuel fuel fuel' s' ends (ground arith) (ground arith))
          ∙ sym (items-next fuel' s n)
    ]
  ]

  -- Where parsing an item ends, as many rounds as items are left are enough.
  pub items-enough :
      (fuel : ℕ) (s : Cursor)
      → ((c : ℕ) → parse s.message c ≢ stuck)
      → s.remaining ≤ fuel
      → items parse fuel s ≡ items parse s.remaining s
  items-enough fuel s ends le = items_fuel fuel s.remaining s ends le (omega arith)
