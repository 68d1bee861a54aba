-- ===== src/Wire/Name/Arms.antt =====
-- The label arm and the pointer arm of `NameLabels::next`: when they succeed, and with what.
use hick.Prelude.{
  ℕ, suc, true, ◌+◌, ◌-◌, ◌*◌, ◌≤◌, ◌<◌, ◌≡◌, refl, arith, List, some, ok, err, length, get_elem?,
  slice?, IsSlice, bit_and_low_six, ◌⊎◌, inl, inr, Option-cases,
}
use native.Mathlib.Decide.{dec_lt}
use hick.Wire.Error.{ParseError, buffer_too_short, name_too_long, pointer_forward}
use hick.Wire.Name.{NameLabels, Label, next_label, next_loop}
use hick.Wire.Name.Round.{at, pointer_arm}

module _ (m : List ℕ) (h c w b : ℕ) where
  -- What the label arm answers where the label lies in the message and the limits allow it.
  pub label_ok :
      (l : Label)
      → slice? m (c + 1) (c + 1 + b) ≡ some l
      → b < 64
      → w + 1 + b ≤ 255
      → c + 1 + b < 0x10000
      → next_label (at m h c w) b ≡ (at m h (c + 1 + b) (w + 1 + b), some (ok l))
  label_ok l e p q r = ground arith

  -- The label arm yields the label as above, or it fails and is done.
  pub label_cases :
      IsSlice m
      → c < length m
      → b < 64
      → w ≤ 255
      → ((l : Label) × (next_label (at m h c w) b ≡ (at m h (c + 1 + b) (w + 1 + b), some (ok l)))
          × (slice? m (c + 1) (c + 1 + b) ≡ some l)
          × (w + 1 + b ≤ 255)
          × (c + 1 + b < 0x10000))
        ⊎ ((s : NameLabels) × (e : ParseError) × (next_label (at m h c w) b ≡ (s, some (err e)))
            × (s.done ≡ true))
  label_cases fits inside p q = elim (Option-cases (slice? m (c + 1) (c + 1 + b))) [
    | inl e ↦ inr (
      record (at m h c w) { done = true },
      buffer_too_short b (c + 1) (length m - (c + 1)),
      ground arith,
      refl,
    )
    | inr (l, e) ↦ elim (dec_lt 255 (w + 1 + b)) [
      | yes long ↦ inr (
        record (at m h c (w + 1 + b)) { done = true },
        name_too_long (w + 1 + b),
        ground arith,
        refl,
      )
      | no short ↦ elim (dec_lt (c + 1 + b) 0x10000) [
        | yes near ↦ inl (l, label_ok l e p (omega arith) near, e, omega arith, near)
        | no far ↦ inr (
          record (at m h c (w + 1 + b)) { done = true },
          ParseError.integer_conversion,
          ground arith,
          refl,
        )
      ]
    ]
  ]

module _ (m : List ℕ) (h c w hi : ℕ) where
  -- The pointer arm follows a pointer that points backwards.
  pub pointer_ok :
      (lo : ℕ)
      → IsSlice m
      → c < length m
      → get_elem? m (c + 1) ≡ some lo
      → hi < 64
      → hi * 256 + lo < c
      → pointer_arm (suc h) (at m (suc h) c w) (192 + hi) ≡ next_loop h (at m h (hi * 256 + lo) w)
  unfolding pointer_arm
  pointer_ok lo fits inside e p q = ground (arith, bit_and_low_six (192 + hi))

  -- Otherwise it fails and is done.
  pub pointer_cases :
      IsSlice m
      → c < length m
      → hi < 64
      → ((lo : ℕ) × (get_elem? m (c + 1) ≡ some lo)
          × (hi * 256 + lo < c)
          × (pointer_arm (suc h) (at m (suc h) c w) (192 + hi)
              ≡ next_loop h (at m h (hi * 256 + lo) w)))
        ⊎ ((s : NameLabels) × (e : ParseError) × (pointer_arm (suc h) (at m (suc h) c w) (192 + hi)
              ≡ (s, some (err e)))
            × (s.done ≡ true))
  unfolding pointer_arm
  pointer_cases fits inside p = elim (Option-cases (get_elem? m (c + 1))) [
    | inl e ↦
        inr (record (at m h c w) { done = true }, buffer_too_short 1 (c + 1) 0, ground arith, refl)
    | inr (lo, e) ↦ elim (dec_lt (hi * 256 + lo) c) [
      | yes back ↦ inl (lo, e, back, pointer_ok lo fits inside e p back)
      | no forward ↦ inr (
        record (at m h c w) { done = true },
        pointer_forward (hi * 256 + lo) c,
        ground (arith, bit_and_low_six (192 + hi)),
        refl,
      )
    ]
  ]
