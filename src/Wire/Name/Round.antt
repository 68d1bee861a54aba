-- ===== src/Wire/Name/Round.antt =====
-- One round of `NameLabels::next`, by the kind of the byte at the cursor.
use hick.Prelude.{
  ℕ, zero, suc, ◌+◌, ◌≤◌, ◌<◌, ◌≡◌, refl, arith, true, false, List, none, some, get_elem?,
  bit_and_tag, inl, inr, Option-cases, AreBytes, get_elem?-IsByte, ◌-◌,
}
use native.Mathlib.Decide.{dec_lt}
use hick.Wire.Error.{pointer_chain_too_long, invalid_label_kind, buffer_too_short}
use hick.Wire.Name.{NameLabels, Yield, fail, next_label, next_pointer, next_round, next_loop}

-- A state of the iterator that is not done.
abbrev pub at : List ℕ → ℕ → ℕ → ℕ → NameLabels
at m h c w = record { message = m; cursor = c; hops_remaining = h; wire_octets = w; done = false }

module _ (s : NameLabels) (pointer : ℕ → Yield) where
  pub round_out :
      get_elem? s.message s.cursor ≡ none
      → next_round s pointer ≡ fail s (buffer_too_short 1 s.cursor 0)
  unfolding next_round
  round_out e = rw (e, next_round)

  pub round_root :
      get_elem? s.message s.cursor ≡ some 0
      → next_round s pointer ≡ (record s { done = true }, none)
  unfolding next_round
  round_root e = rw (e, next_round)

  pub round_label :
      (b : ℕ)
      → get_elem? s.message s.cursor ≡ some b
      → 0 < b
      → b < 64
      → next_round s pointer ≡ next_label s b
  unfolding next_round
  round_label b e p q = ground (arith, bit_and_tag b)

  pub round_pointer :
      (b : ℕ)
      → get_elem? s.message s.cursor ≡ some b
      → 192 ≤ b
      → b < 256
      → next_round s pointer ≡ pointer b
  unfolding next_round
  round_pointer b e p q = ground (arith, bit_and_tag b)

  pub round_bad :
      (b : ℕ)
      → get_elem? s.message s.cursor ≡ some b
      → 64 ≤ b
      → b < 192
      → next_round s pointer ≡ fail s (invalid_label_kind b)
  unfolding next_round
  round_bad b e p q = ground (arith, bit_and_tag b)

-- The arm of a pointer in the loop with `hops` left.
unfoldable pub pointer_arm : ℕ → NameLabels → ℕ → Yield
pointer_arm zero s kind_byte = fail s (pointer_chain_too_long 32)
pointer_arm (suc hops) s kind_byte =
    next_pointer (record s { hops_remaining = hops }) kind_byte (next_loop hops)

pub next_loop-round :
    (hops : ℕ) (s : NameLabels) → next_loop hops s ≡ next_round s (pointer_arm hops s)
unfolding next_loop pointer_arm
next_loop-round zero s = refl
next_loop-round (suc hops) s = refl

-- What stands at a cursor.
pub data Head (m : List ℕ) (c : ℕ) : Type 0 where
  out : get_elem? m c ≡ none → Head m c
  root : get_elem? m c ≡ some 0 → Head m c
  label : (b : ℕ) → get_elem? m c ≡ some b → 0 < b → b < 64 → Head m c
  bad : (b : ℕ) → get_elem? m c ≡ some b → 64 ≤ b → b < 192 → Head m c
  pointer : (hi : ℕ) → get_elem? m c ≡ some (192 + hi) → hi < 64 → Head m c

Head-of : (m : List ℕ) (c b : ℕ) → b < 256 → get_elem? m c ≡ some b → Head m c
Head-of m c b h e = elim (dec_lt b 64) [
  | yes p ↦ elim (dec_lt 0 b) [ yes q ↦ label b e q p | no q ↦ root (ground arith) ]
  | no p ↦ elim (dec_lt b 192) [
    | yes q ↦ bad b e (omega arith) q
    | no q ↦ pointer (b - 192) (ground arith) (omega arith)
  ]
]

pub head : (m : List ℕ) (c : ℕ) → AreBytes m → Head m c
head m c bytes = elim (Option-cases (get_elem? m c)) [
  | inl e ↦ out e
  | inr (b, e) ↦ Head-of m c b (get_elem?-IsByte m c bytes e) e
]
