-- ===== src/Prelude/Bytes.antt =====
-- Bytes and machine words. A byte is a number below 256; `usize` has 64 bits.
use Prim.Native.Nat.{ℕ, zero, suc, ◌+◌, ◌-◌, ◌*◌, ◌/◌, ◌%◌, ◌^◌, ◌<◌, min, bit_and}
use mathlib.Core.Path.{◌≡◌, refl, sym, ap, ◌∙◌}
use mathlib.Core.Bool.{Bool, true, ◌&&◌}
use mathlib.Core.List.{List, [], ◌∷◌}
use mathlib.Core.Option.{some}
use native.Mathlib.Omega.{arith}
use native.Mathlib.Decide.{ℕ_discrete}
use hick.Prelude.Tests.{leb, ◌==◌, if◌then◌else◌}
use hick.Prelude.Lists.{length, get_elem?, All}

abbrev pub IsByte : ℕ → Type 0
IsByte b = b < 256

abbrev pub usize_max : ℕ
usize_max = 2 ^ 64 - 1

-- `usize::saturating_add`
abbrev pub saturating_add : ℕ → ℕ → ℕ
saturating_add a b = min (a + b) usize_max

-- `usize::saturating_sub`
abbrev pub saturating_sub : ℕ → ℕ → ℕ
saturating_sub a b = a - b

-- No slice is longer than `isize::MAX` bytes.
abbrev pub IsSlice {ℓ} : {A : Type ℓ} → List A → Type 0
IsSlice xs = length xs < 2 ^ 63

-- `u16::from_be_bytes([hi, lo])`
abbrev pub be16 : ℕ → ℕ → ℕ
be16 hi lo = hi * 256 + lo

-- `u8::to_ascii_lowercase`
abbrev pub to_ascii_lowercase : ℕ → ℕ
to_ascii_lowercase b = if leb b'A' b && leb b b'Z' then b + 32 else b

-- Two functions that agree below a bound, by trying each number.
unfoldable pub agree_below : (f g : ℕ → ℕ) → ℕ → Bool
agree_below f g zero = true
agree_below f g (suc bound) = (f bound == g bound) && agree_below f g bound

pub agree_below_lem :
    (f g : ℕ → ℕ) (bound : ℕ) → agree_below f g bound ≡ true → (v : ℕ) → v < bound → f v ≡ g v
unfolding agree_below
agree_below_lem f g zero agree v lt = absurd (omega arith)
agree_below_lem f g (suc bound) agree v lt =
    let at_bound : f bound ≡ g bound = ground arith in
    let below : agree_below f g bound ≡ true = ground arith in
    elim (ℕ_discrete v bound) [
      | yes last ↦ ap f last ∙ at_bound ∙ ap g (sym last)
      | no other ↦ agree_below_lem f g bound below v (omega arith)
    ]

-- The two top bits of a byte, and the six below them.
pub bit_and_tag : (b : ℕ) → b < 256 → bit_and b 0xc0 ≡ b / 64 * 64
unfolding agree_below
bit_and_tag = agree_below_lem (λ b. bit_and b 0xc0) (λ b. b / 64 * 64) 256 refl

pub bit_and_low_six : (b : ℕ) → b < 256 → bit_and b 0x3f ≡ b % 64
unfolding agree_below
bit_and_low_six = agree_below_lem (λ b. bit_and b 0x3f) (λ b. b % 64) 256 refl

abbrev pub AreBytes : List ℕ → Type 0
AreBytes = All IsByte

pub get_elem?-IsByte :
    (xs : List ℕ) (i : ℕ) {b : ℕ} → AreBytes xs → get_elem? xs i ≡ some b → b < 256
get_elem?-IsByte [] i a e = cc
get_elem?-IsByte (x ∷ xs) zero a e = ground arith
get_elem?-IsByte (x ∷ xs) (suc i) a e = get_elem?-IsByte xs i a.1 e
