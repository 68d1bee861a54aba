-- ===== src/Wire/Values.antt =====
-- The wire values of the enums.
use hick.Prelude.{ℕ, ◌*◌, ◌/◌, ◌%◌, ◌<◌, ◌≡◌, refl, arith, bit_and, agree_below, agree_below_lem}
use hick.Wire.ResourceType
use hick.Wire.ResourceClass

-- Every value survives the trip through `ResourceType`.
pub to_u16-from_u16 : (v : ℕ) → ResourceType.to_u16 (ResourceType.from_u16 v) ≡ v
unfolding ResourceType.to_u16 ResourceType.from_u16
to_u16-from_u16 v = ground arith

-- The masks of a class field: the top bit, and the fifteen below it.
pub bit_and_low : (v : ℕ) → v < 0x10000 → bit_and v 0x7fff ≡ v % 0x8000
unfolding agree_below
bit_and_low = agree_below_lem (λ v. bit_and v 0x7fff) (λ v. v % 0x8000) 0x10000 refl

pub bit_and_high : (v : ℕ) → v < 0x10000 → bit_and v 0x8000 ≡ v / 0x8000 * 0x8000
unfolding agree_below
bit_and_high = agree_below_lem (λ v. bit_and v 0x8000) (λ v. v / 0x8000 * 0x8000) 0x10000 refl

-- A class field of 16 bits is its class below the top bit.
pub class_to_u16-from_u16 :
    (v : ℕ) → v < 0x10000 → ResourceClass.to_u16 (ResourceClass.from_u16 v) ≡ v % 0x8000
unfolding ResourceClass.to_u16 ResourceClass.from_u16 ResourceClass.from_u16_raw
class_to_u16-from_u16 v h = ground (arith, bit_and_low v h)
