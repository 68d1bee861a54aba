-- ===== src/Wire/Flags.antt =====
-- mdns-proto/src/wire/flags.rs: the flags word of the header. `!mask` is the complement in 16 bits.
use Prim.Native.Nat.{bit_or}
use hick.Prelude.{ℕ, ◌*◌, ◌/◌, ◌^◌, Bool, not, ◌==◌, bit_and}
use hick.Wire.Opcode
use hick.Wire.Opcode.{Opcode}
use hick.Wire.ResponseCode
use hick.Wire.ResponseCode.{ResponseCode}

pub record Flags : Type 0 where
  pub bits : ℕ

abbrev pub qr_bit : ℕ
qr_bit = 0x8000

abbrev pub opcode_mask : ℕ
opcode_mask = 0x7800

abbrev pub aa_bit : ℕ
aa_bit = 0x400

abbrev pub tc_bit : ℕ
tc_bit = 0x200

abbrev pub rd_bit : ℕ
rd_bit = 0x100

abbrev pub ra_bit : ℕ
ra_bit = 0x80

abbrev pub rcode_mask : ℕ
rcode_mask = 0xf

unfoldable pub from_u16 : ℕ → Flags
from_u16 bits = record { bits = bits }

unfoldable pub to_u16 : Flags → ℕ
to_u16 f = f.bits

unfoldable pub is_response : Flags → Bool
is_response f = not (bit_and f.bits qr_bit == 0)

unfoldable pub opcode : Flags → Opcode
opcode f = Opcode.from_u8 (bit_and f.bits opcode_mask / 2 ^ 11)

unfoldable pub is_authoritative : Flags → Bool
is_authoritative f = not (bit_and f.bits aa_bit == 0)

unfoldable pub is_truncated : Flags → Bool
is_truncated f = not (bit_and f.bits tc_bit == 0)

unfoldable pub is_recursion_desired : Flags → Bool
is_recursion_desired f = not (bit_and f.bits rd_bit == 0)

unfoldable pub is_recursion_available : Flags → Bool
is_recursion_available f = not (bit_and f.bits ra_bit == 0)

unfoldable pub response_code : Flags → ResponseCode
response_code f = ResponseCode.from_u8 (bit_and f.bits rcode_mask)

unfoldable pub set_response : Flags → Flags
set_response f = record f { bits = bit_or f.bits qr_bit }

unfoldable pub clear_response : Flags → Flags
clear_response f = record f { bits = bit_and f.bits 0x7fff }

unfoldable pub set_authoritative : Flags → Flags
set_authoritative f = record f { bits = bit_or f.bits aa_bit }

unfoldable pub clear_authoritative : Flags → Flags
clear_authoritative f = record f { bits = bit_and f.bits 0xfbff }

unfoldable pub set_truncated : Flags → Flags
set_truncated f = record f { bits = bit_or f.bits tc_bit }

unfoldable pub clear_truncated : Flags → Flags
clear_truncated f = record f { bits = bit_and f.bits 0xfdff }

unfoldable pub set_opcode : Flags → Opcode → Flags
set_opcode f op = record f {
  bits = bit_or (bit_and f.bits 0x87ff) (bit_and (Opcode.to_u8 op * 2 ^ 11) opcode_mask);
}

unfoldable pub set_response_code : Flags → ResponseCode → Flags
set_response_code f rc = record f {
  bits = bit_or (bit_and f.bits 0xfff0) (bit_and (ResponseCode.to_u8 rc) rcode_mask);
}
