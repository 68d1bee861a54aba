-- ===== src/Wire/Error.antt =====
-- mdns-proto/src/error.rs and constants.rs: the errors of the parser and of the encoder, with
-- the detail structs as the arguments of their constructors, and the limits of the wire format.
use hick.Prelude.{ℕ, Result, ok, err, ltb, if◌then◌else◌}

-- `name_too_long` is the enum's `NameTooLong(usize)`, `integer_conversion` stands for
-- `IntegerConversion(TryFromIntError)`, whose payload carries no information.
pub data ParseError : Type 0 where
  buffer_too_short : (needed at have : ℕ) → ParseError
  label_too_long : (len : ℕ) → ParseError
  name_too_long : ℕ → ParseError
  pointer_cycle : ParseError
  pointer_chain_too_long : ℕ → ParseError
  pointer_forward : (ptr at : ℕ) → ParseError
  invalid_label_kind : ℕ → ParseError
  rdlength_overrun : (rdlen at rem : ℕ) → ParseError
  integer_conversion : ParseError
  unsupported_name_bearing_type : ℕ → ParseError

pub data EncodeError : Type 0 where
  buffer_too_small : (needed have : ℕ) → EncodeError
  integer_conversion : EncodeError

abbrev pub Parsed : Type 0 → Type 0
Parsed A = Result ParseError A

abbrev pub max_label_bytes : ℕ
max_label_bytes = 63

abbrev pub max_name_bytes : ℕ
max_name_bytes = 255

abbrev pub max_pointer_hops : ℕ
max_pointer_hops = 32

-- `u16::try_from(n)?`
abbrev pub u16_try_from : ℕ → Parsed ℕ
u16_try_from n = if ltb n 0x10000 then ok n else err ParseError.integer_conversion
