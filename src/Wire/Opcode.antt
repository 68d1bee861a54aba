-- ===== src/Wire/Opcode.antt =====
-- mdns-proto/src/wire/opcode.rs: the opcodes of RFC 1035.
use hick.Prelude.{ℕ, ◌==◌, if◌then◌else◌}

pub data Opcode : Type 0 where
  query inverse_query status notify update : Opcode
  unknown : ℕ → Opcode

unfoldable pub to_u8 : Opcode → ℕ
to_u8 query = 0
to_u8 inverse_query = 1
to_u8 status = 2
to_u8 notify = 4
to_u8 update = 5
to_u8 (unknown v) = v

unfoldable pub from_u8 : ℕ → Opcode
from_u8 v =
    if v == 0
    then query
    else if v == 1
    then inverse_query
    else if v == 2
    then status
    else if v == 4
    then notify
    else if v == 5
    then update
    else unknown v
