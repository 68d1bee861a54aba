-- ===== src/Wire/ResponseCode.antt =====
-- mdns-proto/src/wire/response_code.rs: the response codes.
use hick.Prelude.{ℕ, ◌==◌, if◌then◌else◌}

pub data ResponseCode : Type 0 where
  no_error format_error server_failure name_error not_implemented refused : ResponseCode
  unknown : ℕ → ResponseCode

unfoldable pub to_u8 : ResponseCode → ℕ
to_u8 no_error = 0
to_u8 format_error = 1
to_u8 server_failure = 2
to_u8 name_error = 3
to_u8 not_implemented = 4
to_u8 refused = 5
to_u8 (unknown v) = v

unfoldable pub from_u8 : ℕ → ResponseCode
from_u8 v =
    if v == 0
    then no_error
    else if v == 1
    then format_error
    else if v == 2
    then server_failure
    else if v == 3
    then name_error
    else if v == 4
    then not_implemented
    else if v == 5
    then refused
    else unknown v
