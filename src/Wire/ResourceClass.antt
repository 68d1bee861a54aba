-- ===== src/Wire/ResourceClass.antt =====
-- mdns-proto/src/wire/resource_class.rs: the record classes, whose top bit mDNS uses as a flag.
use hick.Prelude.{ℕ, ◌==◌, if◌then◌else◌, bit_and}

pub data ResourceClass : Type 0 where
  in_class any : ResourceClass
  unknown : ℕ → ResourceClass

-- `CACHE_FLUSH_BIT` and `UNICAST_RESPONSE_BIT`
abbrev pub top_bit : ℕ
top_bit = 0x8000

unfoldable pub to_u16 : ResourceClass → ℕ
to_u16 in_class = 1
to_u16 any = 255
to_u16 (unknown v) = v

unfoldable pub from_u16_raw : ℕ → ResourceClass
from_u16_raw v = if v == 1 then in_class else if v == 255 then any else unknown v

-- `v & !CACHE_FLUSH_BIT`
unfoldable pub from_u16 : ℕ → ResourceClass
from_u16 v = from_u16_raw (bit_and v 0x7fff)
