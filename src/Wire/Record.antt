-- ===== src/Wire/Record.antt =====
-- mdns-proto/src/wire/record/mod.rs: `Ref`, a resource record in a message. `Ref::try_parse` is
-- `try_parse`, `Ref::rdata` is `rdata`.
pub mod Laws
use hick.Prelude.{
  ℕ, ◌+◌, ◌*◌, Bool, not, List, [], ◌∷◌, Option, none, some, ok, err, ◌>>=◌, ltb, ◌==◌,
  if◌then◌else◌, length, slice?, be16, bit_and, saturating_add, saturating_sub,
}
use hick.Wire.Error.{Parsed, buffer_too_short, rdlength_overrun}
use hick.Wire.Name
use hick.Wire.Name.{NameRef}
use hick.Wire.ResourceType
use hick.Wire.ResourceType.{ResourceType}
use hick.Wire.ResourceClass
use hick.Wire.ResourceClass.{ResourceClass, top_bit}

pub record Ref : Type 0 where
  pub message : List ℕ
  pub name : NameRef
  pub rtype : ResourceType
  pub rclass : ResourceClass
  pub cache_flush : Bool
  pub ttl : ℕ
  pub rdata_start : ℕ
  pub rdata_len : ℕ

-- `message.get(after_name..after_name.saturating_add(10))`
unfoldable pub fixed_part : List ℕ → ℕ → Parsed (List ℕ)
fixed_part message at = elim (slice? message at (saturating_add at 10)) [
  | some hdr ↦ ok hdr
  | none ↦ err (buffer_too_short 10 at (saturating_sub (length message) at))
]

-- The two bytes of the fixed part from `i` on, big-endian; `at` is where the part stands.
unfoldable pub two_bytes : List ℕ → ℕ → ℕ → Parsed ℕ
two_bytes hdr at i = elim (slice? hdr i (i + 2)) [
  | some (hi ∷ lo ∷ _) ↦ ok (be16 hi lo)
  | _ ↦ err (buffer_too_short 2 (saturating_add at i) (length hdr))
]

-- Four bytes, big-endian.
unfoldable pub four_bytes : List ℕ → ℕ → ℕ → Parsed ℕ
four_bytes hdr at i = elim (slice? hdr i (i + 4)) [
  | some (a ∷ b ∷ c ∷ d ∷ _) ↦ ok (be16 a b * 0x10000 + be16 c d)
  | _ ↦ err (buffer_too_short 4 (saturating_add at i) (length hdr))
]

-- The test of the RDLENGTH against the message.
unfoldable pub bounded : List ℕ → ℕ → ℕ → Ref → Parsed (Ref × ℕ)
bounded message rdata_start rdlen ref =
    let rdata_end = saturating_add rdata_start rdlen in
    if ltb (length message) rdata_end
    then err (rdlength_overrun rdlen rdata_start (saturating_sub (length message) rdata_start))
    else ok (ref, rdata_end)

-- What follows the name.
unfoldable pub after_name : List ℕ → NameRef → ℕ → Parsed (Ref × ℕ)
after_name message name at = do
  hdr ← fixed_part message at
  rtype ← two_bytes hdr at 0
  rclass_raw ← two_bytes hdr at 2
  ttl ← four_bytes hdr at 4
  rdlen ← two_bytes hdr at 8
  let rdata_start = saturating_add at 10
  bounded message rdata_start rdlen (record {
    message = message;
    name = name;
    rtype = ResourceType.from_u16 rtype;
    rclass = ResourceClass.from_u16 rclass_raw;
    cache_flush = not (bit_and rclass_raw top_bit == 0);
    ttl = ttl;
    rdata_start = rdata_start;
    rdata_len = rdlen;
  })

unfoldable pub try_parse : List ℕ → ℕ → Parsed (Ref × ℕ)
try_parse message offset = do
  (name, name_bytes) ← Name.try_parse message offset
  after_name message name (saturating_add offset name_bytes)

-- `self.message.get(start..start + len).unwrap_or(&[])`
unfoldable pub rdata : Ref → List ℕ
rdata r = elim (slice? r.message r.rdata_start (saturating_add r.rdata_start r.rdata_len)) [
  | some bytes ↦ bytes
  | none ↦ []
]
