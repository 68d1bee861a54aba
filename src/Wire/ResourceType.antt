-- ===== src/Wire/ResourceType.antt =====
-- mdns-proto/src/wire/resource_type.rs: the record types, and how their rdata carries domain names.
use hick.Prelude.{ℕ, ◌==◌, ◌||◌, if◌then◌else◌}

pub data ResourceType : Type 0 where
  a aaaa ptr srv txt nsec hinfo cname any : ResourceType
  unknown : ℕ → ResourceType

-- How the rdata of a type carries domain names: `lead` fixed octets, `names` names, the rest.
pub data RdataNames : Type 0 where
  opaque : RdataNames
  compressible : (lead names : ℕ) → RdataNames

unfoldable pub to_u16 : ResourceType → ℕ
to_u16 a = 1
to_u16 aaaa = 28
to_u16 ptr = 12
to_u16 srv = 33
to_u16 txt = 16
to_u16 nsec = 47
to_u16 hinfo = 13
to_u16 cname = 5
to_u16 any = 255
to_u16 (unknown v) = v

unfoldable pub from_u16 : ℕ → ResourceType
from_u16 v =
    if v == 1
    then a
    else if v == 28
    then aaaa
    else if v == 12
    then ptr
    else if v == 33
    then srv
    else if v == 16
    then txt
    else if v == 47
    then nsec
    else if v == 13
    then hinfo
    else if v == 5
    then cname
    else if v == 255
    then any
    else unknown v

-- The table of RFC 6762 §18.14.
unfoldable pub rdata_names : ResourceType → RdataNames
unfolding to_u16
rdata_names t =
    let v = to_u16 t in
    if v == 2 || v == 5 || v == 12 || v == 39
    then compressible 0 1
    else if v == 6 || v == 17
    then compressible 0 2
    else if v == 15 || v == 18 || v == 21 || v == 36
    then compressible 2 1
    else if v == 26
    then compressible 2 2
    else if v == 33
    then compressible 6 1
    else if v == 47
    then compressible 0 1
    else opaque
