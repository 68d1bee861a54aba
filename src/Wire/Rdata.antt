-- ===== src/Wire/Rdata.antt =====
-- mdns-proto/src/wire/record/{a,aaaa,ptr,cname,srv,txt,nsec}.rs and `Ref::rdata_view` of mod.rs:
-- what a record's rdata says, by its type. An address is the list of its bytes.
pub mod Segments
pub mod InMessage
pub mod Canonical
pub mod Strings
pub mod Ends
use hick.Prelude.{
  ℕ, ◌+◌, List, [], ◌∷◌, Option, none, some, ok, err, ◌>>=◌, ltb, ◌==◌, if◌then◌else◌, length, take,
  slice?, be16, saturating_add, saturating_sub,
}
use hick.Wire.Error.{Parsed, buffer_too_short}
use hick.Wire.Name
use hick.Wire.Name.{NameRef}
use hick.Wire.ResourceType
use hick.Wire.ResourceType.{ResourceType}
use hick.Wire.Record.{Ref, rdata}

pub record A : Type 0 where
  pub addr : List ℕ

pub record Aaaa : Type 0 where
  pub addr : List ℕ

pub record Ptr : Type 0 where
  pub target : NameRef

pub record Cname : Type 0 where
  pub target : NameRef

pub record Srv : Type 0 where
  pub priority : ℕ
  pub weight : ℕ
  pub port : ℕ
  pub target : NameRef

pub record Txt : Type 0 where
  pub rdata : List ℕ

pub record Nsec : Type 0 where
  pub next_name : NameRef
  pub type_bitmap : List ℕ

pub data Rdata : Type 0 where
  a : A → Rdata
  aaaa : Aaaa → Rdata
  ptr : Ptr → Rdata
  cname : Cname → Rdata
  srv : Srv → Rdata
  txt : Txt → Rdata
  nsec : Nsec → Rdata
  other : List ℕ → Rdata

-- `A::try_from_rdata`; `first_chunk` cannot fail behind the test of the length.
unfoldable pub a_try_from_rdata : List ℕ → Parsed A
a_try_from_rdata bytes =
    if length bytes == 4
    then ok (record { addr = take 4 bytes })
    else err (buffer_too_short 4 0 (length bytes))

-- `AAAA::try_from_rdata`
unfoldable pub aaaa_try_from_rdata : List ℕ → Parsed Aaaa
aaaa_try_from_rdata bytes =
    if length bytes == 16
    then ok (record { addr = take 16 bytes })
    else err (buffer_too_short 16 0 (length bytes))

-- A name that must take up the rdata exactly, as in `Ptr` and `Cname`.
unfoldable pub ptr_try_from_message : List ℕ → ℕ → ℕ → Parsed Ptr
ptr_try_from_message message rdata_offset rdata_len = do
  (target, consumed) ← Name.try_parse message rdata_offset
  if consumed == rdata_len
      then ok (record { target = target })
      else err (buffer_too_short consumed rdata_offset rdata_len)

unfoldable pub cname_try_from_message : List ℕ → ℕ → ℕ → Parsed Cname
cname_try_from_message message rdata_offset rdata_len = do
  (target, consumed) ← Name.try_parse message rdata_offset
  if consumed == rdata_len
      then ok (record { target = target })
      else err (buffer_too_short consumed rdata_offset rdata_len)

-- `message.get(at..at + 6).and_then(|s| s.first_chunk::<6>())`: priority, weight and port.
unfoldable pub srv_head : List ℕ → ℕ → Parsed (ℕ × ℕ × ℕ)
srv_head message at = elim (slice? message at (saturating_add at 6)) [
  | some (p ∷ p' ∷ w ∷ w' ∷ t ∷ t' ∷ _) ↦ ok (be16 p p', be16 w w', be16 t t')
  | _ ↦ err (buffer_too_short 6 at (saturating_sub (length message) at))
]

unfoldable pub srv_try_from_message : List ℕ → ℕ → ℕ → Parsed Srv
unfolding srv_head
srv_try_from_message message rdata_offset rdata_len =
    if ltb rdata_len 6 then err (buffer_too_short 6 rdata_offset rdata_len) else do
      (priority, weight, port) ← srv_head message rdata_offset
      (target, consumed) ← Name.try_parse message (saturating_add rdata_offset 6)
      if saturating_add consumed 6 == rdata_len
          then ok (record { priority = priority; weight = weight; port = port; target = target })
          else err (buffer_too_short (saturating_add consumed 6) rdata_offset rdata_len)

unfoldable pub nsec_try_from_message : List ℕ → ℕ → ℕ → Parsed Nsec
nsec_try_from_message message rdata_offset rdata_len = do
  (next_name, name_bytes) ← Name.try_parse message rdata_offset
  let bitmap_start = saturating_add rdata_offset name_bytes
  let rdata_end = saturating_add rdata_offset rdata_len
  if ltb rdata_end bitmap_start
      then err (buffer_too_short (saturating_sub bitmap_start rdata_end) rdata_end 0)
      else elim (slice? message bitmap_start rdata_end) [
        | some bitmap ↦ ok (record { next_name = next_name; type_bitmap = bitmap })
        | none ↦ err (
            buffer_too_short (saturating_sub rdata_end bitmap_start) bitmap_start
              (saturating_sub (length message) bitmap_start))
      ]

-- `Ref::rdata_view`
unfoldable pub view_as : ResourceType → Ref → Parsed Rdata
view_as ResourceType.a r = do v ← a_try_from_rdata (rdata r); ok (a v)
view_as ResourceType.aaaa r = do v ← aaaa_try_from_rdata (rdata r); ok (aaaa v)
view_as ResourceType.ptr r = do
  v ← ptr_try_from_message r.message r.rdata_start r.rdata_len
  ok (ptr v)
view_as ResourceType.cname r = do
  v ← cname_try_from_message r.message r.rdata_start r.rdata_len
  ok (cname v)
view_as ResourceType.srv r = do
  v ← srv_try_from_message r.message r.rdata_start r.rdata_len
  ok (srv v)
view_as ResourceType.txt r = ok (txt (record { rdata = rdata r }))
view_as ResourceType.nsec r = do
  v ← nsec_try_from_message r.message r.rdata_start r.rdata_len
  ok (nsec v)
view_as _ r = ok (other (rdata r))

unfoldable pub rdata_view : Ref → Parsed Rdata
unfolding view_as
rdata_view r = view_as r.rtype r
