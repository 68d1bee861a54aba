-- ===== src/Wire/Rdata/Canonical.antt =====
-- mdns-proto/src/wire/record/mod.rs: `write_canonical_rdata`, the one structural decode of rdata,
-- with the two knobs of `RdataForm`.
pub mod Agreement
use hick.Prelude.{
  ℕ, zero, suc, ◌+◌, ◌/◌, ◌%◌, ◌^◌, Bool, true, false, not, ◌&&◌, List, [], ◌∷◌, ◌++◌, Option, none,
  some, ok, err, stuck, ltb, if◌then◌else◌, length, slice?, saturating_add,
}
use hick.Wire.Error.{Parsed, unsupported_name_bearing_type}
use hick.Wire.Name
use hick.Wire.Name.Write.{write_wire}
use hick.Wire.ResourceType
use hick.Wire.ResourceType.{RdataNames, opaque, compressible}
use hick.Wire.Record.{Ref, rdata}
use hick.Wire.Rdata.Segments.{next_segment}
use hick.Wire.Rdata.{Rdata, rdata_view}
use hick.Wire.Writer.{Writer, ◌>>=◌, ◌>>◌, pure, throw, lift, put}

pub record RdataForm : Type 0 where
  pub fold_case : Bool
  pub normalise_empty_txt : Bool

abbrev pub as_sent : RdataForm
as_sent = record { fold_case = false; normalise_empty_txt = false }

abbrev pub preserving_case : RdataForm
preserving_case = record { fold_case = false; normalise_empty_txt = true }

abbrev pub folded_form : RdataForm
folded_form = record { fold_case = true; normalise_empty_txt = true }

-- `message.get(a..b).unwrap_or(&[])`
abbrev pub slice_or_empty : List ℕ → ℕ → ℕ → List ℕ
slice_or_empty message a b = elim (slice? message a b) [ some bytes ↦ bytes | none ↦ [] ]

-- `for _ in 0..names`, which returns the cursor behind the names.
unfoldable pub write_names : Ref → ℕ → Bool → ℕ → ℕ → Writer ℕ
write_names r rdata_end fold_case zero cursor = pure cursor
write_names r rdata_end fold_case (suc names) cursor =
    lift (Name.try_parse r.message cursor) >>= λ parsed.
    write_wire parsed.0 fold_case
    >> (if ltb rdata_end (saturating_add cursor parsed.1)
        then throw (unsupported_name_bearing_type (ResourceType.to_u16 r.rtype))
        else write_names r rdata_end fold_case names (saturating_add cursor parsed.1))

unfoldable pub write_decompressed_rdata : Ref → ℕ → ℕ → Bool → Writer (Unit {0})
unfolding write_names
write_decompressed_rdata r lead names fold_case =
    let rdata_end = saturating_add r.rdata_start r.rdata_len in
    let start = saturating_add r.rdata_start lead in
    if ltb rdata_end start
    then throw (unsupported_name_bearing_type (ResourceType.to_u16 r.rtype))
    else do
      put (slice_or_empty r.message r.rdata_start start)
      cursor ← write_names r rdata_end fold_case names start
      put (slice_or_empty r.message cursor rdata_end)

-- The body of `for seg in t.segments()` for what the iterator answered.
unfoldable pub write_segment : Option (Parsed (List ℕ)) → Bool → Writer Bool → Writer Bool
write_segment none wrote_any continue = pure wrote_any
write_segment (some seg) wrote_any continue =
    lift seg >>= λ bytes. put (length bytes ∷ bytes) >> continue

-- The loop, which returns `wrote_any`. Each round takes a byte at least.
unfoldable pub write_segments : ℕ → List ℕ → Bool → Writer Bool
unfolding write_segment
write_segments zero rest wrote_any = λ out. (out, stuck)
write_segments (suc fuel) rest wrote_any =
    let (rest', item) = next_segment rest in
    write_segment item wrote_any (write_segments fuel rest' true)

-- `v.to_be_bytes()` of a 16-bit number.
abbrev pub be_bytes : ℕ → List ℕ
be_bytes v = v / 256 ∷ v % 256 ∷ []

-- The arms of `write_canonical_rdata`.
unfoldable pub write_view : Ref → RdataForm → Rdata → Writer (Unit {0})
unfolding write_segments write_decompressed_rdata
write_view r form (Rdata.ptr p) = write_wire p.target form.fold_case
write_view r form (Rdata.cname c) = write_wire c.target form.fold_case
write_view r form (Rdata.srv s) = do
  put (be_bytes s.priority)
  put (be_bytes s.weight)
  put (be_bytes s.port)
  write_wire s.target form.fold_case
write_view r form (Rdata.nsec n) = do write_wire n.next_name form.fold_case; put n.type_bitmap
write_view r form (Rdata.other bytes) = elim (ResourceType.rdata_names r.rtype) [
  | opaque ↦ put bytes
  | compressible lead names ↦ write_decompressed_rdata r lead names form.fold_case
]
write_view r form (Rdata.txt t) = do
  wrote_any ← write_segments (suc (length t.rdata)) t.rdata false
  if not wrote_any && form.normalise_empty_txt then put (0 ∷ []) else pure tt
write_view r form _ = put (rdata r)

unfoldable pub write_canonical_rdata : Ref → RdataForm → Writer (Unit {0})
write_canonical_rdata r form = lift (rdata_view r) >>= write_view r form

-- `canonical_rdata_inner`: a fresh buffer, dropped where the decode fails.
unfoldable pub canonical_rdata_inner : Ref → RdataForm → Parsed (List ℕ)
canonical_rdata_inner r form =
    let (out, result) = write_canonical_rdata r form [] in
    elim result [ ok _ ↦ ok out | err e ↦ err e | stuck ↦ stuck ]

unfoldable pub canonical_rdata : Ref → Parsed (List ℕ)
canonical_rdata r = canonical_rdata_inner r preserving_case

unfoldable pub canonical_rdata_folded : Ref → Parsed (List ℕ)
canonical_rdata_folded r = canonical_rdata_inner r folded_form
