-- ===== src/Wire/Builder/Push.antt =====
-- The records and questions that are pushed: mdns-proto/src/wire/builder.rs. The octets of an address
-- are a list.
use Prim.Native.Nat.{bit_or, max}
use hick.Prelude.{
  ℕ, zero, suc, ◌+◌, ◌/◌, ◌%◌, ◌^◌, min, Bool, List, [], ◌∷◌, Option, none, some, ok, err, ltb, leb,
  if◌then◌else◌, length, take, get_elem?, slice?, saturating_add, saturating_sub,
}
use hick.Wire.Error.{buffer_too_small}
use hick.Wire.ResourceType
use hick.Wire.ResourceType.{ResourceType}
use hick.Wire.ResourceClass
use hick.Wire.ResourceClass.{ResourceClass, top_bit}
use hick.Wire.Header.{Header}
use hick.Owner.{Name}
use hick.Wire.Builder.{
  Build, ◌>>=◌, ◌>>◌, pure, fail, to_u16, overwrite, set_at, write_byte, write_u16, write_u32,
  write_each,
}
use hick.Wire.Builder.Name.{write_name}

-- `class | if flag { TOP_BIT } else { 0 }`
abbrev pub class_raw : ℕ → Bool → ℕ
class_raw class flag = bit_or class (if flag then top_bit else 0)

pub data Section : Type 0 where
  questions answers authorities additionals : Section

-- `header.set_x_count(header.x_count().saturating_add(1))` on 16 bits.
abbrev pub add_one : Section → Header → Header
add_one questions h = record h { question_count = min (h.question_count + 1) 65535 }
add_one answers h = record h { answer_count = min (h.answer_count + 1) 65535 }
add_one authorities h = record h { authority_count = min (h.authority_count + 1) 65535 }
add_one additionals h = record h { additional_count = min (h.additional_count + 1) 65535 }

abbrev pub count : Section → Build (Unit {0})
count more b = (record b { header = add_one more b.header }, ok tt)

-- What every record begins with.
unfoldable pub write_head : Name → ResourceType → ℕ → ℕ → Build (Unit {0})
write_head name rtype class ttl = do
  write_name name
  write_u16 (ResourceType.to_u16 rtype)
  write_u16 class
  write_u32 ttl

-- `slot.copy_from_slice(&rdlen.to_be_bytes())` in the two bytes at `len_offset`, where they are there.
abbrev pub place_rdlen : Option (List ℕ) → ℕ → ℕ → Build (Unit {0})
place_rdlen none len_offset rdlen b = (b, err (buffer_too_small 2 0))
place_rdlen (some _) len_offset rdlen b =
    (record b { out = overwrite b.out len_offset (rdlen / 256 ∷ rdlen % 256 ∷ []) }, ok tt)

unfoldable pub patch : ℕ → ℕ → Build (Unit {0})
patch len_offset rdlen b =
    place_rdlen (slice? b.out len_offset (saturating_add len_offset 2)) len_offset rdlen b

-- What follows the rdata: `let rdata_end = self.cursor;` and so on.
unfoldable pub close_rdata : (len_offset rdata_start : ℕ) → Build (Unit {0})
unfolding patch
close_rdata len_offset rdata_start b =
    (to_u16 (saturating_sub b.cursor rdata_start) >>= patch len_offset) b

-- `let rdata_start = self.cursor;` and the rdata.
unfoldable pub write_rdata : (len_offset : ℕ) → Build (Unit {0}) → Build (Unit {0})
unfolding close_rdata
write_rdata len_offset body b = (body >> close_rdata len_offset b.cursor) b

-- Rdata behind a length that is written when the rdata is there: `let len_offset = self.cursor;`.
unfoldable pub with_rdlen : Build (Unit {0}) → Build (Unit {0})
unfolding write_rdata
with_rdlen body b = (write_u16 0 >> write_rdata b.cursor body) b

-- The loop over the segments of a TXT record.
unfoldable pub write_segments : List (List ℕ) → Build (Unit {0})
write_segments [] = pure tt
write_segments (s ∷ segments) =
    if ltb 255 (length s)
    then fail (length s) 255
    else (write_byte (length s) >> (write_each s >> write_segments segments))

unfoldable pub write_txt : List (List ℕ) → Build (Unit {0})
unfolding write_segments
write_txt [] = write_byte 0
write_txt (s ∷ segments) = write_segments (s ∷ segments)

unfoldable pub write_srv : ℕ → ℕ → ℕ → Name → Build (Unit {0})
write_srv priority weight port target = do
  write_u16 priority
  write_u16 weight
  write_u16 port
  write_name target

-- The address of `n` octets.
unfoldable pub write_address : ℕ → List ℕ → Build (Unit {0})
write_address n octets = write_u16 n >> write_each octets

-- One type of the loop of `push_nsec_additional`, on the bitmap and `max_byte`.
unfoldable pub mark : List ℕ × Option ℕ → ℕ → List ℕ × Option ℕ
mark (bitmap, max_byte) t =
    if leb 256 t then (bitmap, max_byte) else elim (get_elem? bitmap (t / 8)) [
      | none ↦ (bitmap, max_byte)
      | some old ↦ (
        set_at bitmap (t / 8) (bit_or old (128 / 2 ^ (t % 8))),
        elim max_byte [ none ↦ some (t / 8) | some m ↦ some (max m (t / 8)) ],
      )
    ]

unfoldable pub mark_all : List ℕ × Option ℕ → List ℕ → List ℕ × Option ℕ
unfolding mark
mark_all state [] = state
mark_all state (t ∷ types) = mark_all (mark state t) types

abbrev pub no_bits : ℕ → List ℕ
no_bits zero = []
no_bits (suc n) = 0 ∷ no_bits n

-- The bitmap up to the last octet that has a bit.
unfoldable pub write_bitmap : List ℕ × Option ℕ → Build (Unit {0})
write_bitmap (bitmap, none) = pure tt
write_bitmap (bitmap, some m) =
    write_byte 0
    >> (write_byte (saturating_add m 1 % 256) >> write_each (take (saturating_add m 1) bitmap))

unfoldable pub push_question : Name → ResourceType → ResourceClass → Bool → Build (Unit {0})
push_question name qtype qclass unicast_response = do
  write_name name
  write_u16 (ResourceType.to_u16 qtype)
  write_u16 (class_raw (ResourceClass.to_u16 qclass) unicast_response)
  count questions

abbrev pub class_in : ℕ
class_in = 1

unfoldable pub push_a_answer : Name → ℕ → List ℕ → Bool → Build (Unit {0})
push_a_answer name ttl addr cache_flush = do
  write_head name ResourceType.a (class_raw class_in cache_flush) ttl
  write_address 4 addr
  count answers

unfoldable pub push_aaaa_answer : Name → ℕ → List ℕ → Bool → Build (Unit {0})
push_aaaa_answer name ttl addr cache_flush = do
  write_head name ResourceType.aaaa (class_raw class_in cache_flush) ttl
  write_address 16 addr
  count answers

unfoldable pub push_srv_answer : Name → ℕ → ℕ → ℕ → ℕ → Name → Bool → Build (Unit {0})
push_srv_answer name ttl priority weight port target cache_flush = do
  write_head name ResourceType.srv (class_raw class_in cache_flush) ttl
  with_rdlen (write_srv priority weight port target)
  count answers

unfoldable pub push_txt_answer : Name → ℕ → List (List ℕ) → Bool → Build (Unit {0})
push_txt_answer name ttl segments cache_flush = do
  write_head name ResourceType.txt (class_raw class_in cache_flush) ttl
  with_rdlen (write_txt segments)
  count answers

unfoldable pub push_ptr_answer : Name → ℕ → Name → Build (Unit {0})
push_ptr_answer name ttl target = do
  write_head name ResourceType.ptr class_in ttl
  with_rdlen (write_name target)
  count answers

unfoldable pub push_a_authority : Name → ℕ → List ℕ → Build (Unit {0})
push_a_authority name ttl addr = do
  write_head name ResourceType.a class_in ttl
  write_address 4 addr
  count authorities

unfoldable pub push_aaaa_authority : Name → ℕ → List ℕ → Build (Unit {0})
push_aaaa_authority name ttl addr = do
  write_head name ResourceType.aaaa class_in ttl
  write_address 16 addr
  count authorities

unfoldable pub push_srv_authority : Name → ℕ → ℕ → ℕ → ℕ → Name → Build (Unit {0})
push_srv_authority name ttl priority weight port target = do
  write_head name ResourceType.srv class_in ttl
  with_rdlen (write_srv priority weight port target)
  count authorities

unfoldable pub push_txt_authority : Name → ℕ → List (List ℕ) → Build (Unit {0})
push_txt_authority name ttl segments = do
  write_head name ResourceType.txt class_in ttl
  with_rdlen (write_txt segments)
  count authorities

unfoldable pub push_ptr_authority : Name → ℕ → Name → Build (Unit {0})
push_ptr_authority name ttl target = do
  write_head name ResourceType.ptr class_in ttl
  with_rdlen (write_name target)
  count authorities

unfoldable pub push_nsec_additional : Name → ℕ → List ℕ → Bool → Build (Unit {0})
unfolding mark_all
push_nsec_additional name ttl present_types cache_flush = do
  write_head name ResourceType.nsec (class_raw class_in cache_flush) ttl
  with_rdlen (write_name name >> write_bitmap (mark_all (no_bits 32, none) present_types))
  count additionals
