-- ===== src/Wire/Builder.antt =====
-- mdns-proto/src/wire/builder.rs: the compression table, the builder of a message, its checkpoints,
-- and the bytes that everything is written with.
pub mod Name
pub mod Push
pub mod Extends
pub mod Steps
pub mod Counted
pub mod Rollback
pub mod Finish
mod Tests
use Prim.Native.Nat.{bit_xor}
use hick.Prelude.{
  ℕ, zero, suc, ◌+◌, ◌*◌, ◌/◌, ◌%◌, ◌^◌, List, [], ◌∷◌, ◌++◌, Option, none, some, Result, ok, err,
  stuck, ltb, ◌==◌, if◌then◌else◌, length, take, drop, get_elem?, slice?, saturating_add,
  saturating_sub, to_ascii_lowercase,
}
use hick.Wire.Error.{EncodeError, buffer_too_small}
use hick.Wire.Header
use hick.Wire.Header.{Header, header_size}

-- The entries are as many as `COMP_N`.
pub record CompressionTable : Type 0 where
  pub entries : List (ℕ × ℕ)
  pub used : ℕ

-- `[(0, 0); n]`
abbrev pub zeros : ℕ → List (ℕ × ℕ)
zeros zero = []
zeros (suc n) = (0, 0) ∷ zeros n

abbrev pub new_table : ℕ → CompressionTable
new_table comp_n = record { entries = zeros comp_n; used = 0 }

-- The loop of `lookup`, over the first `used` entries.
unfoldable pub lookup_loop : ℕ → List (ℕ × ℕ) → ℕ → Option ℕ
lookup_loop zero es hash = none
lookup_loop (suc used) [] hash = none
lookup_loop (suc used) (e ∷ es) hash =
    let rest = lookup_loop used es hash in if e.0 == hash then some e.1 else rest

unfoldable pub lookup : CompressionTable → ℕ → Option ℕ
unfolding lookup_loop
lookup t hash = lookup_loop t.used t.entries hash

-- `*slot = value` at an index, where there is one.
abbrev pub set_at : {A : Type 0} → List A → ℕ → A → List A
set_at [] i value = []
set_at (x ∷ xs) zero value = value ∷ xs
set_at (x ∷ xs) (suc i) value = x ∷ set_at xs i value

unfoldable pub insert : CompressionTable → ℕ → ℕ → CompressionTable
insert t hash offset =
    if ltb t.used (length t.entries)
    then record { entries = set_at t.entries t.used (hash, offset); used = saturating_add t.used 1 }
    else t

-- One step of FNV-1a, on 64 bits.
abbrev pub fnv_step : ℕ → ℕ → ℕ
fnv_step h b = bit_xor h b * 0x100000001b3 % 2 ^ 64

abbrev pub hash_label : ℕ → List ℕ → ℕ
hash_label h [] = fnv_step h b'.'
hash_label h (b ∷ bs) = hash_label (fnv_step h (to_ascii_lowercase b)) bs

abbrev pub hash_labels : ℕ → List (List ℕ) → ℕ
hash_labels h [] = h
hash_labels h (l ∷ ls) = hash_labels (hash_label h l) ls

unfoldable pub hash_suffix : List (List ℕ) → ℕ
hash_suffix labels = hash_labels 0xcbf29ce484222325 labels

pub record MessageBuilder : Type 0 where
  pub out : List ℕ
  pub cursor : ℕ
  pub header : Header
  pub compression : CompressionTable

pub record BuilderCheckpoint : Type 0 where
  pub cursor : ℕ
  pub header : Header
  pub compression_used : ℕ

unfoldable pub try_new : ℕ → List ℕ → Header → Result EncodeError MessageBuilder
try_new comp_n out header =
    if ltb (length out) header_size
    then err (buffer_too_small header_size (length out))
    else ok (record {
      out = out;
      cursor = header_size;
      header = header;
      compression = new_table comp_n;
    })

unfoldable pub checkpoint : MessageBuilder → BuilderCheckpoint
checkpoint b = record {
  cursor = b.cursor;
  header = b.header;
  compression_used = b.compression.used;
}

unfoldable pub restore : MessageBuilder → BuilderCheckpoint → MessageBuilder
restore b cp = record b {
  cursor = cp.cursor;
  header = cp.header;
  compression = record { entries = b.compression.entries; used = cp.compression_used };
}

-- Code with `&mut self` that may fail: what was written before an error stays written.
abbrev pub Build : Type 0 → Type 0
Build A = MessageBuilder → MessageBuilder × Result EncodeError A

abbrev pub after :
    {A B : Type 0}
    → MessageBuilder × Result EncodeError A
    → (A → Build B)
    → MessageBuilder × Result EncodeError B
after (b, ok a) f = f a b
after (b, err e) f = (b, err e)
after (b, stuck) f = (b, stuck)

infixl 5 ◌>>=◌ ◌>>◌
abbrev pub ◌>>=◌ : {A B : Type 0} → Build A → (A → Build B) → Build B
◌>>=◌ m f b = after (m b) f

abbrev pub ◌>>◌ : {B : Type 0} → Build (Unit {0}) → Build B → Build B
m >> k = m >>= λ _. k

abbrev pub pure : {A : Type 0} → A → Build A
pure a b = (b, ok a)

abbrev pub fail : {A : Type 0} → ℕ → ℕ → Build A
fail needed have b = (b, err (buffer_too_small needed have))

-- `u16::try_from(n)?`
abbrev pub to_u16 : ℕ → Build ℕ
to_u16 n b = (b, if ltb n 0x10000 then ok n else err EncodeError.integer_conversion)

-- `dest.copy_from_slice(&bytes)` at an offset.
abbrev pub overwrite : List ℕ → ℕ → List ℕ → List ℕ
overwrite out at bytes = take at out ++ (bytes ++ drop (at + length bytes) out)

unfoldable pub write_byte : ℕ → Build (Unit {0})
write_byte v b = elim (get_elem? b.out b.cursor) [
  | none ↦ (b, err (buffer_too_small 1 0))
  | some _ ↦ (
    record b { out = overwrite b.out b.cursor (v ∷ []); cursor = saturating_add b.cursor 1 },
    ok tt,
  )
]

-- The copy behind the cursor, where `out.get_mut(cursor..cursor + n)` is there.
abbrev pub place : Option (List ℕ) → List ℕ → Build (Unit {0})
place none bytes b = (b, err (buffer_too_small (length bytes) 0))
place (some _) bytes b = (
  record b {
    out = overwrite b.out b.cursor bytes;
    cursor = saturating_add b.cursor (length bytes);
  },
  ok tt,
)

abbrev pub write_bytes : List ℕ → Build (Unit {0})
write_bytes bytes b = place (slice? b.out b.cursor (saturating_add b.cursor (length bytes))) bytes b

unfoldable pub write_u16 : ℕ → Build (Unit {0})
write_u16 v = write_bytes (v / 256 ∷ v % 256 ∷ [])

unfoldable pub write_u32 : ℕ → Build (Unit {0})
write_u32 v = write_bytes (v / 16777216 ∷ v / 65536 % 256 ∷ v / 256 % 256 ∷ v % 256 ∷ [])

-- `for &b in bytes { self.write_byte(b)?; }`
unfoldable pub write_each : List ℕ → Build (Unit {0})
unfolding write_byte
write_each [] = pure tt
write_each (v ∷ vs) = write_byte v >> write_each vs

-- What `finish` does with the head of the buffer, written over.
abbrev pub finished : List ℕ × Result EncodeError ℕ → Build ℕ
finished (head, ok _) b = (record b { out = overwrite b.out 0 head }, ok b.cursor)
finished (head, err e) b = (record b { out = overwrite b.out 0 head }, err e)
finished (head, stuck) b = (record b { out = overwrite b.out 0 head }, stuck)

abbrev pub write_header : Option (List ℕ) → Build ℕ
write_header none b = (b, err (buffer_too_small header_size 0))
write_header (some head) b = finished (Header.write b.header head) b

unfoldable pub finish : Build ℕ
finish b = write_header (slice? b.out 0 header_size) b
