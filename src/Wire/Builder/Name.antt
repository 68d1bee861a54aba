-- ===== src/Wire/Builder/Name.antt =====
-- `write_name` of mdns-proto/src/wire/builder.rs.
use Prim.Native.Nat.{bit_or}
use hick.Prelude.{
  ℕ, zero, suc, ◌/◌, ◌%◌, List, [], ◌∷◌, map, Option, none, some, ok, ltb, if◌then◌else◌, length,
  to_ascii_lowercase,
}
use hick.Wire.Error.{max_label_bytes, max_name_bytes}
use hick.Owner.{Name, is_empty, trim, split}
use hick.Wire.Builder.{
  CompressionTable, lookup, insert, hash_suffix, Build, ◌>>=◌, ◌>>◌, pure, fail, to_u16, write_byte,
  write_each,
}

-- The first loop that looks up the suffixes: how many labels are left in front of one that is
-- known, and where that one is.
unfoldable pub find_suffix : CompressionTable → List (List ℕ) → ℕ × Option ℕ
find_suffix t [] = (0, none)
find_suffix t (l ∷ ls) =
    let rest = find_suffix t ls in
    elim (lookup t (hash_suffix (l ∷ ls))) [
      | some off ↦ (0, some off)
      | none ↦ (suc rest.0, rest.1)
    ]

-- `self.compression.insert(h, offset)`
unfoldable pub remember : ℕ → ℕ → Build (Unit {0})
unfolding insert
remember hash offset b = (record b { compression = insert b.compression hash offset }, ok tt)

-- `u16::try_from(self.cursor)`, and the entry for a suffix that begins there.
unfoldable pub enter : ℕ → Build (Unit {0})
unfolding remember
enter hash b = (to_u16 b.cursor >>= remember hash) b

-- The loop over the labels in front of the suffix.
unfoldable pub write_prefix : ℕ → List (List ℕ) → Build (Unit {0})
write_prefix zero labels = pure tt
write_prefix (suc n) [] = pure tt
write_prefix (suc n) (l ∷ ls) =
    if ltb max_label_bytes (length l) then (λ b. fail (length l) (length b.out) b) else (do
      enter (hash_suffix (l ∷ ls))
      write_byte (length l % 256)
      write_each (map to_ascii_lowercase l)
      write_prefix n ls)

-- The match on `pointer_target`.
unfoldable pub write_target : Option ℕ → Build (Unit {0})
write_target none = write_byte 0
write_target (some off) = do write_byte (bit_or (off / 256 % 256) 0xc0); write_byte (off % 256)

unfoldable pub write_labels : List (List ℕ) → Build (Unit {0})
unfolding find_suffix write_prefix write_target
write_labels labels b =
    let (suffix_start, pointer_target) = find_suffix b.compression labels in
    (write_prefix suffix_start labels >> write_target pointer_target) b

unfoldable pub write_name : Name → Build (Unit {0})
unfolding write_labels
write_name name =
    if is_empty name.text
    then write_byte 0
    else if ltb 128 (length (split (trim name.text)))
    then (λ b. fail max_name_bytes (length b.out) b)
    else write_labels (split (trim name.text))
