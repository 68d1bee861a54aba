-- ===== src/Wire/Builder/Steps.antt =====
-- Each part of a question or a record extends what was written, and leaves the header alone.
use hick.Prelude.{
  ℕ, zero, suc, ◌/◌, ◌%◌, ◌≡◌, refl, ◌∙◌, arith, List, [], ◌∷◌, map, Option, none, some, ltb,
  length, take, slice?, length-slice?, saturating_add, saturating_sub, Bool-cases, inl, inr,
  to_ascii_lowercase,
}
use hick.Wire.Error.{max_label_bytes, max_name_bytes}
use hick.Wire.ResourceType
use hick.Wire.ResourceType.{ResourceType}
use hick.Owner.{Name, is_empty, trim, split}
use hick.Wire.Builder.{
  hash_suffix, MessageBuilder, Build, ◌>>◌, to_u16, write_byte, write_u16, write_u32, write_each,
}
use hick.Wire.Builder.Name.{
  find_suffix, remember, enter, write_prefix, write_target, write_labels, write_name,
}
use hick.Wire.Builder.Push.{
  write_head, place_rdlen, patch, close_rdata, write_rdata, with_rdlen, write_segments, write_txt,
  write_srv, write_address, write_bitmap,
}
use hick.Wire.Builder.Extends.{
  Extends, Extends-trans, Keeps, bind-Keeps, then-Keeps, if-Keeps, after-Extends_from, pure-Keeps,
  fail-Keeps, to_u16-Keeps, take-overwrite, length-overwrite, write_byte-Keeps, write_u16-Keeps,
  write_u32-Keeps, write_each-Keeps, insert-Extends,
}

remember-Keeps : (hash offset : ℕ) → Keeps (remember hash offset)
unfolding remember
remember-Keeps hash offset b fits = insert-Extends b hash offset fits

enter-Keeps : (hash : ℕ) → Keeps (enter hash)
unfolding enter
enter-Keeps hash b =
    bind-Keeps (to_u16 b.cursor) (remember hash) (to_u16-Keeps b.cursor) (remember-Keeps hash) b

write_prefix-Keeps : (n : ℕ) (labels : List (List ℕ)) → Keeps (write_prefix n labels)
unfolding write_prefix
write_prefix-Keeps zero labels = pure-Keeps tt
write_prefix-Keeps (suc n) [] = pure-Keeps tt
write_prefix-Keeps (suc n) (l ∷ ls) =
    let rest =
      then-Keeps (write_byte (length l % 256))
        (write_each (map to_ascii_lowercase l) >> write_prefix n ls)
        (write_byte-Keeps (length l % 256))
        (then-Keeps (write_each (map to_ascii_lowercase l)) (write_prefix n ls)
          (write_each-Keeps (map to_ascii_lowercase l)) (write_prefix-Keeps n ls)) in
    if-Keeps (ltb max_label_bytes (length l)) _ _ (fail-Keeps (length l) (λ b. length b.out)) (
      then-Keeps (enter (hash_suffix (l ∷ ls)))
        (write_byte (length l % 256)
          >> (write_each (map to_ascii_lowercase l) >> write_prefix n ls))
        (enter-Keeps (hash_suffix (l ∷ ls))) rest)

write_target-Keeps : (target : Option ℕ) → Keeps (write_target target)
unfolding write_target
write_target-Keeps none = write_byte-Keeps 0
write_target-Keeps (some off) =
    then-Keeps (write_byte _) (write_byte _) (write_byte-Keeps _) (write_byte-Keeps _)

write_labels-Keeps : (labels : List (List ℕ)) → Keeps (write_labels labels)
unfolding write_labels
write_labels-Keeps labels b =
    let (n, target) = find_suffix b.compression labels in
    then-Keeps (write_prefix n labels) (write_target target) (write_prefix-Keeps n labels)
      (write_target-Keeps target) b

pub write_name-Keeps : (name : Name) → Keeps (write_name name)
unfolding write_name
write_name-Keeps name = if-Keeps (is_empty name.text) _ _ (write_byte-Keeps 0) (
    if-Keeps (ltb 128 (length (split (trim name.text)))) _ _
      (fail-Keeps max_name_bytes (λ b. length b.out)) (write_labels-Keeps (split (trim name.text))))

pub write_head-Keeps :
    (name : Name) (rtype : ResourceType) (class ttl : ℕ) → Keeps (write_head name rtype class ttl)
unfolding write_head
write_head-Keeps name rtype class ttl = then-Keeps (write_name name) _ (write_name-Keeps name) (
    then-Keeps (write_u16 (ResourceType.to_u16 rtype)) _
      (write_u16-Keeps (ResourceType.to_u16 rtype))
      (then-Keeps (write_u16 class) (write_u32 ttl) (write_u16-Keeps class) (write_u32-Keeps ttl)))

-- The length is written into the two bytes in front of the rdata, behind the cursor that was.
patch-Extends :
    (a b : MessageBuilder) (o : Option (List ℕ)) (rdlen : ℕ)
    → Extends a b
    → slice? b.out a.cursor (saturating_add a.cursor 2) ≡ o
    → Extends a (place_rdlen o a.cursor rdlen b).0
patch-Extends a b none rdlen e h = e
patch-Extends a b (some x) rdlen e h =
    let bytes = rdlen / 256 ∷ rdlen % 256 ∷ [] in
    let (_, room, _) = length-slice? b.out a.cursor (saturating_add a.cursor 2) h in
    let size = length-overwrite b.out a.cursor bytes (omega (arith, e.fits.slice)) in
    let inside = e.grows in
    record {
      size = size ∙ e.size;
      grows = e.grows;
      header = e.header;
      fits = record {
        slice = omega (arith, size, e.fits.slice);
        cursor = omega (arith, size, e.fits.cursor);
        used = e.fits.used;
        table = e.fits.table;
      };
      written = λ n h'.
          take-overwrite b.out a.cursor n bytes h' (omega (arith, e.fits.cursor)) ∙ e.written n h';
      entries = e.entries;
      more_used = e.more_used;
      known = e.known;
    }

close_rdata-Extends :
    (a b : MessageBuilder) (rdata_start : ℕ)
    → Extends a b
    → Extends a (close_rdata a.cursor rdata_start b).0
unfolding close_rdata patch
close_rdata-Extends a b rdata_start e =
    let n = saturating_sub b.cursor rdata_start in
    elim (Bool-cases (ltb n 0x10000)) [
      | inl p ↦ rw (close_rdata, p) (patch-Extends a b _ n e refl)
      | inr p ↦ rw (close_rdata, p) e
    ]

pub with_rdlen-Keeps : (body : Build (Unit {0})) → Keeps body → Keeps (with_rdlen body)
unfolding with_rdlen write_rdata
with_rdlen-Keeps body k a fits =
    after-Extends_from a (write_u16 0 a) (λ _. write_rdata a.cursor body) (write_u16-Keeps 0 a fits)
      λ _ b e.
        after-Extends_from a (body b) (λ _. close_rdata a.cursor b.cursor)
          (Extends-trans a b (body b).0 e (k b e.fits))
          λ _ c e'. close_rdata-Extends a c b.cursor e'

write_segments-Keeps : (segments : List (List ℕ)) → Keeps (write_segments segments)
unfolding write_segments
write_segments-Keeps [] = pure-Keeps tt
write_segments-Keeps (s ∷ segments) =
    if-Keeps (ltb 255 (length s)) _ _ (fail-Keeps (length s) (λ b. 255)) (
      then-Keeps (write_byte (length s)) (write_each s >> write_segments segments)
        (write_byte-Keeps (length s))
        (then-Keeps (write_each s) (write_segments segments) (write_each-Keeps s)
          (write_segments-Keeps segments)))

pub write_txt-Keeps : (segments : List (List ℕ)) → Keeps (write_txt segments)
unfolding write_txt
write_txt-Keeps [] = write_byte-Keeps 0
write_txt-Keeps (s ∷ segments) = write_segments-Keeps (s ∷ segments)

pub write_srv-Keeps :
    (priority weight port : ℕ) (target : Name) → Keeps (write_srv priority weight port target)
unfolding write_srv
write_srv-Keeps priority weight port target =
    then-Keeps (write_u16 priority) (write_u16 weight >> (write_u16 port >> write_name target))
      (write_u16-Keeps priority)
      (then-Keeps (write_u16 weight) (write_u16 port >> write_name target) (write_u16-Keeps weight)
        (then-Keeps (write_u16 port) (write_name target) (write_u16-Keeps port)
          (write_name-Keeps target)))

pub write_address-Keeps : (n : ℕ) (octets : List ℕ) → Keeps (write_address n octets)
unfolding write_address
write_address-Keeps n octets =
    then-Keeps (write_u16 n) (write_each octets) (write_u16-Keeps n) (write_each-Keeps octets)

pub write_bitmap-Keeps : (state : List ℕ × Option ℕ) → Keeps (write_bitmap state)
unfolding write_bitmap
write_bitmap-Keeps (bitmap, none) = pure-Keeps tt
write_bitmap-Keeps (bitmap, some m) =
    let octets = take (saturating_add m 1) bitmap in
    then-Keeps (write_byte 0) (write_byte (saturating_add m 1 % 256) >> write_each octets)
      (write_byte-Keeps 0)
      (then-Keeps (write_byte (saturating_add m 1 % 256)) (write_each octets)
        (write_byte-Keeps (saturating_add m 1 % 256)) (write_each-Keeps octets))
