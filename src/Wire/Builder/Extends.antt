-- ===== src/Wire/Builder/Extends.antt =====
-- What the writes of the builder leave alone, and the bounds that they keep.
use hick.Prelude.{
  ℕ, zero, suc, ◌+◌, ◌/◌, ◌%◌, ◌≤◌, ◌≡◌, refl, ap, ◌∙◌, arith, Bool, true, false, List, [], ◌∷◌,
  ◌++◌, Option, none, some, Result, ok, err, stuck, ltb, if◌then◌else◌, length, take, drop,
  get_elem?, get_elem?-lt, slice?, length-slice?, saturating_add, IsSlice, ltb→lt, Bool-cases,
  Option-cases, inl, inr, length-append, length-take, length-drop,
}
use hick.Wire.Error.{EncodeError}
use hick.Wire.Builder.{
  insert, set_at, MessageBuilder, Build, ◌>>=◌, ◌>>◌, pure, fail, after, to_u16, overwrite, place,
  write_byte, write_bytes, write_u16, write_u32, write_each,
}

-- The cursor is within the buffer, and no more entries are used than there are.
pub record Fits (b : MessageBuilder) : Type 0 where
  pub slice : IsSlice b.out
  pub cursor : b.cursor ≤ length b.out
  pub used : b.compression.used ≤ length b.compression.entries
  pub table : IsSlice b.compression.entries

-- What was written is still there, and so are the entries of the table and the header.
pub record Extends (b b' : MessageBuilder) : Type 0 where
  pub size : length b'.out ≡ length b.out
  pub grows : b.cursor ≤ b'.cursor
  pub header : b'.header ≡ b.header
  pub fits : Fits b'
  pub written : (n : ℕ) → n ≤ b.cursor → take n b'.out ≡ take n b.out
  pub entries : length b'.compression.entries ≡ length b.compression.entries
  pub more_used : b.compression.used ≤ b'.compression.used
  pub known :
      (n : ℕ)
      → n ≤ b.compression.used
      → take n b'.compression.entries ≡ take n b.compression.entries

pub Extends-itself : (b : MessageBuilder) → Fits b → Extends b b
Extends-itself b fits = record {
  size = refl;
  grows = omega arith;
  header = refl;
  fits = fits;
  written = λ n h. refl;
  entries = refl;
  more_used = omega arith;
  known = λ n h. refl;
}

pub Extends-trans : (a b c : MessageBuilder) → Extends a b → Extends b c → Extends a c
Extends-trans a b c p q = record {
  size = q.size ∙ p.size;
  grows = omega (arith, p.grows, q.grows);
  header = q.header ∙ p.header;
  fits = q.fits;
  written = λ n h. q.written n (omega (arith, p.grows)) ∙ p.written n h;
  entries = q.entries ∙ p.entries;
  more_used = omega (arith, p.more_used, q.more_used);
  known = λ n h. q.known n (omega (arith, p.more_used)) ∙ p.known n h;
}

-- A step that extends every builder, whether it fails or not.
abbrev pub Keeps : {A : Type 0} → Build A → Type 0
Keeps m = (b : MessageBuilder) → Fits b → Extends b (m b).0

after-Extends :
    {A B : Type 0} (a : MessageBuilder) (r : MessageBuilder × Result EncodeError A)
    (f : A → Build B)
    → Extends a r.0
    → ((x : A) → Keeps (f x))
    → Extends a (after r f).0
after-Extends a (b, ok x) f e k = Extends-trans a b (f x b).0 e (k x b e.fits)
after-Extends a (b, err x) f e k = e
after-Extends a (b, stuck) f e k = e

-- The steps after one, where what they extend is where the chain began.
pub after-Extends_from :
    {A B : Type 0} (a : MessageBuilder) (r : MessageBuilder × Result EncodeError A)
    (f : A → Build B)
    → Extends a r.0
    → ((x : A) (b : MessageBuilder) → Extends a b → Extends a (f x b).0)
    → Extends a (after r f).0
after-Extends_from a (b, ok x) f e k = k x b e
after-Extends_from a (b, err x) f e k = e
after-Extends_from a (b, stuck) f e k = e

pub bind-Keeps :
    {A B : Type 0} (m : Build A) (f : A → Build B)
    → Keeps m
    → ((x : A) → Keeps (f x))
    → Keeps (m >>= f)
bind-Keeps m f p q b fits = after-Extends b (m b) f (p b fits) q

pub then-Keeps :
    {B : Type 0} (m : Build (Unit {0})) (k : Build B) → Keeps m → Keeps k → Keeps (m >> k)
then-Keeps m k p q = bind-Keeps m (λ _. k) p (λ _. q)

pub if-Keeps :
    {A : Type 0} (t : Bool) (m k : Build A) → Keeps m → Keeps k → Keeps (if t then m else k)
if-Keeps true m k p q = p
if-Keeps false m k p q = q

pub pure-Keeps : {A : Type 0} (x : A) → Keeps (pure x)
pure-Keeps x b fits = Extends-itself b fits

pub fail-Keeps :
    (needed : ℕ) (room : MessageBuilder → ℕ) → Keeps {A = Unit {0}} (λ b. fail needed (room b) b)
fail-Keeps needed room b fits = Extends-itself b fits

pub to_u16-Keeps : (n : ℕ) → Keeps (to_u16 n)
to_u16-Keeps n b fits = Extends-itself b fits

-- A copy into the buffer.
take-take_append :
    {A : Type 0} (n at : ℕ) (xs ys : List A)
    → n ≤ at
    → at ≤ length xs
    → take n (take at xs ++ ys) ≡ take n xs
take-take_append zero at xs ys h f = refl
take-take_append (suc n) zero xs ys h f = absurd (omega arith)
take-take_append (suc n) (suc at) [] ys h f = absurd (omega arith)
take-take_append (suc n) (suc at) (x ∷ xs) ys h f =
    ap (◌∷◌ x) (take-take_append n at xs ys (omega arith) (omega arith))

pub take-overwrite :
    (out : List ℕ) (at n : ℕ) (bytes : List ℕ)
    → n ≤ at
    → at ≤ length out
    → take n (overwrite out at bytes) ≡ take n out
take-overwrite out at n bytes h f =
    take-take_append n at out (bytes ++ drop (at + length bytes) out) h f

pub length-overwrite :
    (out : List ℕ) (at : ℕ) (bytes : List ℕ)
    → at + length bytes ≤ length out
    → length (overwrite out at bytes) ≡ length out
length-overwrite out at bytes h = omega (
  arith,
  length-append (take at out) (bytes ++ drop (at + length bytes) out),
  length-take at out,
  length-append bytes (drop (at + length bytes) out),
  length-drop (at + length bytes) out,
)

-- Bytes are written at the cursor, and it moves behind them.
advance-Extends :
    (b : MessageBuilder) (bytes : List ℕ) (cursor : ℕ)
    → Fits b
    → cursor ≡ b.cursor + length bytes
    → cursor ≤ length b.out
    → Extends b (record b { out = overwrite b.out b.cursor bytes; cursor = cursor })
advance-Extends b bytes cursor fits eq room =
    let size = length-overwrite b.out b.cursor bytes (omega arith) in
    record {
      size = size;
      grows = omega arith;
      header = refl;
      fits = record {
        slice = omega (arith, fits.slice);
        cursor = omega arith;
        used = fits.used;
        table = fits.table;
      };
      written = λ n h. take-overwrite b.out b.cursor n bytes h fits.cursor;
      entries = refl;
      more_used = omega arith;
      known = λ n h. refl;
    }

pub write_byte-Keeps : (v : ℕ) → Keeps (write_byte v)
unfolding write_byte
write_byte-Keeps v b fits = elim (Option-cases (get_elem? b.out b.cursor)) [
  | inl e ↦ rw (write_byte, e) (Extends-itself b fits)
  | inr (x, e) ↦
      let room = get_elem?-lt b.out b.cursor e in
      rw (write_byte, e)
        (advance-Extends b (v ∷ []) (saturating_add b.cursor 1) fits (omega (arith, fits.slice))
          (omega (arith, fits.slice)))
]

place-Extends :
    (b : MessageBuilder) (o : Option (List ℕ)) (bytes : List ℕ)
    → Fits b
    → slice? b.out b.cursor (saturating_add b.cursor (length bytes)) ≡ o
    → Extends b (place o bytes b).0
place-Extends b none bytes fits e = Extends-itself b fits
place-Extends b (some x) bytes fits e =
    let until = saturating_add b.cursor (length bytes) in
    let (_, room, _) = length-slice? b.out b.cursor until e in
    advance-Extends b bytes until fits (omega (arith, fits.slice)) room

write_bytes-Keeps : (bytes : List ℕ) → Keeps (write_bytes bytes)
write_bytes-Keeps bytes b fits = place-Extends b _ bytes fits refl

pub write_u16-Keeps : (v : ℕ) → Keeps (write_u16 v)
unfolding write_u16
write_u16-Keeps v = write_bytes-Keeps (v / 256 ∷ v % 256 ∷ [])

pub write_u32-Keeps : (v : ℕ) → Keeps (write_u32 v)
unfolding write_u32
write_u32-Keeps v =
    write_bytes-Keeps (v / 16777216 ∷ v / 65536 % 256 ∷ v / 256 % 256 ∷ v % 256 ∷ [])

pub write_each-Keeps : (vs : List ℕ) → Keeps (write_each vs)
unfolding write_each
write_each-Keeps [] = pure-Keeps tt
write_each-Keeps (v ∷ vs) =
    then-Keeps (write_byte v) (write_each vs) (write_byte-Keeps v) (write_each-Keeps vs)

-- An entry that is added.
take-set_at :
    {A : Type 0} (xs : List A) (i n : ℕ) (value : A)
    → n ≤ i
    → take n (set_at xs i value) ≡ take n xs
take-set_at [] i n value h = refl
take-set_at (x ∷ xs) i zero value h = refl
take-set_at (x ∷ xs) zero (suc n) value h = absurd (omega arith)
take-set_at (x ∷ xs) (suc i) (suc n) value h = ap (◌∷◌ x) (take-set_at xs i n value (omega arith))

length-set_at :
    {A : Type 0} (xs : List A) (i : ℕ) (value : A) → length (set_at xs i value) ≡ length xs
length-set_at [] i value = refl
length-set_at (x ∷ xs) zero value = refl
length-set_at (x ∷ xs) (suc i) value = ap suc (length-set_at xs i value)

pub insert-Extends :
    (b : MessageBuilder) (hash offset : ℕ)
    → Fits b
    → Extends b (record b { compression = insert b.compression hash offset })
unfolding insert
insert-Extends b hash offset fits =
    let t = b.compression in
    elim (Bool-cases (ltb t.used (length t.entries))) [
      | inr p ↦ rw (p) (Extends-itself b fits)
      | inl p ↦
          let room = ltb→lt t.used (length t.entries) p in
          let grows : t.used ≤ saturating_add t.used 1 = omega (arith, fits.table) in
          let size = length-set_at t.entries t.used (hash, offset) in
          let used : saturating_add t.used 1 ≤ length (set_at t.entries t.used (hash, offset)) =
            omega (arith, size) in
          rw (p) (record {
            size = refl;
            grows = omega arith;
            header = refl;
            fits = record {
              slice = fits.slice;
              cursor = fits.cursor;
              used = used;
              table = omega (arith, size, fits.table);
            };
            written = λ n h. refl;
            entries = size;
            more_used = grows;
            known = λ n h. take-set_at t.entries t.used n (hash, offset) h;
          })
    ]
