-- ===== src/Wire/Builder/Rollback.antt =====
-- Everything that is pushed, and what `restore` leaves of it.
use hick.Prelude.{
  ℕ, zero, suc, ◌^◌, ◌≤◌, ◌<◌, ◌≡◌, refl, ap, arith, Bool, List, [], ◌∷◌, none, ok, err, ltb,
  length, take, IsSlice, ltb→ge, Bool-cases, inl, inr,
}
use mathlib.Core.Path.{subst}
use hick.Wire.Error.{buffer_too_small}
use hick.Wire.Header.{Header}
use hick.Wire.ResourceType
use hick.Wire.ResourceType.{ResourceType}
use hick.Wire.ResourceClass
use hick.Wire.ResourceClass.{ResourceClass, top_bit}
use hick.Owner.{Name}
use hick.Wire.Builder.{
  zeros, new_table, MessageBuilder, try_new, checkpoint, restore, Build, ◌>>◌, write_u16,
}
use hick.Wire.Builder.Name.{write_name}
use hick.Wire.Builder.Push.{
  Section, class_raw, questions, answers, authorities, additionals, count, with_rdlen, write_txt,
  write_srv, write_address, mark_all, no_bits, write_bitmap, push_question, push_a_answer,
  push_aaaa_answer, push_srv_answer, push_txt_answer, push_ptr_answer, push_a_authority,
  push_aaaa_authority, push_srv_authority, push_txt_authority, push_ptr_authority,
  push_nsec_additional, class_in,
}
use hick.Wire.Builder.Extends.{Fits, Extends-itself, then-Keeps, write_u16-Keeps}
use hick.Wire.Builder.Steps.{
  write_name-Keeps, with_rdlen-Keeps, write_txt-Keeps, write_srv-Keeps, write_address-Keeps,
  write_bitmap-Keeps,
}
use hick.Wire.Builder.Counted.{
  Behind, Behind-Fits, Behind-trans, Pushes, count-Pushes, then-Pushes, record-Pushes,
}

-- What can be pushed, with its arguments.
pub data Push : Type 0 where
  question : Name → ResourceType → ResourceClass → Bool → Push
  a_answer aaaa_answer : Name → ℕ → List ℕ → Bool → Push
  srv_answer : Name → (ttl priority weight port : ℕ) → Name → Bool → Push
  txt_answer : Name → ℕ → List (List ℕ) → Bool → Push
  ptr_answer : Name → ℕ → Name → Push
  a_authority aaaa_authority : Name → ℕ → List ℕ → Push
  srv_authority : Name → (ttl priority weight port : ℕ) → Name → Push
  txt_authority : Name → ℕ → List (List ℕ) → Push
  ptr_authority : Name → ℕ → Name → Push
  nsec_additional : Name → ℕ → List ℕ → Bool → Push

abbrev pub push : Push → Build (Unit {0})
push (question n t c u) = push_question n t c u
push (a_answer n ttl addr f) = push_a_answer n ttl addr f
push (aaaa_answer n ttl addr f) = push_aaaa_answer n ttl addr f
push (srv_answer n ttl p w o t f) = push_srv_answer n ttl p w o t f
push (txt_answer n ttl s f) = push_txt_answer n ttl s f
push (ptr_answer n ttl t) = push_ptr_answer n ttl t
push (a_authority n ttl addr) = push_a_authority n ttl addr
push (aaaa_authority n ttl addr) = push_aaaa_authority n ttl addr
push (srv_authority n ttl p w o t) = push_srv_authority n ttl p w o t
push (txt_authority n ttl s) = push_txt_authority n ttl s
push (ptr_authority n ttl t) = push_ptr_authority n ttl t
push (nsec_additional n ttl types f) = push_nsec_additional n ttl types f

-- The section that it goes into.
abbrev pub section_of : Push → Section
section_of (question n t c u) = questions
section_of (a_answer n ttl addr f) = answers
section_of (aaaa_answer n ttl addr f) = answers
section_of (srv_answer n ttl p w o t f) = answers
section_of (txt_answer n ttl s f) = answers
section_of (ptr_answer n ttl t) = answers
section_of (a_authority n ttl addr) = authorities
section_of (aaaa_authority n ttl addr) = authorities
section_of (srv_authority n ttl p w o t) = authorities
section_of (txt_authority n ttl s) = authorities
section_of (ptr_authority n ttl t) = authorities
section_of (nsec_additional n ttl types f) = additionals

pub push-Pushes : (p : Push) → Pushes (section_of p) (push p)
unfolding push_question push_a_answer push_aaaa_answer push_srv_answer push_txt_answer
    push_ptr_answer push_a_authority push_aaaa_authority push_srv_authority push_txt_authority
    push_ptr_authority push_nsec_additional
push-Pushes (question n t c u) =
    let class = class_raw (ResourceClass.to_u16 c) u in
    then-Pushes questions (write_name n)
      (write_u16 (ResourceType.to_u16 t) >> (write_u16 class >> count questions))
      (write_name-Keeps n)
      (then-Pushes questions (write_u16 (ResourceType.to_u16 t))
        (write_u16 class >> count questions) (write_u16-Keeps (ResourceType.to_u16 t))
        (then-Pushes questions (write_u16 class) (count questions) (write_u16-Keeps class)
          (count-Pushes questions)))
push-Pushes (a_answer n ttl addr f) =
    record-Pushes n ResourceType.a (class_raw class_in f) ttl (write_address 4 addr) answers
      (write_address-Keeps 4 addr)
push-Pushes (aaaa_answer n ttl addr f) =
    record-Pushes n ResourceType.aaaa (class_raw class_in f) ttl (write_address 16 addr) answers
      (write_address-Keeps 16 addr)
push-Pushes (srv_answer n ttl p w o t f) =
    record-Pushes n ResourceType.srv (class_raw class_in f) ttl (with_rdlen (write_srv p w o t))
      answers (with_rdlen-Keeps (write_srv p w o t) (write_srv-Keeps p w o t))
push-Pushes (txt_answer n ttl s f) =
    record-Pushes n ResourceType.txt (class_raw class_in f) ttl (with_rdlen (write_txt s)) answers
      (with_rdlen-Keeps (write_txt s) (write_txt-Keeps s))
push-Pushes (ptr_answer n ttl t) =
    record-Pushes n ResourceType.ptr class_in ttl (with_rdlen (write_name t)) answers
      (with_rdlen-Keeps (write_name t) (write_name-Keeps t))
push-Pushes (a_authority n ttl addr) =
    record-Pushes n ResourceType.a class_in ttl (write_address 4 addr) authorities
      (write_address-Keeps 4 addr)
push-Pushes (aaaa_authority n ttl addr) =
    record-Pushes n ResourceType.aaaa class_in ttl (write_address 16 addr) authorities
      (write_address-Keeps 16 addr)
push-Pushes (srv_authority n ttl p w o t) =
    record-Pushes n ResourceType.srv class_in ttl (with_rdlen (write_srv p w o t)) authorities
      (with_rdlen-Keeps (write_srv p w o t) (write_srv-Keeps p w o t))
push-Pushes (txt_authority n ttl s) =
    record-Pushes n ResourceType.txt class_in ttl (with_rdlen (write_txt s)) authorities
      (with_rdlen-Keeps (write_txt s) (write_txt-Keeps s))
push-Pushes (ptr_authority n ttl t) =
    record-Pushes n ResourceType.ptr class_in ttl (with_rdlen (write_name t)) authorities
      (with_rdlen-Keeps (write_name t) (write_name-Keeps t))
push-Pushes (nsec_additional n ttl types f) =
    let bits = mark_all (no_bits 32, none) types in
    record-Pushes n ResourceType.nsec (class_raw class_in f) ttl
      (with_rdlen (write_name n >> write_bitmap bits)) additionals
      (with_rdlen-Keeps (write_name n >> write_bitmap bits) (
        then-Keeps (write_name n) (write_bitmap bits) (write_name-Keeps n)
          (write_bitmap-Keeps bits)))

-- Pushes one after the other, whether they fail or not.
abbrev pub pushes : List Push → MessageBuilder → MessageBuilder
pushes [] b = b
pushes (p ∷ ps) b = pushes ps (push p b).0

pub pushes-Behind : (ps : List Push) (b : MessageBuilder) → Fits b → Behind b (pushes ps b)
pushes-Behind [] b fits = Extends-itself b fits
pushes-Behind (p ∷ ps) b fits =
    let e = (push-Pushes p b fits).behind in
    Behind-trans b (push p b).0 (pushes ps (push p b).0) e
      (pushes-Behind ps (push p b).0 (Behind-Fits b (push p b).0 e))

-- The same message as far as it is written, and the same table as far as it is used.
pub record SameMessage (a b : MessageBuilder) : Type 0 where
  pub cursor : a.cursor ≡ b.cursor
  pub header : a.header ≡ b.header
  pub size : length a.out ≡ length b.out
  pub written : take b.cursor a.out ≡ take b.cursor b.out
  pub used : a.compression.used ≡ b.compression.used
  pub known :
      take b.compression.used a.compression.entries ≡ take b.compression.used b.compression.entries

-- In a builder whose cursor and table are within their bounds, whatever is pushed behind a
-- checkpoint, and whether it fails or not: restoring the checkpoint gives the message and the table
-- of the compression back as they were.
pub restore-pushes :
    (b : MessageBuilder) (ps : List Push)
    → Fits b
    → SameMessage (restore (pushes ps b) (checkpoint b)) b
unfolding restore checkpoint
restore-pushes b ps fits =
    let e = pushes-Behind ps b fits in
    record {
      cursor = refl;
      header = refl;
      size = e.size;
      written = e.written b.cursor (omega arith);
      used = refl;
      known = e.known b.compression.used (omega arith);
    }

length-zeros : (n : ℕ) → length (zeros n) ≡ n
length-zeros zero = refl
length-zeros (suc n) = ap suc (length-zeros n)

unfoldable pub started : ℕ → List ℕ → Header → MessageBuilder
started comp_n out header = record {
  out = out;
  cursor = 12;
  header = header;
  compression = new_table comp_n;
}

Bounded : ℕ → List ℕ → List Push → MessageBuilder → Type 0
Bounded comp_n out ps b =
    let b' = pushes ps b in
    (12 ≤ b'.cursor)
    × (b'.cursor ≤ length b'.out)
    × (length b'.out ≡ length out)
    × (b'.compression.used ≤ comp_n)

pub started-Fits :
    (comp_n : ℕ) (out : List ℕ) (header : Header)
    → IsSlice out
    → comp_n < 2 ^ 63
    → 12 ≤ length out
    → Fits (started comp_n out header)
unfolding started
started-Fits comp_n out header fits few room =
    let size = length-zeros comp_n in
    record { slice = fits; cursor = room; used = omega arith; table = omega arith }

started-Bounded :
    (comp_n : ℕ) (out : List ℕ) (header : Header) (ps : List Push)
    → IsSlice out
    → comp_n < 2 ^ 63
    → 12 ≤ length out
    → Bounded comp_n out ps (started comp_n out header)
unfolding started Bounded
started-Bounded comp_n out header ps fits few room =
    let size = length-zeros comp_n in
    let e =
      pushes-Behind ps (started comp_n out header) (started-Fits comp_n out header fits few room) in
    (e.grows, e.fits.cursor, e.size, omega (arith, size, e.fits.used, e.entries))

pub try_new-started :
    (comp_n : ℕ) (out : List ℕ) (header : Header) {b : MessageBuilder}
    → try_new comp_n out header ≡ ok b
    → (12 ≤ length out) × (started comp_n out header ≡ b)
unfolding try_new started
try_new-started comp_n out header h = elim (Bool-cases (ltb (length out) 12)) [
  | inl p ↦
      let e : try_new comp_n out header ≡ err (buffer_too_small 12 (length out)) =
        rw (try_new, p) refl in
      cc
  | inr p ↦
      let e : try_new comp_n out header ≡ ok (started comp_n out header) = rw (try_new, p) refl in
      (ltb→ge (length out) 12 p, cc)
]

-- A builder over a buffer and a table that fit in an isize starts where the buffer has room for the
-- header. Whatever is pushed, and whether it fails or not: the cursor never leaves the buffer and
-- never comes back before the header, the buffer keeps its length, and no more entries of the table
-- are used than it has.
pub pushes-bounds :
    (comp_n : ℕ) (out : List ℕ) (header : Header) (ps : List Push) {b : MessageBuilder}
    → IsSlice out
    → comp_n < 2 ^ 63
    → try_new comp_n out header ≡ ok b
    → let b' = pushes ps b in
      (12 ≤ b'.cursor)
      × (b'.cursor ≤ length b'.out)
      × (length b'.out ≡ length out)
      × (b'.compression.used ≤ comp_n)
unfolding Bounded
pushes-bounds comp_n out header ps {b} fits few h =
    let (room, same) = try_new-started comp_n out header h in
    subst (Bounded comp_n out ps) same (started-Bounded comp_n out header ps fits few room)
