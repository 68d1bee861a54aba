-- ===== src/Wire/Header.antt =====
-- mdns-proto/src/wire/header.rs: the header of twelve bytes. `Header::try_parse` is `try_parse`,
-- `Header::write` is `write`, which returns the buffer it was given with what it wrote.
pub mod Laws
use hick.Prelude.{
  ℕ, suc, ◌+◌, ◌/◌, ◌%◌, ◌-◌, List, [], ◌∷◌, ◌++◌, Option, none, some, Result, ok, err, ◌>>=◌, ltb,
  leb, if◌then◌else◌, length, take, drop, slice?, be16, saturating_add, saturating_sub,
}
use hick.Wire.Error.{ParseError, EncodeError, Parsed, buffer_too_short, buffer_too_small}
use hick.Wire.Flags
use hick.Wire.Flags.{Flags}

abbrev pub header_size : ℕ
header_size = 12

pub record Header : Type 0 where
  pub id : ℕ
  pub flags : Flags
  pub question_count : ℕ
  pub answer_count : ℕ
  pub authority_count : ℕ
  pub additional_count : ℕ

-- `buf.split_at_checked(n)`
abbrev pub split_at_checked : ℕ → List ℕ → Option (List ℕ × List ℕ)
split_at_checked n buf = if leb n (length buf) then some (take n buf, drop n buf) else none

-- `head.get(at..at + 2).and_then(|s| s.first_chunk::<2>())`, read as a big-endian number.
unfoldable pub chunk : List ℕ → ℕ → Parsed ℕ
chunk head at = elim (slice? head at (at + 2)) [
  | some (hi ∷ lo ∷ _) ↦ ok (be16 hi lo)
  | _ ↦ err (buffer_too_short 2 at (saturating_sub (length head) at))
]

unfoldable pub fields : List ℕ → Parsed Header
unfolding chunk Flags.from_u16
fields head = do
  id ← chunk head 0
  flags ← chunk head 2
  qd ← chunk head 4
  an ← chunk head 6
  ns ← chunk head 8
  ar ← chunk head 10
  ok (record {
    id = id;
    flags = Flags.from_u16 flags;
    question_count = qd;
    answer_count = an;
    authority_count = ns;
    additional_count = ar;
  })

unfoldable pub try_parse : List ℕ → Parsed (Header × List ℕ)
unfolding fields
try_parse buf =
    if ltb (length buf) header_size
    then err (buffer_too_short header_size 0 (length buf))
    else elim (split_at_checked header_size buf) [
      | none ↦ err (buffer_too_short header_size 0 (length buf))
      | some (head, rest) ↦ do header ← fields head; ok (header, rest)
    ]

-- `slot.copy_from_slice(&value.to_be_bytes())` for the two bytes at `cursor`.
abbrev pub put_be16 : List ℕ → ℕ → ℕ → List ℕ
put_be16 head cursor value = take cursor head ++ value / 256 ∷ value % 256 ∷ drop (cursor + 2) head

-- `for value in pairs`: the bytes of the slot, and whether each value had its room.
unfoldable pub put_pairs : List ℕ → List ℕ → ℕ → List ℕ × Option (Unit {0})
put_pairs [] head cursor = (head, some tt)
put_pairs (value ∷ pairs) head cursor =
    let rest = put_pairs pairs (put_be16 head cursor value) (saturating_add cursor 2) in
    elim (slice? head cursor (saturating_add cursor 2)) [ none ↦ (head, none) | some _ ↦ rest ]

abbrev pub pairs_of : Header → List ℕ
pairs_of h =
    h.id
    ∷ Flags.to_u16 h.flags
    ∷ h.question_count
    ∷ h.answer_count
    ∷ h.authority_count
    ∷ h.additional_count
    ∷ []

abbrev too_small : List ℕ → List ℕ × Result EncodeError ℕ
too_small out = (out, err (buffer_too_small header_size (length out)))

unfoldable pub write : Header → List ℕ → List ℕ × Result EncodeError ℕ
unfolding put_pairs Flags.to_u16
write h out =
    if ltb (length out) header_size
    then too_small out
    else elim (split_at_checked header_size out) [
      | none ↦ too_small out
      | some (head, rest) ↦
          let (head', wrote) = put_pairs (pairs_of h) head 0 in
          elim wrote [
            | some _ ↦ (head' ++ rest, ok header_size)
            | none ↦ (head' ++ rest, err (buffer_too_small header_size (length out)))
          ]
    ]
