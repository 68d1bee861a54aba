-- ===== src/Wire/Question.antt =====
-- mdns-proto/src/wire/question.rs: a question of the question section.
pub mod Laws
use hick.Prelude.{
  ℕ, ◌+◌, Bool, not, List, [], ◌∷◌, Option, none, some, ok, err, ◌>>=◌, ◌==◌, length, slice?, be16,
  bit_and, saturating_add, saturating_sub,
}
use hick.Wire.Error.{Parsed, buffer_too_short}
use hick.Wire.Name
use hick.Wire.Name.{NameRef}
use hick.Wire.ResourceType
use hick.Wire.ResourceType.{ResourceType}
use hick.Wire.ResourceClass
use hick.Wire.ResourceClass.{ResourceClass, top_bit}

pub record QuestionRef : Type 0 where
  pub qname : NameRef
  pub qtype : ResourceType
  pub qclass : ResourceClass
  pub unicast_response : Bool

-- `message.get(at..at.saturating_add(2)).and_then(|s| s.first_chunk::<2>())`, big-endian.
unfoldable pub slot : List ℕ → ℕ → Parsed ℕ
slot message at = elim (slice? message at (saturating_add at 2)) [
  | some (hi ∷ lo ∷ _) ↦ ok (be16 hi lo)
  | _ ↦ err (buffer_too_short 2 at (saturating_sub (length message) at))
]

-- What follows the name.
unfoldable pub after_name : List ℕ → NameRef → ℕ → Parsed (QuestionRef × ℕ)
after_name message qname at = do
  qtype ← slot message at
  let after_type = saturating_add at 2
  raw ← slot message after_type
  ok (
    record {
      qname = qname;
      qtype = ResourceType.from_u16 qtype;
      qclass = ResourceClass.from_u16 raw;
      unicast_response = not (bit_and raw top_bit == 0);
    },
    saturating_add after_type 2,
  )

unfoldable pub try_parse : List ℕ → ℕ → Parsed (QuestionRef × ℕ)
try_parse message offset = do
  (qname, name_bytes) ← Name.try_parse message offset
  after_name message qname (saturating_add offset name_bytes)
