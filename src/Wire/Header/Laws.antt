-- ===== src/Wire/Header/Laws.antt =====
-- Headers read and written.
use hick.Prelude.{
  ℕ, ◌/◌, ◌%◌, ◌≤◌, AreBytes, ◌<◌, ◌≡◌, refl, arith, List, [], ◌∷◌, ◌++◌, ok, length, drop,
}
use hick.Wire.Header.{Header, try_parse, write}

-- A field of 16 bits each.
pub record IsHeader (h : Header) : Type 0 where
  pub id : h.id < 0x10000
  pub flags : h.flags.bits < 0x10000
  pub question_count : h.question_count < 0x10000
  pub answer_count : h.answer_count < 0x10000
  pub authority_count : h.authority_count < 0x10000
  pub additional_count : h.additional_count < 0x10000

-- The twelve bytes of a header.
abbrev pub header_bytes : Header → List ℕ
header_bytes h =
    h.id / 256
    ∷ h.id % 256
    ∷ h.flags.bits / 256
    ∷ h.flags.bits % 256
    ∷ h.question_count / 256
    ∷ h.question_count % 256
    ∷ h.answer_count / 256
    ∷ h.answer_count % 256
    ∷ h.authority_count / 256
    ∷ h.authority_count % 256
    ∷ h.additional_count / 256
    ∷ h.additional_count % 256
    ∷ []

pub write-bytes :
    (h : Header) (out : List ℕ)
    → 12 ≤ length out
    → write h out ≡ (header_bytes h ++ drop 12 out, ok 12)
unfolding write
write-bytes h (b₀ ∷ b₁ ∷ b₂ ∷ b₃ ∷ b₄ ∷ b₅ ∷ b₆ ∷ b₇ ∷ b₈ ∷ b₉ ∷ b₁₀ ∷ b₁₁ ∷ rest) enough =
    ground arith
write-bytes h _ enough = absurd (omega arith)

pub parse-bytes :
    (h : Header) (rest : List ℕ) → IsHeader h → try_parse (header_bytes h ++ rest) ≡ ok (h, rest)
unfolding try_parse
parse-bytes h rest v = ground arith

-- A header of 16-bit fields that is written over twelve bytes or more reads back, and what stood behind its twelve bytes is what is left to read.
pub parse-write :
    (h : Header) (out : List ℕ)
    → IsHeader h
    → 12 ≤ length out
    → ((write h out).1 ≡ ok 12) × (try_parse (write h out).0 ≡ ok (h, drop 12 out))
parse-write h out v enough = rw (write-bytes h out enough) (refl, parse-bytes h (drop 12 out) v)

-- A header that was read from a buffer of bytes is written as the bytes that it was read from.
pub write-parse :
    (buf : List ℕ) (h : Header) (rest : List ℕ)
    → AreBytes buf
    → try_parse buf ≡ ok (h, rest)
    → write h buf ≡ (buf, ok 12)
unfolding try_parse
write-parse (b₀ ∷ b₁ ∷ b₂ ∷ b₃ ∷ b₄ ∷ b₅ ∷ b₆ ∷ b₇ ∷ b₈ ∷ b₉ ∷ b₁₀ ∷ b₁₁ ∷ buf) h rest bytes e =
    let out = b₀ ∷ b₁ ∷ b₂ ∷ b₃ ∷ b₄ ∷ b₅ ∷ b₆ ∷ b₇ ∷ b₈ ∷ b₉ ∷ b₁₀ ∷ b₁₁ ∷ buf in
    ground (arith, write-bytes h out (omega arith))
write-parse _ h rest bytes e = cc
