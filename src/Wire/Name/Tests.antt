-- ===== src/Wire/Name/Tests.antt =====
-- Runs of the name codec on one message, and its theorems there. The message holds the name `a` at
-- the offset 0, and at the offset 3 the name `B.a`, whose tail is a pointer to the first.
use hick.Prelude.{
  ℕ, ◌+◌, ◌≤◌, ◌≡◌, ◌≢◌, ◌↔◌, refl, arith, true, List, [], ◌∷◌, some, map, ok, err, stuck, ◌>>=◌,
  to_ascii_lowercase,
}
use hick.Wire.Error.{pointer_forward}
use hick.Wire.Name.{
  NameRef, Label, labels, try_parse, parse_loop, parse_round, next, next_loop, next_round,
}
use hick.Wire.Name.Spells.{Spells, octets}
use hick.Wire.Name.Decode.{decode, collect, collect_item, decode-iff-Spells, decode-ne-stuck}
use hick.Wire.Name.Write.{write_wire, write_loop, write_item}
use hick.Wire.Name.Write.Laws.{folded}
use hick.Wire.Name.Write.Reparse.{decode-write_wire}
use hick.Wire.Name.Compare.{equals_ignoring_case}
use hick.Wire.Name.Compare.Laws.{equals_ignoring_case_iff}

program : Unit {0}
unfolding next_loop next_round next labels collect_item collect decode write_item write_loop
    write_wire parse_round parse_loop try_parse
program = tt

abbrev sample : List ℕ
sample = 1 ∷ b'a' ∷ 0 ∷ 1 ∷ b'B' ∷ 0xc0 ∷ 0 ∷ []

abbrev sample_name : NameRef
sample_name = record { message = sample; start = 3 }

abbrev sample_labels : List Label
sample_labels = (b'B' ∷ []) ∷ (b'a' ∷ []) ∷ []

-- The same name in lower case and without a pointer.
abbrev plain_name : NameRef
plain_name = record { message = 1 ∷ b'b' ∷ 1 ∷ b'a' ∷ 0 ∷ []; start = 0 }

decode_sample : decode sample_name ≡ ok sample_labels
unfolding program
decode_sample = refl

-- A pointer to itself is refused.
decode_cycle : decode (record { message = 0xc0 ∷ 0 ∷ []; start = 0 }) ≡ err (pointer_forward 0 0)
unfolding program
decode_cycle = refl

try_parse-sample : try_parse sample 3 ≡ ok (sample_name, 4)
unfolding program
try_parse-sample = refl

write_wire_sample : write_wire sample_name true [] ≡ (1 ∷ b'b' ∷ 1 ∷ b'a' ∷ 0 ∷ [], ok tt)
unfolding program
write_wire_sample = refl

decode-iff-Spells_example :
    (decode sample_name ≡ ok sample_labels)
    ↔ (Spells sample 32 3 sample_labels × (1 + octets sample_labels ≤ 255))
decode-iff-Spells_example = decode-iff-Spells sample_name sample_labels (omega arith) (omega arith)

decode-ne-stuck_example : decode sample_name ≢ stuck
decode-ne-stuck_example = decode-ne-stuck sample_name (omega arith) (omega arith)

decode-write_wire_example :
    decode (record { message = 1 ∷ b'b' ∷ 1 ∷ b'a' ∷ 0 ∷ []; start = 0 })
    ≡ (do ls ← decode sample_name; ok (map (folded true) ls))
decode-write_wire_example =
    decode-write_wire sample_name true [] (1 ∷ b'b' ∷ 1 ∷ b'a' ∷ 0 ∷ []) (omega arith) (omega arith)
      tt write_wire_sample (omega arith)

sample_spelled : Spells sample 32 3 sample_labels
sample_spelled = (decode-iff-Spells_example.0 decode_sample).0

equals_ignoring_case_iff_example : (equals_ignoring_case sample_name plain_name ≡ some true) ↔ (
    (la : List Label) × (lb : List Label) × (decode sample_name ≡ ok la)
    × (decode plain_name ≡ ok lb)
    × (map (map to_ascii_lowercase) la ≡ map (map to_ascii_lowercase) lb))
equals_ignoring_case_iff_example =
    equals_ignoring_case_iff sample_name plain_name (omega arith) (omega arith) (omega arith)
      (omega arith)
