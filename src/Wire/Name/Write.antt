-- ===== src/Wire/Name/Write.antt =====
-- mdns-proto/src/wire/name.rs: `NameRef::write_wire`. A function with a `&mut Vec<u8>` takes the
-- bytes written so far and returns them with its result: what a failing call has written stays.
pub mod Laws
pub mod Reparse
use hick.Prelude.{
  ℕ, zero, suc, Bool, List, [], ◌∷◌, ◌++◌, none, some, map, ok, err, stuck, ltb, ◌==◌,
  if◌then◌else◌, length, take, min, saturating_add, to_ascii_lowercase,
}
use hick.Wire.Error.{Parsed, name_too_long, max_label_bytes, max_name_bytes}
use hick.Wire.Name.{NameRef, NameLabels, Label, Yield, next, labels}

-- The new contents of `out`, and what the call returns.
abbrev pub Written : Type 0
Written = List ℕ × Parsed (Unit {0})

-- The label as `write_wire` copies it: at most 63 bytes, in lower case where it folds.
abbrev pub copied : Bool → Label → Label
copied fold_case label =
    if fold_case
    then map to_ascii_lowercase (take max_label_bytes label)
    else take max_label_bytes label

-- The body of the loop for what `next` answered; `continue` is the next round.
unfoldable pub write_item :
    Bool → ℕ → List ℕ → Yield → (NameLabels → ℕ → List ℕ → Written) → Written
write_item fold_case encoded out (s, none) continue = (out ++ 0 ∷ [], ok tt)
write_item fold_case encoded out (s, some (err e)) continue = (out, err e)
write_item fold_case encoded out (s, some stuck) continue = (out, stuck)
write_item fold_case encoded out (s, some (ok label)) continue =
    let len = min (length label) max_label_bytes in
    let encoded' = saturating_add encoded (saturating_add 1 len) in
    if length label == 0
    then (out ++ 0 ∷ [], ok tt)
    else if ltb max_name_bytes encoded'
    then (out, err (name_too_long encoded'))
    else continue s encoded' (out ++ len ∷ copied fold_case label)

unfoldable pub write_loop : ℕ → Bool → NameLabels → ℕ → List ℕ → Written
write_loop zero fold_case s encoded out = (out, stuck)
write_loop (suc fuel) fold_case s encoded out =
    write_item fold_case encoded out (next s) (write_loop fuel fold_case)

-- A label takes two octets at least, so 128 rounds are enough for a name of 255.
unfoldable pub write_wire : NameRef → Bool → List ℕ → Written
write_wire name fold_case out = write_loop 128 fold_case (labels name) 1 out
