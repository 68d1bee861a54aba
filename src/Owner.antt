-- ===== src/Owner.antt =====
-- mdns-proto/src/name.rs: `Name`, an owned name. A text is the list of its bytes, in UTF-8. A
-- character that folds its case is one byte below 128, so folding the bytes folds the characters.
use hick.Prelude.{
  ℕ, Bool, true, false, not, ◌&&◌, ◌||◌, List, [], ◌∷◌, ◌++◌, map, Option, none, some, Result, ok,
  err, stuck, ◌>>=◌, length, ltb, ◌==◌, if◌then◌else◌, saturating_add, to_ascii_lowercase,
}
use hick.Wire.Error.{Parsed, max_label_bytes, max_name_bytes}
pub mod Text
pub mod Labels
pub mod FromWire
mod Tests

pub data NameError : Type 0 where
  label_too_long : (len : ℕ) → NameError
  name_too_long : (len : ℕ) → NameError
  empty_label : NameError

pub record Name : Type 0 where
  pub text : List ℕ

abbrev pub dot : ℕ
dot = b'.'

-- `s.is_empty()`
abbrev pub is_empty : List ℕ → Bool
is_empty [] = true
is_empty (c ∷ s) = false

-- `s.strip_suffix('.')`, or `s`: without the one dot at the end.
unfoldable pub trim : List ℕ → List ℕ
trim [] = []
trim (c ∷ s) = let rest = trim s in if is_empty s && c == dot then [] else c ∷ rest

-- A label in front of the first of the labels.
abbrev pub onto : ℕ → List (List ℕ) → List (List ℕ)
onto c [] = (c ∷ []) ∷ []
onto c (l ∷ ls) = (c ∷ l) ∷ ls

-- `s.split('.')`
unfoldable pub split : List ℕ → List (List ℕ)
split [] = [] ∷ []
split (c ∷ s) = let rest = split s in if c == dot then [] ∷ rest else onto c rest

-- `s.split_once('.')`
unfoldable pub split_once : List ℕ → Option (List ℕ × List ℕ)
split_once [] = none
split_once (c ∷ s) =
    let rest = split_once s in
    if c == dot then some ([], s) else elim rest [ none ↦ none | some (a, b) ↦ some (c ∷ a, b) ]

-- The loop of `validate_name`, which answers the length on the wire.
unfoldable pub wire_length : List (List ℕ) → ℕ → Result NameError ℕ
wire_length [] wire_len = ok wire_len
wire_length (label ∷ ls) wire_len =
    let rest = wire_length ls (saturating_add (saturating_add wire_len 1) (length label)) in
    if is_empty label
    then err empty_label
    else if ltb max_label_bytes (length label)
    then err (label_too_long (length label))
    else rest

unfoldable pub validate_name : List ℕ → Result NameError (Unit {0})
unfolding wire_length
validate_name s =
    if ltb max_name_bytes (length s)
    then err (name_too_long (length s))
    else if is_empty s
    then ok tt
    else do
      wire_len ← wire_length (split (trim s)) 1
      if ltb max_name_bytes wire_len then err (name_too_long wire_len) else ok tt

unfoldable pub try_from_str : List ℕ → Result NameError Name
unfolding validate_name
try_from_str s = do _ ← validate_name s; ok (record { text = map to_ascii_lowercase s })

-- `a.eq_ignore_ascii_case(b)`
unfoldable pub eq_ignore_ascii_case : List ℕ → List ℕ → Bool
eq_ignore_ascii_case [] [] = true
eq_ignore_ascii_case (c ∷ s) (d ∷ t) =
    to_ascii_lowercase c == to_ascii_lowercase d && eq_ignore_ascii_case s t
eq_ignore_ascii_case _ _ = false

unfoldable pub same_owner : Name → Name → Bool
same_owner name other = eq_ignore_ascii_case (trim name.text) (trim other.text)

unfoldable pub is_parent_of : Name → Name → Bool
is_parent_of name other = elim (split_once (trim other.text)) [
  | some (_, rest) ↦ eq_ignore_ascii_case (trim name.text) rest
  | none ↦ not (is_empty (trim other.text)) && is_empty (trim name.text)
]

-- `label.contains(&b'.')`
unfoldable pub has_dot : List ℕ → Bool
has_dot [] = false
has_dot (c ∷ s) = c == dot || has_dot s

-- The validity test of `core::str::from_utf8`.
module _ (is_utf8 : List ℕ → Bool) where
  -- The loop of `from_wire_labels`, with the buffer.
  unfoldable pub push_labels : List (Parsed (List ℕ)) → List ℕ → ℕ → Option (List ℕ)
  push_labels [] buf wire_len = some buf
  push_labels (err _ ∷ ls) buf wire_len = none
  push_labels (stuck ∷ ls) buf wire_len = none
  push_labels (ok label ∷ ls) buf wire_len =
      let wire_len' = saturating_add (saturating_add wire_len 1) (length label) in
      let rest = push_labels ls (buf ++ (map to_ascii_lowercase label ++ dot ∷ [])) wire_len' in
      if ltb max_label_bytes (length label)
      then none
      else if ltb max_name_bytes wire_len'
      then none
      else if has_dot label
      then none
      else if is_utf8 label
      then rest
      else none

  unfoldable pub from_wire_labels : List (Parsed (List ℕ)) → Option Name
  unfolding push_labels validate_name
  from_wire_labels ls = elim (push_labels ls [] 1) [
    | none ↦ none
    | some buf ↦ elim (validate_name buf) [ ok _ ↦ some (record { text = buf }) | _ ↦ none ]
  ]
