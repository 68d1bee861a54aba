-- ===== src/Wire/Name.antt =====
-- mdns-proto/src/wire/name.rs: names on the wire, with RFC 1035 compression pointers.
-- `NameRef::try_parse` is `try_parse`, `NameRef::labels` is `labels`, `NameLabels::next` is `next`,
-- `NameRef::write_wire` is `write_wire`, `NameRef::equals_ignoring_case` keeps its name.
pub mod Round
pub mod Arms
pub mod Spells
pub mod View
pub mod Decode
pub mod Write
pub mod Parse
pub mod Compare
mod Tests
use hick.Prelude.{
  ℕ, zero, suc, ◌+◌, ◌*◌, ◌-◌, Bool, true, false, not, List, [], ◌∷◌, ◌++◌, Option, none, some, map,
  Result, ok, err, stuck, ◌>>=◌, ltb, ◌==◌, if◌then◌else◌, length, get_elem?, slice?, take, min,
  bit_and, saturating_add, saturating_sub, to_ascii_lowercase,
}
use hick.Wire.Error.{
  ParseError, Parsed, buffer_too_short, label_too_long, name_too_long, pointer_chain_too_long,
  pointer_forward, invalid_label_kind, max_label_bytes, max_name_bytes, max_pointer_hops,
  u16_try_from,
}

abbrev pub pointer_tag_mask : ℕ
pointer_tag_mask = 0xc0

abbrev pub pointer_tag : ℕ
pointer_tag = 0xc0

abbrev pub pointer_offset_hi_mask : ℕ
pointer_offset_hi_mask = 0x3f

pub record NameRef : Type 0 where
  pub message : List ℕ
  pub start : ℕ

-- The `Ok` of `try_parse`: the reference at `offset`, and what the name takes up in line.
abbrev pub finish : List ℕ → ℕ → ℕ → Parsed (NameRef × ℕ)
finish message offset consumed = do
  start ← u16_try_from offset
  ok (record { message = message; start = start }, consumed)

-- The arm of a length-prefixed label; `continue` is the next round of the loop.
abbrev pub skip_label : List ℕ → ℕ → ℕ → (ℕ → Parsed (NameRef × ℕ)) → Parsed (NameRef × ℕ)
skip_label message cursor kind_byte continue =
    if ltb max_label_bytes kind_byte
    then err (label_too_long kind_byte)
    else let after_len = saturating_add cursor 1 in
      let label_end = saturating_add after_len kind_byte in
      if ltb (length message) label_end
      then err (buffer_too_short kind_byte after_len (saturating_sub (length message) after_len))
      else continue label_end

-- The arm of a two-byte pointer, which ends the name.
abbrev pub skip_pointer : List ℕ → ℕ → ℕ → Parsed (NameRef × ℕ)
skip_pointer message offset cursor =
    let after_first = saturating_add cursor 1 in
    elim (get_elem? message after_first) [
      | none ↦ err (buffer_too_short 1 after_first 0)
      | some _ ↦ finish message offset (saturating_sub (saturating_add after_first 1) offset)
    ]

-- One round of the loop of `try_parse` at `cursor`.
unfoldable pub parse_round : List ℕ → ℕ → ℕ → (ℕ → Parsed (NameRef × ℕ)) → Parsed (NameRef × ℕ)
parse_round message offset cursor continue = elim (get_elem? message cursor) [
  | none ↦ err (buffer_too_short 1 cursor 0)
  | some kind_byte ↦
      let tag = bit_and kind_byte pointer_tag_mask in
      if kind_byte == 0
      then finish message offset (saturating_add (saturating_sub cursor offset) 1)
      else if tag == 0
      then skip_label message cursor kind_byte continue
      else if tag == pointer_tag
      then skip_pointer message offset cursor
      else err (invalid_label_kind kind_byte)
]

unfoldable pub parse_loop : ℕ → List ℕ → ℕ → ℕ → Parsed (NameRef × ℕ)
parse_loop zero message offset cursor = stuck
parse_loop (suc fuel) message offset cursor =
    parse_round message offset cursor (parse_loop fuel message offset)

-- Every round but the last moves the cursor forward within the message.
unfoldable pub try_parse : List ℕ → ℕ → Parsed (NameRef × ℕ)
try_parse message offset = parse_loop (suc (length message)) message offset offset

pub record NameLabels : Type 0 where
  pub message : List ℕ
  pub cursor : ℕ
  pub hops_remaining : ℕ
  pub wire_octets : ℕ
  pub done : Bool

abbrev pub Label : Type 0
Label = List ℕ

-- The state after a call of `next`, and what the call answers.
abbrev pub Yield : Type 0
Yield = NameLabels × Option (Parsed Label)

unfoldable pub labels : NameRef → NameLabels
labels name = record {
  message = name.message;
  cursor = name.start;
  hops_remaining = max_pointer_hops;
  wire_octets = 1;
  done = false;
}

-- `self.done = true; return Some(Err(e))`
abbrev pub fail : NameLabels → ParseError → Yield
fail s e = (record s { done = true }, some (err e))

-- The arm of a length-prefixed label in `next`.
abbrev pub next_label : NameLabels → ℕ → Yield
next_label s kind_byte =
    if ltb max_label_bytes kind_byte
    then fail s (label_too_long kind_byte)
    else let after_len = saturating_add s.cursor 1 in
      let label_end = saturating_add after_len kind_byte in
      elim (slice? s.message after_len label_end) [
        | none ↦
            fail s
              (buffer_too_short kind_byte after_len (saturating_sub (length s.message) after_len))
        | some label ↦
            let octets = saturating_add s.wire_octets (saturating_add 1 kind_byte) in
            let s' = record s { wire_octets = octets } in
            if ltb max_name_bytes octets
            then fail s' (name_too_long octets)
            else elim (u16_try_from label_end) [
              | ok v ↦ (record s' { cursor = v }, some (ok label))
              | err e ↦ fail s' e
              | stuck ↦ (s', some stuck)
            ]
      ]

-- The arm of a pointer once a hop has been taken off; `continue` is the next round of the loop.
abbrev pub next_pointer : NameLabels → ℕ → (NameLabels → Yield) → Yield
next_pointer s kind_byte continue =
    let after_first = saturating_add s.cursor 1 in
    elim (get_elem? s.message after_first) [
      | none ↦ fail s (buffer_too_short 1 after_first 0)
      | some second ↦
          let target = bit_and kind_byte pointer_offset_hi_mask * 256 + second in
          if ltb target s.cursor
          then continue (record s { cursor = target })
          else fail s (pointer_forward target s.cursor)
    ]

-- One round of the loop of `next`; `pointer` is the arm of a pointer.
unfoldable pub next_round : NameLabels → (ℕ → Yield) → Yield
next_round s pointer = elim (get_elem? s.message s.cursor) [
  | none ↦ fail s (buffer_too_short 1 s.cursor 0)
  | some kind_byte ↦
      let tag = bit_and kind_byte pointer_tag_mask in
      if kind_byte == 0
      then (record s { done = true }, none)
      else if tag == 0
      then next_label s kind_byte
      else if tag == pointer_tag
      then pointer kind_byte
      else fail s (invalid_label_kind kind_byte)
]

-- The loop of `next`. It recurs on the hops left, which the state keeps as `hops_remaining`.
unfoldable pub next_loop : ℕ → NameLabels → Yield
next_loop zero s = next_round s (λ _. fail s (pointer_chain_too_long max_pointer_hops))
next_loop (suc hops) s =
    next_round s
      (λ kind_byte. next_pointer (record s { hops_remaining = hops }) kind_byte (next_loop hops))

unfoldable pub next : NameLabels → Yield
next s = if s.done then (s, none) else next_loop s.hops_remaining s
