-- ===== src/Wire/Rdata/Segments.antt =====
-- mdns-proto/src/wire/record/txt.rs: the strings of a TXT record. `TxtSegments` is what is left of
-- the rdata. The arm for `self.rest.get(1..)` being `None` cannot be reached behind `first()`.
use hick.Prelude.{
  ℕ, List, [], ◌∷◌, Option, none, some, ok, err, ltb, if◌then◌else◌, length, take, drop,
}
use hick.Wire.Error.{Parsed, buffer_too_short}

-- `TxtSegments::next`: what is left, and the item.
unfoldable pub next_segment : List ℕ → List ℕ × Option (Parsed (List ℕ))
next_segment [] = ([], none)
next_segment (len ∷ after_len) =
    if ltb (length after_len) len
    then ([], some (err (buffer_too_short len 0 (length after_len))))
    else (drop len after_len, some (ok (take len after_len)))
