-- ===== src/Wire/Writer.antt =====
-- Code that appends to a `&mut Vec<u8>` and may fail: the bytes so far go in, and come out with the
-- result. `?` keeps what had been written when a step failed.
use hick.Prelude.{ℕ, List, ◌++◌, ok, err, stuck}
use hick.Wire.Error.{ParseError, Parsed}

abbrev pub Writer : Type 0 → Type 0
Writer A = List ℕ → List ℕ × Parsed A

-- The steps after one that has left `out` and a result.
abbrev pub after : {A B : Type 0} → List ℕ × Parsed A → (A → Writer B) → List ℕ × Parsed B
after (out, ok a) f = f a out
after (out, err e) f = (out, err e)
after (out, stuck) f = (out, stuck)

infixl 5 ◌>>=◌ ◌>>◌
abbrev pub ◌>>=◌ : {A B : Type 0} → Writer A → (A → Writer B) → Writer B
◌>>=◌ m f out = after (m out) f

abbrev pub ◌>>◌ : {B : Type 0} → Writer (Unit {0}) → Writer B → Writer B
m >> k = m >>= λ _. k

abbrev pub pure : {A : Type 0} → A → Writer A
pure a out = (out, ok a)

abbrev pub throw : {A : Type 0} → ParseError → Writer A
throw e out = (out, err e)

-- A result used with `?`.
abbrev pub lift : {A : Type 0} → Parsed A → Writer A
lift r out = (out, r)

-- `out.extend_from_slice(bytes)`
abbrev pub put : List ℕ → Writer (Unit {0})
put bytes out = (out ++ bytes, ok tt)
