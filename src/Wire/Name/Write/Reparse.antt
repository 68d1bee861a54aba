-- ===== src/Wire/Name/Write/Reparse.antt =====
-- What `write_wire` appends, read back as a name.
use hick.Prelude.{
  ℕ, suc, ◌+◌, ◌≤◌, ◌<◌, ◌≡◌, refl, sym, ap, ◌∙◌, arith, Bool, true, false, List, [], ◌∷◌, ◌++◌,
  map, ok, err, stuck, ◌>>=◌, length, length-append, IsSlice, AreBytes, IsByte, All, All-append,
  All-slice?, to_ascii_lowercase, get_elem?-length, slice?-append_cons, length-slice?,
}
use mathlib.Core.Path.{subst₂}
use mathlib.Core.List.{append_assoc}
use hick.Wire.Error.{Parsed}
use hick.Wire.Name.{NameRef, Label}
use hick.Wire.Name.Spells.{Spells, root, label, pointer, octets}
use hick.Wire.Name.Decode.{decode, decode-iff-Spells}
use hick.Wire.Name.Write.{write_wire}
use hick.Wire.Name.Write.Laws.{folded, encoding, Writes, write_wire-Writes}

-- A label as the wire carries it.
abbrev pub IsLabel : Label → Type 0
IsLabel l = (0 < length l) × (length l < 64) × AreBytes l

pub Spells-IsLabel :
    (m : List ℕ) {h c : ℕ} {ls : List Label} → AreBytes m → Spells m h c ls → All IsLabel ls
Spells-IsLabel m bytes (root e) = tt
Spells-IsLabel m {c = c} bytes (label b l e p q slice near sp) =
    let len = length-slice? m (c + 1) (c + 1 + b) slice in
    (
      (omega arith, omega arith, All-slice? IsByte m (c + 1) (c + 1 + b) l bytes slice),
      Spells-IsLabel m bytes sp,
    )
Spells-IsLabel m bytes (pointer hi lo e p e' q sp) = Spells-IsLabel m bytes sp

length-lowercase : (l : Label) → length (map to_ascii_lowercase l) ≡ length l
length-lowercase [] = refl
length-lowercase (x ∷ l) = ap suc (length-lowercase l)

pub length-folded : (fold_case : Bool) (l : Label) → length (folded fold_case l) ≡ length l
length-folded true l = length-lowercase l
length-folded false l = refl

lowercase-AreBytes : (l : Label) → AreBytes l → AreBytes (map to_ascii_lowercase l)
lowercase-AreBytes [] a = tt
lowercase-AreBytes (x ∷ l) a = (ground arith, lowercase-AreBytes l a.1)

folded-AreBytes : (fold_case : Bool) (l : Label) → AreBytes l → AreBytes (folded fold_case l)
folded-AreBytes true l a = lowercase-AreBytes l a
folded-AreBytes false l a = a

encoding-AreBytes :
    (fold_case : Bool) (ls : List Label) → All IsLabel ls → AreBytes (encoding fold_case ls)
encoding-AreBytes fold_case [] a = omega arith
encoding-AreBytes fold_case (l ∷ ls) a = (
  omega arith,
  All-append IsByte _ _ (folded-AreBytes fold_case l a.0.2) (encoding-AreBytes fold_case ls a.1),
)

pub octets-folded :
    (fold_case : Bool) (ls : List Label) → octets (map (folded fold_case) ls) ≡ octets ls
octets-folded fold_case [] = refl
octets-folded fold_case (l ∷ ls) =
    omega (arith, length-folded fold_case l, octets-folded fold_case ls)

-- The encoding, behind any bytes, spells the labels with no pointer at all.
pub Spells-encoding :
    (fold_case : Bool) (ls : List Label) (before : List ℕ) (h : ℕ)
    → All IsLabel ls
    → length (before ++ encoding fold_case ls) < 0x10000
    → Spells (before ++ encoding fold_case ls) h (length before) (map (folded fold_case) ls)
Spells-encoding fold_case [] before h a near = root (get_elem?-length before 0 [])
Spells-encoding fold_case (l ∷ ls) before h a near =
    let f = folded fold_case l in
    let r = encoding fold_case ls in
    let len = length-folded fold_case l in
    let whole : (before ++ length l ∷ f) ++ r ≡ before ++ length l ∷ (f ++ r) =
      append_assoc before (length l ∷ f) r in
    let next : length (before ++ length l ∷ f) ≡ length before + 1 + length l =
      length-append before (length l ∷ f) ∙ omega arith in
    let bound = length-append before (length l ∷ (f ++ r)) in
    label (length l) f (get_elem?-length before (length l) (f ++ r)) a.0.0 a.0.1
      (slice?-append_cons before (length l) f r (length l) (sym len))
      (omega (arith, length-append f r))
      (subst₂ (λ m c. Spells m h c (map (folded fold_case) ls)) whole next
        (Spells-encoding fold_case ls (before ++ length l ∷ f) h a.1 (rw whole near)))

-- The encoding of well-formed labels reads back, behind any bytes.
pub decode-encoding :
    (fold_case : Bool) (ls : List Label) (before : List ℕ)
    → All IsLabel ls
    → AreBytes before
    → octets ls ≤ 254
    → length (before ++ encoding fold_case ls) < 0x10000
    → decode (record { message = before ++ encoding fold_case ls; start = length before })
      ≡ ok (map (folded fold_case) ls)
decode-encoding fold_case ls before a old short near =
    (decode-iff-Spells (record { message = before ++ encoding fold_case ls; start = length before })
        (map (folded fold_case) ls)
        (All-append IsByte before _ old (encoding-AreBytes fold_case ls a)) (omega arith)).1
      (Spells-encoding fold_case ls before 32 a near, omega (arith, octets-folded fold_case ls))

read_back :
    (name : NameRef) (fold_case : Bool) (out out' : List ℕ) (r : Parsed (List Label))
    → AreBytes name.message
    → IsSlice name.message
    → AreBytes out
    → decode name ≡ r
    → Writes fold_case out r (out', ok tt)
    → length out' < 0x10000
    → decode (record { message = out'; start = length out })
      ≡ (do ls ← r; ok (map (folded fold_case) ls))
unfolding Writes
read_back name fold_case out out' (ok ls) bytes fits old e w near =
    let (spelled, short) = (decode-iff-Spells name ls bytes fits).0 e in
    let eq : out' ≡ out ++ encoding fold_case ls = cc w in
    rw eq (
      decode-encoding fold_case ls out (Spells-IsLabel name.message bytes spelled) old (omega arith)
        (rw eq at near))
read_back name fold_case out out' (err x) bytes fits old e w near = cc w
read_back name fold_case out out' stuck bytes fits old e w near = cc w

-- Where a name in a message of bytes (whose length fits in an isize) is written behind other bytes,
-- and the result is shorter than 2^16, reading it back gives the labels of the name, in the case
-- asked for, wherever the name had its pointers.
pub decode-write_wire :
    (name : NameRef) (fold_case : Bool) (out out' : List ℕ)
    → AreBytes name.message
    → IsSlice name.message
    → AreBytes out
    → write_wire name fold_case out ≡ (out', ok tt)
    → length out' < 0x10000
    → decode (record { message = out'; start = length out })
      ≡ (do ls ← decode name; ok (map (folded fold_case) ls))
decode-write_wire name fold_case out out' bytes fits old e near =
    read_back name fold_case out out' (decode name) bytes fits old refl
      (rw e at (write_wire-Writes name fold_case out bytes fits)) near
