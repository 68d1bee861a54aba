-- ===== src/Wire/Name/Write/Laws.antt =====
-- What `write_wire` appends, in terms of the labels of the name.
use hick.Prelude.{
  ℕ, zero, suc, ◌+◌, ◌≤◌, ◌<◌, ◌≡◌, refl, arith, Bool, List, [], ◌∷◌, ◌++◌, some, map, ok, err,
  stuck, ◌>>=◌, length, take, IsSlice, AreBytes, to_ascii_lowercase, if◌then◌else◌,
}
use mathlib.Core.List.{append_assoc}
use hick.Wire.Error.{Parsed}
use hick.Wire.Name.{NameRef, NameLabels, Label, Yield, labels}
use hick.Wire.Name.Round.{at}
use hick.Wire.Name.View.{View, ended, yielded, failed, next-View}
use hick.Wire.Name.Decode.{collect_item, collect, decode}
use hick.Wire.Name.Write.{Written, copied, write_item, write_loop, write_wire}

-- A label in the case that `write_wire` is asked for.
abbrev pub folded : Bool → Label → Label
folded fold_case label = if fold_case then map to_ascii_lowercase label else label

-- The uncompressed form of RFC 1035 §3.1: each label behind its length, then the root.
abbrev pub encoding : Bool → List Label → List ℕ
encoding fold_case [] = 0 ∷ []
encoding fold_case (l ∷ ls) = length l ∷ folded fold_case l ++ encoding fold_case ls

take_all : (n : ℕ) (l : Label) → length l ≤ n → take n l ≡ l
take_all zero [] h = refl
take_all zero (x ∷ l) h = absurd (omega arith)
take_all (suc n) [] h = refl
take_all (suc n) (x ∷ l) h = rw (take_all n l (omega arith))

-- `r` is what writing labels as collected comes to.
unfoldable pub Writes : Bool → List ℕ → Parsed (List Label) → Written → Type 0
Writes fold_case out (ok ls) r = r ≡ (out ++ encoding fold_case ls, ok tt)
Writes fold_case out (err e) r = r.1 ≡ err e
Writes fold_case out stuck r = r.1 ≡ stuck

Writes-cons :
    (fold_case : Bool) (out : List ℕ) (l : Label) (c : Parsed (List Label)) (r : Written)
    → Writes fold_case (out ++ length l ∷ folded fold_case l) c r
    → Writes fold_case out (c >>= λ ls. ok (l ∷ ls)) r
unfolding Writes
Writes-cons fold_case out l (ok ls) r h = rw append_assoc at h
Writes-cons fold_case out l (err e) r h = h
Writes-cons fold_case out l stuck r h = h

copied_all :
    (fold_case : Bool) (l : Label) → length l < 64 → copied fold_case l ≡ folded fold_case l
copied_all fold_case l h = rw (take_all 63 l (omega arith))

write_item-label :
    (fold_case : Bool) (w : ℕ) (out : List ℕ) (s : NameLabels) (l : Label)
    (continue : NameLabels → ℕ → List ℕ → Written)
    → 0 < length l
    → length l < 64
    → w + suc (length l) ≤ 255
    → write_item fold_case w out (s, some (ok l)) continue
      ≡ continue s (w + suc (length l)) (out ++ length l ∷ folded fold_case l)
unfolding write_item
write_item-label fold_case w out s l continue pos small short =
    rw (copied_all fold_case l small) (ground arith)

write_item-Writes :
    (m : List ℕ) (fuel h c w : ℕ) (fold_case : Bool) (out : List ℕ) {y : Yield}
    → w ≤ 255
    → View m h c w y
    → ((h' c' w' : ℕ) (out' : List ℕ)
        → w' ≤ 255
        → Writes fold_case out'
            (collect fuel (at m h' c' w'))
            (write_loop fuel fold_case (at m h' c' w') w' out'))
    → Writes fold_case out
        (collect_item y (collect fuel))
        (write_item fold_case w out y (write_loop fuel fold_case))
unfolding collect_item write_item
write_item-Writes m fuel h c w fold_case out hw (ended s a d sp) ih = rw a (unfold Writes in refl)
write_item-Writes m fuel h c w fold_case out hw (failed s x a d) ih = rw a (unfold Writes in refl)
write_item-Writes m fuel h c w fold_case out hw (yielded h' c' l a pos small short sp) ih = rw a (
    rw
      (write_item-label fold_case w out (at m h' c' (w + suc (length l))) l
        (write_loop fuel fold_case) pos small short)
      (Writes-cons fold_case out l _ _
        (ih h' c' (w + suc (length l)) (out ++ length l ∷ folded fold_case l) short)))

module _ (m : List ℕ) (bytes : AreBytes m) (fits : IsSlice m) (fold_case : Bool) where
  write_loop-Writes :
      (fuel h c w : ℕ) (out : List ℕ)
      → w ≤ 255
      → Writes fold_case out
          (collect fuel (at m h c w))
          (write_loop fuel fold_case (at m h c w) w out)
  unfolding collect write_loop
  write_loop-Writes zero h c w out hw = unfold Writes in refl
  write_loop-Writes (suc fuel) h c w out hw =
      write_item-Writes m fuel h c w fold_case out hw (next-View m bytes fits w hw h c)
        (λ h' c' w' out' hw'. write_loop-Writes fuel h' c' w' out' hw')

-- For a name in a message of bytes whose length fits in an isize: where the name decodes,
-- `write_wire` appends the encoding of its labels in the case asked for and succeeds; where it does
-- not, `write_wire` fails with the same error.
pub write_wire-Writes :
    (name : NameRef) (fold_case : Bool) (out : List ℕ)
    → AreBytes name.message
    → IsSlice name.message
    → Writes fold_case out (decode name) (write_wire name fold_case out)
unfolding decode write_wire labels
write_wire-Writes name fold_case out bytes fits =
    write_loop-Writes name.message bytes fits fold_case 128 32 name.start 1 out (omega arith)
