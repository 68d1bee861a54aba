-- ===== src/Wire/Name/Decode.antt =====
-- All the labels that `NameLabels` yields for a name, against what the message spells.
use hick.Prelude.{
  ℕ, zero, suc, ◌+◌, ◌*◌, ◌≤◌, ◌≡◌, arith, List, [], ◌∷◌, none, some, ok, err, stuck, ◌>>=◌,
  >>=-eq-ok, length, length-slice?, IsSlice, AreBytes, ◌≢◌, ◌↔◌,
}
use mathlib.Core.Path.{subst}
use hick.Wire.Error.{Parsed}
use hick.Wire.Name.{NameRef, NameLabels, Label, Yield, next, labels}
use hick.Wire.Name.Round.{at}
use hick.Wire.Name.Spells.{Spells, root, label, pointer, octets}
use hick.Wire.Name.View.{
  View, ended, yielded, failed, next-View, next_root, next_label_ok, next_pointer_ok,
}

-- `for label in labels { let label = label?; … }`, collecting.
unfoldable pub collect_item : Yield → (NameLabels → Parsed (List Label)) → Parsed (List Label)
collect_item (s, none) continue = ok []
collect_item (s, some (ok l)) continue = do ls ← continue s; ok (l ∷ ls)
collect_item (s, some (err e)) continue = err e
collect_item (s, some stuck) continue = stuck

unfoldable pub collect : ℕ → NameLabels → Parsed (List Label)
collect zero s = stuck
collect (suc fuel) s = collect_item (next s) (collect fuel)

-- A label takes two octets at least, so 128 rounds are enough for a name of 255.
unfoldable pub decode : NameRef → Parsed (List Label)
decode name = collect 128 (labels name)

-- What is collected from a state with `w` octets counted: the message spells it, and it fits.
Collected : (m : List ℕ) (h c w : ℕ) (ls : List Label) → Type 0
Collected m h c w ls = Spells m h c ls × (w + octets ls ≤ 255)

collect_item-Collected :
    (m : List ℕ) (continue : NameLabels → Parsed (List Label)) (h c w : ℕ) (ls : List Label)
    {y : Yield}
    → w ≤ 255
    → View m h c w y
    → ((h' c' w' : ℕ) (ls' : List Label)
        → w' ≤ 255
        → continue (at m h' c' w') ≡ ok ls'
        → Collected m h' c' w' ls')
    → collect_item y continue ≡ ok ls
    → Collected m h c w ls
unfolding collect_item Collected
collect_item-Collected m continue h c w ls hw (ended s a d sp) ih e =
    subst (Collected m h c w) (cc (rw a at e)) (sp, omega arith)
collect_item-Collected m continue h c w ls hw (yielded h' c' l a pos small short sp) ih e =
    let (rest, e₁, e₂) =
      >>=-eq-ok (continue (at m h' c' (w + suc (length l)))) (λ r. ok (l ∷ r)) (rw a at e) in
    let (sp', short') = ih h' c' (w + suc (length l)) rest short e₁ in
    subst (Collected m h c w) (cc e₂) (sp rest sp', omega arith)
collect_item-Collected m continue h c w ls hw (failed s x a d) ih e = cc (rw a at e)

module _ (m : List ℕ) (bytes : AreBytes m) (fits : IsSlice m) where
  collect-Collected :
      (fuel h c w : ℕ) (ls : List Label)
      → w ≤ 255
      → collect fuel (at m h c w) ≡ ok ls
      → Collected m h c w ls
  unfolding collect
  collect-Collected zero h c w ls hw e = cc
  collect-Collected (suc fuel) h c w ls hw e =
      collect_item-Collected m (collect fuel) h c w ls hw (next-View m bytes fits w hw h c)
        (collect-Collected fuel) e

  -- Enough fuel collects all that the message spells, if it fits.
  collect_complete :
      (fuel w : ℕ) {h c : ℕ} {ls : List Label}
      → Spells m h c ls
      → w + octets ls ≤ 255
      → 256 ≤ w + 2 * fuel
      → collect fuel (at m h c w) ≡ ok ls
  unfolding collect collect_item
  collect_complete zero w sp short enough = absurd (omega arith)
  collect_complete (suc fuel) w {h} {c} (root e) short enough = rw (next_root m fits h c w e)
  collect_complete (suc fuel) w {h} {c} (label {ls = ls} b l e p q slice near sp) short enough =
      let len = length-slice? m (c + 1) (c + 1 + b) slice in
      rw (
        next_label_ok m fits h c w b l e p q slice (omega arith) near,
        collect_complete fuel (w + 1 + b) sp (omega arith) (omega arith),
      )
  collect_complete (suc fuel) w {c = c} (pointer {h = h} hi lo e p e' back sp) short enough =
      rw (next_pointer_ok m fits h c w hi lo e p e' back)
        (collect_complete (suc fuel) w sp short enough)

collect_item-ne-stuck :
    (m : List ℕ) (continue : NameLabels → Parsed (List Label)) (h c w : ℕ) {y : Yield}
    → View m h c w y
    → ((h' c' w' : ℕ) → w + 2 ≤ w' → w' ≤ 255 → continue (at m h' c' w') ≢ stuck)
    → collect_item y continue ≢ stuck
unfolding collect_item
collect_item-ne-stuck m continue h c w (ended s a d sp) ih = rw a (λ e. cc)
collect_item-ne-stuck m continue h c w (yielded h' c' l a pos small short sp) ih =
    rw a (λ e. ground (arith, ih h' c' (w + suc (length l)) (omega arith) short))
collect_item-ne-stuck m continue h c w (failed s x a d) ih = rw a (λ e. cc)

collect-ne-stuck :
    (m : List ℕ)
    → AreBytes m
    → IsSlice m
    → (fuel h c w : ℕ) → w ≤ 255
    → 256 ≤ w + 2 * fuel
    → collect fuel (at m h c w) ≢ stuck
unfolding collect
collect-ne-stuck m bytes fits zero h c w hw enough = absurd (omega arith)
collect-ne-stuck m bytes fits (suc fuel) h c w hw enough =
    collect_item-ne-stuck m (collect fuel) h c w (next-View m bytes fits w hw h c)
      (λ h' c' w' more hw'. collect-ne-stuck m bytes fits fuel h' c' w' hw' (omega arith))

-- The iteration ends on every name in a message of bytes whose length fits in an isize.
pub decode-ne-stuck :
    (name : NameRef) → AreBytes name.message → IsSlice name.message → decode name ≢ stuck
unfolding decode labels
decode-ne-stuck name bytes fits =
    collect-ne-stuck name.message bytes fits 128 32 name.start 1 (omega arith) (omega arith)

-- In a message of bytes whose length fits in an isize, the labels of a name are exactly what the
-- message spells at its start, through at most 32
-- pointers that point strictly backwards, where the uncompressed form has at most 255 octets.
pub decode-iff-Spells :
    (name : NameRef) (ls : List Label)
    → AreBytes name.message
    → IsSlice name.message
    → (decode name ≡ ok ls) ↔ (Spells name.message 32 name.start ls × (1 + octets ls ≤ 255))
unfolding decode labels
decode-iff-Spells name ls bytes fits = (
  λ e.
      unfold Collected in
      collect-Collected name.message bytes fits 128 32 name.start 1 ls (omega arith) e,
  λ c. collect_complete name.message bytes fits 128 1 c.0 c.1 (omega arith),
)
