-- ===== src/Wire/Rdata/Strings.antt =====
-- The strings of a TXT record as `write_canonical_rdata` writes them.
use hick.Prelude.{
  ℕ, zero, suc, ◌≤◌, ◌<◌, ◌≡◌, ◌≢◌, sym, ap, ◌∙◌, arith, Bool, true, false, List, [], ◌∷◌, ◌++◌, ok,
  err, stuck, length, ltb, take, drop, take-append-drop, length-take, length-drop, Bool-cases, inl,
  inr, ltb→ge,
}
use mathlib.Core.Path.{ap₂}
use mathlib.Core.List.{append_assoc, append-nil}
use hick.Wire.Error.{Parsed}
use hick.Wire.Rdata.Segments.{next_segment}
use hick.Wire.Rdata.Canonical.{write_segment, write_segments}

-- The loop ends, and where it succeeds it has copied the rdata as it stood.
Copies : List ℕ → List ℕ → List ℕ × Parsed Bool → Type 0
Copies rest out (out', ok b) = out' ≡ out ++ rest
Copies rest out (out', err e) = Unit
Copies rest out (out', stuck) = ⊥

Copies-cons :
    (len : ℕ) (l : List ℕ) (out : List ℕ) (x : List ℕ × Parsed Bool)
    → len ≤ length l
    → Copies (drop len l) (out ++ length (take len l) ∷ take len l) x
    → Copies (len ∷ l) out x
unfolding Copies
Copies-cons len l out (out', ok b) h e =
    e
    ∙ append_assoc out (length (take len l) ∷ take len l) (drop len l)
    ∙ ap (λ t. out ++ t) (ap₂ (◌∷◌) (length-take len l ∙ omega arith) (take-append-drop len l))
Copies-cons len l out (out', err x) h e = tt
Copies-cons len l out (out', stuck) h e = e

segments-Copies :
    (fuel : ℕ) (rest : List ℕ) (wrote_any : Bool) (out : List ℕ)
    → length rest < fuel
    → Copies rest out (write_segments fuel rest wrote_any out)
unfolding write_segments next_segment write_segment
segments-Copies zero rest wrote_any out h = absurd (omega arith)
segments-Copies (suc fuel) [] wrote_any out h = unfold Copies in sym (append-nil out)
segments-Copies (suc fuel) (len ∷ l) wrote_any out h = elim (Bool-cases (ltb (length l) len)) [
  | inl short ↦ rw short (unfold Copies in tt)
  | inr fits ↦ rw fits (
      Copies-cons len l out _ (ltb→ge (length l) len fits) (
        segments-Copies fuel (drop len l) true (out ++ length (take len l) ∷ take len l)
          (omega (arith, length-drop len l))))
]

-- A TXT rdata that decodes is written as it stood, behind what had been written before.
pub segments_copy :
    (rest out : List ℕ) {out' : List ℕ} {b : Bool}
    → write_segments (suc (length rest)) rest false out ≡ (out', ok b)
    → out' ≡ out ++ rest
unfolding Copies
segments_copy rest out e =
    rw e at (segments-Copies (suc (length rest)) rest false out (omega arith))

Copies-ne-stuck : (rest out : List ℕ) (x : List ℕ × Parsed Bool) → Copies rest out x → x.1 ≢ stuck
unfolding Copies
Copies-ne-stuck rest out (out', ok b) c e = cc
Copies-ne-stuck rest out (out', err x) c e = cc
Copies-ne-stuck rest out (out', stuck) c e = c

-- The loop over the strings ends on every rdata.
pub segments-ne-stuck :
    (rest out : List ℕ) → (write_segments (suc (length rest)) rest false out).1 ≢ stuck
segments-ne-stuck rest out =
    Copies-ne-stuck rest out (write_segments (suc (length rest)) rest false out)
      (segments-Copies (suc (length rest)) rest false out (omega arith))
