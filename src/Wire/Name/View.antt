-- ===== src/Wire/Name/View.antt =====
-- What one call of `NameLabels::next` answers, seen against what the message spells.
use hick.Prelude.{
  ℕ, zero, suc, ◌+◌, ◌*◌, ◌≤◌, ◌<◌, ◌≡◌, refl, ◌∙◌, arith, true, List, [], ◌∷◌, none, some, ok, err,
  length, get_elem?, slice?, length-slice?, IsSlice, AreBytes, get_elem?-lt, inl, inr,
}
use hick.Wire.Error.{ParseError, pointer_chain_too_long}
use hick.Wire.Name.{NameLabels, Label, Yield, next_label, next_round, next_loop, next}
use hick.Wire.Name.Round.{
  at, round_out, round_root, round_label, round_pointer, round_bad, Head, head, pointer_arm,
  next_loop-round,
}
use hick.Wire.Name.Arms.{label_ok, label_cases, pointer_ok, pointer_cases}
use hick.Wire.Name.Spells.{Spells, root, label, pointer}

pointer_zero :
    (m : List ℕ) (c w hi : ℕ)
    → pointer_arm 0 (at m 0 c w) (192 + hi)
      ≡ (record (at m 0 c w) { done = true }, some (err (pointer_chain_too_long 32)))
unfolding pointer_arm
pointer_zero m c w hi = refl

-- What a call of `next` answers, from a state at the offset `c` with `h` hops left.
pub data View (m : List ℕ) (h c w : ℕ) (y : Yield) : Type 0 where
  ended : (s : NameLabels) → y ≡ (s, none) → s.done ≡ true → Spells m h c [] → View m h c w y
  yielded :
      (h' c' : ℕ) (l : Label)
      → y ≡ (at m h' c' (w + suc (length l)), some (ok l))
      → 0 < length l
      → length l < 64
      → w + suc (length l) ≤ 255
      → ((ls : List Label) → Spells m h' c' ls → Spells m h c (l ∷ ls))
      → View m h c w y
  failed :
      (s : NameLabels) (e : ParseError) → y ≡ (s, some (err e)) → s.done ≡ true → View m h c w y

module _ (m : List ℕ) (bytes : AreBytes m) (fits : IsSlice m) (w : ℕ) (hw : w ≤ 255) where
  View-label :
      (h c b : ℕ)
      → get_elem? m c ≡ some b
      → 0 < b
      → b < 64
      → View m h c w (next_label (at m h c w) b)
  View-label h c b e p q = elim (label_cases m h c w b fits (get_elem?-lt m c e) q hw) [
    | inr (s, x, fails, done) ↦ failed s x fails done
    | inl (l, yields, slice, short, near) ↦
        let len : b ≡ length l = omega (arith, length-slice? m (c + 1) (c + 1 + b) slice) in
        yielded h (c + 1 + b) l (yields ∙ ground arith) (omega arith) (omega arith) (omega arith)
          (λ ls rest. label b l e p q slice near rest)
  ]

  View-pointer :
      (h c hi lo : ℕ)
      → get_elem? m c ≡ some (192 + hi)
      → hi < 64
      → get_elem? m (c + 1) ≡ some lo
      → hi * 256 + lo < c
      → (y : Yield) → View m h (hi * 256 + lo) w y
      → View m (suc h) c w y
  View-pointer h c hi lo e p e' q y (ended s a d sp) = ended s a d (pointer hi lo e p e' q sp)
  View-pointer h c hi lo e p e' q y (yielded h' c' l a b b' d sp) =
      yielded h' c' l a b b' d (λ ls rest. pointer hi lo e p e' q (sp ls rest))
  View-pointer h c hi lo e p e' q y (failed s x a d) = failed s x a d

  View-round :
      (h c : ℕ)
      → Head m c
      → ((hi : ℕ)
          → get_elem? m c ≡ some (192 + hi)
          → hi < 64
          → View m h c w (pointer_arm h (at m h c w) (192 + hi)))
      → View m h c w (next_round (at m h c w) (pointer_arm h (at m h c w)))
  View-round h c (Head.out e) ih = failed _ _ (round_out _ _ e) refl
  View-round h c (Head.root e) ih = ended _ (round_root _ _ e) refl (root e)
  View-round h c (Head.label b e p q) ih =
      rw (round_label (at m h c w) (pointer_arm h (at m h c w)) b e p q) (View-label h c b e p q)
  View-round h c (Head.bad b e p q) ih = failed _ _ (round_bad _ _ b e p q) refl
  View-round h c (Head.pointer hi e p) ih =
      rw
        (round_pointer (at m h c w) (pointer_arm h (at m h c w)) (192 + hi) e (omega arith)
          (omega arith))
        (ih hi e p)

  next_loop-View : (h c : ℕ) → View m h c w (next_loop h (at m h c w))
  next_loop-View zero c =
      rw next_loop-round
        (View-round zero c (head m c bytes) (λ hi e p. failed _ _ (pointer_zero m c w hi) refl))
  next_loop-View (suc h) c = rw next_loop-round (
      View-round (suc h) c (head m c bytes) (λ hi e p.
        elim (pointer_cases m h c w hi fits (get_elem?-lt m c e) p) [
          | inl (lo, e', back, follows) ↦
              rw follows (View-pointer h c hi lo e p e' back _ (next_loop-View h (hi * 256 + lo)))
          | inr (s, x, fails, done) ↦ failed s x fails done
        ]))

  pub next-View : (h c : ℕ) → View m h c w (next (at m h c w))
  unfolding next
  next-View h c = next_loop-View h c

module _ (m : List ℕ) (fits : IsSlice m) where
  pub next_root :
      (h c w : ℕ)
      → get_elem? m c ≡ some 0
      → next (at m h c w) ≡ (record (at m h c w) { done = true }, none)
  unfolding next
  next_root h c w e = next_loop-round h (at m h c w) ∙ round_root _ _ e

  pub next_label_ok :
      (h c w b : ℕ) (l : Label)
      → get_elem? m c ≡ some b
      → 0 < b
      → b < 64
      → slice? m (c + 1) (c + 1 + b) ≡ some l
      → w + 1 + b ≤ 255
      → c + 1 + b < 0x10000
      → next (at m h c w) ≡ (at m h (c + 1 + b) (w + 1 + b), some (ok l))
  unfolding next
  next_label_ok h c w b l e p q slice short near =
      next_loop-round h (at m h c w)
      ∙ round_label _ _ b e p q
      ∙ label_ok m h c w b l slice q short near

  pub next_pointer_ok :
      (h c w hi lo : ℕ)
      → get_elem? m c ≡ some (192 + hi)
      → hi < 64
      → get_elem? m (c + 1) ≡ some lo
      → hi * 256 + lo < c
      → next (at m (suc h) c w) ≡ next (at m h (hi * 256 + lo) w)
  unfolding next
  next_pointer_ok h c w hi lo e p e' back =
      next_loop-round (suc h) (at m (suc h) c w)
      ∙ round_pointer _ _ (192 + hi) e (omega arith) (omega arith)
      ∙ pointer_ok m h c w hi lo fits (get_elem?-lt m c e) e' p back
