-- ===== src/Service/Proposal/Verdict.antt =====
-- The verdict on a proposal, against the comparison of two sorted lists.
use hick.Prelude.{
  ℕ, suc, ◌≡◌, refl, ap, ◌∙◌, arith, Bool, true, false, List, [], ◌∷◌, less, equal, greater,
  is_greater, reverse, cmp_lists, sort, sort-Permᴰ, Ordering-cases, length, take, ltb, ◌⊎◌, inl,
  inr, IsSlice,
}
use mathlib.Core.Path.{ap₂}
use mathlib.Core.List.{Permᴰ}
use hick.Service.Proposal.{cmp_bytes, fold_new, wins_loop, peer_wins}
use hick.Service.Proposal.Fold.{
  cmp_proposals, cmp_bytes-IsOrder, cmp_proposals-IsOrder, inserts-sort, offers, offers-smallest,
  offers-count, length-sort, take_nil,
}

wins_loop-next :
    (p o : List ℕ) (ps os : List (List ℕ)) (after : Bool)
    → wins_loop (p ∷ ps) (o ∷ os) after
      ≡ (elim (cmp_bytes p o) [ equal ↦ wins_loop ps os after | less ↦ false | greater ↦ true ])
unfolding wins_loop
wins_loop-next p o ps os after = refl

-- The loop over the smallest and our list decides the comparison of the whole lists.
wins_loop-cmp :
    (s our : List (List ℕ))
    → wins_loop (take (length our) s) our (ltb (length our) (length s))
      ≡ is_greater (cmp_proposals s our)
unfolding wins_loop cmp_lists
wins_loop-cmp [] [] = refl
wins_loop-cmp (p ∷ s) [] = ground arith
wins_loop-cmp [] (o ∷ our) = ground arith
wins_loop-cmp (p ∷ s) (o ∷ our) =
    let after : ltb (suc (length our)) (suc (length s)) ≡ ltb (length our) (length s) =
      ground arith in
    wins_loop-next p o (take (length our) s) our (ltb (suc (length our)) (suc (length s)))
    ∙ elim (Ordering-cases (cmp_bytes p o)) [
      | inl e ↦ rw (e, after) (wins_loop-cmp s our)
      | inr (inl e) ↦ rw (e) refl
      | inr (inr e) ↦ rw (e) refl
    ]

-- The peer wins exactly when the sorted list of all its records comes after ours.
pub decide :
    (our es : List (List ℕ))
    → IsSlice our
    → peer_wins (offers (fold_new (length our)) es) our
      ≡ is_greater (cmp_proposals (sort cmp_bytes es) our)
unfolding peer_wins fold_new
decide our es fits =
    let f = fold_new (length our) in
    let kept : (offers f es).smallest ≡ take (length our) (sort cmp_bytes es) =
      offers-smallest f [] es (take_nil (length our)) ∙ ap (take (length our)) (inserts-sort es) in
    let count = offers-count f es (omega arith) in
    let sorted = length-sort es in
    let more : ltb (length our) (offers f es).count
        ≡ ltb (length our) (length (sort cmp_bytes es)) =
      ground arith in
    ap₂ (λ x y. wins_loop x our y) kept more ∙ wins_loop-cmp (sort cmp_bytes es) our

-- The records of a peer decide against a proposal of ours, which has fewer than two to the 63
-- records, as the comparison of the two lists in full: the peer's, sorted, against ours. What was
-- not kept and the order of the arrival make no difference.
pub peer_wins-sorted :
    (our es es' : List (List ℕ))
    → IsSlice our
    → Permᴰ es' es
    → peer_wins (offers (fold_new (length our)) es') our
      ≡ is_greater (cmp_proposals (sort cmp_bytes es) our)
peer_wins-sorted our es es' fits perm =
    decide our es' fits
    ∙ ap (λ xs. is_greater (cmp_proposals xs our)) (sort-Permᴰ cmp_bytes cmp_bytes-IsOrder perm)

-- What a host decides that has the records `ours`, where a peer proposes `theirs`.
unfoldable pub yields : List (List ℕ) → List (List ℕ) → Bool
unfolding offers
yields ours theirs =
    let our = sort cmp_bytes ours in peer_wins (offers (fold_new (length our)) theirs) our

yields-cmp :
    (ours theirs : List (List ℕ))
    → IsSlice ours
    → yields ours theirs ≡ is_greater (cmp_proposals (sort cmp_bytes theirs) (sort cmp_bytes ours))
unfolding yields
yields-cmp ours theirs fits = decide (sort cmp_bytes ours) theirs (omega (arith, length-sort ours))

-- Of two hosts that hear each other's proposal, with fewer than two to the 63 records each, exactly
-- one yields to the other, and none where the two propose the same records.
pub yields-exclusive :
    (a b : List (List ℕ))
    → IsSlice a
    → IsSlice b
    → ((sort cmp_bytes a ≡ sort cmp_bytes b) × (yields a b ≡ false) × (yields b a ≡ false))
      ⊎ (((yields a b ≡ true) × (yields b a ≡ false))
          ⊎ ((yields a b ≡ false) × (yields b a ≡ true)))
yields-exclusive a b fa fb =
    let sa = sort cmp_bytes a in
    let sb = sort cmp_bytes b in
    let order = cmp_proposals-IsOrder in
    let ab = yields-cmp a b fa in
    let ba = yields-cmp b a fb in
    elim (Ordering-cases (cmp_proposals sa sb)) [
      | inl e ↦ inl (
        order.unique sa sb e,
        ab ∙ ap is_greater (order.swap sa sb ∙ ap reverse e),
        ba ∙ ap is_greater e,
      )
      | inr (inl e) ↦
          inr (inl (ab ∙ ap is_greater (order.swap sa sb ∙ ap reverse e), ba ∙ ap is_greater e))
      | inr (inr e) ↦
          inr (inr (ab ∙ ap is_greater (order.swap sa sb ∙ ap reverse e), ba ∙ ap is_greater e))
    ]
