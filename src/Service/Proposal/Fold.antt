-- ===== src/Service/Proposal/Fold.antt =====
-- The fold of a proposal, against the comparison of two sorted lists.
use hick.Prelude.{
  ℕ, zero, suc, ◌≤◌, ◌≡◌, refl, sym, ap, ◌∙◌, arith, List, [], ◌∷◌, Ordering, is_greater, cmp_nat,
  cmp_nat-IsOrder, cmp_lists, cmp_lists-IsOrder, IsOrder, insert, sort, insert_comm, length, take,
  ltb, saturating_add, Bool-cases, inl, inr,
}
use hick.Service.Proposal.{cmp_bytes, ProposalFold, partition_point, insert_at, offer}

abbrev pub cmp_proposals : List (List ℕ) → List (List ℕ) → Ordering
cmp_proposals = cmp_lists cmp_bytes

pub cmp_bytes-IsOrder : IsOrder cmp_bytes
cmp_bytes-IsOrder = cmp_lists-IsOrder cmp_nat cmp_nat-IsOrder

pub cmp_proposals-IsOrder : IsOrder cmp_proposals
cmp_proposals-IsOrder = cmp_lists-IsOrder cmp_bytes cmp_bytes-IsOrder

insert_at-partition_point :
    (es : List (List ℕ)) (elem : List ℕ)
    → insert_at (partition_point es elem) elem es ≡ insert cmp_bytes elem es
unfolding insert_at partition_point insert
insert_at-partition_point [] elem = refl
insert_at-partition_point (e ∷ es) elem = elim (Bool-cases (is_greater (cmp_bytes e elem))) [
  | inl p ↦ rw (p) refl
  | inr p ↦ rw (p) (ap (◌∷◌ e) (insert_at-partition_point es elem))
]

take-take : {A : Type 0} (k j : ℕ) (xs : List A) → k ≤ j → take k (take j xs) ≡ take k xs
take-take zero j xs h = refl
take-take (suc k) zero xs h = absurd (omega arith)
take-take (suc k) (suc j) [] h = refl
take-take (suc k) (suc j) (x ∷ xs) h = ap (◌∷◌ x) (take-take k j xs (omega arith))

take_front :
    (k : ℕ) (elem e : List ℕ) (es : List (List ℕ))
    → elem ∷ take k (e ∷ take k es) ≡ elem ∷ take k (e ∷ es)
take_front zero elem e es = refl
take_front (suc k) elem e es = ap (λ xs. elem ∷ e ∷ xs) (take-take k (suc k) es (omega arith))

-- The smallest elements of a list with one more.
take-insert :
    (k : ℕ) (es : List (List ℕ)) (elem : List ℕ)
    → take k (insert cmp_bytes elem (take k es)) ≡ take k (insert cmp_bytes elem es)
unfolding insert
take-insert zero es elem = refl
take-insert (suc k) [] elem = refl
take-insert (suc k) (e ∷ es) elem = elim (Bool-cases (is_greater (cmp_bytes e elem))) [
  | inl p ↦ rw (p) (take_front k elem e es)
  | inr p ↦ rw (p) (ap (◌∷◌ e) (take-insert k es elem))
]

-- An element behind the first `k` of them.
take-insert_past :
    (k : ℕ) (es : List (List ℕ)) (elem : List ℕ)
    → k ≤ partition_point (take k es) elem
    → take k (insert cmp_bytes elem es) ≡ take k es
unfolding insert partition_point
take-insert_past zero es elem h = refl
take-insert_past (suc k) [] elem h = absurd (omega arith)
take-insert_past (suc k) (e ∷ es) elem h = elim (Bool-cases (is_greater (cmp_bytes e elem))) [
  | inl p ↦ let no : suc k ≤ 0 = (rw (p) at h) in absurd (omega arith)
  | inr p ↦
      let more : suc k ≤ suc (partition_point (take k es) elem) = (rw (p) at h) in
      rw (p) (ap (◌∷◌ e) (take-insert_past k es elem (omega arith)))
]

pub take_nil : (k : ℕ) → [] ≡ take {A = List ℕ} k []
take_nil zero = refl
take_nil (suc k) = refl

-- What `offer` keeps of all that was offered.
offer-smallest :
    (f : ProposalFold) (s : List (List ℕ)) (elem : List ℕ)
    → f.smallest ≡ take f.keep s
    → (offer f elem).smallest ≡ take f.keep (insert cmp_bytes elem s)
unfolding offer
offer-smallest f s elem h = elim (Bool-cases (ltb (partition_point f.smallest elem) f.keep)) [
  | inl p ↦
      rw (offer, p)
        (ap (take f.keep) (insert_at-partition_point f.smallest elem ∙ ap (insert cmp_bytes elem) h)
          ∙ take-insert f.keep s elem)
  | inr p ↦
      let same : partition_point f.smallest elem ≡ partition_point (take f.keep s) elem =
        ap (λ es. partition_point es elem) h in
      rw (offer, p) (h ∙ sym (take-insert_past f.keep s elem (ground arith)))
]

offer-count :
    (f : ProposalFold) (elem : List ℕ)
    → ((offer f elem).count ≡ saturating_add f.count 1) × ((offer f elem).keep ≡ f.keep)
unfolding offer
offer-count f elem = elim (Bool-cases (ltb (partition_point f.smallest elem) f.keep)) [
  | inl p ↦ rw (offer, p) (refl, refl)
  | inr p ↦ rw (offer, p) (refl, refl)
]

-- A fold to which the records of a proposal were offered, one after the other.
unfoldable pub offers : ProposalFold → List (List ℕ) → ProposalFold
unfolding offer
offers f [] = f
offers f (elem ∷ es) = offers (offer f elem) es

pub inserts : List (List ℕ) → List (List ℕ) → List (List ℕ)
inserts s [] = s
inserts s (elem ∷ es) = inserts (insert cmp_bytes elem s) es

insert-inserts :
    (s es : List (List ℕ)) (elem : List ℕ)
    → inserts (insert cmp_bytes elem s) es ≡ insert cmp_bytes elem (inserts s es)
unfolding inserts
insert-inserts s [] elem = refl
insert-inserts s (e ∷ es) elem =
    ap (λ x. inserts x es) (insert_comm cmp_bytes cmp_bytes-IsOrder e elem s)
    ∙ insert-inserts (insert cmp_bytes e s) es elem

pub inserts-sort : (es : List (List ℕ)) → inserts [] es ≡ sort cmp_bytes es
unfolding inserts sort
inserts-sort [] = refl
inserts-sort (e ∷ es) = insert-inserts [] es e ∙ ap (insert cmp_bytes e) (inserts-sort es)

pub offers-smallest :
    (f : ProposalFold) (s es : List (List ℕ))
    → f.smallest ≡ take f.keep s
    → (offers f es).smallest ≡ take f.keep (inserts s es)
unfolding offers inserts
offers-smallest f s [] h = h
offers-smallest f s (e ∷ es) h =
    let (_, keep) = offer-count f e in
    let first = offer-smallest f s e h ∙ ap (λ k. take k (insert cmp_bytes e s)) (sym keep) in
    offers-smallest (offer f e) (insert cmp_bytes e s) es first
    ∙ ap (λ k. take k (inserts (insert cmp_bytes e s) es)) keep

pub offers-count :
    (f : ProposalFold) (es : List (List ℕ))
    → f.count ≤ 18446744073709551615
    → (offers f es).count ≡ saturating_add f.count (length es)
unfolding offers
offers-count f [] h = omega arith
offers-count f (e ∷ es) h =
    let (count, _) = offer-count f e in
    offers-count (offer f e) es (omega (arith, count)) ∙ omega (arith, count)

length-insert : (e : List ℕ) (es : List (List ℕ)) → length (insert cmp_bytes e es) ≡ suc (length es)
unfolding insert
length-insert e [] = refl
length-insert e (x ∷ es) = elim (Bool-cases (is_greater (cmp_bytes x e))) [
  | inl p ↦ rw (p) refl
  | inr p ↦ rw (p) (ap suc (length-insert e es))
]

pub length-sort : (es : List (List ℕ)) → length (sort cmp_bytes es) ≡ length es
unfolding sort
length-sort [] = refl
length-sort (e ∷ es) = length-insert e (sort cmp_bytes es) ∙ ap suc (length-sort es)
