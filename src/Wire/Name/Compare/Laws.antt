-- ===== src/Wire/Name/Compare/Laws.antt =====
-- When two names compare equal.
use hick.Prelude.{
  ℕ, zero, suc, ◌+◌, ◌*◌, ◌≤◌, ◌≡◌, ◌≢◌, ◌∙◌, sym, ap, refl, arith, Bool, true, false, List, [],
  ◌∷◌, none, some, map, ok, err, stuck, ◌>>=◌, length, ◌==◌, if◌then◌else◌, to_ascii_lowercase,
  IsSlice, AreBytes, ◌↔◌, Option, Bool-cases, inl, inr,
}
use hick.Wire.Error.{ParseError, Parsed}
use hick.Wire.Name.{NameRef, Label, Yield, labels}
use hick.Wire.Name.Round.{at}
use hick.Wire.Name.View.{View, ended, yielded, failed, next-View}
use hick.Wire.Name.Decode.{collect_item, collect, decode}
use hick.Wire.Name.Compare.{
  bytes_match, labels_match, compare_round, compare_loop, equals_ignoring_case,
}

abbrev lower : Label → Label
lower = map to_ascii_lowercase

-- The byte loop of the source, against the lists from the index on.
bytes_match-cons :
    (n : ℕ) (x y : ℕ) (la lb : Label) (i : ℕ)
    → bytes_match n (x ∷ la) (y ∷ lb) (suc i) ≡ bytes_match n la lb i
unfolding bytes_match
bytes_match-cons zero x y la lb i = refl
bytes_match-cons (suc n) x y la lb i =
    let e : suc i + 1 ≡ suc (i + 1) = omega arith in
    let step : bytes_match n (x ∷ la) (y ∷ lb) (suc i + 1) ≡ bytes_match n la lb (i + 1) =
      ap (bytes_match n (x ∷ la) (y ∷ lb)) e ∙ bytes_match-cons n x y la lb (i + 1) in
    ground (arith, step)

bytes_match-lower :
    (la lb : Label)
    → length la ≡ length lb
    → (bytes_match (length la) la lb 0 ≡ true) ↔ (lower la ≡ lower lb)
unfolding bytes_match
bytes_match-lower [] [] h = (λ _. refl, λ _. refl)
bytes_match-lower [] (y ∷ lb) h = absurd (omega arith)
bytes_match-lower (x ∷ la) [] h = absurd (omega arith)
bytes_match-lower (x ∷ la) (y ∷ lb) h =
    let ih = bytes_match-lower la lb (omega arith) in
    (
      λ e. ground (arith, ih.0, bytes_match-cons (length la) x y la lb 0),
      λ e. ground (arith, ih.1, bytes_match-cons (length la) x y la lb 0),
    )

length-lower : (l : Label) → length (lower l) ≡ length l
length-lower [] = refl
length-lower (x ∷ l) = ap suc (length-lower l)

labels_match-lower : (la lb : Label) → (labels_match la lb ≡ true) ↔ (lower la ≡ lower lb)
unfolding labels_match
labels_match-lower la lb = elim (Bool-cases (length la == length lb)) [
  | inl same ↦ rw same (bytes_match-lower la lb (ground arith))
  | inr other ↦
      rw other (λ e. cc, λ e. ground (arith, ap length e, length-lower la, length-lower lb))
]

names_match : List Label → List Label → Bool
names_match [] [] = true
names_match (a ∷ la) (b ∷ lb) = if labels_match a b then names_match la lb else false
names_match _ _ = false

-- Both names decode, and they are the same label by label.
agree : Parsed (List Label) → Parsed (List Label) → Bool
unfolding names_match
agree (ok la) (ok lb) = names_match la lb
agree _ _ = false

agree-cons :
    (a b : Label) (ra rb : Parsed (List Label))
    → agree (ra >>= λ la. ok (a ∷ la)) (rb >>= λ lb. ok (b ∷ lb))
      ≡ (if labels_match a b then agree ra rb else false)
unfolding agree
agree-cons a b (ok la) (ok lb) = refl
agree-cons a b (ok la) (err e) = ground arith
agree-cons a b (ok la) stuck = ground arith
agree-cons a b (err e) rb = ground arith
agree-cons a b stuck rb = ground arith

agree-nil_left :
    (b : Label) (rb : Parsed (List Label)) → agree (ok []) (rb >>= λ lb. ok (b ∷ lb)) ≡ false
unfolding agree
agree-nil_left b (ok lb) = refl
agree-nil_left b (err e) = refl
agree-nil_left b stuck = refl

agree-nil_right :
    (a : Label) (ra : Parsed (List Label)) → agree (ra >>= λ la. ok (a ∷ la)) (ok []) ≡ false
unfolding agree
agree-nil_right a (ok la) = refl
agree-nil_right a (err e) = refl
agree-nil_right a stuck = refl

agree-err_right : (e : ParseError) (ra : Parsed (List Label)) → agree ra (err e) ≡ false
unfolding agree
agree-err_right e (ok la) = refl
agree-err_right e (err x) = refl
agree-err_right e stuck = refl

some_if :
    (test : Bool) {x : Option Bool} {y : Bool}
    → x ≡ some y
    → (if test then x else some false) ≡ some (if test then y else false)
some_if true e = e
some_if false e = refl

module _ (fuel : ℕ) {ma mb : List ℕ} where
  compare_round-agree :
      {ha ca wa hb cb wb : ℕ} {ya yb : Yield}
      → View ma ha ca wa ya
      → View mb hb cb wb yb
      → ((ha' ca' wa' hb' cb' wb' : ℕ)
          → wa + 2 ≤ wa'
          → wa' ≤ 255
          → wb + 2 ≤ wb'
          → wb' ≤ 255
          → compare_loop fuel (at ma ha' ca' wa') (at mb hb' cb' wb')
            ≡ some (agree (collect fuel (at ma ha' ca' wa')) (collect fuel (at mb hb' cb' wb'))))
      → compare_round ya yb (compare_loop fuel)
        ≡ some (agree (collect_item ya (collect fuel)) (collect_item yb (collect fuel)))
  unfolding compare_round collect_item
  compare_round-agree (ended s a _ _) (ended t b _ _) ih = rw (a, b) (unfold agree in refl)
  compare_round-agree (ended s a _ _) (yielded hb' cb' lb b _ _ _ _) ih =
      rw (a, b) (ap some (sym (agree-nil_left lb (collect fuel (at mb hb' cb' _)))))
  compare_round-agree (ended s a _ _) (failed t e b _) ih = rw (a, b) (unfold agree in refl)
  compare_round-agree (yielded ha' ca' la a _ _ _ _) (ended t b _ _) ih =
      rw (a, b) (ap some (sym (agree-nil_right la (collect fuel (at ma ha' ca' _)))))
  compare_round-agree {wa = wa} {wb = wb} (yielded ha' ca' la a pa qa sa _)
        (yielded hb' cb' lb b pb qb sb _) ih =
      let sa' = at ma ha' ca' (wa + suc (length la)) in
      let sb' = at mb hb' cb' (wb + suc (length lb)) in
      let rest =
        ih ha' ca' (wa + suc (length la)) hb' cb' (wb + suc (length lb)) (omega arith) sa
          (omega arith) sb in
      rw (a, b)
        (some_if (labels_match la lb) rest
          ∙ ap some (sym (agree-cons la lb (collect fuel sa') (collect fuel sb'))))
  compare_round-agree (yielded ha' ca' la a _ _ _ _) (failed t e b _) ih =
      rw (a, b) (ap some (sym (agree-err_right e _)))
  compare_round-agree (failed s e a _) (ended t b _ _) ih = rw (a, b) (unfold agree in refl)
  compare_round-agree (failed s e a _) (yielded hb' cb' lb b _ _ _ _) ih =
      rw (a, b) (unfold agree in refl)
  compare_round-agree (failed s e a _) (failed t e' b _) ih = rw (a, b) (unfold agree in refl)

module _ (ma mb : List ℕ) (ba : AreBytes ma) (bb : AreBytes mb) (fa : IsSlice ma)
    (fb : IsSlice mb) where
  compare_loop-agree :
      (fuel ha ca wa hb cb wb : ℕ)
      → wa ≤ 255
      → wb ≤ 255
      → 256 ≤ wa + 2 * fuel
      → 256 ≤ wb + 2 * fuel
      → compare_loop fuel (at ma ha ca wa) (at mb hb cb wb)
        ≡ some (agree (collect fuel (at ma ha ca wa)) (collect fuel (at mb hb cb wb)))
  unfolding compare_loop collect
  compare_loop-agree zero ha ca wa hb cb wb la lb ea eb = absurd (omega arith)
  compare_loop-agree (suc fuel) ha ca wa hb cb wb la lb ea eb =
      compare_round-agree fuel (next-View ma ba fa wa la ha ca) (next-View mb bb fb wb lb hb cb)
        (λ ha' ca' wa' hb' cb' wb' p q r t.
          compare_loop-agree fuel ha' ca' wa' hb' cb' wb' q t (omega arith) (omega arith))

names_match-lower :
    (la lb : List Label) → (names_match la lb ≡ true) ↔ (map lower la ≡ map lower lb)
unfolding names_match
names_match-lower [] [] = (λ _. refl, λ _. refl)
names_match-lower [] (b ∷ lb) = (λ e. cc, λ e. cc)
names_match-lower (a ∷ la) [] = (λ e. cc, λ e. cc)
names_match-lower (a ∷ la) (b ∷ lb) =
    let here = labels_match-lower a b in
    let rest = names_match-lower la lb in
    (λ e. ground (arith, here.0, rest.0), λ e. ground (arith, here.1, rest.1))

agree_iff :
    (ra rb : Parsed (List Label))
    → (agree ra rb ≡ true) ↔ (
        (la : List Label) × (lb : List Label) × (ra ≡ ok la)
        × (rb ≡ ok lb)
        × (map lower la ≡ map lower lb))
unfolding agree
agree_iff (ok la) (ok lb) = (
  λ e. (la, lb, refl, refl, (names_match-lower la lb).0 e),
  λ (la', lb', ea, eb, same). (names_match-lower la lb).1 (cc),
)
agree_iff (ok la) (err x) = (λ e. cc, λ (la', lb', ea, eb, same). cc)
agree_iff (ok la) stuck = (λ e. cc, λ (la', lb', ea, eb, same). cc)
agree_iff (err x) rb = (λ e. cc, λ (la', lb', ea, eb, same). cc)
agree_iff stuck rb = (λ e. cc, λ (la', lb', ea, eb, same). cc)

module _ (name other : NameRef) (ba : AreBytes name.message) (bb : AreBytes other.message)
    (fa : IsSlice name.message) (fb : IsSlice other.message) where
  equals-agree : equals_ignoring_case name other ≡ some (agree (decode name) (decode other))
  unfolding equals_ignoring_case decode labels
  equals-agree =
      compare_loop-agree name.message other.message ba bb fa fb 128 32 name.start 1 32 other.start 1
        (omega arith) (omega arith) (omega arith) (omega arith)

  -- The comparison of two names in messages of bytes whose lengths fit in an isize ends.
  pub equals_ignoring_case-ne-none : equals_ignoring_case name other ≢ none
  equals_ignoring_case-ne-none e = cc equals-agree

  -- Two names in such messages of bytes compare equal exactly when both decode, and their labels in lower case are the same.
  -- A name that does not decode is equal to none, itself included.
  pub equals_ignoring_case_iff : (equals_ignoring_case name other ≡ some true) ↔ (
      (la : List Label) × (lb : List Label) × (decode name ≡ ok la)
      × (decode other ≡ ok lb)
      × (map lower la ≡ map lower lb))
  equals_ignoring_case_iff = (
    λ e. (agree_iff (decode name) (decode other)).0 (cc (e, equals-agree)),
    λ same. equals-agree ∙ ap some ((agree_iff (decode name) (decode other)).1 same),
  )
