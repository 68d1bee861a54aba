-- ===== src/Query/Collect/Fifo.antt =====
-- The collected answers as a queue: the last that were distinct, in the order of their arrival.
use hick.Prelude.{
  ℕ, suc, ◌≤◌, ◌<◌, ◌≡◌, inl, inr, refl, sym, ◌∙◌, ap, arith, Bool, true, false, ◌||◌, List, [],
  ◌∷◌, ◌++◌, Option, none, some, All, Bool-cases, if◌then◌else◌, length, leb, ◌==◌, drop,
}
use hick.Cache.Lists.{Lacks, Distinct, without, first_key, without-Lacks}
use hick.Query.Collect.{CollectedAnswer, is_same, oldest}

-- An answer goes before those with no lower number.
unfoldable pub place_answer : CollectedAnswer → List CollectedAnswer → List CollectedAnswer
place_answer a [] = a ∷ []
place_answer a (b ∷ l) =
    let rest = place_answer a l in if leb a.seq b.seq then a ∷ b ∷ l else b ∷ rest

-- The answers of a pool in the order of their numbers.
unfoldable pub arrange : List (ℕ × CollectedAnswer) → List CollectedAnswer
unfolding place_answer
arrange [] = []
arrange (e ∷ l) = place_answer e.1 (arrange l)

-- Whether the answer has been collected before.
unfoldable pub holds : CollectedAnswer → List CollectedAnswer → Bool
unfolding is_same
holds new [] = false
holds new (a ∷ l) = is_same new a || holds new l

-- What a queue of at most `max` answers keeps: an answer that is new goes to the end, and where
-- there is no room the first has to go.
unfoldable pub fifo : ℕ → List CollectedAnswer → CollectedAnswer → List CollectedAnswer
unfolding holds
fifo max l new =
    if holds new l || max == 0 then l else (if leb max (length l) then drop 1 l else l) ++ new ∷ []

abbrev pub Below : ℕ → List CollectedAnswer → Type 0
Below n = All (λ a. a.seq < n)

-- The pairs of a pool, by the numbers of their answers.
abbrev pub Numbered : ℕ → List (ℕ × CollectedAnswer) → Type 0
Numbered n = All (λ e. e.1.seq < n)

place_answer-All :
    (P : CollectedAnswer → Type 0) (a : CollectedAnswer) (l : List CollectedAnswer)
    → P a
    → All P l
    → All P (place_answer a l)
unfolding place_answer
place_answer-All P a [] pa h = (pa, tt)
place_answer-All P a (b ∷ l) pa h =
    let rest = place_answer-All P a l pa h.1 in
    elim (Bool-cases (leb a.seq b.seq)) [ inl p ↦ rw (p) (pa, h) | inr p ↦ rw (p) (h.0, rest) ]

arrange-All :
    (P : CollectedAnswer → Type 0) (l : List (ℕ × CollectedAnswer))
    → All (λ e. P e.1) l
    → All P (arrange l)
unfolding arrange
arrange-All P [] h = tt
arrange-All P (e ∷ l) h = place_answer-All P e.1 (arrange l) h.0 (arrange-All P l h.1)

-- The highest number goes to the end.
place_answer_last :
    (x : CollectedAnswer) (l : List CollectedAnswer)
    → Below x.seq l
    → place_answer x l ≡ l ++ x ∷ []
unfolding place_answer
place_answer_last x [] h = refl
place_answer_last x (b ∷ l) h =
    let p : leb x.seq b.seq ≡ false = ground (arith, h.0) in
    rw (p) (ap (◌∷◌ b) (place_answer_last x l h.1))

place_answer-append :
    (a x : CollectedAnswer) (l : List CollectedAnswer)
    → a.seq < x.seq
    → place_answer a (l ++ x ∷ []) ≡ place_answer a l ++ x ∷ []
unfolding place_answer
place_answer-append a x [] lt = let p : leb a.seq x.seq ≡ true = ground arith in rw (p) refl
place_answer-append a x (b ∷ l) lt = elim (Bool-cases (leb a.seq b.seq)) [
  | inl p ↦ rw (p) refl
  | inr p ↦ rw (p) (ap (◌∷◌ b) (place_answer-append a x l lt))
]

-- Wherever the pool puts an answer with a new number, it stands last.
pub arrange-insert :
    (key : ℕ) (x : CollectedAnswer) (l l' : List (ℕ × CollectedAnswer))
    → Numbered x.seq (l ++ l')
    → arrange (l ++ (key, x) ∷ l') ≡ arrange (l ++ l') ++ x ∷ []
unfolding arrange
arrange-insert key x [] l' h =
    place_answer_last x (arrange l') (arrange-All (λ a. a.seq < x.seq) l' h)
arrange-insert key x (e ∷ l) l' h =
    ap (place_answer e.1) (arrange-insert key x l l' h.1)
    ∙ place_answer-append e.1 x (arrange (l ++ l')) h.0

holds-place_answer :
    (new a : CollectedAnswer) (l : List CollectedAnswer)
    → holds new (place_answer a l) ≡ (is_same new a || holds new l)
unfolding holds place_answer
holds-place_answer new a [] = refl
holds-place_answer new a (b ∷ l) = elim (Bool-cases (leb a.seq b.seq)) [
  | inl p ↦ rw (p) refl
  | inr p ↦ rw (p) (let ih = holds-place_answer new a l in ground arith)
]

pub length-place_answer :
    (a : CollectedAnswer) (l : List CollectedAnswer) → length (place_answer a l) ≡ suc (length l)
unfolding place_answer
length-place_answer a [] = refl
length-place_answer a (b ∷ l) = ground (arith, length-place_answer a l)

pub length-arrange : (l : List (ℕ × CollectedAnswer)) → length (arrange l) ≡ length l
unfolding arrange
length-arrange [] = refl
length-arrange (e ∷ l) = omega (arith, length-place_answer e.1 (arrange l), length-arrange l)

place_answer_first :
    (a : CollectedAnswer) (l : List CollectedAnswer)
    → All (λ b. a.seq ≤ b.seq) l
    → place_answer a l ≡ a ∷ l
unfolding place_answer
place_answer_first a [] h = refl
place_answer_first a (b ∷ l) h = let p : leb a.seq b.seq ≡ true = ground (arith, h.0) in rw (p) refl

-- What the search for a victim settles on, from a candidate on.
data Victim (l : List (ℕ × CollectedAnswer)) (key s : ℕ) (found : Option (ℕ × ℕ)) : Type 0 where
  kept : found ≡ some (key, s) → All (λ e. s ≤ e.1.seq) l → Victim l key s found
  taken :
      (k : ℕ) (v : CollectedAnswer)
      → found ≡ some (k, v.seq)
      → v.seq < s
      → ((j : ℕ) → Lacks j l → (j == k) ≡ false)
      → arrange l ≡ v ∷ arrange (without k l)
      → Victim l key s found

-- An entry that is not the victim goes behind it.
behind :
    (k key : ℕ) (v e : CollectedAnswer) (l : List (ℕ × CollectedAnswer))
    → v.seq < e.seq
    → (key == k) ≡ false
    → arrange l ≡ v ∷ arrange (without k l)
    → arrange ((key, e) ∷ l) ≡ v ∷ arrange (without k ((key, e) ∷ l))
unfolding arrange place_answer
behind k key v e l lt ne eq =
    let p : leb e.seq v.seq ≡ false = ground arith in
    let ne' : (k == key) ≡ false = ground (arith, ne) in rw (eq, p, ne') refl

in_front :
    (k : ℕ) (e : CollectedAnswer) (l : List (ℕ × CollectedAnswer))
    → Lacks k l
    → All (λ e'. e.seq ≤ e'.1.seq) l
    → arrange ((k, e) ∷ l) ≡ e ∷ arrange (without k ((k, e) ∷ l))
unfolding arrange
in_front k e l lacks least =
    let self : (k == k) ≡ true = ground arith in
    rw (self, without-Lacks k l lacks)
      (place_answer_first e (arrange l) (arrange-All (λ b. e.seq ≤ b.seq) l least))

Victim-oldest :
    (l : List (ℕ × CollectedAnswer)) (key s : ℕ)
    → Distinct l
    → Victim l key s (oldest l (some (key, s)))
unfolding oldest
Victim-oldest [] key s d = kept refl tt
Victim-oldest ((k, e) ∷ l) key s d = elim (Bool-cases (leb s e.seq)) [
  | inl p ↦ elim (Victim-oldest l key s d.1) [
    | kept found least ↦ kept (rw (p) found) (ground arith, least)
    | taken k' v found lt apart eq ↦
        taken k' v (rw (p) found) lt (λ j lacks. apart j lacks.1)
          (behind k' k v e l (ground arith) (apart k d.0) eq)
  ]
  | inr p ↦ elim (Victim-oldest l k e.seq d.1) [
    | kept found least ↦
        taken k e (rw (p) found) (ground arith) (λ j lacks. lacks.0) (in_front k e l d.0 least)
    | taken k' v found lt apart eq ↦
        taken k' v (rw (p) found) (ground arith) (λ j lacks. apart j lacks.1)
          (behind k' k v e l lt (apart k d.0) eq)
  ]
]

-- Without the victim the queue has lost its first answer.
pub arrange-oldest :
    (l : List (ℕ × CollectedAnswer))
    → Distinct l
    → arrange (elim (oldest l none) [ some (k, _) ↦ without k l | none ↦ l ]) ≡ drop 1 (arrange l)
unfolding oldest arrange
arrange-oldest [] d = refl
arrange-oldest ((k, e) ∷ l) d = elim (Victim-oldest l k e.seq d.1) [
  | kept found least ↦ rw (found) (ap (drop 1) (sym (in_front k e l d.0 least)))
  | taken k' v found lt apart eq ↦
      rw (found) (ap (drop 1) (sym (behind k' k v e l lt (apart k d.0) eq)))
]

-- The search for a duplicate among the pairs.
pub first_key-arrange :
    (new : CollectedAnswer) (l : List (ℕ × CollectedAnswer))
    → elim (first_key (is_same new) l) [ some _ ↦ true | none ↦ false ] ≡ holds new (arrange l)
unfolding arrange holds
first_key-arrange new [] = refl
first_key-arrange new (e ∷ l) =
    ground (arith, holds-place_answer new e.1 (arrange l), first_key-arrange new l)
