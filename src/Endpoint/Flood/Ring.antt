-- ===== src/Endpoint/Flood/Ring.antt =====
-- What the ring of the conflict flood holds of all the conflicts.
use hick.Prelude.{
  ℕ, zero, suc, ◌+◌, ◌-◌, ◌%◌, ◌≤◌, ◌<◌, ◌≡◌, ◌≢◌, ◌⊎◌, inl, inr, refl, sym, ap, ◌∙◌, arith, List,
  [], ◌∷◌, Option, none, some, get_elem?, length, saturating_add,
}
use mathlib.Core.Path.{subst}
use hick.Endpoint.Flood.{
  ConflictFlood, conflict_burst_window, none_of, entry, stamp, before, newest, write,
}
use hick.Endpoint.Flood.History.{latch, Past, Past-get}

-- The entry of the ring for the conflict `i` back: that conflict, or nothing, where it is older
-- than a window.
unfoldable pub Entry : List ℕ → ℕ → ℕ → Option ℕ → Type 0
Entry hist now i r =
    (r ≡ get_elem? hist i)
    ⊎ ((r ≡ none) × ((t : ℕ) → get_elem? hist i ≡ some t → t + conflict_burst_window < now))

pub record Entries (f : ConflictFlood) (hist : List ℕ) (now : ℕ) : Type 0 where
  pub cursor : f.slot < 15
  pub size : length f.ring ≡ 15
  pub entries : (i : ℕ) → i < 15 → Entry hist now i (entry f.ring ((f.slot + 14 - i) % 15))

entry-stamp_same :
    (xs : List (Option ℕ)) (i t : ℕ) → i < length xs → entry (stamp xs i t) i ≡ some t
unfolding stamp
entry-stamp_same [] i t h = absurd (omega arith)
entry-stamp_same (x ∷ xs) zero t h = refl
entry-stamp_same (x ∷ xs) (suc i) t h = entry-stamp_same xs i t (omega arith)

entry-stamp_other : (xs : List (Option ℕ)) (i j t : ℕ) → i ≢ j → entry (stamp xs i t) j ≡ entry xs j
unfolding stamp
entry-stamp_other [] i j t h = refl
entry-stamp_other (x ∷ xs) zero zero t h = absurd (h refl)
entry-stamp_other (x ∷ xs) zero (suc j) t h = refl
entry-stamp_other (x ∷ xs) (suc i) zero t h = refl
entry-stamp_other (x ∷ xs) (suc i) (suc j) t h = entry-stamp_other xs i j t (λ e. h (ap suc e))

length-stamp : (xs : List (Option ℕ)) (i t : ℕ) → length (stamp xs i t) ≡ length xs
unfolding stamp
length-stamp [] i t = refl
length-stamp (x ∷ xs) zero t = refl
length-stamp (x ∷ xs) (suc i) t = ap suc (length-stamp xs i t)

pub entry-none_of : (n i : ℕ) → entry (none_of n) i ≡ none
entry-none_of zero i = refl
entry-none_of (suc n) zero = refl
entry-none_of (suc n) (suc i) = entry-none_of n i

get_elem?-in :
    {A : Type 0} (xs : List A) (i : ℕ) → i < length xs → (x : A) × (get_elem? xs i ≡ some x)
get_elem?-in [] i h = absurd (omega arith)
get_elem?-in (x ∷ xs) zero h = (x, refl)
get_elem?-in (x ∷ xs) (suc i) h = get_elem?-in xs i (omega arith)

Entry-later :
    (hist : List ℕ) (now later i : ℕ) (r : Option ℕ)
    → now ≤ later
    → Entry hist now i r
    → Entry hist later i r
unfolding Entry
Entry-later hist now later i r le (inl e) = inl e
Entry-later hist now later i r le (inr (e, old)) = inr (e, λ t h. let q = old t h in omega arith)

-- The entries behind a write: the conflict is in front of the others.
written :
    (f : ConflictFlood) (hist : List ℕ) (now : ℕ)
    → Entries f hist now
    → (i : ℕ) → i < 15
    → Entry
        (now ∷ hist)
        now
        i
        (entry (stamp f.ring f.slot now) ((saturating_add f.slot 1 % 15 + 14 - i) % 15))
unfolding Entry
written f hist now e zero lt =
    let at : f.slot ≡ (saturating_add f.slot 1 % 15 + 14 - 0) % 15 = omega (arith, e.cursor) in
    inl (
      ap (entry (stamp f.ring f.slot now)) (sym at)
      ∙ entry-stamp_same f.ring f.slot now (omega (arith, e.cursor, e.size)))
written f hist now e (suc i) lt =
    let j = (f.slot + 14 - i) % 15 in
    let moved : (saturating_add f.slot 1 % 15 + 14 - suc i) % 15 ≡ j = omega (arith, e.cursor) in
    let apart : f.slot ≢ j = λ q. absurd (omega (arith, e.cursor)) in
    subst (Entry (now ∷ hist) now (suc i))
      (sym
        (ap (entry (stamp f.ring f.slot now)) moved ∙ entry-stamp_other f.ring f.slot j now apart))
      (e.entries i (omega arith))

pub write-Entries :
    (f : ConflictFlood) (hist : List ℕ) (now : ℕ)
    → Entries f hist now
    → Entries (write f now) (now ∷ hist) now × ((write f now).latched_at ≡ f.latched_at)
unfolding write
write-Entries f hist now e =
    let (x, here) = get_elem?-in f.ring f.slot (omega (arith, e.cursor, e.size)) in
    rw (write, here)
      (
        record {
          cursor = omega arith;
          size = length-stamp f.ring f.slot now ∙ e.size;
          entries = written f hist now e;
        },
        refl,
      )

before_slot : (slot : ℕ) → slot < 15 → (slot + 14 - 0) % 15 ≡ before slot
before_slot zero h = omega arith
before_slot (suc slot) h = omega arith

newest-head :
    (f : ConflictFlood) (hist : List ℕ) (now : ℕ)
    → Entries f hist now
    → (newest f ≡ get_elem? hist 0)
      ⊎ ((newest f ≡ none)
          × ((t : ℕ) → get_elem? hist 0 ≡ some t → t + conflict_burst_window < now))
unfolding newest Entry
newest-head f hist now e =
    let at : (f.slot + 14 - 0) % 15 ≡ before f.slot = before_slot f.slot e.cursor in
    subst (Entry hist now 0) (ap (entry f.ring) at) (e.entries 0 (omega arith))

-- Nothing is left behind a quiet window.
pub Entries-quiet :
    (f : ConflictFlood) (hist : List ℕ) (t now : ℕ)
    → Past hist t
    → t + conflict_burst_window < now
    → Entries (record f { ring = none_of 15; slot = 0; latched_at = none }) hist now
unfolding Entry
Entries-quiet f hist t now past gap = record {
  cursor = omega arith;
  size = refl;
  entries = λ i lt. inr (
    entry-none_of 15 ((0 + 14 - i) % 15),
    λ t' h. let q = Past-get hist t i past h in omega arith,
  );
}

pub Entries-later :
    (f : ConflictFlood) (hist : List ℕ) (now later : ℕ)
    → now ≤ later
    → Entries f hist now
    → Entries f hist later
Entries-later f hist now later le e = record {
  cursor = e.cursor;
  size = e.size;
  entries = λ i lt. Entry-later hist now later i _ le (e.entries i lt);
}

-- The instant of the newest conflict.
abbrev pub latest : List ℕ → ℕ
latest [] = 0
latest (t ∷ ts) = t

-- What the ring and the latch say of all the conflicts that were counted.
pub record Refines (f : ConflictFlood) (hist : List ℕ) : Type 0 where
  pub ring : Entries f hist (latest hist)
  pub latched : f.latched_at ≡ latch hist

nothing_newer :
    (hist : List ℕ) {r : Option ℕ}
    → r ≡ none
    → ((t : ℕ) → get_elem? hist 0 ≡ some t → t + conflict_burst_window < latest hist)
    → r ≡ get_elem? hist 0
nothing_newer [] q old = q
nothing_newer (t ∷ ts) q old = let absurd_gap = old t refl in absurd (omega arith)

pub newest-Refines :
    (f : ConflictFlood) (hist : List ℕ) → Entries f hist (latest hist) → newest f ≡ get_elem? hist 0
newest-Refines f hist e = elim (newest-head f hist (latest hist) e) [
  | inl q ↦ q
  | inr (q, old) ↦ nothing_newer hist q old
]
