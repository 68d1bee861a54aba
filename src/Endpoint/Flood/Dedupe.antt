-- ===== src/Endpoint/Flood/Dedupe.antt =====
-- What the conflict flood counts once.
use hick.Prelude.{
  ℕ, ◌≡◌, refl, sym, ap, ◌∙◌, arith, Bool, true, false, List, [], ◌∷◌, ◌++◌, Option, none, some,
  ◌==◌, Bool-cases, Option-cases, get_elem?, inl, inr,
}
use mathlib.Core.Path.{subst}
use hick.Time.{Clock}
use hick.Owner.{Name, trim, same_owner}
use hick.Owner.Text.{eq_ignore_ascii_case_iff}
use hick.Endpoint.Flood.{
  ConflictFlood, conflict_burst_window, entry, newest, longer, within, is_none, is_datagram,
  on_datagram, any_same_owner, release, write, engage, accept,
}

-- Two names that are the same owner as a third are the same owner.
same_owner_trans :
    (a b c : Name) → same_owner a b ≡ true → same_owner b c ≡ true → same_owner a c ≡ true
unfolding same_owner
same_owner_trans a b c p q =
    let ta = trim a.text in
    let tb = trim b.text in
    let tc = trim c.text in
    (eq_ignore_ascii_case_iff ta tc).1
      ((eq_ignore_ascii_case_iff ta tb).0 p ∙ (eq_ignore_ascii_case_iff tb tc).0 q)

any_same_owner_trans :
    (ns : List Name) (a b : Name)
    → same_owner a b ≡ true
    → any_same_owner ns a ≡ true
    → any_same_owner ns b ≡ true
unfolding any_same_owner
any_same_owner_trans [] a b same h = cc
any_same_owner_trans (n ∷ ns) a b same h = elim (Bool-cases (same_owner n a)) [
  | inl p ↦ rw (same_owner_trans n a b p same) refl
  | inr p ↦ let rest = any_same_owner_trans ns a b same (rw (p) at h) in ground arith
]

any_same_owner_last :
    (ns : List Name) (a b : Name) → same_owner a b ≡ true → any_same_owner (ns ++ (a ∷ [])) b ≡ true
unfolding any_same_owner
any_same_owner_last [] a b same = rw (same) refl
any_same_owner_last (n ∷ ns) a b same = let rest = any_same_owner_last ns a b same in ground arith

-- The same names, of the same datagram.
SameNames : ConflictFlood → ConflictFlood → Type 0
SameNames f g = (f.datagram ≡ g.datagram) × (f.accepted ≡ g.accepted)

write-SameNames : (f : ConflictFlood) (now : ℕ) → SameNames (write f now) f
unfolding write SameNames
write-SameNames f now = elim (Option-cases (get_elem? f.ring f.slot)) [
  | inl e ↦ rw (write, e) (refl, refl)
  | inr (x, e) ↦ rw (write, e) (refl, refl)
]

is_datagram_eq : (o : Option ℕ) (datagram : ℕ) → is_datagram o datagram ≡ true → o ≡ some datagram
is_datagram_eq none datagram h = cc
is_datagram_eq (some d) datagram h = ap some (ground arith)

on_datagram_lem :
    (f : ConflictFlood) (datagram : ℕ) → (on_datagram f datagram).datagram ≡ some datagram
unfolding on_datagram
on_datagram_lem f datagram = elim (Bool-cases (is_datagram f.datagram datagram)) [
  | inl p ↦ rw (on_datagram, p) (is_datagram_eq f.datagram datagram p)
  | inr p ↦ rw (on_datagram, p) refl
]

on_datagram_same :
    (f : ConflictFlood) (datagram : ℕ) → f.datagram ≡ some datagram → on_datagram f datagram ≡ f
unfolding on_datagram
on_datagram_same f datagram e =
    let itself : (datagram == datagram) ≡ true = ground arith in
    let p : is_datagram f.datagram datagram ≡ true = ap (λ o. is_datagram o datagram) e ∙ itself in
    rw (on_datagram, p) refl

module _ (clock : Clock) where
  release-SameNames : (f : ConflictFlood) (now : ℕ) → SameNames (release clock f now) f
  unfolding release SameNames
  release-SameNames f now = elim (Option-cases (newest f)) [
    | inl e ↦ rw (release, e) (refl, refl)
    | inr (t, e) ↦
        elim (Bool-cases (longer conflict_burst_window (clock.checked_duration_since now t))) [
          | inl p ↦ rw (release, e, p) (refl, refl)
          | inr p ↦ rw (release, e, p) (refl, refl)
        ]
  ]

  engage-SameNames : (f : ConflictFlood) (now : ℕ) → SameNames (engage clock f now) f
  unfolding engage SameNames
  engage-SameNames f now = elim (Option-cases (entry f.ring f.slot)) [
    | inl e ↦ rw (engage, e) (refl, refl)
    | inr (t, e) ↦
        elim (Bool-cases (within conflict_burst_window (clock.checked_duration_since now t))) [
          | inr p ↦ rw (engage, e, p) (refl, refl)
          | inl p ↦ elim (Bool-cases (is_none f.latched_at)) [
            | inl q ↦ rw (engage, e, p, q) (refl, refl)
            | inr q ↦ rw (engage, e, p, q) (refl, refl)
          ]
        ]
  ]

  -- The conflict that was counted leaves its name behind.
  counted-SameNames :
      (f : ConflictFlood) (now : ℕ)
      → SameNames (engage clock (write (release clock f now) now) now) f
  unfolding SameNames
  counted-SameNames f now =
      let r = release clock f now in
      let (d1, n1) = engage-SameNames (write r now) now in
      let (d2, n2) = write-SameNames r now in
      let (d3, n3) = release-SameNames f now in (d1 ∙ d2 ∙ d3, n1 ∙ n2 ∙ n3)

  again :
      (f : ConflictFlood) (now datagram : ℕ) (owner : Name)
      → f.datagram ≡ some datagram
      → any_same_owner f.accepted owner ≡ true
      → accept clock f now datagram owner ≡ (f, false)
  unfolding accept
  again f now datagram owner e p = rw (on_datagram_same f datagram e, p) refl

  -- A conflict about a name counts once for a datagram: whether the first was counted or not, and
  -- however the name is spelled the second time, the second is not counted and changes nothing.
  pub accept_twice :
      (f : ConflictFlood) (now now' datagram : ℕ) (owner owner' : Name)
      → same_owner owner owner' ≡ true
      → let f' = (accept clock f now datagram owner).0 in
        accept clock f' now' datagram owner' ≡ (f', false)
  unfolding accept SameNames
  accept_twice f now now' datagram owner owner' same =
      let f' = on_datagram f datagram in
      let here = on_datagram_lem f datagram in
      elim (Bool-cases (any_same_owner f'.accepted owner)) [
        | inl p ↦
            let q : accept clock f now datagram owner ≡ (f', false) = rw (accept, p) refl in
            subst
              (λ (r : ConflictFlood × Bool). accept clock r.0 now' datagram owner' ≡ (r.0, false))
              (sym q)
              (again f' now' datagram owner' here
                (any_same_owner_trans f'.accepted owner owner' same p))
        | inr p ↦
            let g = record f' { accepted = f'.accepted ++ (owner ∷ []) } in
            let h = engage clock (write (release clock g now) now) now in
            let (d, names) = counted-SameNames g now in
            let q : accept clock f now datagram owner ≡ (h, true) = rw (accept, p) refl in
            let known = any_same_owner_last f'.accepted owner owner' same in
            subst
              (λ (r : ConflictFlood × Bool). accept clock r.0 now' datagram owner' ≡ (r.0, false))
              (sym q)
              (again h now' datagram owner' (d ∙ here)
                (ap (λ ns. any_same_owner ns owner') names ∙ known))
      ]
