-- ===== src/Service/Schedule/Laws.antt =====
-- How far apart the announcements are.
use hick.Prelude.{
  ℕ, zero, suc, ◌+◌, ◌*◌, ◌^◌, ◌≤◌, ◌≡◌, ◌⊎◌, inl, inr, refl, arith, min, Bool-cases, Option-cases,
  ltb→ge, Option, none, some, ltb, true, false,
}
use hick.Time.{Clock, IsClock, one_second, from_secs}
use hick.Service.Patience.{FamilyPatience, in_good_standing}
use hick.Service.Schedule.{
  announce_deadline, partial_announce_secs, partial_announce_deadline, re_announce_secs,
  re_announce_deadline, refresh_due, sooner, stalest_refresh_due, capped, compose_announce_deadline,
}

-- The rungs of the ladder: one and the next.
abbrev Rungs : ℕ → ℕ → Type 0
Rungs a b = (1 ≤ a) × (a ≤ b) × (b ≤ 2 * a) × (b ≤ 64) × ((b ≡ 2 * a) ⊎ (b ≡ 64))

rung_double : (streak : ℕ) → Rungs (2 ^ min streak 6) (2 ^ min (suc streak) 6)
rung_double zero = (omega arith, omega arith, omega arith, omega arith, inl refl)
rung_double (suc zero) = (omega arith, omega arith, omega arith, omega arith, inl refl)
rung_double (suc (suc zero)) = (omega arith, omega arith, omega arith, omega arith, inl refl)
rung_double (suc (suc (suc zero))) = (omega arith, omega arith, omega arith, omega arith, inl refl)
rung_double (suc (suc (suc (suc zero)))) =
    (omega arith, omega arith, omega arith, omega arith, inl refl)
rung_double (suc (suc (suc (suc (suc zero))))) =
    (omega arith, omega arith, omega arith, omega arith, inl refl)
rung_double (suc (suc (suc (suc (suc (suc n)))))) =
    let this : min (suc (suc (suc (suc (suc (suc n)))))) 6 ≡ 6 = omega arith in
    let next : min (suc (suc (suc (suc (suc (suc (suc n))))))) 6 ≡ 6 = omega arith in
    rw (this, next) (omega arith, omega arith, omega arith, omega arith, inr refl)

-- After a partial announcement the interval is one second at least, never more than the periodic
-- refresh interval (or one second), and from one announcement to the next it does not fall and at
-- most doubles.
pub partial_announce_secs_bounds :
    (streak ttl_secs : ℕ)
    → let s = partial_announce_secs streak ttl_secs in
      let s' = partial_announce_secs (suc streak) ttl_secs in
      (1 ≤ s)
      × (s ≤ re_announce_secs ttl_secs)
      × (s ≤ s')
      × (s' ≤ 2 * s)
      × ((s' ≡ 2 * s) ⊎ (s' ≡ re_announce_secs ttl_secs) ⊎ (s' ≡ 64))
unfolding partial_announce_secs re_announce_secs
partial_announce_secs_bounds streak ttl_secs = ground (arith, rung_double streak)

capped-left : (base : ℕ) (a b : Option ℕ) (x : ℕ) → a ≡ some x → capped base (sooner a b) ≤ x
capped-left base none b x h = cc
capped-left base (some y) none x h = ground arith
capped-left base (some y) (some z) x h = ground arith

capped-right : (base : ℕ) (a b : Option ℕ) (x : ℕ) → b ≡ some x → capped base (sooner a b) ≤ x
capped-right base a none x h = cc
capped-right base none (some z) x h = ground arith
capped-right base (some y) (some z) x h = ground arith

capped-le : (base : ℕ) (due : Option ℕ) → capped base due ≤ base
capped-le base none = omega arith
capped-le base (some d) = ground arith

module _ (clock : Clock) (laws : IsClock clock) (now ttl_secs : ℕ) where
  abbrev pub refresh_interval : ℕ
  refresh_interval = from_secs (re_announce_secs ttl_secs)

  refresh_due-some :
      (at : ℕ) (p : FamilyPatience)
      → p.stalled ≡ false
      → clock.checked_add_duration at refresh_interval ≡ some (at + refresh_interval)
      → refresh_due clock (some at) p ttl_secs ≡ some (at + refresh_interval)
  unfolding refresh_due in_good_standing re_announce_deadline
  refresh_due-some at p good adds = rw (good) adds

  -- The deadline behind a partial announcement.
  abbrev pub next_announcement :
      ℕ → Option ℕ × Option ℕ → FamilyPatience × FamilyPatience → Option ℕ
  next_announcement streak last_delivered patience =
      compose_announce_deadline clock now (partial_announce_deadline clock now streak ttl_secs)
        (stalest_refresh_due clock last_delivered patience ttl_secs)

  compose_bounds :
      (base t : ℕ) (due : Option ℕ)
      → clock.checked_add_duration now one_second ≡ some (now + one_second)
      → compose_announce_deadline clock now (some base) due ≡ some t
      → (now + one_second ≤ t) × ((t ≤ capped base due) ⊎ (t ≡ now + one_second))
  unfolding compose_announce_deadline announce_deadline
  compose_bounds base t due adds h = elim (Bool-cases (ltb (capped base due) (now + one_second))) [
    | inl p ↦
        let s : compose_announce_deadline clock now (some base) due ≡ some (now + one_second) =
          rw (compose_announce_deadline, announce_deadline, adds, p) refl in
        let e : t ≡ now + one_second = cc in (omega arith, inr e)
    | inr p ↦
        let s : compose_announce_deadline clock now (some base) due ≡ some (capped base due) =
          rw (compose_announce_deadline, announce_deadline, adds, p) refl in
        let e : t ≡ capped base due = cc in
        (omega (arith, ltb→ge (capped base due) (now + one_second) p), inl (omega arith))
  ]

  -- The clock can add the refresh interval to the last delivery.
  abbrev pub CanAdd : Option ℕ → Type 0
  CanAdd none = Unit {0}
  CanAdd (some l) = clock.checked_add_duration l refresh_interval ≡ some (l + refresh_interval)

  -- A family that was announced to at `l` is announced to again in time, unless it is written off:
  -- one refresh interval after `l`, or in one second where that is past.
  abbrev pub InTime : Option ℕ → FamilyPatience → ℕ → Type 0
  InTime none p t = Unit {0}
  InTime (some l) p t = (p.stalled ≡ true) ⊎ (t ≤ l + refresh_interval) ⊎ (t ≡ now + one_second)

  in_time :
      (at : Option ℕ) (p : FamilyPatience) (bound t : ℕ)
      → CanAdd at
      → ((x : ℕ) → refresh_due clock at p ttl_secs ≡ some x → bound ≤ x)
      → (t ≤ bound) ⊎ (t ≡ now + one_second)
      → InTime at p t
  in_time none p bound t adds below h = tt
  in_time (some l) p bound t adds below h = elim (Bool-cases p.stalled) [
    | inl s ↦ inl s
    | inr s ↦
        let le = below (l + refresh_interval) (refresh_due-some l p s adds) in
        elim h [ inl u ↦ inr (inl (omega arith)) | inr e ↦ inr (inr e) ]
  ]

  -- The deadline behind a partial announcement is one second away at least, and where that is not
  -- more, no later than the periodic refresh; and both families are announced to in time.
  pub next_announcement_bounds :
      (streak t : ℕ) (at4 at6 : Option ℕ) (p4 p6 : FamilyPatience)
      → clock.checked_add_duration now one_second ≡ some (now + one_second)
      → CanAdd at4
      → CanAdd at6
      → next_announcement streak (at4, at6) (p4, p6) ≡ some t
      → (now + one_second ≤ t) × (t ≤ now + refresh_interval) × InTime at4 p4 t × InTime at6 p6 t
  unfolding partial_announce_deadline stalest_refresh_due compose_announce_deadline
  next_announcement_bounds streak t at4 at6 p4 p6 adds add4 add6 h =
      let secs = from_secs (partial_announce_secs streak ttl_secs) in
      let due4 = refresh_due clock at4 p4 ttl_secs in
      let due6 = refresh_due clock at6 p6 ttl_secs in
      elim (Option-cases (clock.checked_add_duration now secs)) [
        | inl e ↦
            let s : next_announcement streak (at4, at6) (p4, p6) ≡ none =
              rw (partial_announce_deadline, e) refl in
            cc
        | inr (base, e) ↦
            let c = compose_bounds base t (sooner due4 due6) adds (rw e at h) in
            let bound = capped base (sooner due4 due6) in
            let is_sum = laws.add now secs e in
            let rungs = partial_announce_secs_bounds streak ttl_secs in
            (
              c.0,
              elim (c.1) [
                | inl u ↦ omega (arith, capped-le base (sooner due4 due6))
                | inr u ↦ omega arith
              ],
              in_time at4 p4 bound t add4 (capped-left base due4 due6) c.1,
              in_time at6 p6 bound t add6 (capped-right base due4 due6) c.1,
            )
      ]
