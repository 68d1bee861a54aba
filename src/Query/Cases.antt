-- ===== src/Query/Cases.antt =====
-- A confirm by its cases: it was not awaited, the query is done, or it counts.
use hick.Prelude.{ℕ, ◌≡◌, refl, Bool, true, false, not, if◌then◌else◌}
use hick.Time.{Clock}
use hick.Transmit.{FamilyAttempt, project, anchor}
use hick.Service.Patience.{classify_advance}
use hick.Query.{Query}
use hick.Query.Sending.{on_advance, note_transmit_outcome}

arms :
    {A B : Type 0} (P : A → Type 0) (b d : Bool) {x y z : A} (u v w : B)
    → (b ≡ false → P x)
    → (b ≡ true → d ≡ true → P y)
    → (b ≡ true → d ≡ false → P z)
    → let (q, _) : A × B = if not b then (x, u) else if d then (y, v) else (z, w) in P q
arms P false d u v w px py pz = px refl
arms P true true u v w px py pz = py refl refl
arms P true false u v w px py pz = pz refl refl

module _ {AN EV : Type 0} where
  -- What holds after a confirm, by whether one was awaited, and whether the query is done.
  pub outcome_cases :
      (P : Query AN EV → Type 0) (clock : Clock) (q : Query AN EV) (now : ℕ) (v4 v6 : FamilyAttempt)
      → (q.awaiting_send_confirm ≡ false → P q)
      → (q.awaiting_send_confirm ≡ true
          → q.done ≡ true
          → P (record q { awaiting_send_confirm = false }))
      → (q.awaiting_send_confirm ≡ true
          → q.done ≡ false
          → let (p, advance) = classify_advance q.partial_rounds (project v4 v6) in
            P (
              on_advance clock
                (record q { awaiting_send_confirm = false; partial_rounds = p })
                (anchor v4 v6 now)
                advance))
      → P (note_transmit_outcome clock q now v4 v6).0
  unfolding note_transmit_outcome
  outcome_cases P clock q now v4 v6 idle over live =
      arms P q.awaiting_send_confirm q.done _ _ _ idle over live
