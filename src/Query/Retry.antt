-- ===== src/Query/Retry.antt =====
-- mdns-proto/src/query/retry.rs: when a query is sent again.
use hick.Prelude.{
  ℕ, zero, suc, ◌+◌, ◌*◌, ◌^◌, ◌≤◌, ◌≡◌, ◌⊎◌, inl, inr, refl, arith, Option, some, min,
  saturating_sub, usize_max,
}
use hick.Time.{Clock, IsClock, from_secs}

abbrev pub initial_secs : ℕ
initial_secs = 1

abbrev pub max_secs : ℕ
max_secs = 60

-- The interval in seconds; a `u64` is never more than `usize_max`.
unfoldable pub retry_secs : ℕ → ℕ
retry_secs sends =
    let shift = min (saturating_sub sends 1) 6 in
    let secs = min (initial_secs * 2 ^ shift) usize_max in min secs max_secs

unfoldable pub next_deadline : Clock → ℕ → ℕ → Option ℕ
unfolding retry_secs
next_deadline clock now sends = clock.checked_add_duration now (from_secs (retry_secs sends))

-- From one rung of the shift to the next.
rungs :
    (n : ℕ)
    → let a = min (2 ^ min n 6) 60 in
      let b = min (2 ^ min (suc n) 6) 60 in (1 ≤ a) × (a ≤ b) × (b ≤ 60) × ((b ≡ 2 * a) ⊎ (b ≡ 60))
rungs zero = (omega arith, omega arith, omega arith, inl refl)
rungs (suc zero) = (omega arith, omega arith, omega arith, inl refl)
rungs (suc (suc zero)) = (omega arith, omega arith, omega arith, inl refl)
rungs (suc (suc (suc zero))) = (omega arith, omega arith, omega arith, inl refl)
rungs (suc (suc (suc (suc zero)))) = (omega arith, omega arith, omega arith, inl refl)
rungs (suc (suc (suc (suc (suc zero))))) = (omega arith, omega arith, omega arith, inr refl)
rungs (suc (suc (suc (suc (suc (suc n)))))) =
    let this : min (suc (suc (suc (suc (suc (suc n)))))) 6 ≡ 6 = omega arith in
    let next : min (suc (suc (suc (suc (suc (suc (suc n))))))) 6 ≡ 6 = omega arith in
    rw (this, next) (omega arith, omega arith, omega arith, inr refl)

secs_bounds :
    (n : ℕ)
    → (1 ≤ retry_secs (suc n))
      × (retry_secs (suc n) ≤ retry_secs (suc (suc n)))
      × (retry_secs (suc (suc n)) ≤ 60)
      × ((retry_secs (suc (suc n)) ≡ 2 * retry_secs (suc n)) ⊎ (retry_secs (suc (suc n)) ≡ 60))
unfolding retry_secs
secs_bounds n =
    let first : saturating_sub (suc n) 1 ≡ n = omega arith in
    let second : saturating_sub (suc (suc n)) 1 ≡ suc n = omega arith in
    let r = rungs n in ground arith

-- After each transmission but the first the wait for the next is as long as before at least, and
-- twice as long until it is a minute; it is never less than a second or more than a minute.
pub next_deadline_bounds :
    (clock : Clock) (now sends t t' : ℕ)
    → IsClock clock
    → next_deadline clock now (suc sends) ≡ some t
    → next_deadline clock now (suc (suc sends)) ≡ some t'
    → (now + from_secs 1 ≤ t)
      × (t ≤ t')
      × (t' ≤ now + from_secs 60)
      × ((t' + now ≡ 2 * t) ⊎ (t' ≡ now + from_secs 60))
unfolding next_deadline
next_deadline_bounds clock now sends t t' laws h h' =
    let first = laws.add now (from_secs (retry_secs (suc sends))) h in
    let second = laws.add now (from_secs (retry_secs (suc (suc sends)))) h' in
    let (low, rise, high, double) = secs_bounds sends in
    (
      omega arith,
      omega arith,
      omega arith,
      elim double [ inl e ↦ inl (omega arith) | inr e ↦ inr (omega arith) ],
    )
