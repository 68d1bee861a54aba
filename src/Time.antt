-- ===== src/Time.antt =====
-- mdns-proto/src/time.rs: the trait `Instant`. Instants and durations are nanoseconds.
pub mod Steady
use hick.Prelude.{ℕ, ◌+◌, ◌-◌, ◌*◌, ◌≤◌, ◌<◌, ◌≡◌, Option, none, some}

-- What a clock adds and subtracts, where it can.
pub record Clock : Type 0 where
  pub checked_add_duration : ℕ → ℕ → Option ℕ
  pub checked_duration_since : ℕ → ℕ → Option ℕ

-- What the documentation of the trait promises: a sum is a sum, a difference is there exactly where
-- the earlier instant is the earlier one. (That a difference does not fit in a `Duration` is left
-- out: a `Duration` holds more than five hundred billion years.)
pub record IsClock (c : Clock) : Type 0 where
  pub add : (t d : ℕ) {t' : ℕ} → c.checked_add_duration t d ≡ some t' → t' ≡ t + d
  pub since :
      (t earlier : ℕ) → earlier ≤ t → c.checked_duration_since t earlier ≡ some (t - earlier)
  pub since_none : (t earlier : ℕ) → t < earlier → c.checked_duration_since t earlier ≡ none

abbrev pub one_second : ℕ
one_second = 1000000000

-- `Duration::from_secs`, `Duration::from_millis`
abbrev pub from_secs : ℕ → ℕ
from_secs s = s * 1000000000

abbrev pub from_millis : ℕ → ℕ
from_millis ms = ms * 1000000
