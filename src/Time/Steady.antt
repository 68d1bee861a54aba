-- ===== src/Time/Steady.antt =====
-- A clock that never overflows, and that it keeps the laws.
use hick.Prelude.{◌+◌, ◌-◌, arith, some, none, ltb, if◌then◌else◌}
use hick.Time.{Clock, IsClock}

abbrev pub steady : Clock
steady = record {
  checked_add_duration = λ t d. some (t + d);
  checked_duration_since = λ t earlier. if ltb t earlier then none else some (t - earlier);
}

pub steady-IsClock : IsClock steady
steady-IsClock = record {
  add = λ t d {t'} h. ground arith;
  since = λ t earlier h. ground arith;
  since_none = λ t earlier h. ground arith;
}
