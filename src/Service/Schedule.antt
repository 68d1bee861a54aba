-- ===== src/Service/Schedule.antt =====
-- mdns-proto/src/service/schedule.rs: the deadlines of the probes and of the announcements.
-- `next_u32` of the random generator is an argument.
use hick.Prelude.{
  ℕ, ◌+◌, ◌*◌, ◌/◌, ◌%◌, ◌^◌, ◌-◌, min, List, [], ◌∷◌, Option, none, some, ltb, leb, ◌==◌,
  if◌then◌else◌,
}
use hick.Time.{Clock, one_second, from_secs, from_millis}
use hick.Service.Patience.{FamilyPatience, in_good_standing}
pub mod Laws

abbrev pub initial_probe_wait_max_ms : ℕ
initial_probe_wait_max_ms = 250

abbrev pub probe_interval : ℕ
probe_interval = from_millis 250

abbrev pub first_announce_delay : ℕ
first_announce_delay = 0

abbrev pub announce_interval : ℕ
announce_interval = from_secs 1

abbrev pub max_partial_announce_shift : ℕ
max_partial_announce_shift = 6

abbrev pub max : ℕ → ℕ → ℕ
max a b = if ltb a b then b else a

unfoldable pub probe_deadline : Clock → ℕ → ℕ → ℕ → Option ℕ
probe_deadline clock now probe_count next_u32 = clock.checked_add_duration now (
    if probe_count == 0
    then from_millis (next_u32 % (initial_probe_wait_max_ms + 1))
    else probe_interval)

unfoldable pub probe_retry_deadline : Clock → ℕ → Option ℕ
probe_retry_deadline clock now = clock.checked_add_duration now probe_interval

unfoldable pub announce_deadline : Clock → ℕ → ℕ → Option ℕ
announce_deadline clock now announce_count =
    clock.checked_add_duration now
      (if announce_count == 0 then first_announce_delay else announce_interval)

-- `u64::from(ttl_secs).saturating_mul(80) / 100`
unfoldable pub periodic_refresh_secs : ℕ → ℕ
periodic_refresh_secs ttl_secs = min (ttl_secs * 80) (2 ^ 64 - 1) / 100

-- `rung.min(cap)` of `partial_announce_deadline`, in seconds.
unfoldable pub partial_announce_secs : ℕ → ℕ → ℕ
partial_announce_secs streak ttl_secs =
    let shift = min streak max_partial_announce_shift in
    let rung = min (1 * 2 ^ shift) (2 ^ 64 - 1) in
    let cap = max (periodic_refresh_secs ttl_secs) 1 in min rung cap

unfoldable pub partial_announce_deadline : Clock → ℕ → ℕ → ℕ → Option ℕ
partial_announce_deadline clock now streak ttl_secs =
    clock.checked_add_duration now (from_secs (partial_announce_secs streak ttl_secs))

-- The interval of `re_announce_deadline`, in seconds.
unfoldable pub re_announce_secs : ℕ → ℕ
re_announce_secs ttl_secs = max (periodic_refresh_secs ttl_secs) 1

unfoldable pub re_announce_deadline : Clock → ℕ → ℕ → Option ℕ
re_announce_deadline clock now ttl_secs =
    clock.checked_add_duration now (from_secs (re_announce_secs ttl_secs))

-- The filters of `stalest_refresh_due`, for one family.
unfoldable pub refresh_due : Clock → Option ℕ → FamilyPatience → ℕ → Option ℕ
refresh_due clock last_delivered patience ttl_secs =
    if in_good_standing patience
    then elim last_delivered [ none ↦ none | some at ↦ re_announce_deadline clock at ttl_secs ]
    else none

-- `.min()` over the families that are left.
abbrev pub sooner : Option ℕ → Option ℕ → Option ℕ
sooner none b = b
sooner (some a) none = some a
sooner (some a) (some b) = some (min a b)

unfoldable pub stalest_refresh_due :
    Clock → Option ℕ × Option ℕ → FamilyPatience × FamilyPatience → ℕ → Option ℕ
stalest_refresh_due clock (at4, at6) (p4, p6) ttl_secs =
    sooner (refresh_due clock at4 p4 ttl_secs) (refresh_due clock at6 p6 ttl_secs)

abbrev pub capped : ℕ → Option ℕ → ℕ
capped base none = base
capped base (some d) = if ltb d base then d else base

unfoldable pub compose_announce_deadline : Clock → ℕ → Option ℕ → Option ℕ → Option ℕ
compose_announce_deadline clock now none due = none
compose_announce_deadline clock now (some base) due = elim (announce_deadline clock now 1) [
  | some floor ↦ if ltb (capped base due) floor then some floor else some (capped base due)
  | none ↦ some (capped base due)
]
