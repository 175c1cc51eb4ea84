-- ===== src/Events/Billing/Bounds.antt =====
-- The days and the price of an event: countEventDays of src/common/utils/event-schedule.util.ts and
-- computePrice of src/modules/events/event-billing.service.ts.
use openeos_api.Base.{
  ℕ, zero, suc, pos, ◌*◌, ◌+◌, ◌<◌, ◌≤◌, ℤ, ◌≡◌, refl, arith, Option, none, some, length,
}
use openeos_api.Store.{Env}
use openeos_api.Events.Schedule.{count_event_days, days_between, days_from, list_event_day_keys}

-- The table of the days has one entry for each day that is counted, and there is at least one.
days_between_pos : (a b : ℕ) → 1 ≤ days_between a b
unfolding days_between
days_between_pos a b = ground arith

pub count_event_days_pos :
    (env : Env) (timezone start end_date : Option ℕ)
    → 1 ≤ count_event_days env timezone start end_date
unfolding count_event_days
count_event_days_pos env timezone none end_date = omega arith
count_event_days_pos env timezone (some start) end_date = days_between_pos _ _

length-days_from : (first n : ℕ) → length (days_from first n) ≡ n
unfolding days_from
length-days_from first zero = refl
length-days_from first (suc n) = omega (arith, length-days_from (suc first) n)

-- `c` is `x` ten-thousandths of a cent, to the nearest cent; a half is rounded up.
abbrev pub IsNearest : ℕ → ℤ → Type 0
IsNearest x c = (n : ℕ) × (c ≡ pos n) × (10000 * n ≤ x + 5000) × (x + 5000 < 10000 * n + 10000)

-- `listEventDayKeys` lists as many days as `countEventDays` counts, for an event that has a begin.
pub length-list_event_day_keys :
    (env : Env) (timezone : Option ℕ) (start : ℕ) (end_date : Option ℕ)
    → length (list_event_day_keys env timezone (some start) end_date)
      ≡ count_event_days env timezone (some start) end_date
unfolding list_event_day_keys
length-list_event_day_keys env timezone start end_date =
    length-days_from (env.day_of timezone start)
      (count_event_days env timezone (some start) end_date)
