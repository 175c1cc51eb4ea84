-- ===== src/Events/Schedule.antt =====
-- countEventDays of src/common/utils/event-schedule.util.ts. `Env.day_of` stands for
-- dayNumber(toWallClock(date, timeZone)), which the calendar of the platform computes.
use openeos_api.Base.{ℕ, zero, suc, ◌+◌, ◌-◌, Option, none, some, List, [], ◌∷◌, leb, if◌then◌else◌}
use openeos_api.Store.{Env}

-- The days from the first to the last one, both counted; an end before the begin counts as one day.
unfoldable pub days_between : ℕ → ℕ → ℕ
days_between first_day last_day = if leb last_day first_day then 1 else last_day - first_day + 1

abbrev pub end_or_start : Option ℕ → ℕ → ℕ
end_or_start none start = start
end_or_start (some end_date) start = end_date

unfoldable pub count_event_days : Env → Option ℕ → Option ℕ → Option ℕ → ℕ
unfolding days_between
count_event_days env timezone none end_date = 1
count_event_days env timezone (some start) end_date =
    days_between (env.day_of timezone start) (env.day_of timezone (end_or_start end_date start))

-- `days` numbers from `first` on.
unfoldable pub days_from : ℕ → ℕ → List ℕ
days_from first zero = []
days_from first (suc n) = first ∷ days_from (suc first) n

-- `listEventDayKeys`; a key is the number of its day.
unfoldable pub list_event_day_keys : Env → Option ℕ → Option ℕ → Option ℕ → List ℕ
unfolding count_event_days days_from
list_event_day_keys env timezone none end_date = []
list_event_day_keys env timezone (some start) end_date =
    days_from (env.day_of timezone start) (count_event_days env timezone (some start) end_date)
