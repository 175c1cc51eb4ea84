-- ===== src/Events/Lifecycle.antt =====
-- create, update, remove, activate, deactivate, setTestMode and getActiveOrTest of
-- src/modules/events/events.service.ts. Settings are not modelled, and a date is a valid one: the DTOs
-- admit no other.
pub mod Runs
pub mod Days
use openeos_api.Base.{
  ℕ, Bool, true, false, not, ◌&&◌, ◌||◌, Option, none, some, String, List, [], ◌∷◌, ◌++◌, ◌==◌, ltb,
  is_empty, map, if◌then◌else◌, get, keep, is_some, get_or, find_first,
}
use openeos_api.Entities.{User, Event, EventStatus, EventBillingStatus, Organization}
use openeos_api.Store.{
  Store, Env, M, pure, raise, gets, modify, raise_if, when, new_id, ◌>>=◌, ◌>>◌, bad_request,
  validation_error, event_not_paid, missing_delete_date_column,
}
use openeos_api.Organizations.{check_permission, check_admin}
use openeos_api.Events.Schedule.{count_event_days}
use openeos_api.Events.Rows.{
  find_one, get_event_and_check_permission, save_event, emit_status_changed, is_on, is_unlocked,
  is_billed,
}

pub record CreateEventDto : Type 0 where
  pub name : String
  pub description : Option String
  pub start_date : ℕ
  pub end_date : Option ℕ

pub record UpdateEventDto : Type 0 where
  pub name : Option String
  pub description : Option String
  pub start_date : Option ℕ
  pub end_date : Option ℕ

-- Both dates are there and the end is before the begin.
abbrev pub is_backwards : Option ℕ → Option ℕ → Bool
is_backwards none end_date = false
is_backwards (some start) none = false
is_backwards (some start) (some end_date) = ltb end_date start

unfoldable pub assert_chronological : Option ℕ → Option ℕ → M (Unit {0})
assert_chronological start end_date =
    raise_if (is_backwards start end_date) (bad_request validation_error)

abbrev pub zone_of : Option Organization → Option ℕ
zone_of none = none
zone_of (some o) = o.timezone

unfoldable pub assert_paid_duration_not_extended : Env → Event → Option ℕ → Option ℕ → M (Unit {0})
assert_paid_duration_not_extended env e next_start next_end = do
  organization ← gets λ s. get e.organization_id s.organizations
  let zone = zone_of organization
  raise_if
      (is_billed e.billing_status
        && ltb (count_event_days env zone e.start_date e.end_date)
            (count_event_days env zone next_start next_end))
      (bad_request validation_error)

abbrev pub new_event : ℕ → CreateEventDto → Event
new_event org dto = record {
  organization_id = org;
  name = dto.name;
  description = dto.description;
  start_date = some dto.start_date;
  end_date = some (get_or dto.end_date dto.start_date);
  status = EventStatus.inactive;
  billing_status = EventBillingStatus.none_;
  paid_at = none;
  stripe_checkout_session_id = none;
  price_charged = none;
}

unfoldable pub create : ℕ → CreateEventDto → User → M Event
unfolding assert_chronological
create org dto user = do
  check_permission (λ p. p.events) org user.id
  assert_chronological (some dto.start_date) (some (get_or dto.end_date dto.start_date))
  eid ← new_id
  save_event eid (new_event org dto)
  pure (new_event org dto)

abbrev pub or_old : Option ℕ → Option ℕ → Option ℕ
or_old (some a) old = some a
or_old none old = old

-- The dates after an update; a new begin without a new end is the end as well.
abbrev pub next_end : UpdateEventDto → Event → Option ℕ
next_end dto e = or_old dto.end_date (or_old dto.start_date e.end_date)

abbrev pub with_dates : Option ℕ → Option ℕ → Event → Event
with_dates start end_date e = record e { start_date = start; end_date = end_date }

unfoldable pub change_dates : Env → UpdateEventDto → Event → Bool → M Event
unfolding assert_chronological assert_paid_duration_not_extended
change_dates env dto e false = pure e
change_dates env dto e true = do
  assert_chronological (or_old dto.start_date e.start_date) (next_end dto e)
  assert_paid_duration_not_extended env e (or_old dto.start_date e.start_date) (next_end dto e)
  pure (with_dates (or_old dto.start_date e.start_date) (next_end dto e) e)

abbrev pub new_name : Option String → String → String
new_name none old = old
new_name (some String.[]) old = old
new_name (some (String.◌∷◌ c s)) old = String.◌∷◌ c s

abbrev pub new_description : Option String → Option String → Option String
new_description none old = old
new_description (some d) old = some d

abbrev pub with_words : UpdateEventDto → Event → Event
with_words dto e = record e {
  name = new_name dto.name e.name;
  description = new_description dto.description e.description;
}

unfoldable pub update : Env → ℕ → ℕ → UpdateEventDto → User → M Event
unfolding change_dates
update env org eid dto user = do
  check_permission (λ p. p.events) org user.id
  e ← find_one org eid user
  dated ← change_dates env dto e (is_some dto.start_date || is_some dto.end_date)
  save_event eid (with_words dto dated)
  pure (with_words dto dated)

abbrev pub is_active : EventStatus → Bool
is_active EventStatus.active = true
is_active _ = false

abbrev pub is_test : EventStatus → Bool
is_test EventStatus.test = true
is_test _ = false

-- `softRemove` needs a column for the time of deletion, which the entity Event does not have: the ORM
-- throws.
unfoldable pub remove : ℕ → ℕ → User → M (Unit {0})
remove org eid user = do
  check_admin org user.id
  e ← find_one org eid user
  raise_if (is_active e.status) (bad_request validation_error)
  raise missing_delete_date_column

abbrev pub is_sibling : ℕ → ℕ → ℕ → Event → Bool
is_sibling org eid k e = e.organization_id == org && is_on e.status && not (k == eid)

abbrev pub with_status : EventStatus → Event → Event
with_status status e = record e { status = status }

-- A row after `deactivateActiveOrTestSiblings`.
abbrev pub deactivated : ℕ → ℕ → ℕ × Event → ℕ × Event
deactivated org eid (k, e) =
    (k, if is_sibling org eid k e then with_status EventStatus.inactive e else e)

abbrev pub siblings_of : ℕ → ℕ → List (ℕ × Event) → List (ℕ × Event)
siblings_of org eid rows = keep (λ row. is_sibling org eid row.0 row.1) rows

-- It returns the events that it deactivated.
unfoldable pub deactivate_active_or_test_siblings : ℕ → ℕ → M (List (ℕ × Event))
deactivate_active_or_test_siblings org eid = do
  siblings ← gets λ s. siblings_of org eid s.events
  modify λ s. record s { events = map (deactivated org eid) s.events }
  pure (map (deactivated org eid) siblings)

unfoldable pub emit_all : List (ℕ × Event) → M (Unit {0})
emit_all [] = pure tt
emit_all ((k, e) ∷ rows) = emit_status_changed k e >> emit_all rows

-- What activate and setTestMode do after their checks.
unfoldable pub switch_on : ℕ → ℕ → EventStatus → Event → M Event
unfolding deactivate_active_or_test_siblings emit_all
switch_on org eid status e = do
  siblings ← deactivate_active_or_test_siblings org eid
  save_event eid (with_status status e)
  emit_status_changed eid (with_status status e)
  emit_all siblings
  pure (with_status status e)

unfoldable pub activate : ℕ → ℕ → User → M Event
unfolding switch_on
activate org eid user = do
  e ← get_event_and_check_permission org eid user.id
  raise_if (is_active e.status) (bad_request validation_error)
  raise_if (not (is_unlocked e.billing_status)) (bad_request event_not_paid)
  switch_on org eid EventStatus.active e

abbrev pub switch_off : ℕ → Event → M Event
switch_off eid e = do
  save_event eid (with_status EventStatus.inactive e)
  emit_status_changed eid (with_status EventStatus.inactive e)
  pure (with_status EventStatus.inactive e)

abbrev pub unless_done : Bool → Event → M Event → M Event
unless_done true e m = pure e
unless_done false e m = m

unfoldable pub deactivate : ℕ → ℕ → User → M Event
deactivate org eid user = do
  e ← get_event_and_check_permission org eid user.id
  unless_done (not (is_on e.status)) e (switch_off eid e)

unfoldable pub set_test_mode : ℕ → ℕ → User → M Event
unfolding switch_on
set_test_mode org eid user = do
  e ← get_event_and_check_permission org eid user.id
  unless_done (is_test e.status) e (switch_on org eid EventStatus.test e)

-- The candidates of `getActiveOrTest`, and the one that it prefers.
abbrev pub candidates : ℕ → List (ℕ × Event) → List (ℕ × Event)
candidates org rows = keep (λ row. row.1.organization_id == org && is_on row.1.status) rows

abbrev pub first_of : List (ℕ × Event) → Option (ℕ × Event)
first_of [] = none
first_of (row ∷ rows) = some row

abbrev pub or_first : Option (ℕ × Event) → List (ℕ × Event) → Option (ℕ × Event)
or_first (some row) rows = some row
or_first none rows = first_of rows

unfoldable pub get_active_or_test : ℕ → List (ℕ × Event) → Option (ℕ × Event)
get_active_or_test org rows =
    or_first (find_first (λ row. is_active row.1.status) (candidates org rows))
      (candidates org rows)
