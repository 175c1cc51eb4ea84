-- ===== src/Events/Rows.antt =====
-- The reads, the save and the announcement of an event in src/modules/events/events.service.ts.
pub mod Found
use openeos_api.Base.{
  ℕ, Bool, true, false, not, ◌&&◌, Option, none, some, List, [], ◌∷◌, ◌++◌, ◌==◌, if◌then◌else◌,
  get, put,
}
use openeos_api.Entities.{User, Event, EventStatus, EventBillingStatus, OrganizationPermissions}
use openeos_api.Store.{
  Store, M, pure, gets, modify, or_raise, ◌>>=◌, ◌>>◌, not_found, not_found_code,
}
use openeos_api.Access.{check_membership}
use openeos_api.Organizations.{check_permission}
use openeos_api.Orders.Create.{event_in}

abbrev pub event_of : ℕ → ℕ → Store → Option Event
event_of org eid s = event_in org (get eid s.events)

unfoldable pub find_event : ℕ → ℕ → M Event
find_event org eid = do found ← gets (event_of org eid); or_raise found (not_found not_found_code)

-- `findOne`
unfoldable pub find_one : ℕ → ℕ → User → M Event
unfolding find_event
find_one org eid user = do check_membership org user.id; find_event org eid

-- `getEventAndCheckPermission`, for the permission `events`
unfoldable pub get_event_and_check_permission : ℕ → ℕ → ℕ → M Event
unfolding find_event
get_event_and_check_permission org eid uid = do
  check_permission (λ p. p.events) org uid
  find_event org eid

unfoldable pub save_event : ℕ → Event → M (Unit {0})
save_event eid e = modify λ s. record s { events = put eid e s.events }

unfoldable pub emit_status_changed : ℕ → Event → M (Unit {0})
emit_status_changed eid e = modify λ s. record s { status_notices = (eid, e) ∷ s.status_notices }

abbrev pub is_on : EventStatus → Bool
is_on EventStatus.active = true
is_on EventStatus.test = true
is_on EventStatus.inactive = false

-- `['paid', 'invoice', 'waived'].includes(billingStatus)`
abbrev pub is_unlocked : EventBillingStatus → Bool
is_unlocked EventBillingStatus.paid = true
is_unlocked EventBillingStatus.invoice = true
is_unlocked EventBillingStatus.waived = true
is_unlocked _ = false

-- `['paid', 'invoice'].includes(billingStatus)`
abbrev pub is_billed : EventBillingStatus → Bool
is_billed EventBillingStatus.paid = true
is_billed EventBillingStatus.invoice = true
is_billed _ = false
