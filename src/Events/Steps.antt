-- ===== src/Events/Steps.antt =====
-- The life of the events as a step relation on the rows of the table, and what a call may do to it:
-- the services of src/modules/events read as steps.
pub mod Lifecycle
pub mod Billing
use openeos_api.Base.{
  ℕ, suc, ◌≡◌, Bool, true, false, Option, none, some, List, ◌∷◌, ◌==◌, if◌then◌else◌, map, get, put,
}
use openeos_api.Entities.{Event, EventStatus}
use openeos_api.Store.{Store, Result}
use openeos_api.Events.Rows.{is_on, is_unlocked}
use openeos_api.Events.Lifecycle.{is_active, deactivated, with_status}
use openeos_api.Events.Calls.{EventCall, succeeded}
use openeos_api.Events.Calls.EventCall.{activate_call, deactivate_call, test_call}

-- What is announced: nothing, that an organization runs an event in a mode, or that it stops one.
pub data Change : Type 0 where
  silent : Change
  starts : ℕ → ℕ → EventStatus → Change
  stops : ℕ → ℕ → Change

-- The same organization and status, and no event is locked again.
pub record SameLife (before after : Event) : Type 0 where
  pub same_organization : after.organization_id ≡ before.organization_id
  pub same_status : after.status ≡ before.status
  pub stays_unlocked :
      is_unlocked before.billing_status ≡ true → is_unlocked after.billing_status ≡ true

-- A step from the rows and the next id to those after it.
pub data EventStep : Change → List (ℕ × Event) → ℕ → List (ℕ × Event) → ℕ → Type 0 where
  stays : {rows : List (ℕ × Event)} {n : ℕ} → EventStep silent rows n rows n
  inserts :
      {rows : List (ℕ × Event)} {n : ℕ} (e : Event)
      → e.status ≡ EventStatus.inactive
      → EventStep silent rows n (put n e rows) (suc n)
  rewrites :
      {rows : List (ℕ × Event)} {n : ℕ} (k : ℕ) (e f : Event)
      → get k rows ≡ some e
      → SameLife e f
      → EventStep silent rows n (put k f rows) n
  switches_on :
      {rows : List (ℕ × Event)} {n : ℕ} (org k : ℕ) (status : EventStatus) (e : Event)
      → get k rows ≡ some e
      → e.organization_id ≡ org
      → is_on status ≡ true
      → (is_active status ≡ true → is_unlocked e.billing_status ≡ true)
      → EventStep
          (starts org k status)
          rows
          n
          (put k (with_status status e) (map (deactivated org k) rows))
          n
  is_on_already :
      {rows : List (ℕ × Event)} {n : ℕ} (org k : ℕ) (status : EventStatus) (e : Event)
      → get k rows ≡ some e
      → e.organization_id ≡ org
      → e.status ≡ status
      → is_on status ≡ true
      → EventStep (starts org k status) rows n rows n
  switches_off :
      {rows : List (ℕ × Event)} {n : ℕ} (org k : ℕ) (e : Event)
      → get k rows ≡ some e
      → e.organization_id ≡ org
      → EventStep (stops org k) rows n (put k (with_status EventStatus.inactive e) rows) n
  is_off_already :
      {rows : List (ℕ × Event)} {n : ℕ} (org k : ℕ) (e : Event)
      → get k rows ≡ some e
      → e.organization_id ≡ org
      → is_on e.status ≡ false
      → EventStep (stops org k) rows n rows n

-- What a call that returns announces.
abbrev pub change_of : ℕ → EventCall → Change
change_of org (activate_call eid) = starts org eid EventStatus.active
change_of org (test_call eid) = starts org eid EventStatus.test
change_of org (deactivate_call eid) = stops org eid
change_of org _ = silent

abbrev pub if_returned : Bool → Change → Change
if_returned true c = c
if_returned false c = silent

-- A call that returns makes the step `c`, one that raises a silent step.
abbrev pub Makes {ℓ} : Change → Store → {A : Type ℓ} → Result A × Store → Type 0
Makes c s r = EventStep (if_returned (succeeded r.0) c) s.events s.next_id r.1.events r.1.next_id
