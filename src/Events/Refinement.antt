-- ===== src/Events/Refinement.antt =====
-- What the events of src/modules/events promise: an organization runs at most one event at a time. The
-- abstract state says which one, and in which mode; a change is a transition of it.
pub mod Steps
pub mod Stops
pub mod Calls
pub mod Orders
mod Tests
use openeos_api.Base.{
  ℕ, ◌≡◌, ◌<◌, Bool, true, false, Option, none, some, List, ◌==◌, if◌then◌else◌, get,
}
use openeos_api.Entities.{Event, EventStatus}
use openeos_api.Events.Rows.{is_on, is_unlocked}
use openeos_api.Events.Lifecycle.{is_active}
use openeos_api.Events.Steps.{Change, silent, starts, stops}

-- The event that an organization runs, and its status.
abbrev pub Running : Type 0
Running = ℕ → Option (ℕ × EventStatus)

abbrev pub unless_it_is : ℕ → Option (ℕ × EventStatus) → Option (ℕ × EventStatus)
unless_it_is k none = none
unless_it_is k (some (j, status)) = if j == k then none else some (j, status)

-- Starting an event replaces the one that runs; stopping one that does not run does nothing.
abbrev pub transition : Change → Running → Running
transition silent spec o = spec o
transition (starts org k status) spec o = if o == org then some (k, status) else spec o
transition (stops org k) spec o = if o == org then unless_it_is k (spec o) else spec o

-- The row of the event that runs.
abbrev pub IsRow : ℕ → ℕ → EventStatus → List (ℕ × Event) → Type 0
IsRow org k status rows =
    (e : Event) × (get k rows ≡ some e)
    × (e.organization_id ≡ org)
    × (e.status ≡ status)
    × (is_on status ≡ true)

-- The table implements the abstract state: the events that are on are those that it names. The keys
-- are below the next id, and an active event is unlocked.
pub record Refines (spec : Running) (rows : List (ℕ × Event)) (n : ℕ) : Type 0 where
  pub sound :
      (k : ℕ) (e : Event)
      → get k rows ≡ some e
      → is_on e.status ≡ true
      → spec e.organization_id ≡ some (k, e.status)
  pub complete :
      (org k : ℕ) (status : EventStatus) → spec org ≡ some (k, status) → IsRow org k status rows
  pub fresh : (k : ℕ) (e : Event) → get k rows ≡ some e → k < n
  pub unlocked :
      (k : ℕ) (e : Event)
      → get k rows ≡ some e
      → is_active e.status ≡ true
      → is_unlocked e.billing_status ≡ true
