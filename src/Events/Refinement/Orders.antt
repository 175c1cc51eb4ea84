-- ===== src/Events/Refinement/Orders.antt =====
-- Which event takes orders once one is activated: src/modules/events/events.service.ts, then the event
-- check of create in src/modules/orders/orders.service.ts.
use openeos_api.Base.{ℕ, ◌≡◌, refl, sym, ap, ◌∙◌, true, some, some-injective, get, ==_refl}
use openeos_api.Entities.{User, Event, EventStatus}
use openeos_api.Store.{Store, Env, ok}
use openeos_api.Orders.Create.{check_event}
use openeos_api.Orders.Create.Limits.{check_event-Takes, Takes}
use openeos_api.Events.Rows.{is_on}
use openeos_api.Events.Rows.Found.{event_in-some}
use openeos_api.Events.Lifecycle.{activate}
use openeos_api.Events.Steps.{starts}
use openeos_api.Events.Steps.Lifecycle.{activate-Makes}
use openeos_api.Events.Refinement.{Running, Refines, transition}
use openeos_api.Events.Refinement.Stops.{step-Refines}

Takes-is_on : (most n : ℕ) (status : EventStatus) → Takes most n 1 status → is_on status ≡ true
Takes-is_on most n EventStatus.active h = refl
Takes-is_on most n EventStatus.test h = refl
Takes-is_on most n EventStatus.inactive h = absurd h

named :
    (org eid : ℕ) (spec : Running)
    → transition (starts org eid EventStatus.active) spec org ≡ some (eid, EventStatus.active)
named org eid spec = rw (==_refl org) refl

-- Once an activation has returned, in a store where the table of events implements an abstract state,
-- an event of the organization that passes the event check of a new order is the activated one.
pub activate-check_event :
    (env : Env) (org eid k : ℕ) (user : User) (e : Event) (spec : Running) (s t u : Store)
    → Refines spec s.events s.next_id
    → activate org eid user s ≡ (ok e, t)
    → check_event env org (some k) t ≡ (ok tt, u)
    → k ≡ eid
activate-check_event env org eid k user e spec s t u h run passes =
    let now = step-Refines spec (rw run at (activate-Makes org eid user s)) h in
    let (_, f, in_org, takes) = check_event-Takes env org k t u passes in
    let (found, own) = event_in-some org (get k t.events) f in_org in
    let runs = now.sound k f found (Takes-is_on _ _ f.status takes) in
    ap (λ x. x.0)
      (some-injective _ _ (
        sym runs
        ∙ ap (transition (starts org eid EventStatus.active) spec) own
        ∙ named org eid spec))
