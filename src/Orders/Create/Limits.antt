-- ===== src/Orders/Create/Limits.antt =====
-- Which events take an order.
mod Tests
use openeos_api.Base.{
  ◌+◌, ℕ, suc, ◌≤◌, ◌≡◌, refl, sym, ap, Bool, true, false, not, Option, none, some, get, leb, arith,
  Bool-cases, inl, inr, Option-cases, ◌==◌, if◌then◌else◌,
}
use openeos_api.Entities.{Event, EventStatus}
use openeos_api.Store.{
  Store, Env, M, gets, raise_if, bad_request, validation_error, ok, err, ◌>>=◌, ◌>>◌,
}
use openeos_api.Policies.{assert_test_event_order_limit_not_reached}
use openeos_api.Orders.Create.{check_event, event_in, takes_orders, orders_of_event}

-- What an order may be created for: an event of the organization that is active, or in test with room
-- for one more order.
abbrev pub Takes : ℕ → ℕ → ℕ → EventStatus → Type 0
Takes max existing extra EventStatus.active = Unit
Takes max existing extra EventStatus.test = extra + existing ≤ max
Takes max existing extra EventStatus.inactive = ⊥

passes :
    (env : Env) (eid : ℕ) (status : EventStatus) (s t : Store)
    → (do
      raise_if (not (takes_orders status)) (bad_request validation_error)
      existing ← gets (orders_of_event eid)
      assert_test_event_order_limit_not_reached status existing env.test_event_max_orders)
        s
      ≡ (ok tt, t)
    → (t ≡ s) × Takes env.test_event_max_orders (orders_of_event eid s) 1 status
unfolding assert_test_event_order_limit_not_reached
passes env eid EventStatus.active s t h = (sym (ap (λ r. r.1) h), tt)
passes env eid EventStatus.inactive s t h = cc
passes env eid EventStatus.test s t h =
    elim (Bool-cases (leb env.test_event_max_orders (orders_of_event eid s))) [
      | inl e ↦ let no = rw e at h in cc
      | inr e ↦ (sym (ap (λ r. r.1) (rw e at h)), not_leb _ _ e)
    ]
  where
    not_leb : (a b : ℕ) → leb a b ≡ false → 1 + b ≤ a
    not_leb a b f = ground arith

-- If the check of the event passes, then the event is one of the organization and is active, or in
-- test with at most as many orders as the configuration allows, the new one counted; and the check
-- writes nothing.
pub check_event-Takes :
    (env : Env) (org eid : ℕ) (s t : Store)
    → check_event env org (some eid) s ≡ (ok tt, t)
    → (t ≡ s)
      × (e : Event) × (event_in org (get eid s.events) ≡ some e)
      × Takes env.test_event_max_orders (orders_of_event eid s) 1 e.status
unfolding check_event
check_event-Takes env org eid s t h = elim (Option-cases (event_in org (get eid s.events))) [
  | inl n ↦ let no = rw n at h in cc
  | inr (e, f) ↦ let (same, room) = passes env eid e.status s t (rw f at h) in (same, e, f, room)
]
