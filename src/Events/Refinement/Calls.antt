-- ===== src/Events/Refinement/Calls.antt =====
-- A sequence of requests to the services of src/modules/events, seen from outside: the changes that
-- the calls which returned have announced.
use openeos_api.Base.{ℕ, ◌≡◌, ◌∙◌, sym, ap, true, some, some-injective, List, [], ◌∷◌, get}
use openeos_api.Entities.{Event}
use openeos_api.Store.{Store}
use openeos_api.Events.Rows.{is_on, is_unlocked}
use openeos_api.Events.Lifecycle.{is_active}
use openeos_api.Events.Calls.{EventCall, EventRequest, answer, serve_events}
use openeos_api.Events.Calls.EventCall.{
  create_event_call, update_event_call, remove_event_call, activate_call, deactivate_call,
  test_call, invoice_call, checkout_call, settle_call, sync_call,
}
use openeos_api.Events.Steps.{Change, EventStep, change_of, if_returned}
use openeos_api.Events.Steps.Lifecycle.{
  create-Makes, update-Makes, remove-Makes, activate-Makes, deactivate-Makes, set_test_mode-Makes,
}
use openeos_api.Events.Steps.Billing.{
  order_invoice-Makes, create_stripe_checkout-Makes, settle_stripe_payment-Makes,
  sync_stripe_payment-Makes,
}
use openeos_api.Events.Refinement.{Running, transition, Refines}
use openeos_api.Events.Refinement.Stops.{step-Refines}

-- What one request announces, by its answer.
abbrev pub announced : EventRequest → Store → Change
announced r s = if_returned (answer r r.call s).0 (change_of r.organization_id r.call)

-- The abstract state after a sequence of requests.
unfoldable pub replay : List EventRequest → Store → Running → Running
unfolding answer
replay [] s spec = spec
replay (r ∷ rs) s spec = replay rs (answer r r.call s).1 (transition (announced r s) spec)

pub answer-step :
    (r : EventRequest) (c : EventCall) (s : Store)
    → EventStep
        (if_returned (answer r c s).0 (change_of r.organization_id c))
        s.events
        s.next_id
        (answer r c s).1.events
        (answer r c s).1.next_id
unfolding answer
answer-step r (create_event_call dto) s = create-Makes r.organization_id dto r.user s
answer-step r (update_event_call eid dto) s = update-Makes r.env r.organization_id eid dto r.user s
answer-step r (remove_event_call eid) s = remove-Makes r.organization_id eid r.user s
answer-step r (activate_call eid) s = activate-Makes r.organization_id eid r.user s
answer-step r (deactivate_call eid) s = deactivate-Makes r.organization_id eid r.user s
answer-step r (test_call eid) s = set_test_mode-Makes r.organization_id eid r.user s
answer-step r (invoice_call eid) s = order_invoice-Makes r.env r.organization_id eid r.user s
answer-step r (checkout_call eid) s =
    create_stripe_checkout-Makes r.env r.stripe r.organization_id eid r.user s
answer-step r (settle_call sid) s = settle_stripe_payment-Makes r.env r.stripe sid s
answer-step r (sync_call eid) s =
    sync_stripe_payment-Makes r.env r.stripe r.organization_id eid r.user s

-- Refinement: if the table of events implements an abstract state, which names at most one running
-- event for every organization, then after any sequence of requests to the event and the billing
-- service it implements the state that the announced changes lead to: an activation or a change to the
-- test mode that returned makes its event the running one of the organization, a deactivation that
-- returned of the running event leaves none, and no other call changes which event runs.
pub serve_events-Refines :
    (requests : List EventRequest) (s : Store) (spec : Running)
    → Refines spec s.events s.next_id
    → Refines
        (replay requests s spec)
        (serve_events requests s).events
        (serve_events requests s).next_id
unfolding replay serve_events
serve_events-Refines [] s spec h = h
serve_events-Refines (r ∷ rs) s spec h =
    serve_events-Refines rs (answer r r.call s).1 (transition (announced r s) spec)
      (step-Refines spec (answer-step r r.call s) h)

-- After any sequence of requests to the event and the billing service, from a store whose running
-- events are those of an abstract state: two events of one organization that are both active or in the
-- test mode are the same event.
pub one_running_event :
    (requests : List EventRequest) (s : Store) (spec : Running)
    → Refines spec s.events s.next_id
    → (j k : ℕ) (e f : Event) → get j (serve_events requests s).events ≡ some e
    → get k (serve_events requests s).events ≡ some f
    → is_on e.status ≡ true
    → is_on f.status ≡ true
    → e.organization_id ≡ f.organization_id
    → j ≡ k
one_running_event requests s spec h j k e f at_j at_k on_e on_f same =
    let now = serve_events-Refines requests s spec h in
    ap (λ x. x.0)
      (some-injective _ _ (
        sym (now.sound j e at_j on_e) ∙ ap (replay requests s spec) same ∙ now.sound k f at_k on_f))

-- After any sequence of requests to the event and the billing service, from a store that implements an
-- abstract state, where an active event is unlocked: an active event is paid, invoiced or waived.
pub active_event_is_unlocked :
    (requests : List EventRequest) (s : Store) (spec : Running)
    → Refines spec s.events s.next_id
    → (k : ℕ) (e : Event) → get k (serve_events requests s).events ≡ some e
    → is_active e.status ≡ true
    → is_unlocked e.billing_status ≡ true
active_event_is_unlocked requests s spec h k e here active =
    (serve_events-Refines requests s spec h).unlocked k e here active
