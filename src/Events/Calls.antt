-- ===== src/Events/Calls.antt =====
-- The methods of EventsService and EventBillingService that write, as one type of calls, and what a
-- sequence of calls makes of the store. `settle_call` is the webhook of
-- src/modules/events/stripe-webhook.controller.ts.
use openeos_api.Base.{ℕ, Bool, true, false, List, [], ◌∷◌}
use openeos_api.Entities.{User}
use openeos_api.Store.{Store, Env, M, Result, ok, err}
use openeos_api.Events.Lifecycle.{
  CreateEventDto, UpdateEventDto, create, update, remove, activate, deactivate, set_test_mode,
}
use openeos_api.Events.Billing.{
  Stripe, order_invoice, create_stripe_checkout, settle_stripe_payment, sync_stripe_payment,
}

pub data EventCall : Type 0 where
  create_event_call : CreateEventDto → EventCall
  update_event_call : ℕ → UpdateEventDto → EventCall
  remove_event_call activate_call deactivate_call test_call : ℕ → EventCall
  invoice_call checkout_call settle_call sync_call : ℕ → EventCall

pub record EventRequest : Type 0 where
  pub env : Env
  pub stripe : Stripe
  pub organization_id : ℕ
  pub user : User
  pub call : EventCall

abbrev pub succeeded {ℓ} : {A : Type ℓ} → Result A → Bool
succeeded (ok a) = true
succeeded (err e) = false

-- Whether a call returns, and the store that it leaves.
abbrev pub outcome {ℓ} : {A : Type ℓ} → M A → Store → Bool × Store
outcome m s = (succeeded (m s).0, (m s).1)

unfoldable pub answer : EventRequest → EventCall → Store → Bool × Store
answer r (create_event_call dto) = outcome (create r.organization_id dto r.user)
answer r (update_event_call eid dto) = outcome (update r.env r.organization_id eid dto r.user)
answer r (remove_event_call eid) = outcome (remove r.organization_id eid r.user)
answer r (activate_call eid) = outcome (activate r.organization_id eid r.user)
answer r (deactivate_call eid) = outcome (deactivate r.organization_id eid r.user)
answer r (test_call eid) = outcome (set_test_mode r.organization_id eid r.user)
answer r (invoice_call eid) = outcome (order_invoice r.env r.organization_id eid r.user)
answer r (checkout_call eid) =
    outcome (create_stripe_checkout r.env r.stripe r.organization_id eid r.user)
answer r (settle_call sid) = outcome (settle_stripe_payment r.env r.stripe sid)
answer r (sync_call eid) = outcome (sync_stripe_payment r.env r.stripe r.organization_id eid r.user)

unfoldable pub serve_events : List EventRequest → Store → Store
unfolding answer
serve_events [] s = s
serve_events (r ∷ rs) s = serve_events rs (answer r r.call s).1
