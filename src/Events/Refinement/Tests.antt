-- ===== src/Events/Refinement/Tests.antt =====
-- Runs of src/modules/events from a store with one event in the test mode and one that is off.
use openeos_api.Base.{
  ℕ, ◌≡◌, refl, sym, ap, arith, true, none, some, some-injective, List, [], ◌∷◌, ◌==◌,
  if◌then◌else◌, get, pos, ◌⊎◌, put, Bool-cases, inl, inr,
}
use openeos_api.Entities.{Event, EventStatus, EventBillingStatus}
use openeos_api.Samples.{signing, user_of, paid_store, event}
use openeos_api.Store.{Store}
use openeos_api.Access.{check_membership}
use openeos_api.Organizations.{check_permission}
use openeos_api.Events.Rows.{
  is_unlocked, find_event, get_event_and_check_permission, save_event, emit_status_changed,
}
use openeos_api.Events.Billing.{
  Stripe, StripeSession, settle_stripe_payment, settle_session, settle_event,
}
use openeos_api.Events.Lifecycle.{
  activate, deactivate, switch_on, deactivate_active_or_test_siblings, emit_all,
}
use openeos_api.Events.Calls.{EventRequest, EventCall, answer, serve_events}
use openeos_api.Events.Refinement.{Running, Refines, IsRow}
use openeos_api.Store.{ok}
use openeos_api.Policies.{assert_test_event_order_limit_not_reached}
use openeos_api.Orders.Create.{check_event}
use openeos_api.Events.Refinement.Orders.{activate-check_event}
use openeos_api.Events.Refinement.Calls.{
  replay, serve_events-Refines, one_running_event, active_event_is_unlocked,
}

-- Session 11 is paid, for event 4.
abbrev session : StripeSession
session = record { id = 11; is_paid = true; event_id = some 4; amount_total = some 2500 }

abbrev stripe : Stripe
stripe = record {
  is_configured = true;
  ensure_customer = λ known org. some 70;
  create_checkout_session = λ customer price eid. some 11;
  get_checkout_session = λ sid. some session;
}

-- Event 4 waits for its payment.
abbrev waiting : Event
waiting = record event {
  status = EventStatus.inactive;
  billing_status = EventBillingStatus.pending;
  stripe_checkout_session_id = some 11;
}

abbrev two_events : Store
two_events = record paid_store { events = (3, event) ∷ (4, waiting) ∷ [] }

abbrev by_admin : EventCall → EventRequest
by_admin c = record {
  env = signing;
  stripe = stripe;
  organization_id = 1;
  user = user_of 9;
  call = c;
}

abbrev requests : List EventRequest
requests =
    by_admin (EventCall.activate_call 4)
    ∷ by_admin (EventCall.settle_call 11)
    ∷ by_admin (EventCall.activate_call 4)
    ∷ by_admin (EventCall.deactivate_call 3)
    ∷ []

abbrev event_3_runs : Running
event_3_runs o = if o == 1 then some (3, EventStatus.test) else none

-- What is found is one of the two events.
two_rows :
    (k : ℕ) (e : Event)
    → get k two_events.events ≡ some e
    → ((3 == k) ≡ true) × (e ≡ event) ⊎ ((4 == k) ≡ true) × (e ≡ waiting)
unfolding get
two_rows k e h = elim (Bool-cases (3 == k)) [
  | inl y ↦ inl (y, sym (some-injective _ _ (rw y at h)))
  | inr n ↦ elim (Bool-cases (4 == k)) [
    | inl y ↦ inr (y, sym (some-injective _ _ (rw (n, y) at h)))
    | inr m ↦ let nothing = rw (n, m) at h in cc
  ]
]

event_3 : (k : ℕ) → (3 == k) ≡ true → k ≡ 3
event_3 k h = ground arith

event_3_row :
    (org k : ℕ) (status : EventStatus)
    → (org == 1) ≡ true
    → 3 ≡ k
    → EventStatus.test ≡ status
    → IsRow org k status two_events.events
unfolding get
event_3_row org k status y same_key same_status =
    (event, rw (← same_key) refl, equal org 1 y, same_status, rw (← same_status) refl)
  where
    equal : (a b : ℕ) → (a == b) ≡ true → b ≡ a
    equal a b h = ground arith

two_events-Refines : Refines event_3_runs two_events.events two_events.next_id
two_events-Refines = record {
  sound = λ k e here on. elim (two_rows k e here) [
    | inl (y, is_e) ↦ rw (is_e, event_3 k y) refl
    | inr (_, is_e) ↦ let dead = rw is_e at on in cc
  ];
  complete = λ org k status named. elim (Bool-cases (org == 1)) [
    | inl y ↦
        let same = some-injective (3, EventStatus.test) (k, status) (rw y at named) in
        event_3_row org k status y (ap (λ x. x.0) same) (ap (λ x. x.1) same)
    | inr n ↦ let nothing = rw n at named in cc
  ];
  fresh = λ k e here. elim (two_rows k e here) [
    | inl (y, _) ↦ ground arith
    | inr (y, _) ↦ ground arith
  ];
  unlocked = λ k e here active. elim (two_rows k e here) [
    | inl (_, is_e) ↦ let dead = rw is_e at active in cc
    | inr (_, is_e) ↦ let dead = rw is_e at active in cc
  ];
}

serve_events-Refines_example :
    Refines
      (replay requests two_events event_3_runs)
      (serve_events requests two_events).events
      (serve_events requests two_events).next_id
serve_events-Refines_example =
    serve_events-Refines requests two_events event_3_runs two_events-Refines

abbrev running : Event
running = record waiting {
  status = EventStatus.active;
  billing_status = EventBillingStatus.paid;
  paid_at = some 100;
  price_charged = some (pos 2500);
}

event_4_runs : get 4 (serve_events requests two_events).events ≡ some running
unfolding serve_events answer activate deactivate settle_stripe_payment settle_session settle_event
    get_event_and_check_permission check_permission check_membership find_event switch_on
    deactivate_active_or_test_siblings save_event emit_status_changed emit_all get put
event_4_runs = refl

one_running_event_example : ◌≡◌ {A = ℕ} 4 4
one_running_event_example =
    one_running_event requests two_events event_3_runs two_events-Refines 4 4 running running
      event_4_runs event_4_runs refl refl refl

active_event_is_unlocked_example : is_unlocked running.billing_status ≡ true
active_event_is_unlocked_example =
    active_event_is_unlocked requests two_events event_3_runs two_events-Refines 4 running
      event_4_runs refl

abbrev settling : List EventRequest
settling = by_admin (EventCall.settle_call 11) ∷ []

-- Event 4 is paid.
abbrev paid_events : Store
paid_events = serve_events settling two_events

abbrev activated : Store
activated = (activate 1 4 (user_of 9) paid_events).1

activate_run : activate 1 4 (user_of 9) paid_events ≡ (ok running, activated)
unfolding serve_events answer activate settle_stripe_payment settle_session settle_event
    get_event_and_check_permission check_permission check_membership find_event switch_on
    deactivate_active_or_test_siblings save_event emit_status_changed emit_all get put
activate_run = refl

takes_orders_now : check_event signing 1 (some 4) activated ≡ (ok tt, activated)
unfolding check_event assert_test_event_order_limit_not_reached serve_events answer activate
    settle_stripe_payment settle_session settle_event get_event_and_check_permission
    check_permission check_membership find_event switch_on deactivate_active_or_test_siblings
    save_event emit_status_changed emit_all get put
takes_orders_now = refl

activate-check_event_example : ◌≡◌ {A = ℕ} 4 4
activate-check_event_example =
    activate-check_event signing 1 4 4 (user_of 9) running (replay settling two_events event_3_runs)
      paid_events activated activated
      (serve_events-Refines settling two_events event_3_runs two_events-Refines) activate_run
      takes_orders_now
