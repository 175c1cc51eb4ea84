-- ===== src/Events/Tests.antt =====
-- Runs of src/modules/events at concrete events, prices and payments.
use openeos_api.Base.{◌≡◌, ◌≤◌, refl, pos, true, none, some, [], ◌∷◌, get, put, length}
use openeos_api.Entities.{Event, EventStatus, EventBillingStatus, Organization}
use openeos_api.Samples.{signing, user_of, paid_store, event, organization, head_of}
use openeos_api.Store.{Store, ok}
use openeos_api.Access.{check_membership}
use openeos_api.Organizations.{check_permission}
use openeos_api.Events.Rows.{find_event, find_one, save_event}
use openeos_api.Events.Schedule.{count_event_days, list_event_day_keys, days_between}
use openeos_api.Events.Lifecycle.{
  UpdateEventDto, update, activate, change_dates, assert_chronological,
  assert_paid_duration_not_extended,
}
use openeos_api.Events.Lifecycle.Days.{days_of, update-days}
use openeos_api.Events.Lifecycle.Runs.{settle-then_activate}
use openeos_api.Events.Billing.{
  Stripe, StripeSession, EventPrice, compute_price, discounted, settle_stripe_payment,
}
use openeos_api.Events.Billing.Bounds.{length-list_event_day_keys}

abbrev session : StripeSession
session = record { id = 11; is_paid = true; event_id = some 3; amount_total = some 2500 }

abbrev stripe : Stripe
stripe = record {
  is_configured = true;
  ensure_customer = λ known org. some 70;
  create_checkout_session = λ customer price eid. some 11;
  get_checkout_session = λ sid. some session;
}

-- 15 % off for the organization, 20 % for the first event.
abbrev discounting : Organization
discounting = record organization { discount_percent = some 1500 }

abbrev first_price : EventPrice
first_price = compute_price signing discounting event true

-- Three days of 25.00, less a fifth.
first_price_is : first_price.final_price ≡ pos 6000
unfolding compute_price discounted count_event_days days_between
first_price_is = refl

length-list_event_day_keys_example :
    length (list_event_day_keys signing none (some 4) (some 6))
    ≡ count_event_days signing none (some 4) (some 6)
length-list_event_day_keys_example = length-list_event_day_keys signing none 4 (some 6)

settle-then_activate_example :
    (f : Event) × ((activate 1 3
        (user_of 9)
        (settle_stripe_payment signing stripe 11 paid_store).1).0
      ≡ ok f)
    × (f.status ≡ EventStatus.active)
    × (get 3
          (activate 1 3 (user_of 9) (settle_stripe_payment signing stripe 11 paid_store).1).1.events
        ≡ some f)
unfolding get
settle-then_activate_example =
    settle-then_activate signing stripe 11 session 3 event (user_of 9) head_of paid_store refl refl
      refl refl refl refl refl

abbrev paid_event : Event
paid_event = record event { billing_status = EventBillingStatus.paid }

abbrev billed_store : Store
billed_store = record paid_store { events = (3, paid_event) ∷ [] }

abbrev one_day_later : UpdateEventDto
one_day_later = record { name = none; description = none; start_date = some 5; end_date = some 7 }

abbrev moved_event : Event
moved_event = record paid_event { start_date = some 5; end_date = some 7 }

abbrev moved_store : Store
moved_store = record billed_store { events = (3, moved_event) ∷ [] }

update_run :
    update signing 1 3 one_day_later (user_of 9) billed_store ≡ (ok moved_event, moved_store)
unfolding update check_permission check_membership find_one find_event change_dates
    assert_chronological assert_paid_duration_not_extended count_event_days days_between save_event
    get put
update_run = refl

update-days_example :
    (get 3 moved_store.events ≡ some moved_event)
    × (days_of signing billed_store moved_event ≤ days_of signing billed_store paid_event)
    × (moved_event.billing_status ≡ paid_event.billing_status)
unfolding get
update-days_example =
    update-days signing 1 3 one_day_later (user_of 9) paid_event moved_event billed_store
      moved_store refl refl update_run
