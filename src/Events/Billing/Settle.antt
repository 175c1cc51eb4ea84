-- ===== src/Events/Billing/Settle.antt =====
-- Settling a payment of src/modules/events/event-billing.service.ts: it may come twice, from the webhook
-- and from the browser.
use openeos_api.Base.{
  ℕ, ◌≡◌, refl, ◌∙◌, List, put, inl, inr, Bool, true, false, Option, some, get, get-put_self,
  Bool-cases,
}
use openeos_api.Entities.{Event}
use openeos_api.Store.{Store, Env, Result, ok, ◌>>=◌, or_raise, stripe_error}
use openeos_api.Events.Rows.{is_unlocked, save_event}
use openeos_api.Events.Billing.{
  Stripe, StripeSession, settle_stripe_payment, settle_session, settle_if, settle_event,
  named_event, settled,
}

-- What a settlement of a paid session makes of the event that it names.
pub record Settled (before : Event) (eid : ℕ) (s : Store) (r : Result (Option Event) × Store)
    : Type 0 where
  pub event : Event
  pub events : List (ℕ × Event)
  pub run : r ≡ (ok (some event), record s { events = events })
  pub saved : get eid events ≡ some event
  pub same_organization : event.organization_id ≡ before.organization_id
  pub same_status : event.status ≡ before.status
  pub is_unlocked_now : is_unlocked event.billing_status ≡ true

settle_if_paid :
    (b : Bool) (env : Env) (session : StripeSession) (s : Store)
    → b ≡ true
    → settle_if b env session s ≡ settle_event env session (named_event session.event_id s) s
settle_if_paid true env session s h = refl
settle_if_paid false env session s h = cc

pub settle_stripe_payment-Settled :
    (env : Env) (stripe : Stripe) (sid : ℕ) (session : StripeSession) (eid : ℕ) (e : Event)
    (s : Store)
    → stripe.get_checkout_session sid ≡ some session
    → session.is_paid ≡ true
    → session.event_id ≡ some eid
    → get eid s.events ≡ some e
    → Settled e eid s (settle_stripe_payment env stripe sid s)
unfolding settle_stripe_payment settle_session settle_event save_event
settle_stripe_payment-Settled env stripe sid session eid e s known is_paid names found =
    elim (Bool-cases (is_unlocked e.billing_status)) [
      | inl u ↦ record {
        event = e;
        events = s.events;
        run = paid_run (rw (names, found, u) refl);
        saved = found;
        same_organization = refl;
        same_status = refl;
        is_unlocked_now = u;
      }
      | inr n ↦ record {
        event = settled env session e;
        events = put eid (settled env session e) s.events;
        run = paid_run (rw (names, found, n) refl);
        saved = get-put_self eid (settled env session e) s.events;
        same_organization = refl;
        same_status = refl;
        is_unlocked_now = refl;
      }
    ]
  where
    paid_run :
        {r : Result (Option Event) × Store}
        → settle_event env session (named_event session.event_id s) s ≡ r
        → (or_raise (stripe.get_checkout_session sid) stripe_error >>= λ x.
              settle_if x.is_paid env x)
            s
          ≡ r
    paid_run h = rw known (settle_if_paid session.is_paid env session s is_paid ∙ h)
