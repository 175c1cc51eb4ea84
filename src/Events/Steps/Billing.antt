-- ===== src/Events/Steps/Billing.antt =====
-- The methods of src/modules/events/event-billing.service.ts make silent steps: none starts or stops an
-- event, and none locks one that is unlocked.
use openeos_api.Base.{
  ℕ, ℤ, ◌≡◌, refl, inl, inr, Bool, true, false, not, Option, none, some, get, put, Bool-cases,
  Option-cases,
}
use openeos_api.Entities.{User, Event}
use openeos_api.Store.{
  Store, Env, M, Result, ok, err, ◌>>=◌, ◌>>◌, or_raise, pure, and_then, stripe_error,
}
use openeos_api.Store.Reads.{
  Reads, raises, returns, Reads-bind, Reads-or_raise, after_reads, after_guard, after_some,
}
use openeos_api.Organizations.{check_org_permission, check_role_admin}
use openeos_api.Organizations.Reads.{Reads-check_org_permission, Reads-check_role_admin}
use openeos_api.Events.Rows.{is_unlocked, save_event, find_event}
use openeos_api.Events.Rows.Found.{after_find_event, Reads-find_event}
use openeos_api.Events.Billing.{
  Stripe, StripeSession, order_invoice, create_stripe_checkout, settle_stripe_payment,
  sync_stripe_payment, get_billing_info, get_organization, settle_event, settle_session, settle_if,
  settle_pending, is_invoice_mode, is_customer, awaiting, settled, named_event, with_key,
  resolve_price, is_pending,
}
use openeos_api.Events.Steps.{stays, rewrites, SameLife, Makes, silent}

pub Reads-get_organization : (org : ℕ) (s : Store) → Reads (get_organization org s) s
unfolding get_organization
Reads-get_organization org s = Reads-or_raise (get org s.organizations) _ s

pub Reads-get_billing_info :
    (env : Env) (stripe : Stripe) (org eid : ℕ) (user : User) (s : Store)
    → Reads (get_billing_info env stripe org eid user s) s
unfolding get_billing_info
Reads-get_billing_info env stripe org eid user s =
    Reads-bind (check_org_permission (λ p. p.events) org user) _ s
      (Reads-check_org_permission (λ p. p.events) org user s)
      λ _ _. Reads-bind (find_event org eid) _ s (Reads-find_event org eid s) λ e _.
        Reads-bind (get_organization org) _ s (Reads-get_organization org s) λ o _. returns _ refl

-- A locked event may be written with another state of its billing.
locked-SameLife :
    (e f : Event)
    → is_unlocked e.billing_status ≡ false
    → f.organization_id ≡ e.organization_id
    → f.status ≡ e.status
    → SameLife e f
locked-SameLife e f locked own same = record {
  same_organization = own;
  same_status = same;
  stays_unlocked = λ h. cc;
}

pub order_invoice-Makes :
    (env : Env) (org eid : ℕ) (user : User) (s : Store)
    → Makes silent s (order_invoice env org eid user s)
unfolding order_invoice save_event
order_invoice-Makes env org eid user s =
    after_reads (Makes silent s) (check_role_admin org user) _ s (λ x. stays)
      (Reads-check_role_admin org user s)
      λ _ _.
        after_find_event (Makes silent s) org eid _ s (λ x. stays)
          λ e found _.
            after_reads (Makes silent s) (get_organization org) _ s (λ x. stays)
              (Reads-get_organization org s)
              λ o _.
                after_guard (Makes silent s) (is_unlocked e.billing_status) _ _ s stays λ locked.
                  after_guard (Makes silent s) (not (is_invoice_mode o.billing_mode)) _ _ s stays
                    λ _. rewrites eid e _ found (locked-SameLife e _ locked refl refl)

-- The rest of the checkout, once the customer is known.
pay_for-Makes :
    (stripe : Stripe) (price : ℤ) (customer eid : ℕ) (e : Event) (s t : Store)
    → t.events ≡ s.events
    → t.next_id ≡ s.next_id
    → get eid s.events ≡ some e
    → is_unlocked e.billing_status ≡ false
    → Makes silent s (
        (or_raise (stripe.create_checkout_session customer price eid) stripe_error >>= λ session.
        save_event eid (awaiting session e) >> pure session)
          t)
unfolding save_event
pay_for-Makes stripe price customer eid e s t same same_id found locked =
    after_some (Makes silent s) (stripe.create_checkout_session customer price eid) stripe_error
      (λ session. save_event eid (awaiting session e) >> pure session) t (rw (same, same_id) stays)
      λ session _.
        rw (same, same_id)
          (rewrites eid e (awaiting session e) found (locked-SameLife e _ locked refl refl))

pub create_stripe_checkout-Makes :
    (env : Env) (stripe : Stripe) (org eid : ℕ) (user : User) (s : Store)
    → Makes silent s (create_stripe_checkout env stripe org eid user s)
unfolding create_stripe_checkout
create_stripe_checkout-Makes env stripe org eid user s =
    after_reads (Makes silent s) (check_role_admin org user) _ s (λ x. stays)
      (Reads-check_role_admin org user s)
      λ _ _.
        after_find_event (Makes silent s) org eid _ s (λ x. stays)
          λ e found _.
            after_reads (Makes silent s) (get_organization org) _ s (λ x. stays)
              (Reads-get_organization org s)
              λ o _.
                after_guard (Makes silent s) (is_unlocked e.billing_status) _ _ s stays λ locked.
                  after_some (Makes silent s) (stripe.ensure_customer o.stripe_customer_id org) _ _
                    s stays
                    λ customer _. elim (Bool-cases (is_customer o.stripe_customer_id customer)) [
                      | inl y ↦ rw y (
                          pay_for-Makes stripe (resolve_price env org eid o e s).final_price
                            customer eid e s s refl refl found locked)
                      | inr n ↦ rw n (
                          pay_for-Makes stripe (resolve_price env org eid o e s).final_price
                            customer eid e s
                            (record s {
                              organizations =
                                  put org (record o { stripe_customer_id = some customer })
                                    s.organizations;
                            })
                            refl refl found locked)
                    ]

settle_event-Makes :
    (env : Env) (session : StripeSession) (eid : ℕ) (o : Option Event) (s : Store)
    → get eid s.events ≡ o
    → Makes silent s (settle_event env session (with_key eid o) s)
unfolding settle_event save_event
settle_event-Makes env session eid none s found = stays
settle_event-Makes env session eid (some e) s found =
    elim (Bool-cases (is_unlocked e.billing_status)) [
      | inl u ↦ rw u stays
      | inr locked ↦
          rw locked
            (rewrites eid e (settled env session e) found (locked-SameLife e _ locked refl refl))
    ]

settle_named-Makes :
    (env : Env) (session : StripeSession) (o : Option ℕ) (s : Store)
    → Makes silent s (settle_event env session (named_event o s) s)
unfolding settle_event
settle_named-Makes env session none s = stays
settle_named-Makes env session (some eid) s =
    settle_event-Makes env session eid (get eid s.events) s refl

settle_if-Makes :
    (b : Bool) (env : Env) (session : StripeSession) (s : Store)
    → Makes silent s (settle_if b env session s)
settle_if-Makes false env session s = stays
settle_if-Makes true env session s = settle_named-Makes env session session.event_id s

settle_session-Makes :
    (env : Env) (session : StripeSession) (s : Store)
    → Makes silent s (settle_session env session s)
unfolding settle_session
settle_session-Makes env session s = settle_if-Makes session.is_paid env session s

pub settle_stripe_payment-Makes :
    (env : Env) (stripe : Stripe) (sid : ℕ) (s : Store)
    → Makes silent s (settle_stripe_payment env stripe sid s)
unfolding settle_stripe_payment
settle_stripe_payment-Makes env stripe sid s =
    after_some (Makes silent s) (stripe.get_checkout_session sid) _ _ s stays
      λ session _. settle_session-Makes env session s

-- What is not announced does not depend on whether the call returns.
quiet :
    {A B : Type 0} (s : Store) (r : Result A × Store) (q : Result B)
    → Makes silent s r
    → Makes silent s (q, r.1)
quiet s (ok a, t) (ok b) h = h
quiet s (ok a, t) (err x) h = h
quiet s (err x, t) (ok b) h = h
quiet s (err x, t) (err y) h = h

settle_pending-Makes :
    (env : Env) (stripe : Stripe) (e : Event) (s : Store)
    → Makes silent s (settle_pending env stripe e s)
unfolding settle_pending
settle_pending-Makes env stripe e s = elim (Option-cases e.stripe_checkout_session_id) [
  | inl n ↦ rw n stays
  | inr (sid, y) ↦ elim (Bool-cases (is_pending e.billing_status)) [
    | inl p ↦
        rw (y, p)
          (quiet s (settle_stripe_payment env stripe sid s) (ok tt)
            (settle_stripe_payment-Makes env stripe sid s))
    | inr n ↦ rw (y, n) stays
  ]
]

then-Reads :
    {A B : Type 0} (f : M B) (s : Store) (r : Result A × Store)
    → Makes silent s r
    → ((t : Store) → Reads (f t) t)
    → Makes silent s (and_then r λ _. f)
then-Reads f s (ok a, t) h reads = elim (reads t) [ raises x e ↦ rw e h | returns b e ↦ rw e h ]
then-Reads f s (err x, t) h reads = h

pub sync_stripe_payment-Makes :
    (env : Env) (stripe : Stripe) (org eid : ℕ) (user : User) (s : Store)
    → Makes silent s (sync_stripe_payment env stripe org eid user s)
unfolding sync_stripe_payment
sync_stripe_payment-Makes env stripe org eid user s =
    after_reads (Makes silent s) (check_org_permission (λ p. p.events) org user) _ s (λ x. stays)
      (Reads-check_org_permission (λ p. p.events) org user s)
      λ _ _.
        after_find_event (Makes silent s) org eid _ s (λ x. stays)
          λ e _ _.
            then-Reads (get_billing_info env stripe org eid user) s (settle_pending env stripe e s)
              (settle_pending-Makes env stripe e s) (Reads-get_billing_info env stripe org eid user)
