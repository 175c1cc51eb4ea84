-- ===== src/Events/Billing.antt =====
-- src/modules/events/event-billing.service.ts. Prices are in cents, percents in hundredths. `Stripe` is
-- the payment provider behind src/modules/stripe/stripe.service.ts: `none` is a call that throws. The
-- billing address and the mail to the admin are not modelled.
pub mod Bounds
pub mod Settle
use openeos_api.Base.{
  ℕ, ℤ, pos, neg, suc, ◌+◌, ◌-◌, ◌*◌, ◌/◌, Bool, true, false, not, ◌&&◌, Option, none, some, List,
  [], ◌∷◌, ◌==◌, ltb, leb, exists, if◌then◌else◌, get, put, get_or, is_some,
}
use openeos_api.Entities.{
  User, Event, EventBillingStatus, Organization, OrganizationBillingMode, OrganizationPermissions,
}
use openeos_api.Store.{
  Store, Env, M, Result, ok, err, pure, gets, modify, or_raise, raise_if, when, ◌>>=◌, ◌>>◌,
  bad_request, not_found, not_found_code, validation_error, stripe_error,
}
use openeos_api.Organizations.{check_org_permission, check_role_admin}
use openeos_api.Events.Schedule.{count_event_days}
use openeos_api.Events.Rows.{find_event, save_event, is_unlocked, is_billed}

pub record StripeSession : Type 0 where
  pub id : ℕ
  pub is_paid : Bool
  pub event_id : Option ℕ
  pub amount_total : Option ℕ

-- `ensureCustomer` by the known customer and the organization, `createCheckoutSession` by customer,
-- amount in cents and event, `getCheckoutSession` by session.
pub record Stripe : Type 0 where
  pub is_configured : Bool
  pub ensure_customer : Option ℕ → ℕ → Option ℕ
  pub create_checkout_session : ℕ → ℤ → ℕ → Option ℕ
  pub get_checkout_session : ℕ → Option StripeSession

pub data DiscountReason : Type 0 where
  first_event organization no_discount : DiscountReason

pub record EventPrice : Type 0 where
  pub price_per_day : ℕ
  pub days : ℕ
  pub price : ℕ
  pub discount_percent : ℕ
  pub discount_reason : DiscountReason
  pub final_price : ℤ

pub record EventBillingInfo : Type 0 where
  pub price : EventPrice
  pub online_payment_available : Bool
  pub billing_mode : OrganizationBillingMode
  pub billing_status : EventBillingStatus

unfoldable pub get_organization : ℕ → M Organization
get_organization org = do
  found ← gets λ s. get org s.organizations
  or_raise found (not_found not_found_code)

unfoldable pub has_billed_event_before : ℕ → ℕ → Store → Bool
has_billed_event_before org eid s =
    exists
      (λ row. row.1.organization_id == org && not (row.0 == eid) && is_billed row.1.billing_status)
      s.events

-- `!discountValidUntil || new Date(discountValidUntil) >= new Date()`
abbrev pub still_valid : ℕ → Option ℕ → Bool
still_valid now none = true
still_valid now (some until) = leb now until

abbrev pub max_ℕ : ℕ → ℕ → ℕ
max_ℕ a b = if leb a b then b else a

abbrev pub organization_percent : Env → Organization → ℕ
organization_percent env o =
    if still_valid env.now o.discount_valid_until then get_or o.discount_percent 0 else 0

abbrev pub first_event_percent : Env → Bool → ℕ
first_event_percent env true = env.first_event_discount
first_event_percent env false = 0

abbrev pub reason_of : ℕ → ℕ → DiscountReason
reason_of org_percent first_percent =
    if ltb 0 (max_ℕ org_percent first_percent)
    then (if leb first_percent org_percent then organization else first_event)
    else no_discount

-- `Math.round(price * (1 - percent / 100) * 100) / 100`, in cents: a half is rounded up, also when a
-- percent above 100 makes the price negative.
unfoldable pub discounted : ℕ → ℕ → ℤ
discounted price percent =
    if leb percent 10000
    then pos ((price * (10000 - percent) + 5000) / 10000)
    else neg (pos ((price * (percent - 10000) + 4999) / 10000))

unfoldable pub compute_price : Env → Organization → Event → Bool → EventPrice
unfolding discounted
compute_price env o e is_first =
    let per_day = get_or o.event_price_override env.event_price in
    let days_ = count_event_days env o.timezone e.start_date e.end_date in
    let percent = max_ℕ (organization_percent env o) (first_event_percent env is_first) in
    record {
      price_per_day = per_day;
      days = days_;
      price = per_day * days_;
      discount_percent = percent;
      discount_reason = reason_of (organization_percent env o) (first_event_percent env is_first);
      final_price = discounted (per_day * days_) percent;
    }

unfoldable pub resolve_price : Env → ℕ → ℕ → Organization → Event → Store → EventPrice
unfolding has_billed_event_before compute_price
resolve_price env org eid o e s = compute_price env o e (not (has_billed_event_before org eid s))

unfoldable pub get_billing_info : Env → Stripe → ℕ → ℕ → User → M EventBillingInfo
get_billing_info env stripe org eid user = do
  check_org_permission (λ p. p.events) org user
  e ← find_event org eid
  o ← get_organization org
  price ← gets (resolve_price env org eid o e)
  pure (record {
    price = price;
    online_payment_available = stripe.is_configured;
    billing_mode = o.billing_mode;
    billing_status = e.billing_status;
  })

abbrev pub is_invoice_mode : OrganizationBillingMode → Bool
is_invoice_mode OrganizationBillingMode.invoice = true
is_invoice_mode OrganizationBillingMode.prepaid = false

abbrev pub invoiced : ℤ → Event → Event
invoiced price e = record e {
  billing_status = EventBillingStatus.invoice;
  price_charged = some price;
}

unfoldable pub order_invoice : Env → ℕ → ℕ → User → M Event
unfolding get_organization
order_invoice env org eid user = do
  check_role_admin org user
  e ← find_event org eid
  o ← get_organization org
  raise_if (is_unlocked e.billing_status) (bad_request validation_error)
  raise_if (not (is_invoice_mode o.billing_mode)) (bad_request validation_error)
  price ← gets (resolve_price env org eid o e)
  save_event eid (invoiced price.final_price e)
  pure (invoiced price.final_price e)

abbrev pub is_customer : Option ℕ → ℕ → Bool
is_customer none c = false
is_customer (some b) c = b == c

abbrev pub save_customer : ℕ → Organization → ℕ → M (Unit {0})
save_customer org o customer = modify λ s. record s {
  organizations = put org (record o { stripe_customer_id = some customer }) s.organizations;
}

abbrev pub awaiting : ℕ → Event → Event
awaiting session e = record e {
  billing_status = EventBillingStatus.pending;
  stripe_checkout_session_id = some session;
}

-- It returns the session whose page the client opens.
unfoldable pub create_stripe_checkout : Env → Stripe → ℕ → ℕ → User → M ℕ
unfolding get_organization
create_stripe_checkout env stripe org eid user = do
  check_role_admin org user
  e ← find_event org eid
  o ← get_organization org
  raise_if (is_unlocked e.billing_status) (bad_request validation_error)
  price ← gets (resolve_price env org eid o e)
  customer ← or_raise (stripe.ensure_customer o.stripe_customer_id org) stripe_error
  when (not (is_customer o.stripe_customer_id customer)) (save_customer org o customer)
  session ← or_raise (stripe.create_checkout_session customer price.final_price eid) stripe_error
  save_event eid (awaiting session e)
  pure session

abbrev pub settled : Env → StripeSession → Event → Event
settled env session e = record e {
  billing_status = EventBillingStatus.paid;
  paid_at = some env.now;
  stripe_checkout_session_id = some session.id;
  price_charged = some (pos (get_or session.amount_total 0));
}

-- The event that a paid session names.
abbrev pub with_key : ℕ → Option Event → Option (ℕ × Event)
with_key eid none = none
with_key eid (some e) = some (eid, e)

abbrev pub named_event : Option ℕ → Store → Option (ℕ × Event)
named_event none s = none
named_event (some eid) s = with_key eid (get eid s.events)

abbrev pub settle_unless : Bool → Env → StripeSession → ℕ → Event → M (Option Event)
settle_unless true env session eid e = pure (some e)
settle_unless false env session eid e = do
  save_event eid (settled env session e)
  pure (some (settled env session e))

unfoldable pub settle_event : Env → StripeSession → Option (ℕ × Event) → M (Option Event)
settle_event env session none = pure none
settle_event env session (some (eid, e)) =
    settle_unless (is_unlocked e.billing_status) env session eid e

abbrev pub settle_if : Bool → Env → StripeSession → M (Option Event)
settle_if false env session = pure none
settle_if true env session = gets (named_event session.event_id) >>= settle_event env session

unfoldable pub settle_session : Env → StripeSession → M (Option Event)
unfolding settle_event
settle_session env session = settle_if session.is_paid env session

unfoldable pub settle_stripe_payment : Env → Stripe → ℕ → M (Option Event)
unfolding settle_session
settle_stripe_payment env stripe sid =
    or_raise (stripe.get_checkout_session sid) stripe_error >>= settle_session env

-- `try { m } catch { log }`
abbrev pub attempt {ℓ} : {A : Type ℓ} → M A → M (Unit {0})
attempt m s = (ok tt, (m s).1)

abbrev pub is_pending : EventBillingStatus → Bool
is_pending EventBillingStatus.pending = true
is_pending _ = false

unfoldable pub settle_pending : Env → Stripe → Event → M (Unit {0})
unfolding settle_stripe_payment
settle_pending env stripe e = elim e.stripe_checkout_session_id [
  | none ↦ pure tt
  | some sid ↦ when (is_pending e.billing_status) (attempt (settle_stripe_payment env stripe sid))
]

unfoldable pub sync_stripe_payment : Env → Stripe → ℕ → ℕ → User → M EventBillingInfo
unfolding settle_pending get_billing_info
sync_stripe_payment env stripe org eid user = do
  check_org_permission (λ p. p.events) org user
  e ← find_event org eid
  settle_pending env stripe e
  get_billing_info env stripe org eid user
