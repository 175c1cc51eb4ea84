-- ===== src/Events/Lifecycle/Runs.antt =====
-- What switching on an event leaves behind, and how paying for an event leads to running it:
-- src/modules/events/events.service.ts after src/modules/events/event-billing.service.ts.
use openeos_api.Base.{ℕ, ◌≡◌, refl, true, false, some, ◌∷◌, get, put, get-put_self, map, ==_refl}
use openeos_api.Entities.{User, UserOrganization, Event, EventStatus}
use openeos_api.Store.{Store, Env, ok}
use openeos_api.Access.{membership, check_membership}
use openeos_api.Organizations.{may, check_permission}
use openeos_api.Events.Rows.{
  get_event_and_check_permission, find_event, is_unlocked, save_event, emit_status_changed,
}
use openeos_api.Events.Lifecycle.{
  activate, switch_on, deactivate_active_or_test_siblings, with_status, deactivated, siblings_of,
  is_active,
}
use openeos_api.Events.Steps.Lifecycle.{emit_all_run}
use openeos_api.Events.Billing.{Stripe, StripeSession, settle_stripe_payment}
use openeos_api.Events.Billing.Settle.{settle_stripe_payment-Settled}

-- The lookup of a member who may manage the events of the organization.
get_event-run :
    (org eid : ℕ) (user : User) (m : UserOrganization) (e : Event) (s : Store)
    → membership org user.id s ≡ some m
    → may (λ p. p.events) m ≡ true
    → get eid s.events ≡ some e
    → e.organization_id ≡ org
    → get_event_and_check_permission org eid user.id s ≡ (ok e, s)
unfolding get_event_and_check_permission check_permission check_membership find_event
get_event-run org eid user m e s is_member allowed found own =
    rw (is_member, allowed, found, own, ==_refl org) refl

-- Activating an unlocked event that is not active returns it as active, saved.
activate-run :
    (org eid : ℕ) (user : User) (m : UserOrganization) (e : Event) (s : Store)
    → membership org user.id s ≡ some m
    → may (λ p. p.events) m ≡ true
    → get eid s.events ≡ some e
    → e.organization_id ≡ org
    → is_active e.status ≡ false
    → is_unlocked e.billing_status ≡ true
    → ((activate org eid user s).0 ≡ ok (with_status EventStatus.active e))
      × (get eid (activate org eid user s).1.events ≡ some (with_status EventStatus.active e))
unfolding activate switch_on save_event emit_status_changed deactivate_active_or_test_siblings
activate-run org eid user m e s is_member allowed found own idle unlocked =
    let begun = get_event-run org eid user m e s is_member allowed found own in
    let told = emit_all_run (map (deactivated org eid) (siblings_of org eid s.events)) (record s {
      events = put eid (with_status EventStatus.active e) (map (deactivated org eid) s.events);
      status_notices = (eid, with_status EventStatus.active e) ∷ s.status_notices;
    }) in
    (
      rw (begun, idle, unlocked, told.1) refl,
      rw (begun, idle, unlocked, told.1) (get-put_self eid _ (map (deactivated org eid) s.events)),
    )

-- A payment leads to a running event: once a paid session that names an event which is not active is
-- settled, an activation by a member who may manage events returns that event, which is then active
-- and saved as such.
pub settle-then_activate :
    (env : Env) (stripe : Stripe) (sid : ℕ) (session : StripeSession) (eid : ℕ) (e : Event)
    (user : User) (m : UserOrganization) (s : Store)
    → stripe.get_checkout_session sid ≡ some session
    → session.is_paid ≡ true
    → session.event_id ≡ some eid
    → get eid s.events ≡ some e
    → is_active e.status ≡ false
    → membership e.organization_id user.id s ≡ some m
    → may (λ p. p.events) m ≡ true
    → (f : Event) × ((activate e.organization_id eid user
          (settle_stripe_payment env stripe sid s).1).0
        ≡ ok f)
      × (f.status ≡ EventStatus.active)
      × (get eid
            (activate e.organization_id eid user
              (settle_stripe_payment env stripe sid s).1).1.events
          ≡ some f)
settle-then_activate env stripe sid session eid e user m s known is_paid names found idle is_member
      allowed =
    let paid =
      settle_stripe_payment-Settled env stripe sid session eid e s known is_paid names found in
    let done =
      activate-run e.organization_id eid user m paid.event (record s { events = paid.events })
        is_member allowed paid.saved paid.same_organization (rw paid.same_status idle)
        paid.is_unlocked_now in
    (with_status EventStatus.active paid.event, rw paid.run done.0, refl, rw paid.run done.1)
