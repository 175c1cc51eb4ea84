-- ===== src/Payments/Create/Completes.antt =====
-- Paying what is left on an order lets it be completed: src/modules/payments/payments.service.ts, then
-- src/modules/orders/orders.service.ts.
use openeos_api.Base.{ℕ, ◌≡◌, refl, ◌∙◌, inl, inr, ℤ, leb_ℤ, true, false, some}
use openeos_api.Entities.{Order, Payment, PaymentStatus, User, UserOrganization}
use openeos_api.Store.{Store, Env, ok}
use openeos_api.Access.{membership}
use openeos_api.Orders.Rows.{organization_order, with_order}
use openeos_api.Orders.Status.{
  is_paid, is_completed, is_cancelled_order, complete_order, with_completion,
}
use openeos_api.Orders.Guards.{complete_order_lem, may_complete}
use openeos_api.Payments.Rows.{payment_status_for}
use openeos_api.Payments.Create.{
  CreatePaymentDto, create, exceeds_remaining, is_fully_paid, paid_with,
}
use openeos_api.Payments.Doubles.{number_of}
use openeos_api.Payments.Create.Laws.{is_refused}
use openeos_api.Payments.Create.Outcome.{create_lem}

paid_in_full :
    (paid total : ℤ) → leb_ℤ total paid ≡ true → payment_status_for paid total ≡ PaymentStatus.paid
unfolding payment_status_for
paid_in_full paid total h = rw h

open_to_completion :
    (o q : Order)
    → q.status ≡ o.status
    → q.payment_status ≡ PaymentStatus.paid
    → is_completed o.status ≡ false
    → is_cancelled_order o.status ≡ false
    → may_complete q ≡ true
open_to_completion o q same paid a b = rw (same, paid, a, b) refl

-- Paying completes: on an order of the organization that is not paid, completed or cancelled, a payment
-- by a member which, in the numbers of the code, does not exceed what is left and reaches the total
-- with what is paid, is taken, and the same member then completes the order, both calls returning.
pub create-then_complete :
    (env later : Env) (org : ℕ) (dto : CreatePaymentDto) (user : User) (s : Store)
    (m : UserOrganization) (o : Order)
    → membership org user.id s ≡ some m
    → organization_order org dto.order_id s ≡ some o
    → is_paid o.payment_status ≡ false
    → is_completed o.status ≡ false
    → is_cancelled_order o.status ≡ false
    → exceeds_remaining dto o ≡ false
    → is_fully_paid dto o ≡ true
    → (p : Payment) × (t : Store) × (q : Order) × (u : Store) × (create env org dto user s
        ≡ (ok p, t))
      × (complete_order later org dto.order_id user t ≡ (ok q, u))
      × (is_completed q.status ≡ true)
create-then_complete env later org dto user s m o e f unpaid a b fits reaches =
    elim (create_lem env org dto user s m o e f) [
      | inl (refused, _) ↦
          let no : is_refused dto o ≡ false = rw (unpaid, fits) refl in cc (refused, no)
      | inr (_, t, p, run, taken) ↦
          let q = taken.booked_eq.order in
          let paid =
            taken.booked_eq.payment_status_eq
            ∙ paid_in_full (paid_with dto o) (number_of o.total) reaches in
          let may = open_to_completion o q taken.booked_eq.order_status_eq paid a b in
          let done =
            complete_order_lem later org dto.order_id user t m q (still_member t taken.members_eq)
              taken.booked_eq.order_eq in
          (
            p,
            t,
            with_completion later q,
            with_order dto.order_id (with_completion later q) t,
            run,
            rw may at done,
            refl,
          )
    ]
  where
    still_member : (t : Store) → t.members ≡ s.members → membership org user.id t ≡ some m
    still_member t same = rw same e
