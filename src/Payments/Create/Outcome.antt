-- ===== src/Payments/Create/Outcome.antt =====
-- The outcome of create of src/modules/payments/payments.service.ts.
use openeos_api.Base.{
  ℕ, suc, ◌≡◌, refl, true, false, some, [], map, get, put, get-put_self, Bool-cases, inl, inr, ◌⊎◌,
}
use openeos_api.Entities.{Order, Payment, PaymentTransactionStatus, User, UserOrganization}
use openeos_api.Store.{Store, Env, ok, err, bad_request, validation_error}
use openeos_api.Access.{membership}
use openeos_api.Orders.Rows.{organization_order, with_order, save_order}
use openeos_api.Orders.Rows.Laws.{
  organization_order-with_order, organization_order-stored, stored_order-live,
}
use openeos_api.Orders.Guards.{passed}
use openeos_api.Orders.Status.{is_paid}
use openeos_api.Payments.Reversal.{save_payment}
use openeos_api.Payments.Rows.{with_payment_status, update_order_payment_status}
use openeos_api.Payments.Create.{
  CreatePaymentDto, new_payment, fully_paid_item, booked, is_fully_paid, paid_with,
  exceeds_remaining, create,
}
use openeos_api.Payments.Create.Laws.{
  IsBooked, when_run, sign_run, find_one_found, is_refused, signed_row, signed_row-eq,
}

-- What a payment that was taken leaves behind.
pub record IsTaken (org : ℕ) (dto : CreatePaymentDto) (o : Order) (s : Store) (p : Payment)
    (t : Store) : Type 0 where
  pub payment_eq : get s.next_id t.payments ≡ some p
  pub amount_eq : p.amount ≡ dto.amount
  pub status_eq : p.status ≡ PaymentTransactionStatus.captured
  pub booked_eq : IsBooked org dto.order_id (with_payment_status (paid_with dto o) (booked dto o)) t
  pub members_eq : t.members ≡ s.members

-- A member pays on an order of the organization. If the order is paid already or the amount exceeds,
-- in the numbers of the code, what is left to pay, the call is refused and nothing is written. If
-- neither, then whatever the TSE answers, it returns a captured payment of that amount, which is also
-- what is stored; the order is stored with the amount added to what is paid, and with the payment
-- status that the sum, as a number, has.
pub create_lem :
    (env : Env) (org : ℕ) (dto : CreatePaymentDto) (user : User) (s : Store) (m : UserOrganization)
    (o : Order)
    → membership org user.id s ≡ some m
    → organization_order org dto.order_id s ≡ some o
    → ((is_refused dto o ≡ true)
        × (create env org dto user s ≡ (err (bad_request validation_error), s)))
      ⊎ ((is_refused dto o ≡ false)
          × (t : Store) × (p : Payment) × (create env org dto user s ≡ (ok p, t))
          × IsTaken org dto o s p t)
unfolding organization_order create save_payment update_order_payment_status save_order new_payment
create_lem env org dto user s m o e f = elim (Bool-cases (is_paid o.payment_status)) [
  | inl a ↦ inl (rw a, rw (passed org user.id s e, f, a))
  | inr a ↦ elim (Bool-cases (exceeds_remaining dto o)) [
    | inl b ↦ inl (rw (a, b), rw (passed org user.id s e, f, a, b))
    | inr b ↦
        let pid = s.next_id in
        let p =
          new_payment dto.order_id dto.amount dto.payment_method dto.provider_transaction_id user in
        let q = with_payment_status (paid_with dto o) (booked dto o) in
        let (found, mine) = organization_order-stored org dto.order_id s f in
        let s1 : Store = record s { next_id = suc pid; payments = put pid p s.payments } in
        let stored =
          organization_order-with_order org dto.order_id q s1
            (stored_order-live dto.order_id s found).1 mine in
        let (os, g, b1) =
          when_run org dto.order_id q (is_fully_paid dto o) (map fully_paid_item q.items)
            (with_order dto.order_id q s1)
            (record {
              order = q;
              order_eq = stored;
              paid_amount_eq = refl;
              total_eq = refl;
              payment_status_eq = refl;
              order_status_eq = refl;
            }) in
        let (t, d, gs, ps, h, k) =
          sign_run env pid q p [] (record s1 { orders = os }) (get-put_self pid p s.payments) in
        let final : Store = record s1 { orders = os; devices = d; signed = gs; payments = ps } in
        let b2 : IsBooked org dto.order_id q final = record {
          order = b1.order;
          order_eq = b1.order_eq;
          paid_amount_eq = b1.paid_amount_eq;
          total_eq = b1.total_eq;
          payment_status_eq = b1.payment_status_eq;
          order_status_eq = b1.order_status_eq;
        } in
        let (order_id_eq, amount_eq, status_eq) = signed_row-eq p t in
        let again =
          find_one_found org dto.order_id pid user final (signed_row p t) b1.order m e k order_id_eq
            b1.order_eq in
        inr (
          rw (a, b),
          final,
          signed_row p t,
          rw (passed org user.id s e, f, a, b, g, h, again),
          record {
            payment_eq = k;
            amount_eq = amount_eq;
            status_eq = status_eq;
            booked_eq = b2;
            members_eq = refl;
          },
        )
  ]
]
