-- ===== src/Payments/Refund/Laws.antt =====
-- What refund of src/modules/payments/payments.service.ts does on every branch.
use openeos_api.Base.{
  ℕ, suc, ◌≡◌, refl, ◌∙◌, true, false, some, List, [], ◌∷◌, get, put, get-put_self, get-put, ◌==◌,
  Bool-cases, Option-cases, inl, inr, ◌⊎◌, arith, ◌<◌,
}
use openeos_api.Entities.{Order, OrderItemPayment, Payment, User, UserOrganization}
use openeos_api.Store.{Store, Env, ok, err, bad_request, validation_error}
use openeos_api.Access.{membership}
use openeos_api.Orders.Rows.{
  is_live, organization_order, stored_order, with_order, save_order, save_item, change_items,
  item_of, put_item,
}
use openeos_api.Orders.Rows.Laws.{
  organization_order-with_order, organization_order-stored, stored_order-live,
}
use openeos_api.Orders.Guards.{passed}
use openeos_api.Orders.Cancel.Net.{order_in}
use openeos_api.Payments.Reversal.{save_payment, is_captured, reversal_of}
use openeos_api.Payments.Reversal.Run.{reverse_payment_run}
use openeos_api.Payments.Net.{IsFresh}
use openeos_api.Payments.Rows.{payment_status_for, with_payment_status, update_order_payment_status}
use openeos_api.Payments.Create.Laws.{IsBooked, find_one_found}
use openeos_api.Payments.Doubles.{number_of}
use openeos_api.Payments.Refund.{
  paid_without, less_refund, unpaid_item, revert_items, refunded_payment, refund,
}

-- An order that differs in its items alone.
pub record IsSameBut (o q : Order) : Type 0 where
  pub live_eq : is_live q ≡ is_live o
  pub organization_eq : q.organization_id ≡ o.organization_id
  pub paid_amount_eq : q.paid_amount ≡ o.paid_amount
  pub total_eq : q.total ≡ o.total
  pub order_status_eq : q.status ≡ o.status

same_refl : (o : Order) → IsSameBut o o
same_refl o = record {
  live_eq = refl;
  organization_eq = refl;
  paid_amount_eq = refl;
  total_eq = refl;
  order_status_eq = refl;
}

pub revert_items_run :
    (oid : ℕ) (rows : List OrderItemPayment) (o : Order) (s : Store)
    → (os : List (ℕ × Order)) × (q : Order) × (revert_items oid rows o s
        ≡ (ok q, record s { orders = os }))
      × IsSameBut o q
unfolding revert_items save_item
revert_items_run oid [] o s = (s.orders, o, refl, same_refl o)
revert_items_run oid (row ∷ rows) o s = elim (Option-cases (item_of row.order_item_id o)) [
  | inl n ↦ let (os, q, e, k) = revert_items_run oid rows o s in (os, q, rw n e, k)
  | inr (i, n) ↦
      let new = unpaid_item row.quantity i in
      let (os, q, e, k) =
        revert_items_run oid rows (record o { items = put_item new o.items })
          (change_items oid (put_item new) s) in
      (
        os,
        q,
        rw n e,
        record {
          live_eq = k.live_eq;
          organization_eq = k.organization_eq;
          paid_amount_eq = k.paid_amount_eq;
          total_eq = k.total_eq;
          order_status_eq = k.order_status_eq;
        },
      )
]

fresh_ne :
    (n pid : ℕ) (rows : List (ℕ × Payment)) {p : Payment}
    → IsFresh n rows
    → get pid rows ≡ some p
    → (n == pid) ≡ false
unfolding get
fresh_ne n pid [] h e = cc
fresh_ne n pid ((j, q) ∷ rows) (lt, h) e = elim (Bool-cases (j == pid)) [
  | inl a ↦ differ n j pid lt a
  | inr a ↦ fresh_ne n pid rows h (rw a at e)
]
  where
    differ : (x y z : ℕ) → y < x → (y == z) ≡ true → (x == z) ≡ false
    differ x y z l b = ground arith

-- The order after a refund of a payment: the amount is taken off what is paid.
abbrev pub refunded_order : Payment → Order → Order
refunded_order p o =
    with_payment_status (paid_without p o)
      (record o { paid_amount = less_refund o.paid_amount p.amount })

pub record IsRefunded (org pid : ℕ) (p : Payment) (o : Order) (t : Store) : Type 0 where
  pub payment_eq : get pid t.payments ≡ some (refunded_payment p)
  pub booked_eq : IsBooked org p.order_id (refunded_order p o) t

-- A member refunds a payment on an order of the organization. If the payment is not captured, the call
-- is refused and nothing is written. Otherwise, whatever the TSE answers, it returns the payment as
-- refunded, which is also what is stored, and the order is stored with the amount taken off what is
-- paid, down to zero at most, and with the payment status that the difference, as a number, has. The
-- ids of the payments must be below the next one.
pub refund_lem :
    (env : Env) (org pid : ℕ) (user : User) (s : Store) (m : UserOrganization) (p : Payment)
    (o : Order)
    → membership org user.id s ≡ some m
    → get pid s.payments ≡ some p
    → organization_order org p.order_id s ≡ some o
    → IsFresh s.next_id s.payments
    → ((is_captured p.status ≡ false)
        × (refund env org pid user s ≡ (err (bad_request validation_error), s)))
      ⊎ ((is_captured p.status ≡ true)
          × (t : Store) × (refund env org pid user s ≡ (ok (refunded_payment p), t))
          × IsRefunded org pid p o t)
unfolding refund save_payment update_order_payment_status save_order stored_order
refund_lem env org pid user s m p o e h f fresh = elim (Bool-cases (is_captured p.status)) [
  | inr a ↦
      inl (
        a,
        rw (passed org user.id s e, find_one_found org p.order_id pid user s p o m e h refl f, a),
      )
  | inl a ↦
      let (found, mine) = organization_order-stored org p.order_id s f in
      let s1 : Store = record s { payments = put pid (refunded_payment p) s.payments } in
      let (os, q, r, k) =
        revert_items_run p.order_id p.item_payments
          (record o { paid_amount = less_refund o.paid_amount p.amount }) s1 in
      let q' = with_payment_status (paid_without p o) q in
      let s2 = with_order p.order_id q' (record s1 { orders = os }) in
      let (t, d, g, v) = reverse_payment_run env org q' pid (refunded_payment p) s2 in
      let rows = put pid (refunded_payment p) s.payments in
      let u : Store = record s2 {
        devices = d;
        signed = g;
        next_id = suc s.next_id;
        payments = put s.next_id (reversal_of pid (refunded_payment p) t) rows;
      } in
      let kept : get pid u.payments ≡ some (refunded_payment p) =
        rw
          (
            get-put s.next_id pid (reversal_of pid (refunded_payment p) t) rows,
            fresh_ne s.next_id pid s.payments fresh h,
          )
          (get-put_self pid (refunded_payment p) s.payments) in
      let stored : organization_order org p.order_id u ≡ some q' =
        order_in org p.order_id s2 u refl
        ∙ organization_order-with_order org p.order_id q' (record s1 { orders = os })
            (k.live_eq ∙ (stored_order-live p.order_id s found).1) (k.organization_eq ∙ mine) in
      let again =
        find_one_found org p.order_id pid user u (refunded_payment p) q' m e kept refl stored in
      inr (
        a,
        u,
        rw (
          passed org user.id s e,
          find_one_found org p.order_id pid user s p o m e h refl f,
          a,
          found,
          r,
          v,
          again,
        ),
        record {
          payment_eq = kept;
          booked_eq = record {
            order = q';
            order_eq = stored;
            paid_amount_eq = k.paid_amount_eq;
            total_eq = k.total_eq;
            order_status_eq = k.order_status_eq;
            payment_status_eq =
                λ i. payment_status_for (paid_without p o) (number_of (k.total_eq i));
          };
        },
      )
]
