-- ===== src/Payments/Create/Laws.antt =====
-- What create of src/modules/payments/payments.service.ts does on every branch.
use openeos_api.Base.{
  ℕ, ◌≡◌, refl, Bool, true, false, ◌||◌, Option, none, some, List, [], ◌∷◌, get, put, get-put_self,
  ==_refl,
}
use openeos_api.Entities.{
  Order, OrderItem, Payment, User, UserOrganization, Device, TseRequest, TseTransactionData,
}
use openeos_api.VatSplit.{VatSplitItem}
use openeos_api.Store.{Store, Env, ok, when}
use openeos_api.Access.{membership, check_membership}
use openeos_api.Tse.{TseInput}
use openeos_api.Tse.Run.{record_transaction_run}
use openeos_api.Orders.Rows.{organization_order, save_item, change_items, put_item}
use openeos_api.Orders.Rows.Laws.{organization_order-stored, organization_order-change_items}
use openeos_api.Orders.Status.{is_paid}
use openeos_api.Payments.Reversal.{save_payment}
use openeos_api.Payments.Rows.{find_one, payment_splits, sign_payment_with_tse, keep_tse_data}
use openeos_api.Payments.Create.{CreatePaymentDto, save_items, exceeds_remaining}

-- An order is stored with the amounts and the payment status of `o`.
pub record IsBooked (org oid : ℕ) (o : Order) (s : Store) : Type 0 where
  pub order : Order
  pub order_eq : organization_order org oid s ≡ some order
  pub paid_amount_eq : order.paid_amount ≡ o.paid_amount
  pub total_eq : order.total ≡ o.total
  pub payment_status_eq : order.payment_status ≡ o.payment_status
  pub order_status_eq : order.status ≡ o.status

pub save_item-IsBooked :
    (org oid : ℕ) (o : Order) (i : OrderItem) (s : Store)
    → IsBooked org oid o s
    → IsBooked org oid o (change_items oid (put_item i) s)
save_item-IsBooked org oid o i s b = record {
  order = record b.order { items = put_item i b.order.items };
  order_eq = organization_order-change_items org oid (put_item i) s b.order_eq;
  paid_amount_eq = b.paid_amount_eq;
  total_eq = b.total_eq;
  payment_status_eq = b.payment_status_eq;
  order_status_eq = b.order_status_eq;
}

save_items_run :
    (org oid : ℕ) (o : Order) (items : List OrderItem) (s : Store)
    → IsBooked org oid o s
    → (os : List (ℕ × Order)) × (save_items oid items s ≡ (ok tt, record s { orders = os }))
      × IsBooked org oid o (record s { orders = os })
unfolding save_items save_item change_items
save_items_run org oid o [] s b = (s.orders, refl, b)
save_items_run org oid o (i ∷ is) s b =
    save_items_run org oid o is (change_items oid (put_item i) s)
      (save_item-IsBooked org oid o i s b)

pub when_run :
    (org oid : ℕ) (o : Order) (all : Bool) (items : List OrderItem) (s : Store)
    → IsBooked org oid o s
    → (os : List (ℕ × Order)) × (when all (save_items oid items) s
        ≡ (ok tt, record s { orders = os }))
      × IsBooked org oid o (record s { orders = os })
when_run org oid o true items s b = save_items_run org oid o items s b
when_run org oid o false items s b = (s.orders, refl, b)

-- The payment row, with or without the data of a signature.
abbrev pub signed_row : Payment → Option TseTransactionData → Payment
signed_row p none = p
signed_row p (some t) = record p { tse_data = some t }

-- Only the data of the signature differ.
pub signed_row-eq :
    (p : Payment) (t : Option TseTransactionData)
    → ((signed_row p t).order_id ≡ p.order_id)
      × ((signed_row p t).amount ≡ p.amount)
      × ((signed_row p t).status ≡ p.status)
signed_row-eq p none = (refl, refl, refl)
signed_row-eq p (some t) = (refl, refl, refl)

keep_run :
    (pid : ℕ) (p : Payment) (t : Option TseTransactionData) (s : Store)
    → get pid s.payments ≡ some p
    → (ps : List (ℕ × Payment)) × (keep_tse_data pid p t s ≡ (ok tt, record s { payments = ps }))
      × (get pid ps ≡ some (signed_row p t))
unfolding save_payment
keep_run pid p none s h = (s.payments, refl, h)
keep_run pid p (some t) s h =
    let q = signed_row p (some t) in (put pid q s.payments, refl, get-put_self pid q s.payments)

pub sign_run :
    (env : Env) (pid : ℕ) (o : Order) (p : Payment) (items : List VatSplitItem) (s : Store)
    → get pid s.payments ≡ some p
    → (t : Option TseTransactionData) × (d : List (ℕ × Device)) × (g : List TseRequest) × (ps : List
        (ℕ × Payment))
      × (sign_payment_with_tse env pid o p items s
          ≡ (ok tt, record s { devices = d; signed = g; payments = ps }))
      × (get pid ps ≡ some (signed_row p t))
unfolding sign_payment_with_tse
sign_run env pid o p items s h =
    let input : TseInput = record {
      amount = p.amount;
      payment_method = p.payment_method;
      vat_splits = payment_splits o p items;
    } in
    let (t, d, g, e) =
      record_transaction_run env o.organization_id o.created_by_device_id input s in
    let (ps, f, k) = keep_run pid p t (record s { devices = d; signed = g }) h in
    (t, d, g, ps, rw e f, k)

-- A member reads a payment of an order of the organization.
pub find_one_found :
    (org oid pid : ℕ) (user : User) (s : Store) (p : Payment) (o : Order) (m : UserOrganization)
    → membership org user.id s ≡ some m
    → get pid s.payments ≡ some p
    → p.order_id ≡ oid
    → organization_order org oid s ≡ some o
    → find_one org pid user s ≡ (ok p, s)
unfolding find_one check_membership
find_one_found org oid pid user s p o m e f k h =
    let (found, mine) = organization_order-stored org oid s h in
    rw (e, f, k, found, mine, ==_refl org)

-- The order is paid already, or the amount exceeds what is left to pay as the code compares them.
abbrev pub is_refused : CreatePaymentDto → Order → Bool
is_refused dto o = is_paid o.payment_status || exceeds_remaining dto o
