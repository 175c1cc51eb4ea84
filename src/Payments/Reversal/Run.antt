-- ===== src/Payments/Reversal/Run.antt =====
-- What the reversal of a payment, and of a list of payments, makes of the store.
use openeos_api.Base.{
  ◌⊎◌, false, some, none, abs_ℕ, ℕ, suc, ◌≡◌, refl, ap, ℤ, pos, neg, ◌+ℤ◌, int_laws, neg_part,
  pos_part, Bool, true, Option, List, [], ◌∷◌, put, All, inl, inr, Bool-cases, ◌==◌, ◌&&◌, arith,
}
use openeos_api.Entities.{Order, Payment, Device, TseRequest, TseTransactionData}
use openeos_api.Store.{Store, Env, ok}
use openeos_api.Tse.{TseInput, reverse_transaction}
use openeos_api.Tse.Run.{record_transaction_run}
use openeos_api.Payments.Reversal.{
  is_failed, reversal_input, is_captured, captured_payments, save_payment, reversal_of,
  reverse_payment,
}
use openeos_api.Payments.Net.{
  IsFresh, IsFresh-put, put-fresh, net_of, net_captured, net_captured-reversal,
}
use openeos_api.Orders.Cancel.{reverse_all}

-- A reversal adds one row; who signed it, and whether, is left open.
pub reverse_payment_run :
    (env : Env) (org : ℕ) (o : Order) (pid : ℕ) (p : Payment) (s : Store)
    → (t : Option TseTransactionData) × (d : List (ℕ × Device)) × (g : List TseRequest)
      × (reverse_payment env org o pid p s ≡ (
        ok t,
        record s {
          devices = d;
          signed = g;
          next_id = suc s.next_id;
          payments = put s.next_id (reversal_of pid p t) s.payments;
        },
      ))
unfolding reverse_payment reverse_transaction save_payment
reverse_payment_run env org o pid p s =
    let signed : TseInput = record (reversal_input o p) { amount = neg (pos (abs_ℕ p.amount)) } in
    let (t, d, g, e) = record_transaction_run env org o.created_by_device_id signed s in
    (t, d, g, rw e)

abbrev pub OfOrder : ℕ → List (ℕ × Payment) → Type 0
OfOrder oid rows = All (λ row. row.1.order_id ≡ oid) rows

-- The store after a loop of reversals, which took the amounts of `rows` off the captured sum.
pub record Reversed (oid : ℕ) (rows : List (ℕ × Payment)) (s t : Store) : Type 0 where
  pub orders_eq : t.orders ≡ s.orders
  pub products_eq : t.products ≡ s.products
  pub movements_eq : t.movements ≡ s.movements
  pub members_eq : t.members ≡ s.members
  pub fresh : IsFresh t.next_id t.payments
  pub net_eq : net_captured oid t.payments +ℤ net_of rows ≡ net_captured oid s.payments

step_net : (a b c x y : ℤ) → a ≡ b +ℤ neg x → c +ℤ y ≡ a → c +ℤ (x +ℤ y) ≡ b
step_net a b c x y h k =
    let h1 = ap pos_part h in
    let h2 = ap neg_part h in
    let k1 = ap pos_part k in let k2 = ap neg_part k in omega (int_laws, h1, h2, k1, k2)

none_left : (a : ℤ) → a +ℤ pos 0 ≡ a
none_left a = omega int_laws

pub Reversed-nil : (oid : ℕ) (s : Store) → IsFresh s.next_id s.payments → Reversed oid [] s s
unfolding net_of
Reversed-nil oid s h = record {
  orders_eq = refl;
  products_eq = refl;
  movements_eq = refl;
  members_eq = refl;
  fresh = h;
  net_eq = none_left _;
}

pub Reversed-cons :
    (oid pid : ℕ) (p : Payment) (rows : List (ℕ × Payment)) (tse : Option TseTransactionData)
    (d : List (ℕ × Device)) (g : List TseRequest) (s u : Store)
    → IsFresh s.next_id s.payments
    → p.order_id ≡ oid
    → Reversed oid rows
        (record s {
          devices = d;
          signed = g;
          next_id = suc s.next_id;
          payments = put s.next_id (reversal_of pid p tse) s.payments;
        })
        u
    → Reversed oid ((pid, p) ∷ rows) s u
unfolding net_of
Reversed-cons oid pid p rows tse d g s u h e r = record {
  orders_eq = r.orders_eq;
  products_eq = r.products_eq;
  movements_eq = r.movements_eq;
  members_eq = r.members_eq;
  fresh = r.fresh;
  net_eq =
      step_net _ _ _ p.amount (net_of rows)
        (net_captured-reversal oid s.next_id pid p tse s.payments h e) r.net_eq;
}

pub IsFresh-next :
    (s : Store) (p : Payment)
    → IsFresh s.next_id s.payments
    → IsFresh (suc s.next_id) (put s.next_id p s.payments)
IsFresh-next s p h = rw (put-fresh s.next_id p s.payments h) (IsFresh-put s.next_id p s.payments h)

pub reverse_all_run :
    (env : Env) (org oid : ℕ) (o : Order) (rows : List (ℕ × Payment)) (s : Store)
    → OfOrder oid rows
    → IsFresh s.next_id s.payments
    → (t : Store) × (reverse_all env org o rows s ≡ (ok tt, t)) × Reversed oid rows s t
unfolding reverse_all
reverse_all_run env org oid o [] s q h = (s, refl, Reversed-nil oid s h)
reverse_all_run env org oid o ((pid, p) ∷ rows) s (mine, q) h =
    let (t, d, g, e) = reverse_payment_run env org o pid p s in
    let (u, f, r) =
      reverse_all_run env org oid o rows _ q (IsFresh-next s (reversal_of pid p t) h) in
    (u, rw (e, f), Reversed-cons oid pid p rows t d g s u h mine r)

pub captured_payments-OfOrder :
    (oid : ℕ) (rows : List (ℕ × Payment)) → OfOrder oid (captured_payments oid rows)
unfolding captured_payments
captured_payments-OfOrder oid [] = tt
captured_payments-OfOrder oid ((pid, p) ∷ rows) =
    elim (Bool-cases (p.order_id == oid && is_captured p.status)) [
      | inl e ↦ rw e (same p.order_id oid _ e, captured_payments-OfOrder oid rows)
      | inr e ↦ rw e (captured_payments-OfOrder oid rows)
    ]
  where
    same : (a b : ℕ) (c : Bool) → (a == b && c) ≡ true → a ≡ b
    same a b c h = ground arith

-- A signing attempt failed, or nothing stands against going on.
pub attempt_cases :
    (t : Option TseTransactionData)
    → (is_failed t ≡ false) ⊎ ((d : TseTransactionData) × (t ≡ some d) × (d.failed ≡ true))
attempt_cases none = inl refl
attempt_cases (some d) = elim (Bool-cases d.failed) [ inl e ↦ inr (d, refl, e) | inr e ↦ inl e ]
