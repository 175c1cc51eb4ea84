-- ===== src/Orders/Cancel/Stale.antt =====
-- forceCancelOrder of src/modules/orders/orders.service.ts saves an order whose relation `payments` was
-- loaded before the reversals: when the relation is stale, and what the loop over the items leaves.
use openeos_api.Base.{
  ℕ, suc, ◌<◌, ◌≡◌, refl, ◌∙◌, Bool, true, false, not, ◌||◌, Option, List, [], ◌∷◌, ◌++◌, ◌==◌,
  ==_refl, exists, All, Bool-cases, inl, inr, arith,
}
use openeos_api.Entities.{Order, OrderItem, Payment, TseTransactionData}
use openeos_api.Store.{Store}
use openeos_api.Orders.Rows.{save_item}
use openeos_api.Orders.Cancel.{payments_of, is_in, has_unloaded, cancel_items, cancelled_item}
use openeos_api.Orders.Cancel.Items.{restore_run, with_stock_rows}
use openeos_api.Orders.Cancel.Net.{order_in}
use openeos_api.Payments.Reversal.{is_failed, reversal_of}
use openeos_api.Payments.Net.{IsFresh}
use openeos_api.Payments.Create.Laws.{IsBooked, save_item-IsBooked}

-- The rows that a loop over `rows` adds, with ids from `n` on: one reversal of each, none of them with
-- a signing that failed.
abbrev pub SignedReversals : ℕ → List (ℕ × Payment) → List (ℕ × Payment) → Type 0
SignedReversals n [] new = new ≡ []
SignedReversals n ((pid, p) ∷ rows) new =
    (tse : Option TseTransactionData) × (rest : List (ℕ × Payment)) × (new
      ≡ (n, reversal_of pid p tse) ∷ rest)
    × (is_failed tse ≡ false)
    × SignedReversals (suc n) rows rest

weaken :
    (x : ℕ) (xs ys : List ℕ)
    → All (λ k. is_in k xs ≡ true) ys
    → All (λ k. is_in k (x ∷ xs) ≡ true) ys
weaken x xs [] a = tt
weaken x xs (k ∷ ys) a = (or_true (x == k) _ a.0, weaken x xs ys a.1)
  where
    or_true : (b c : Bool) → c ≡ true → (b || c) ≡ true
    or_true b c h = ground arith

self_listed : (xs : List ℕ) → All (λ k. is_in k xs ≡ true) xs
self_listed [] = tt
self_listed (x ∷ xs) = (rw (==_refl x) refl, weaken x xs xs (self_listed xs))

none_outside :
    (xs ys : List ℕ) → All (λ k. is_in k xs ≡ true) ys → exists (λ k. not (is_in k xs)) ys ≡ false
none_outside xs [] a = refl
none_outside xs (k ∷ ys) a = rw (a.0, none_outside xs ys a.1) refl

-- Payments that are as they were loaded are all loaded.
pub has_unloaded-same :
    (oid : ℕ) (rows : List (ℕ × Payment)) → has_unloaded oid (payments_of oid rows) rows ≡ false
has_unloaded-same oid rows = none_outside _ _ (self_listed (payments_of oid rows))

fresh_outside :
    (oid n : ℕ) (rows : List (ℕ × Payment))
    → IsFresh n rows
    → is_in n (payments_of oid rows) ≡ false
unfolding payments_of
fresh_outside oid n [] h = refl
fresh_outside oid n ((j, p) ∷ rows) (lt, h) = elim (Bool-cases (p.order_id == oid)) [
  | inl e ↦ rw (e, not_same j n lt, fresh_outside oid n rows h) refl
  | inr e ↦ rw e (fresh_outside oid n rows h)
]
  where
    not_same : (a b : ℕ) → a < b → (a == b) ≡ false
    not_same a b l = ground arith

new_found :
    (oid n : ℕ) (q : Payment) (loaded : List ℕ) (rows more : List (ℕ × Payment))
    → is_in n loaded ≡ false
    → q.order_id ≡ oid
    → has_unloaded oid loaded (rows ++ (n, q) ∷ more) ≡ true
unfolding payments_of
new_found oid n q loaded [] more out own = rw (own, ==_refl oid, out) refl
new_found oid n q loaded ((j, p) ∷ rows) more out own = elim (Bool-cases (p.order_id == oid)) [
  | inl e ↦ rw e (or_true _ _ (new_found oid n q loaded rows more out own))
  | inr e ↦ rw e (new_found oid n q loaded rows more out own)
]
  where
    or_true : (b c : Bool) → c ≡ true → (b || c) ≡ true
    or_true b c h = ground arith

-- A payment of the order that was added since then is not loaded.
pub has_unloaded-new :
    (oid n : ℕ) (q : Payment) (rows more : List (ℕ × Payment))
    → IsFresh n rows
    → q.order_id ≡ oid
    → has_unloaded oid (payments_of oid rows) (rows ++ (n, q) ∷ more) ≡ true
has_unloaded-new oid n q rows more fresh own =
    new_found oid n q (payments_of oid rows) rows more (fresh_outside oid n rows fresh) own

restored-IsBooked :
    (org oid : ℕ) (o : Order) (s t : Store)
    → t.orders ≡ s.orders
    → IsBooked org oid o s
    → IsBooked org oid o t
restored-IsBooked org oid o s t e b = record {
  order = b.order;
  order_eq = order_in org oid s t e ∙ b.order_eq;
  paid_amount_eq = b.paid_amount_eq;
  total_eq = b.total_eq;
  payment_status_eq = b.payment_status_eq;
  order_status_eq = b.order_status_eq;
}

-- The loop over the items leaves the amounts and the status of the stored order.
pub cancel_items-IsBooked :
    (org oid : ℕ) (o : Order) (items : List OrderItem) (user_id : ℕ) (s : Store)
    → IsBooked org oid o s
    → IsBooked org oid o (cancel_items oid items user_id s).1
unfolding cancel_items save_item
cancel_items-IsBooked org oid o [] user_id s b = b
cancel_items-IsBooked org oid o (i ∷ is) user_id s b =
    let (ps, ms, ns, e) = restore_run oid i user_id s in
    let t = with_stock_rows ps ms ns s.orders s in
    rw e (
      cancel_items-IsBooked org oid o is user_id _ (
        save_item-IsBooked org oid o (cancelled_item i) t (restored-IsBooked org oid o s t refl b)))
