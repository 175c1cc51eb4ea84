-- ===== src/Orders/Ledger/Ending.antt =====
-- cancelOrder, forceCancelOrder, completeOrder, forceUpdateStatus and the methods that mark items of
-- src/modules/orders/orders.service.ts keep the stock ledger.
use openeos_api.Base.{
  ℕ, ℤ, not, ◌&&◌, Option, List, String, Bool-cases, inl, inr, is_empty, every, ◌==◌,
}
use openeos_api.Entities.{Order, OrderItem, OrderStatus, User, OrderAuditLog}
use openeos_api.Store.{Store, Env, M, Result, ok, err, and_then, ◌>>◌}
use openeos_api.Store.Keeps.{
  Keeps, after_bind, after_keeps, after_raise_if, after_or_raise, Keeps-bind, Keeps-raise_if,
}
use openeos_api.Access.Cases.{Keeps-member, Keeps-admin}
use openeos_api.Payments.Reversal.{captured_payments}
use openeos_api.Orders.Rows.{stored_order, save_order, save_item, item_of, organization_order}
use openeos_api.Orders.Rows.Found.{Keeps-found, Keeps-find_one, Keeps-reload}
use openeos_api.Orders.Totals.{is_cancelled}
use openeos_api.Orders.Stock.Ledger.{StockInv}
use openeos_api.Orders.Progress.{active_items, is_delivered}
use openeos_api.Orders.Status.{
  save_audit, is_completed, is_cancelled_order, is_paid, complete_order, force_update_status,
  process_item_ready, mark_item_ready, mark_item_ready_from_device, item_with_order, auto_complete,
  mark_item_delivered, readied, with_delivery, with_completion,
}
use openeos_api.Orders.Cancel.{
  cancel_items, cancel_order, force_cancel_order, has_unloaded, save_loaded_order,
}
use openeos_api.Orders.Ledger.{progress-StockInv, save_order-StockInv, save_item-StockInv}
use openeos_api.Orders.Ledger.Lifecycle.{With, cancel_items-With}
use openeos_api.Orders.Ledger.Reversals.{IsOrderly, reverse_captured_lem, force_reverse_all_lem}

module _ (opening : ℕ → ℤ) where
  abbrev Inv : Store → Type 0
  Inv = StockInv opening

  With-IsOrderly : (oid : ℕ) → IsOrderly (With opening oid)
  unfolding stored_order
  With-IsOrderly oid s d p r n a v = v

  -- The end of both cancellations: the items are given back, and what follows keeps the ledger.
  after-With {ℓ} :
      (oid : ℕ) (o : Order) (user : User) (m : M (Unit {0})) {B : Type ℓ} (k : M B) (s : Store)
      → With opening oid s
      → Keeps (With opening oid) m
      → Keeps Inv k
      → Inv ((m >> (cancel_items oid o.items user.id >> k)) s).1
  after-With oid o user m k s w h g = after (m s) (h.run s w)
    where
      after :
          (r : Result (Unit {0}) × Store)
          → With opening oid r.1
          → Inv (and_then r λ _. cancel_items oid o.items user.id >> k).1
      after (err e, t) z = z.0
      after (ok a, t) z =
          after_bind Inv (cancel_items oid o.items user.id) _ t
            ((cancel_items-With opening oid o.items user.id).run t z).0 λ _. g

  pub cancel_order-StockInv :
      (env : Env) (org oid : ℕ) (reason : Option String) (user : User)
      → Keeps Inv (cancel_order env org oid reason user)
  unfolding cancel_order
  cancel_order-StockInv env org oid reason user = Keeps-member Inv org user.id _ (
      Keeps-found Inv org oid user _ λ o s h v.
        after_raise_if Inv (is_completed o.status) _ _ s v λ _.
          after_raise_if Inv (is_cancelled_order o.status) _ _ s v λ _.
            after_bind Inv (cancel_items oid o.items user.id) _ s
              ((cancel_items-With opening oid o.items user.id).run s (v, (o, h))).0
              λ _. Keeps-bind Inv _ _ (save_order-StockInv opening oid _) λ _.
                Keeps-bind Inv _ _ (reverse_captured_lem Inv (λ s d p r n a v. v) env org oid _)
                  λ _. Keeps-find_one Inv org oid user)

  audit-StockInv : (entry : OrderAuditLog) → Keeps Inv (save_audit entry)
  unfolding save_audit
  audit-StockInv entry = record { run = λ s v. v }

  save_loaded_order-StockInv :
      (oid : ℕ) (loaded : List ℕ) (o : Order) → Keeps Inv (save_loaded_order oid loaded o)
  unfolding save_loaded_order
  save_loaded_order-StockInv oid loaded o = record {
    run = λ s v.
        after_raise_if Inv (has_unloaded oid loaded s.payments) _ _ s v
          λ _. (save_order-StockInv opening oid o).run s v;
  }

  -- The reversals come first here, and leave the order stored.
  pub force_cancel_order-StockInv :
      (env : Env) (org oid : ℕ) (reason : String) (user : User)
      → Keeps Inv (force_cancel_order env org oid reason user)
  unfolding force_cancel_order
  force_cancel_order-StockInv env org oid reason user = Keeps-admin Inv org user _ (
      Keeps-found Inv org oid user _ λ o s h v.
        after_raise_if Inv (is_cancelled_order o.status) _ _ s v λ _.
          after-With oid o user _ _ s (v, (o, h))
            (force_reverse_all_lem (With opening oid) (With-IsOrderly oid) env org oid o reason user
              (captured_payments oid s.payments))
            (Keeps-bind Inv _ _ (save_loaded_order-StockInv oid _ _)
              λ _. Keeps-bind Inv _ _ (audit-StockInv _) λ _. Keeps-find_one Inv org oid user))

  pub complete_order-StockInv :
      (env : Env) (org oid : ℕ) (user : User) → Keeps Inv (complete_order env org oid user)
  unfolding complete_order
  complete_order-StockInv env org oid user = Keeps-member Inv org user.id _ (
      Keeps-found Inv org oid user _ λ o s _ v.
        after_raise_if Inv (is_completed o.status) _ _ s v λ _.
          after_raise_if Inv (is_cancelled_order o.status) _ _ s v λ _.
            after_raise_if Inv (not (is_paid o.payment_status)) _ _ s v λ _.
              after_keeps Inv (save_order oid (with_completion env o)) _ s v
                (save_order-StockInv opening oid _) λ _. Keeps-find_one Inv org oid user)

  pub force_update_status-StockInv :
      (org oid : ℕ) (status : OrderStatus) (reason : String) (user : User)
      → Keeps Inv (force_update_status org oid status reason user)
  unfolding force_update_status
  force_update_status-StockInv org oid status reason user = Keeps-admin Inv org user _ (
      Keeps-bind Inv _ _ (Keeps-raise_if Inv (is_cancelled_order status) _) λ _.
        Keeps-found Inv org oid user _ λ o s _ v.
          after_raise_if Inv (is_cancelled_order o.status) _ _ s v λ _.
            after_keeps Inv (save_order oid _) _ s v (save_order-StockInv opening oid _)
              λ _. Keeps-bind Inv _ _ (audit-StockInv _) λ _. Keeps-find_one Inv org oid user)

  process-StockInv :
      (env : Env) (org oid : ℕ) (item : OrderItem) → Keeps Inv (process_item_ready env org oid item)
  unfolding process_item_ready
  process-StockInv env org oid item =
      Keeps-bind Inv _ _ (save_item-StockInv opening oid (readied env item))
        λ _. Keeps-bind Inv _ _ (progress-StockInv opening oid) λ _. Keeps-reload Inv org oid

  pub mark_item_ready-StockInv :
      (env : Env) (org oid iid : ℕ) (user : User) → Keeps Inv (mark_item_ready env org oid iid user)
  unfolding mark_item_ready
  mark_item_ready-StockInv env org oid iid user = Keeps-member Inv org user.id _ (
      Keeps-found Inv org oid user _ λ o s _ v. after_or_raise Inv (item_of iid o) _ _ s v λ item _.
        after_raise_if Inv (is_cancelled item.status) _ _ s v
          λ _. (process-StockInv env org oid item).run s v)

  auto-StockInv : (env : Env) (oid : ℕ) (o : Order) → Keeps Inv (auto_complete env oid o)
  unfolding auto_complete save_order
  auto-StockInv env oid o = record {
    run = λ s v.
        elim (Bool-cases (
          not (is_empty (active_items o))
          && every is_delivered (active_items o)
          && is_paid o.payment_status)) [ inl e ↦ rw e v | inr e ↦ rw e v ];
  }

  pub mark_item_delivered-StockInv :
      (env : Env) (org oid iid : ℕ) (user : User)
      → Keeps Inv (mark_item_delivered env org oid iid user)
  unfolding mark_item_delivered
  mark_item_delivered-StockInv env org oid iid user = Keeps-member Inv org user.id _ (
      Keeps-found Inv org oid user _ λ o s _ v. after_or_raise Inv (item_of iid o) _ _ s v λ item _.
        after_keeps Inv (save_item oid (with_delivery env item)) _ s v
          (save_item-StockInv opening oid _)
          λ _. Keeps-bind Inv _ _ (progress-StockInv opening oid) λ _.
            Keeps-bind Inv _ _ (Keeps-find_one Inv org oid user)
              λ updated. auto-StockInv env oid updated)

  pub mark_item_ready_from_device-StockInv :
      (env : Env) (org iid : ℕ) → Keeps Inv (mark_item_ready_from_device env org iid)
  unfolding mark_item_ready_from_device
  mark_item_ready_from_device-StockInv env org iid = record {
    run = λ s v. after_or_raise Inv (item_with_order iid s.orders) _ _ s v λ row _.
        after_raise_if Inv (not (row.1.organization_id == org)) _ _ s v λ _.
          after_raise_if Inv (is_cancelled row.2.status) _ _ s v λ _.
            after_or_raise Inv (organization_order org row.0 s) _ _ s v
              λ _ _. (process-StockInv env org row.0 row.2).run s v;
  }
