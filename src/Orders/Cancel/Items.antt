-- ===== src/Orders/Cancel/Items.antt =====
-- The loop over the items of an order that is cancelled does not fail, and leaves the payments alone.
use openeos_api.Base.{ℕ, ◌≡◌, refl, none, some, List, [], ◌∷◌, Option-cases, inl, inr, get}
use openeos_api.Entities.{Order, OrderItem, Product, StockMovement}
use openeos_api.Store.{Store, ok, ProductNotice}
use openeos_api.Orders.Rows.{stored_order, save_item}
use openeos_api.Orders.Stock.{restore_stock_for_item, tracked, give_back}
use openeos_api.Orders.Cancel.{cancel_items, cancelled_item}

-- The store with other stock and other orders.
abbrev pub with_stock_rows :
    List (ℕ × Product) → List StockMovement → List ProductNotice → List (ℕ × Order) → Store → Store
with_stock_rows ps ms ns os s = record s {
  products = ps;
  movements = ms;
  notices = ns;
  orders = os;
}

pub restore_run :
    (oid : ℕ) (item : OrderItem) (user_id : ℕ) (s : Store)
    → (ps : List (ℕ × Product)) × (ms : List StockMovement) × (ns : List ProductNotice)
      × (restore_stock_for_item oid item user_id s ≡ (ok tt, with_stock_rows ps ms ns s.orders s))
unfolding restore_stock_for_item
restore_run oid item user_id s = elim (Option-cases (tracked (get item.product_id s.products))) [
  | inl e ↦ (s.products, s.movements, s.notices, rw e)
  | inr (p, e) ↦ elim (Option-cases (stored_order oid s)) [
    | inl n ↦
        let t = (give_back oid item p none user_id s).1 in
        (t.products, t.movements, t.notices, rw (e, n))
    | inr (o, f) ↦
        let t = (give_back oid item p (some o) user_id s).1 in
        (t.products, t.movements, t.notices, rw (e, f))
  ]
]

pub cancel_items_run :
    (oid : ℕ) (items : List OrderItem) (user_id : ℕ) (s : Store)
    → (ps : List (ℕ × Product)) × (ms : List StockMovement) × (ns : List ProductNotice) × (os : List
        (ℕ × Order))
      × (cancel_items oid items user_id s ≡ (ok tt, with_stock_rows ps ms ns os s))
unfolding cancel_items save_item
cancel_items_run oid [] user_id s = (s.products, s.movements, s.notices, s.orders, refl)
cancel_items_run oid (i ∷ is) user_id s =
    let (ps, ms, ns, e) = restore_run oid i user_id s in
    let t = (save_item oid (cancelled_item i) (with_stock_rows ps ms ns s.orders s)).1 in
    let (ps', ms', ns', os, f) = cancel_items_run oid is user_id t in (ps', ms', ns', os, rw (e, f))
