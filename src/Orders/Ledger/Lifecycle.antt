-- ===== src/Orders/Ledger/Lifecycle.antt =====
-- create, update and remove of src/modules/orders/orders.service.ts keep the stock ledger.
use openeos_api.Base.{
  ℕ, ◌≡◌, ℤ, Bool, not, Option, none, some, List, [], ◌∷◌, get, Option-cases, inl, inr, is_empty,
  is_some, ◌||◌,
}
use openeos_api.Entities.{Order, OrderItem, User, EventStatus}
use openeos_api.Store.{Store, Env, M, ◌>>◌, when}
use openeos_api.Store.Keeps.{
  Keeps, after_bind, after_keeps, after_raise_if, after_or_raise, Keeps-bind, Keeps-raise_if,
  Keeps-when,
}
use openeos_api.Access.Cases.{Keeps-member}
use openeos_api.Policies.{assert_test_event_order_limit_not_reached}
use openeos_api.Orders.Rows.{stored_order, find_one, save_order, save_item, put_item}
use openeos_api.Orders.Rows.Stays.{Stays, Stays-same, Stays-change_items}
use openeos_api.Orders.Rows.Found.{Keeps-found, Keeps-find_one}
use openeos_api.Orders.Stock.{restore_stock_for_item, tracked}
use openeos_api.Orders.Stock.Ledger.{StockInv, restore_stock_for_item-StockInv}
use openeos_api.Orders.Items.{AddOrderItemDto, is_closed}
use openeos_api.Orders.Create.{
  CreateOrderDto, UpdateOrderDto, check_event, add_items, fill, create, update, restore_all, remove,
  is_unpaid, takes_orders, event_in,
}
use openeos_api.Orders.Cancel.{cancel_items, cancelled_item}
use openeos_api.Orders.Ledger.{
  add_item_to_order-StockInv, totals-StockInv, charge-StockInv, save_order-StockInv,
}

restore_stock_for_item-orders :
    (oid : ℕ) (item : OrderItem) (user_id : ℕ) (s : Store) {o : Order}
    → stored_order oid s ≡ some o
    → (restore_stock_for_item oid item user_id s).1.orders ≡ s.orders
unfolding restore_stock_for_item
restore_stock_for_item-orders oid item user_id s h =
    elim (Option-cases (tracked (get item.product_id s.products))) [
      | inl e ↦ rw e
      | inr (p, e) ↦ rw (e, h)
    ]

module _ (opening : ℕ → ℤ) where
  abbrev Inv : Store → Type 0
  Inv = StockInv opening

  -- The ledger, together with the order whose items are given back.
  abbrev pub With : ℕ → Store → Type 0
  With oid s = Inv s × Stays oid s

  restore-With :
      (oid : ℕ) (item : OrderItem) (user_id : ℕ)
      → Keeps (With oid) (restore_stock_for_item oid item user_id)
  restore-With oid item user_id = record {
    run = λ s (v, (o, h)). (
      restore_stock_for_item-StockInv opening oid item user_id s h v,
      Stays-same oid s _ (restore_stock_for_item-orders oid item user_id s h) (o, h),
    );
  }

  save_item-With : (oid : ℕ) (item : OrderItem) → Keeps (With oid) (save_item oid item)
  unfolding save_item
  save_item-With oid item = record {
    run = λ s (v, k). (v, Stays-change_items oid (put_item item) s k);
  }

  restore_all-With :
      (oid : ℕ) (items : List OrderItem) (user_id : ℕ)
      → Keeps (With oid) (restore_all oid items user_id)
  unfolding restore_all
  restore_all-With oid [] user_id = record { run = λ s v. v }
  restore_all-With oid (i ∷ is) user_id =
      Keeps-bind (With oid) _ _ (restore-With oid i user_id) λ _. restore_all-With oid is user_id

  pub cancel_items-With :
      (oid : ℕ) (items : List OrderItem) (user_id : ℕ)
      → Keeps (With oid) (cancel_items oid items user_id)
  unfolding cancel_items
  cancel_items-With oid [] user_id = record { run = λ s v. v }
  cancel_items-With oid (i ∷ is) user_id =
      Keeps-bind (With oid) _ _ (restore-With oid i user_id) λ _.
        Keeps-bind (With oid) _ _ (save_item-With oid (cancelled_item i))
          λ _. cancel_items-With oid is user_id

  Keeps-limit :
      (status : EventStatus) (n max : ℕ)
      → Keeps Inv (assert_test_event_order_limit_not_reached status n max)
  unfolding assert_test_event_order_limit_not_reached
  Keeps-limit EventStatus.test n max = Keeps-raise_if Inv _ _
  Keeps-limit EventStatus.active n max = record { run = λ s v. v }
  Keeps-limit EventStatus.inactive n max = record { run = λ s v. v }

  check_event-StockInv :
      (env : Env) (org : ℕ) (event_id : Option ℕ) → Keeps Inv (check_event env org event_id)
  unfolding check_event
  check_event-StockInv env org none = record { run = λ s v. v }
  check_event-StockInv env org (some eid) = record {
    run = λ s v. after_or_raise Inv (event_in org (get eid s.events)) _ _ s v λ e _.
        after_raise_if Inv (not (takes_orders e.status)) _ _ s v
          λ _. (Keeps-limit e.status _ env.test_event_max_orders).run s v;
  }

  add_items-StockInv :
      (oid : ℕ) (o : Order) (dtos : List AddOrderItemDto) (user : User) (charge : Bool)
      → Keeps Inv (add_items oid o dtos user charge)
  unfolding add_items
  add_items-StockInv oid o [] user charge = record { run = λ s v. v }
  add_items-StockInv oid o (dto ∷ dtos) user charge =
      Keeps-bind Inv _ _ (add_item_to_order-StockInv opening oid o dto user charge)
        λ _. add_items-StockInv oid o dtos user charge

  fill-StockInv :
      (oid : ℕ) (o : Order) (dtos : List AddOrderItemDto) (user : User)
      → Keeps Inv (fill oid o dtos user)
  unfolding fill
  fill-StockInv oid o dtos user = Keeps-bind Inv _ _ (charge-StockInv opening o) λ charge.
      Keeps-bind Inv _ _ (add_items-StockInv oid o dtos user charge)
        λ _. totals-StockInv opening oid

  pub create-StockInv :
      (env : Env) (org : ℕ) (dto : CreateOrderDto) (user : User)
      → Keeps Inv (create env org dto user)
  unfolding create find_one save_order
  create-StockInv env org dto user = Keeps-member Inv org user.id _ (
      Keeps-bind Inv _ _ (check_event-StockInv env org dto.event_id) λ _. record {
        run = λ s v.
            after_when_bind (not (is_empty dto.items)) _ _ _ v
              (fill-StockInv s.next_id _ dto.items user) (Keeps-find_one Inv org s.next_id user);
      })
    where
      after_when_bind :
          (b : Bool) (m : M (Unit {0})) (k : M Order) (s : Store)
          → Inv s
          → Keeps Inv m
          → Keeps Inv k
          → Inv ((when b m >> k) s).1
      after_when_bind b m k s v h g = after_keeps Inv (when b m) _ s v (Keeps-when Inv b m h) λ _. g

  pub update-StockInv :
      (org oid : ℕ) (dto : UpdateOrderDto) (user : User) → Keeps Inv (update org oid dto user)
  unfolding update
  update-StockInv org oid dto user = Keeps-member Inv org user.id _ (
      Keeps-found Inv org oid user _ λ o s _ v. after_raise_if Inv (is_closed o.status) _ _ s v λ _.
        after_keeps Inv (save_order oid _) _ s v (save_order-StockInv opening oid _) λ _.
          Keeps-bind Inv _ _
            (Keeps-when Inv (is_some dto.discount_amount || is_some dto.tip_amount) _
              (totals-StockInv opening oid))
            λ _. Keeps-find_one Inv org oid user)

  pub remove-StockInv :
      (env : Env) (org oid : ℕ) (user : User) → Keeps Inv (remove env org oid user)
  unfolding remove
  remove-StockInv env org oid user = Keeps-member Inv org user.id _ (
      Keeps-found Inv org oid user _ λ o s h v.
        after_raise_if Inv (not (is_unpaid o.payment_status)) _ _ s v λ _.
          after_bind Inv (restore_all oid o.items user.id) _ s
            ((restore_all-With oid o.items user.id).run s (v, (o, h))).0
            λ _. save_order-StockInv opening oid _)
