-- ===== src/Orders/Ledger.antt =====
-- The methods of src/modules/orders/orders.service.ts that write items keep the stock ledger.
pub mod Lifecycle
pub mod Reversals
pub mod Ending
pub mod Calls
mod Tests
use openeos_api.Base.{
  ℕ, suc, zero, ◌≡◌, refl, ℤ, pos, neg, negsuc, ◌+ℤ◌, ◌-ℤ◌, ◌≤ℤ◌, ltb, ltb_ℤ, int_laws, Bool, true,
  false, not, ◌&&◌, ◌||◌, Option, none, some, String, List, [], ◌∷◌, ◌==◌, if◌then◌else◌, get,
  Bool-cases, Option-cases, inl, inr, arith, is_empty, ◌⊎◌,
}
use openeos_api.Entities.{Product, Order, OrderItem, OrderStatus, User, StockMovement, Payment}
use openeos_api.Store.{
  Store, Env, M, ok, err, pure, ◌>>=◌, ◌>>◌, bad_request, validation_error, raise_if, when,
  or_raise,
}
use openeos_api.Store.Keeps.{
  Keeps, after_bind, after_keeps, after_when, after_raise_if, after_or_raise, Keeps-bind,
  Keeps-or_raise, Keeps-raise_if, Keeps-when,
}
use openeos_api.Access.Cases.{Keeps-member, Keeps-admin}
use openeos_api.Orders.Rows.{
  stored_order, find_one, save_item, delete_item, change_items, save_order, put_item, item_of,
}
use openeos_api.Orders.Rows.Stays.{Stays, Stays-same, Stays-change_items}
use openeos_api.Orders.Rows.Found.{Keeps-found, Keeps-find_one, Keeps-reload}
use openeos_api.Orders.Totals.{recalculate_order_totals}
use openeos_api.Orders.Progress.{update_order_status}
use openeos_api.Orders.Stock.{tracked, change_stock, restore_stock_for_item, give_back, with_stock}
use openeos_api.Orders.Stock.Ledger.{
  StockInv, tracked-eq, change_stock-StockInv, restore_stock_for_item-StockInv,
}
use openeos_api.Orders.Items.{
  AddOrderItemDto, UpdateOrderItemDto, of_event, check_available, place_item, add_item_to_order,
  add_item, adjust_stock, change_quantity, new_quantity, update_item, remove_item,
  should_charge_pfand, is_closed, is_pending,
}

of_event-eq :
    (event_id : Option ℕ) (found : Option Product) {p : Product}
    → of_event event_id found ≡ some p
    → found ≡ some p
of_event-eq none found h = h
of_event-eq (some e) none h = cc
of_event-eq (some e) (some q) h = ground arith

-- What the stock check of a product says.
enough_left : (q : ℤ) (n : ℕ) → ltb_ℤ q (pos n) ≡ false → pos 0 ≤ℤ q +ℤ neg (pos n)
enough_left q n h = omega (int_laws, not_ltb q (pos n) h)
  where
    not_ltb : (a b : ℤ) → ltb_ℤ a b ≡ false → b ≤ℤ a
    not_ltb a b e = ground arith

second : {a b : Bool} → (a && b) ≡ false → a ≡ true → b ≡ false
second h e = ground arith

check_available_cases :
    (p : Product) (quantity : ℕ) (s : Store)
    → (check_available p quantity s ≡ (err (bad_request validation_error), s))
      ⊎ ((check_available p quantity s ≡ (ok tt, s))
          × ((p.track_inventory && ltb_ℤ p.stock_quantity (pos quantity)) ≡ false))
unfolding check_available
check_available_cases p quantity s = elim (Bool-cases (not p.is_active || not p.is_available)) [
  | inl e ↦ inl (rw e)
  | inr e ↦ elim (Bool-cases (p.track_inventory && ltb_ℤ p.stock_quantity (pos quantity))) [
    | inl f ↦ inl (rw (e, f))
    | inr f ↦ inr (rw (e, f), f)
  ]
]

-- A sale by `diff` more was checked, and giving back needs no check.
still_left :
    (q diff : ℤ)
    → pos 0 ≤ℤ q
    → (ltb_ℤ (pos 0) diff && ltb_ℤ q diff) ≡ false
    → pos 0 ≤ℤ q +ℤ neg diff
still_left q diff h e = omega (int_laws, not_short q diff h e)
  where
    not_short : (a b : ℤ) → pos 0 ≤ℤ a → (ltb_ℤ (pos 0) b && ltb_ℤ a b) ≡ false → b ≤ℤ a
    not_short a b n f = ground arith

module _ (opening : ℕ → ℤ) where
  abbrev Inv : Store → Type 0
  Inv = StockInv opening

  place_item-StockInv :
      (oid : ℕ) (o : Order) (dto : AddOrderItemDto) (user : User) (charge : Bool) (p : Product)
      (s : Store)
      → get dto.product_id s.products ≡ some p
      → (p.track_inventory && ltb_ℤ p.stock_quantity (pos dto.quantity)) ≡ false
      → Inv s
      → Inv (place_item oid o dto user charge p s).1
  unfolding place_item save_item change_items
  place_item-StockInv oid o dto user charge p s found enough v =
      after_bind Inv (when p.track_inventory _) _ _
        (after_when Inv p.track_inventory _ _ v λ on.
          change_stock-StockInv opening dto.product_id p o.event_id oid (neg (pos dto.quantity)) _
            user.id _ found (enough_left p.stock_quantity dto.quantity (second enough on)) v)
        (λ _. record { run = λ t i. i })

  pub add_item_to_order-StockInv :
      (oid : ℕ) (o : Order) (dto : AddOrderItemDto) (user : User) (charge : Bool)
      → Keeps Inv (add_item_to_order oid o dto user charge)
  unfolding add_item_to_order
  add_item_to_order-StockInv oid o dto user charge = record {
    run = λ s v.
        after_or_raise Inv (of_event o.event_id (get dto.product_id s.products)) _ _ s v λ p e.
          elim (check_available_cases p dto.quantity s) [
            | inl refused ↦ rw refused v
            | inr (passed, enough) ↦ rw passed (
                place_item-StockInv oid o dto user charge p s (of_event-eq o.event_id _ e) enough v)
          ];
  }

  -- Calls that write orders alone.
  pub totals-StockInv : (oid : ℕ) → Keeps Inv (recalculate_order_totals oid)
  unfolding recalculate_order_totals
  totals-StockInv oid = record { run = λ s v. v }

  pub progress-StockInv : (oid : ℕ) → Keeps Inv (update_order_status oid)
  unfolding update_order_status
  progress-StockInv oid = record { run = λ s v. v }

  pub save_order-StockInv : (oid : ℕ) (o : Order) → Keeps Inv (save_order oid o)
  unfolding save_order
  save_order-StockInv oid o = record { run = λ s v. v }

  pub save_item-StockInv : (oid : ℕ) (i : OrderItem) → Keeps Inv (save_item oid i)
  unfolding save_item
  save_item-StockInv oid i = record { run = λ s v. v }

  delete_item-StockInv : (oid iid : ℕ) → Keeps Inv (delete_item oid iid)
  unfolding delete_item
  delete_item-StockInv oid iid = record { run = λ s v. v }

  -- The end of the methods that change an item.
  finish-StockInv :
      (org oid : ℕ) (user : User)
      → Keeps Inv (do recalculate_order_totals oid; update_order_status oid; find_one org oid user)
  finish-StockInv org oid user =
      Keeps-bind Inv _ _ (totals-StockInv oid)
        λ _. Keeps-bind Inv _ _ (progress-StockInv oid) λ _. Keeps-find_one Inv org oid user

  pub charge-StockInv : (o : Order) → Keeps Inv (should_charge_pfand o)
  unfolding should_charge_pfand
  charge-StockInv o = record { run = λ s v. v }

  pub add_item-StockInv :
      (org oid : ℕ) (dto : AddOrderItemDto) (user : User) → Keeps Inv (add_item org oid dto user)
  unfolding add_item
  add_item-StockInv org oid dto user = Keeps-member Inv org user.id _ (
      Keeps-found Inv org oid user _ λ o s _ v. after_raise_if Inv (is_closed o.status) _ _ s v λ _.
        after_keeps Inv (should_charge_pfand o) _ s v (charge-StockInv o) λ charge.
          Keeps-bind Inv _ _ (add_item_to_order-StockInv oid o dto user charge)
            λ _. finish-StockInv org oid user)

  adjust_stock-StockInv :
      (oid : ℕ) (o : Order) (item : OrderItem) (quantity : ℕ) (user : User)
      → Keeps Inv (adjust_stock oid o item quantity user)
  unfolding adjust_stock
  adjust_stock-StockInv oid o item quantity user = record {
    run = λ s v. elim (Option-cases (tracked (get item.product_id s.products))) [
      | inl e ↦ rw e v
      | inr (p, e) ↦
          let (found, on) = tracked-eq _ e in
          let diff = pos quantity -ℤ pos item.quantity in
          rw e (
            after_raise_if Inv (ltb_ℤ (pos 0) diff && ltb_ℤ p.stock_quantity diff) _ _ s v λ enough.
              change_stock-StockInv opening item.product_id p o.event_id oid (neg diff) _ user.id s
                found (still_left p.stock_quantity diff (v.in_stock _ p found on) enough) v)
    ];
  }

  change_quantity-StockInv :
      (oid : ℕ) (o : Order) (item : OrderItem) (quantity : Option ℕ) (user : User)
      → Keeps Inv (change_quantity oid o item quantity user)
  unfolding change_quantity
  change_quantity-StockInv oid o item none user = record { run = λ s v. v }
  change_quantity-StockInv oid o item (some q) user =
      Keeps-bind Inv _ _ (adjust_stock-StockInv oid o item q user) λ _. record { run = λ s v. v }

  pub update_item-StockInv :
      (org oid iid : ℕ) (dto : UpdateOrderItemDto) (user : User)
      → Keeps Inv (update_item org oid iid dto user)
  unfolding update_item
  update_item-StockInv org oid iid dto user = Keeps-member Inv org user.id _ (
      Keeps-found Inv org oid user _ λ o s _ v. after_raise_if Inv (is_closed o.status) _ _ s v λ _.
        after_or_raise Inv (item_of iid o) _ _ s v λ item _.
          after_raise_if Inv (not (is_pending item.status)) _ _ s v λ _.
            after_keeps Inv (change_quantity oid o item (new_quantity dto.quantity item) user) _ s v
              (change_quantity-StockInv oid o item (new_quantity dto.quantity item) user)
              λ changed.
                Keeps-bind Inv _ _ (save_item-StockInv oid _) λ _.
                  Keeps-bind Inv _ _ (totals-StockInv oid) λ _. Keeps-find_one Inv org oid user)

  pub remove_item-StockInv :
      (org oid iid : ℕ) (user : User) → Keeps Inv (remove_item org oid iid user)
  unfolding remove_item
  remove_item-StockInv org oid iid user = Keeps-member Inv org user.id _ (
      Keeps-found Inv org oid user _ λ o s found v.
        after_raise_if Inv (is_closed o.status) _ _ s v λ _.
          after_or_raise Inv (item_of iid o) _ _ s v λ item _.
            after_raise_if Inv (ltb 0 item.paid_quantity) _ _ s v λ _.
              after_bind Inv (restore_stock_for_item oid item user.id) _ s
                (restore_stock_for_item-StockInv opening oid item user.id s found v)
                λ _.
                  Keeps-bind Inv _ _ (delete_item-StockInv oid iid)
                    λ _. finish-StockInv org oid user)
