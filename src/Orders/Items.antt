-- ===== src/Orders/Items.antt =====
-- addItemToOrder, addItem, updateItem and removeItem of src/modules/orders/orders.service.ts.
pub mod Prices
use openeos_api.Base.{
  ℕ, zero, suc, ◌-◌, ℤ, pos, neg, ◌+ℤ◌, ◌-ℤ◌, ◌*ℤ◌, ltb_ℤ, ltb, ◌==◌, Bool, true, false, not, ◌&&◌,
  ◌||◌, Option, none, some, String, List, [], ◌∷◌, length, if◌then◌else◌, get, get_or, is_some,
}
use openeos_api.Entities.{
  Order, OrderItem, OrderStatus, completed, OrderItemStatus, SelectedOption, Product, User,
  Organization, PfandPolicy, sale, sale_cancelled,
}
use openeos_api.Store.{
  Store, Env, M, pure, gets, raise, or_raise, raise_if, when, new_id, ◌>>=◌, ◌>>◌, not_found,
  bad_request, not_found_code, validation_error,
}
use openeos_api.Access.{check_membership}
use openeos_api.Policies.{is_pfand_charged_for_fulfillment}
use openeos_api.Orders.Rows.{
  find_one, save_order, save_item, delete_item, item_of, or_null, stored_order, organization_order,
}
use openeos_api.Orders.Totals.{recalculate_order_totals, is_cancelled}
use openeos_api.Orders.Stock.{change_stock, restore_stock_for_item, tracked}
use openeos_api.Orders.Progress.{update_order_status}

pub record AddOrderItemDto : Type 0 where
  pub product_id : ℕ
  pub quantity : ℕ
  pub notes : Option String
  pub kitchen_notes : Option String
  pub selected_options : List SelectedOption
  pub is_refill : Bool

-- The three fields of UpdateOrderItemDto, absent as `none`.
pub record UpdateOrderItemDto : Type 0 where
  pub quantity : Option ℕ
  pub notes : Option String
  pub kitchen_notes : Option String

-- `shouldChargePfand`
abbrev pub pfand_setting : Option Organization → Option PfandPolicy
pfand_setting none = none
pfand_setting (some o) = o.pfand

unfoldable pub should_charge_pfand : Order → M Bool
unfolding is_pfand_charged_for_fulfillment
should_charge_pfand o = do
  organization ← gets λ s. get o.organization_id s.organizations
  pure (is_pfand_charged_for_fulfillment o.fulfillment_type (pfand_setting organization))

-- The product of the event of the order. TypeORM drops the condition if that is null.
abbrev pub of_event : Option ℕ → Option Product → Option Product
of_event none p = p
of_event (some eid) none = none
of_event (some eid) (some p) = if p.event_id == eid then some p else none

unfoldable pub options_price_of : List SelectedOption → ℤ
options_price_of [] = pos 0
options_price_of (o ∷ os) = o.price_modifier +ℤ options_price_of os

abbrev pub deposit_of : Option (ℕ × ℤ) → ℤ
deposit_of none = pos 0
deposit_of (some (t, amount)) = amount

abbrev pub pfand_id_of : Option (ℕ × ℤ) → Option ℕ
pfand_id_of none = none
pfand_id_of (some (t, amount)) = some t

abbrev pub or_else : Option ℕ → Option ℕ → Option ℕ
or_else (some a) b = some a
or_else none b = b

-- The rate 19.0 of the source, in hundredths of a percent.
abbrev pub default_tax_rate : ℕ
default_tax_rate = 1900

-- The row that `addItemToOrder` creates.
unfoldable pub new_item : ℕ → Product → AddOrderItemDto → Bool → ℕ → OrderItem
unfolding options_price_of
new_item iid p dto charge_pfand existing =
    let options_price = options_price_of dto.selected_options in
    let deposit = if charge_pfand && not dto.is_refill then deposit_of p.pfand_type else pos 0 in
    record {
      id = iid;
      product_id = dto.product_id;
      category_id = p.category_id;
      product_name = p.name;
      category_name = p.category_name;
      quantity = dto.quantity;
      unit_price = p.price;
      options_price = options_price;
      tax_rate = default_tax_rate;
      total_price = (p.price +ℤ options_price) *ℤ pos dto.quantity;
      options = dto.selected_options;
      status = OrderItemStatus.pending;
      notes = or_null dto.notes;
      kitchen_notes = or_null dto.kitchen_notes;
      paid_quantity = 0;
      ready_at = none;
      delivered_at = none;
      sort_order = existing;
      production_station_id = or_else p.production_station_id p.category_station_id;
      pfand_type_id = if ltb_ℤ (pos 0) deposit then pfand_id_of p.pfand_type else none;
      deposit_amount = deposit;
      is_refill = dto.is_refill;
    }

abbrev pub items_of : Option Order → List OrderItem
items_of none = []
items_of (some o) = o.items

unfoldable pub check_available : Product → ℕ → M (Unit {0})
check_available p quantity = do
  raise_if (not p.is_active || not p.is_available) (bad_request validation_error)
  raise_if (p.track_inventory && ltb_ℤ p.stock_quantity (pos quantity))
      (bad_request validation_error)

-- The part of `addItemToOrder` that writes.
unfoldable pub place_item : ℕ → Order → AddOrderItemDto → User → Bool → Product → M OrderItem
unfolding new_item
place_item oid o dto user charge_pfand p = do
  existing ← gets λ s. length (items_of (get oid s.orders))
  iid ← new_id
  let item = new_item iid p dto charge_pfand existing
  save_item oid item
  when p.track_inventory
      (change_stock dto.product_id p o.event_id oid (neg (pos dto.quantity)) sale user.id)
  pure item

unfoldable pub add_item_to_order : ℕ → Order → AddOrderItemDto → User → Bool → M OrderItem
unfolding check_available place_item
add_item_to_order oid o dto user charge_pfand = do
  found ← gets λ s. of_event o.event_id (get dto.product_id s.products)
  p ← or_raise found (not_found not_found_code)
  check_available p dto.quantity
  place_item oid o dto user charge_pfand p

-- `order.status === COMPLETED || order.status === CANCELLED`
abbrev pub is_closed : OrderStatus → Bool
is_closed OrderStatus.completed = true
is_closed OrderStatus.cancelled = true
is_closed _ = false

unfoldable pub add_item : ℕ → ℕ → AddOrderItemDto → User → M Order
add_item org oid dto user = do
  check_membership org user.id
  o ← find_one org oid user
  raise_if (is_closed o.status) (bad_request validation_error)
  charge_pfand ← should_charge_pfand o
  add_item_to_order oid o dto user charge_pfand
  recalculate_order_totals oid
  update_order_status oid
  find_one org oid user

abbrev pub is_pending : OrderItemStatus → Bool
is_pending OrderItemStatus.pending = true
is_pending _ = false

-- The stock part of a change of quantity, for a tracked product.
abbrev pub adjust_tracked : ℕ → Order → OrderItem → ℕ → User → Option Product → M (Unit {0})
adjust_tracked oid o item quantity user none = pure tt
adjust_tracked oid o item quantity user (some p) = do
  let diff = pos quantity -ℤ pos item.quantity
  raise_if (ltb_ℤ (pos 0) diff && ltb_ℤ p.stock_quantity diff) (bad_request validation_error)
  change_stock item.product_id p o.event_id oid (neg diff)
      (if ltb_ℤ (pos 0) diff then sale else sale_cancelled) user.id

unfoldable pub adjust_stock : ℕ → Order → OrderItem → ℕ → User → M (Unit {0})
adjust_stock oid o item quantity user =
    gets (λ s. tracked (get item.product_id s.products)) >>= adjust_tracked oid o item quantity user

-- `updateDto.quantity && updateDto.quantity !== item.quantity`
abbrev pub new_quantity : Option ℕ → OrderItem → Option ℕ
new_quantity none item = none
new_quantity (some zero) item = none
new_quantity (some (suc n)) item = if suc n == item.quantity then none else some (suc n)

unfoldable pub requantified : OrderItem → ℕ → OrderItem
requantified item quantity = record item {
  quantity = quantity;
  total_price = item.unit_price *ℤ pos quantity +ℤ item.options_price;
}

abbrev pub set_text : Option String → Option String → Option String
set_text none old = old
set_text (some t) old = or_null (some t)

abbrev pub with_texts : UpdateOrderItemDto → OrderItem → OrderItem
with_texts dto item = record item {
  notes = set_text dto.notes item.notes;
  kitchen_notes = set_text dto.kitchen_notes item.kitchen_notes;
}

unfoldable pub change_quantity : ℕ → Order → OrderItem → Option ℕ → User → M OrderItem
unfolding adjust_stock requantified
change_quantity oid o item none user = pure item
change_quantity oid o item (some quantity) user = do
  adjust_stock oid o item quantity user
  pure (requantified item quantity)

unfoldable pub update_item : ℕ → ℕ → ℕ → UpdateOrderItemDto → User → M Order
update_item org oid iid dto user = do
  check_membership org user.id
  o ← find_one org oid user
  raise_if (is_closed o.status) (bad_request validation_error)
  item ← or_raise (item_of iid o) (not_found not_found_code)
  raise_if (not (is_pending item.status)) (bad_request validation_error)
  changed ← change_quantity oid o item (new_quantity dto.quantity item) user
  save_item oid (with_texts dto changed)
  recalculate_order_totals oid
  find_one org oid user

unfoldable pub remove_item : ℕ → ℕ → ℕ → User → M Order
remove_item org oid iid user = do
  check_membership org user.id
  o ← find_one org oid user
  raise_if (is_closed o.status) (bad_request validation_error)
  item ← or_raise (item_of iid o) (not_found not_found_code)
  raise_if (ltb 0 item.paid_quantity) (bad_request validation_error)
  restore_stock_for_item oid item user.id
  delete_item oid iid
  recalculate_order_totals oid
  update_order_status oid
  find_one org oid user
