-- ===== src/Orders/Rows.antt =====
-- findOne of src/modules/orders/orders.service.ts, and what the repositories of orders and order items do
-- on a read and on a save. A row that was soft-deleted is not found.
pub mod Laws
pub mod Stays
pub mod Found
use openeos_api.Base.{
  ℕ, suc, Bool, true, false, not, ◌&&◌, Option, none, some, List, [], ◌∷◌, String, ◌==◌,
  if◌then◌else◌, is_some, get, put, find_first, keep, length, values,
}
use openeos_api.Entities.{Order, OrderItem, User}
use openeos_api.Store.{Store, M, gets, modify, or_raise, ◌>>=◌, ◌>>◌, not_found, not_found_code}
use openeos_api.Access.{check_membership}

abbrev pub is_live : Order → Bool
is_live o = not (is_some o.deleted_at)

-- `findOne({ where: { id } })`
abbrev pub live : Option Order → Option Order
live none = none
live (some o) = if is_live o then some o else none

unfoldable pub stored_order : ℕ → Store → Option Order
stored_order oid s = live (get oid s.orders)

abbrev pub of_organization : ℕ → Option Order → Option Order
of_organization org none = none
of_organization org (some o) = if o.organization_id == org then some o else none

-- `findOne({ where: { id, organizationId } })`
unfoldable pub organization_order : ℕ → ℕ → Store → Option Order
unfolding stored_order
organization_order org oid s = of_organization org (stored_order oid s)

unfoldable pub find_one : ℕ → ℕ → User → M Order
unfolding organization_order
find_one org oid user = do
  check_membership org user.id
  found ← gets (organization_order org oid)
  or_raise found (not_found not_found_code)

-- `reloadOrder`
unfoldable pub reload_order : ℕ → ℕ → M Order
unfolding organization_order
reload_order org oid = do
  found ← gets (organization_order org oid)
  or_raise found (not_found not_found_code)

-- `orderRepository.save(order)`, with the items by cascade.
abbrev pub with_order : ℕ → Order → Store → Store
with_order oid o s = record s { orders = put oid o s.orders }

unfoldable pub save_order : ℕ → Order → M (Unit {0})
save_order oid o = modify (with_order oid o)

unfoldable pub put_item : OrderItem → List OrderItem → List OrderItem
put_item item [] = item ∷ []
put_item item (i ∷ is) = if i.id == item.id then item ∷ is else i ∷ put_item item is

unfoldable pub remove_item_row : ℕ → List OrderItem → List OrderItem
remove_item_row iid [] = []
remove_item_row iid (i ∷ is) = if i.id == iid then is else i ∷ remove_item_row iid is

-- A row read and saved again; a row that is not there is not made.
abbrev pub saved_over : ℕ → (Order → Order) → Option Order → List (ℕ × Order) → List (ℕ × Order)
saved_over oid f none rows = rows
saved_over oid f (some o) rows = put oid (f o) rows

-- A change of the rows of order_items that belong to one order.
unfoldable pub change_items : ℕ → (List OrderItem → List OrderItem) → Store → Store
change_items oid f s = record s {
  orders = saved_over oid (λ o. record o { items = f o.items }) (get oid s.orders) s.orders;
}

-- A stored order, read, changed and saved; if it is not found, nothing happens.
unfoldable pub change_stored : ℕ → (Order → Order) → Store → Store
change_stored oid f s = record s { orders = saved_over oid f (stored_order oid s) s.orders }

-- `orderItemRepository.save(item)` and `.remove(item)`
unfoldable pub save_item : ℕ → OrderItem → M (Unit {0})
unfolding change_items
save_item oid item = modify (change_items oid (put_item item))

unfoldable pub delete_item : ℕ → ℕ → M (Unit {0})
unfolding change_items
delete_item oid iid = modify (change_items oid (remove_item_row iid))

-- `order.items.find((i) => i.id === itemId)`
abbrev pub item_of : ℕ → Order → Option OrderItem
item_of iid o = find_first (λ i. i.id == iid) o.items

-- `value || null` on a text.
abbrev pub or_null : Option String → Option String
or_null none = none
or_null (some String.[]) = none
or_null (some (String.◌∷◌ c s)) = some (String.◌∷◌ c s)
