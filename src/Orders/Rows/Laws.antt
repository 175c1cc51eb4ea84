-- ===== src/Orders/Rows/Laws.antt =====
-- Reading back an order that was saved.
use openeos_api.Base.{List, ℕ, ◌≡◌, true, false, some, ◌==◌, get, get-put, get-put_self, arith}
use openeos_api.Entities.{Order, OrderItem}
use openeos_api.Store.{Store}
use openeos_api.Orders.Rows.{change_items, is_live, stored_order, organization_order, with_order}

-- An order that is found was not deleted.
pub stored_order-live :
    (oid : ℕ) (s : Store) {o : Order}
    → stored_order oid s ≡ some o
    → (get oid s.orders ≡ some o) × (is_live o ≡ true)
unfolding stored_order
stored_order-live oid s h = ground arith

pub stored_order-with_order :
    (oid : ℕ) (o : Order) (s : Store)
    → is_live o ≡ true
    → stored_order oid (with_order oid o s) ≡ some o
unfolding stored_order
stored_order-with_order oid o s h = rw (get-put_self oid o s.orders, h)

-- A save leaves the other orders alone.
pub stored_order-with_order_ne :
    (oid k : ℕ) (o : Order) (s : Store)
    → (oid == k) ≡ false
    → stored_order k (with_order oid o s) ≡ stored_order k s
unfolding stored_order
stored_order-with_order_ne oid k o s h = rw (get-put oid k o s.orders, h)

pub organization_order-with_order :
    (org oid : ℕ) (o : Order) (s : Store)
    → is_live o ≡ true
    → o.organization_id ≡ org
    → organization_order org oid (with_order oid o s) ≡ some o
unfolding organization_order
organization_order-with_order org oid o s h e = rw (get-put_self oid o s.orders, h) (ground arith)

pub organization_order-stored :
    (org oid : ℕ) (s : Store) {o : Order}
    → organization_order org oid s ≡ some o
    → (stored_order oid s ≡ some o) × (o.organization_id ≡ org)
unfolding organization_order
organization_order-stored org oid s h = ground arith

-- A change of the items is read back with the order.
pub organization_order-change_items :
    (org oid : ℕ) (f : List OrderItem → List OrderItem) (s : Store) {o : Order}
    → organization_order org oid s ≡ some o
    → organization_order org oid (change_items oid f s) ≡ some (record o { items = f o.items })
unfolding change_items
organization_order-change_items org oid f s {o} h =
    let (stored, mine) = organization_order-stored org oid s h in
    let (found, on) = stored_order-live oid s stored in
    let new : Order = record o { items = f o.items } in
    rw found (organization_order-with_order org oid new s on mine)
