-- ===== src/Orders/Rows/Stays.antt =====
-- Which calls leave an order stored, so that a later read finds it again.
use openeos_api.Base.{ℕ, ◌≡◌, some, List, ◌∙◌}
use openeos_api.Entities.{Order, OrderItem}
use openeos_api.Store.{Store}
use openeos_api.Orders.Rows.{stored_order, change_items}
use openeos_api.Orders.Rows.Laws.{stored_order-live, stored_order-with_order}

-- The order is stored and not deleted.
abbrev pub Stays : ℕ → Store → Type 0
Stays oid s = (o : Order) × (stored_order oid s ≡ some o)

stays_in : (oid : ℕ) (s t : Store) → t.orders ≡ s.orders → stored_order oid t ≡ stored_order oid s
unfolding stored_order
stays_in oid s t e = rw e

-- A call that leaves the rows of orders alone leaves every order stored.
pub Stays-same : (oid : ℕ) (s t : Store) → t.orders ≡ s.orders → Stays oid s → Stays oid t
Stays-same oid s t e (o, h) = (o, stays_in oid s t e ∙ h)

pub Stays-change_items :
    (oid : ℕ) (f : List OrderItem → List OrderItem) (s : Store)
    → Stays oid s
    → Stays oid (change_items oid f s)
unfolding change_items
Stays-change_items oid f s (o, h) =
    let (found, on) = stored_order-live oid s h in
    let new : Order = record o { items = f o.items } in
    (new, rw found (stored_order-with_order oid new s on))
