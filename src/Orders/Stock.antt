-- ===== src/Orders/Stock.antt =====
-- createStockMovement and restoreStockForItem of src/modules/orders/orders.service.ts, and the save and
-- the announcement of a stock change, which three methods spell out alike.
pub mod Ledger
use openeos_api.Base.{
  ℕ, ℤ, pos, neg, ◌+ℤ◌, Bool, true, false, Option, none, some, List, ◌∷◌, get, put, if◌then◌else◌,
}
use openeos_api.Entities.{
  Product, Order, OrderItem, Event, StockMovement, StockMovementType, sale_cancelled,
}
use openeos_api.Store.{Store, M, pure, gets, modify, ◌>>=◌, ◌>>◌, ProductNotice}
use openeos_api.Orders.Rows.{stored_order}

unfoldable pub save_product : ℕ → Product → M (Unit {0})
save_product pid p = modify λ s. record s { products = put pid p s.products }

unfoldable pub create_stock_movement : StockMovement → M (Unit {0})
create_stock_movement m = modify λ s. record s { movements = m ∷ s.movements }

-- `gatewayService.notifyProductUpdated`, if the event of the order is there.
abbrev pub notify_product_updated :
    ℕ → ℕ → Product → Option Event → List ProductNotice → List ProductNotice
notify_product_updated eid pid p none sent = sent
notify_product_updated eid pid p (some e) sent =
    record { organization_id = e.organization_id; event_id = eid; product_id = pid; product = p }
    ∷ sent

abbrev pub announced : Option ℕ → ℕ → Product → Store → List ProductNotice
announced none pid p s = s.notices
announced (some eid) pid p s = notify_product_updated eid pid p (get eid s.events) s.notices

-- `gatewayService.notifyProductUpdated`, if the event of the order is there.
unfoldable pub announce : Option ℕ → ℕ → Product → M (Unit {0})
announce event_id pid p = modify λ s. record s { notices = announced event_id pid p s }

abbrev pub with_stock : Product → ℤ → Product
with_stock p q = record p { stock_quantity = q }

abbrev pub movement : ℕ → Product → Option ℕ → ℕ → ℤ → StockMovementType → ℕ → StockMovement
movement pid p event_id oid change kind user_id = record {
  product_id = pid;
  event_id = event_id;
  kind = kind;
  quantity = change;
  quantity_before = p.stock_quantity;
  quantity_after = p.stock_quantity +ℤ change;
  reference_id = oid;
  created_by_user_id = user_id;
}

-- `product.stockQuantity += change`, saved, with its movement and its announcement.
unfoldable pub change_stock : ℕ → Product → Option ℕ → ℕ → ℤ → StockMovementType → ℕ → M (Unit {0})
unfolding save_product create_stock_movement announce
change_stock pid p event_id oid change kind user_id = do
  save_product pid (with_stock p (p.stock_quantity +ℤ change))
  create_stock_movement (movement pid p event_id oid change kind user_id)
  announce event_id pid (with_stock p (p.stock_quantity +ℤ change))

-- `restoreStockForItem`; without its order the stock is saved and no movement is written.
unfoldable pub give_back : ℕ → OrderItem → Product → Option Order → ℕ → M (Unit {0})
unfolding save_product change_stock
give_back oid item p none user_id =
    save_product item.product_id (with_stock p (p.stock_quantity +ℤ pos item.quantity))
give_back oid item p (some o) user_id =
    change_stock item.product_id p o.event_id oid (pos item.quantity) sale_cancelled user_id

unfoldable pub tracked : Option Product → Option Product
tracked none = none
tracked (some p) = if p.track_inventory then some p else none

abbrev pub give_back_tracked : ℕ → OrderItem → ℕ → Option Product → M (Unit {0})
give_back_tracked oid item user_id none = pure tt
give_back_tracked oid item user_id (some p) =
    gets (stored_order oid) >>= λ o. give_back oid item p o user_id

unfoldable pub restore_stock_for_item : ℕ → OrderItem → ℕ → M (Unit {0})
unfolding give_back
restore_stock_for_item oid item user_id =
    gets (λ s. tracked (get item.product_id s.products)) >>= give_back_tracked oid item user_id
