-- ===== src/Inventory/Tests.antt =====
-- A count of one product from its draft to its completion, as src/modules/inventory/inventory.service.ts
-- runs it.
use openeos_api.Base.{
  ℕ, ◌≡◌, refl, inr, ℤ, pos, negsuc, ◌-ℤ◌, ◌+ℤ◌, max_ℤ, none, some, List, [], ◌∷◌, get, put,
}
use openeos_api.Entities.{InventoryCount, InventoryCountItem, InventoryCountStatus, StockMovement}
use openeos_api.Samples.{signing, paid_store, product, event}
use openeos_api.Store.{Store, ok}
use openeos_api.Access.{check_membership}
use openeos_api.Organizations.{check_permission}
use openeos_api.Orders.Stock.{with_stock, save_product, create_stock_movement}
use openeos_api.Inventory.{
  get_event_and_check_permission, find_one_count_internal, find_one_count, save_count,
  complete_count, apply_stock_adjustment, adjust_items, completed,
}
use openeos_api.Inventory.Calls.{
  InventoryCall, InventoryRequest, serve_counts, serve_counts-CountInv,
}
use openeos_api.Inventory.Counts.{IsWellFormed}
use openeos_api.Inventory.Counts.Keeps.{CountInv}
use openeos_api.Inventory.Complete.{complete_count-stock}

abbrev on_count : ℕ → InventoryCall → InventoryRequest
on_count cid c = record { env = signing; event_id = 3; count_id = cid; user_id = 9; call = c }

abbrev requests : List InventoryRequest
requests =
    on_count 30 (InventoryCall.create_count_call (record { name = "Sunday"; notes = none }))
    ∷ on_count 30 (InventoryCall.bulk_add_call (record { category_id = none; product_ids = [] }))
    ∷ on_count 30 InventoryCall.start_count_call
    ∷ on_count 30 (InventoryCall.count_item_call 31 (record { counted_quantity = 7; notes = none }))
    ∷ on_count 30 InventoryCall.complete_count_call
    ∷ []

no_counts : CountInv paid_store
unfolding get
no_counts = record { well_formed = λ k c h. cc; keyed = (refl, tt) }

serve_counts-CountInv_example : CountInv (serve_counts requests paid_store)
serve_counts-CountInv_example = serve_counts-CountInv requests paid_store no_counts

-- Seven were counted where ten were expected.
abbrev short_item : InventoryCountItem
short_item = record {
  id = 31;
  product_id = 5;
  expected_quantity = pos 10;
  counted_quantity = some 7;
  difference = some (pos 7 -ℤ pos 10);
  notes = none;
  counted_by_user_id = some 9;
  counted_at = some 90;
}

abbrev sunday : InventoryCount
sunday = record {
  event_id = 3;
  name = "Sunday";
  status = InventoryCountStatus.in_progress;
  started_at = some 80;
  completed_at = none;
  notes = none;
  created_by_user_id = 9;
  completed_by_user_id = none;
  items = short_item ∷ [];
}

abbrev counting : Store
counting = record paid_store { inventory_counts = (30, sunday) ∷ [] }

permitted : get_event_and_check_permission 3 9 counting ≡ (ok event, counting)
unfolding get_event_and_check_permission check_permission check_membership get
permitted = refl

sunday-IsWellFormed : IsWellFormed sunday
sunday-IsWellFormed = record {
  consistent = (inr (7, refl, refl), tt);
  distinct = (refl, tt);
  draft_uncounted = λ h. cc;
  in_progress_items = λ h. refl;
  completed_counted = λ h. cc;
}

complete_count-stock_example :
    ((complete_count signing 3 30 9 counting).0 ≡ ok (completed signing 9 sunday))
    × (get 5 (complete_count signing 3 30 9 counting).1.products
        ≡ some (with_stock product (pos 7)))
unfolding get
complete_count-stock_example =
    complete_count-stock signing 3 30 9 5 7 event sunday short_item product counting permitted refl
      refl refl refl sunday-IsWellFormed refl refl refl refl

-- Eight of the ten were sold while the count ran: the stock stops at zero, the movement does not.
abbrev sold_out : Store
sold_out = record counting { products = (5, with_stock product (pos 2)) ∷ [] }

abbrev quantities : List StockMovement → List (ℤ × ℤ × ℤ)
quantities [] = []
quantities (m ∷ ms) = (m.quantity_before, m.quantity, m.quantity_after) ∷ quantities ms

sold_out_is :
    quantities (complete_count signing 3 30 9 sold_out).1.movements ≡ (pos 2, negsuc 2, pos 0) ∷ []
unfolding complete_count find_one_count find_one_count_internal get_event_and_check_permission
    check_permission check_membership adjust_items apply_stock_adjustment save_product
    create_stock_movement save_count get put ◌-ℤ◌ ◌+ℤ◌ max_ℤ
sold_out_is = refl
