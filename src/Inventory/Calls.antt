-- ===== src/Inventory/Calls.antt =====
-- The methods of src/modules/inventory/inventory.service.ts that write, as one type of calls, and what
-- a sequence of calls keeps true.
use openeos_api.Base.{ℕ, List, [], ◌∷◌}
use openeos_api.Store.{Store, Env}
use openeos_api.Inventory.{
  CreateInventoryCountDto, UpdateInventoryCountDto, BulkAddInventoryItemsDto,
  UpdateInventoryItemDto, create_count, update_count, delete_count, start_count, complete_count,
  cancel_count, add_item, bulk_add_items, update_item,
}
use openeos_api.Inventory.Counts.Keeps.{
  CountInv, create_count-CountInv, update_count-CountInv, delete_count-CountInv,
  start_count-CountInv, cancel_count-CountInv, add_item-CountInv, update_item-CountInv,
}
use openeos_api.Inventory.Counts.Ending.{bulk_add_items-CountInv, complete_count-CountInv}

-- The event and the count of a call stand in its request.
pub data InventoryCall : Type 0 where
  create_count_call : CreateInventoryCountDto → InventoryCall
  update_count_call : UpdateInventoryCountDto → InventoryCall
  delete_count_call start_count_call complete_count_call cancel_count_call : InventoryCall
  add_count_item_call : ℕ → InventoryCall
  bulk_add_call : BulkAddInventoryItemsDto → InventoryCall
  count_item_call : ℕ → UpdateInventoryItemDto → InventoryCall

pub record InventoryRequest : Type 0 where
  pub env : Env
  pub event_id : ℕ
  pub count_id : ℕ
  pub user_id : ℕ
  pub call : InventoryCall

unfoldable pub serve_inventory : InventoryRequest → InventoryCall → Store → Store
serve_inventory r (create_count_call dto) s = (create_count r.event_id r.user_id dto s).1
serve_inventory r (update_count_call dto) s = (update_count r.event_id r.count_id dto r.user_id s).1
serve_inventory r delete_count_call s = (delete_count r.event_id r.count_id r.user_id s).1
serve_inventory r start_count_call s = (start_count r.env r.event_id r.count_id r.user_id s).1
serve_inventory r complete_count_call s = (complete_count r.env r.event_id r.count_id r.user_id s).1
serve_inventory r cancel_count_call s = (cancel_count r.event_id r.count_id r.user_id s).1
serve_inventory r (add_count_item_call pid) s = (add_item r.event_id r.count_id pid r.user_id s).1
serve_inventory r (bulk_add_call dto) s = (bulk_add_items r.event_id r.count_id dto r.user_id s).1
serve_inventory r (count_item_call iid dto) s =
    (update_item r.env r.event_id r.count_id iid r.user_id dto s).1

unfoldable pub serve_counts : List InventoryRequest → Store → Store
unfolding serve_inventory
serve_counts [] s = s
serve_counts (r ∷ rs) s = serve_counts rs (serve_inventory r r.call s)

serve_inventory-CountInv :
    (r : InventoryRequest) (c : InventoryCall) (s : Store)
    → CountInv s
    → CountInv (serve_inventory r c s)
unfolding serve_inventory
serve_inventory-CountInv r (create_count_call dto) s v =
    create_count-CountInv r.event_id r.user_id dto s v
serve_inventory-CountInv r (update_count_call dto) s v =
    update_count-CountInv r.event_id r.count_id dto r.user_id s v
serve_inventory-CountInv r delete_count_call s v =
    delete_count-CountInv r.event_id r.count_id r.user_id s v
serve_inventory-CountInv r start_count_call s v =
    start_count-CountInv r.env r.event_id r.count_id r.user_id s v
serve_inventory-CountInv r complete_count_call s v =
    complete_count-CountInv r.env r.event_id r.count_id r.user_id s v
serve_inventory-CountInv r cancel_count_call s v =
    cancel_count-CountInv r.event_id r.count_id r.user_id s v
serve_inventory-CountInv r (add_count_item_call pid) s v =
    add_item-CountInv r.event_id r.count_id pid r.user_id s v
serve_inventory-CountInv r (bulk_add_call dto) s v =
    bulk_add_items-CountInv r.event_id r.count_id r.user_id dto s v
serve_inventory-CountInv r (count_item_call iid dto) s v =
    update_item-CountInv r.env r.event_id r.count_id iid r.user_id dto s v

-- After any sequence of requests to the inventory service, from a store whose counts are well formed
-- and whose products have different ids: every count is well formed. No product stands in a count
-- twice; an item is uncounted, or its difference is what was counted less what was expected; the items
-- of a draft are uncounted, a count in progress has items, and those of a completed count are counted.
pub serve_counts-CountInv :
    (requests : List InventoryRequest) (s : Store) → CountInv s → CountInv (serve_counts requests s)
unfolding serve_counts
serve_counts-CountInv [] s v = v
serve_counts-CountInv (r ∷ rs) s v =
    serve_counts-CountInv rs (serve_inventory r r.call s) (serve_inventory-CountInv r r.call s v)
