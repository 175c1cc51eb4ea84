-- ===== src/Inventory.antt =====
-- src/modules/inventory/inventory.service.ts: counts, their items, and the stock adjustments of a
-- completed count. The items stand in the row of their count. Not modelled: the list queries.
pub mod Reads
pub mod Calls
pub mod Stock
pub mod Counts
pub mod Complete
mod Tests
use openeos_api.Base.{
  ℕ, zero, suc, ℤ, pos, ◌+ℤ◌, ◌-ℤ◌, max_ℤ, eqb_ℤ, Bool, true, false, not, ◌&&◌, Option, none, some,
  String, List, [], ◌∷◌, ◌++◌, ◌==◌, is_empty, is_some, exists, keep, find_first, map,
  if◌then◌else◌, get, put, get_or, drop_row,
}
use openeos_api.Entities.{
  Event, Product, InventoryCount, InventoryCountItem, InventoryCountStatus, StockMovement,
  OrganizationPermissions, inventory_count,
}
use openeos_api.Store.{
  Store, Env, M, pure, gets, modify, or_raise, raise_if, when, new_id, ◌>>=◌, ◌>>◌, bad_request,
  not_found, not_found_code, validation_error, inventory_in_progress, inventory_already_completed,
}
use openeos_api.Organizations.{check_permission}
use openeos_api.Orders.Stock.{save_product, with_stock, create_stock_movement}

pub record CreateInventoryCountDto : Type 0 where
  pub name : String
  pub notes : Option String

pub record UpdateInventoryCountDto : Type 0 where
  pub name : Option String
  pub notes : Option String

pub record BulkAddInventoryItemsDto : Type 0 where
  pub category_id : Option ℕ
  pub product_ids : List ℕ

pub record UpdateInventoryItemDto : Type 0 where
  pub counted_quantity : ℕ
  pub notes : Option String

unfoldable pub get_event_and_check_permission : ℕ → ℕ → M Event
get_event_and_check_permission eid uid = do
  found ← gets λ s. get eid s.events
  e ← or_raise found (not_found not_found_code)
  check_permission (λ p. p.inventory) e.organization_id uid
  pure e

abbrev pub count_in : ℕ → Option InventoryCount → Option InventoryCount
count_in eid none = none
count_in eid (some c) = if c.event_id == eid then some c else none

unfoldable pub find_one_count_internal : ℕ → ℕ → M InventoryCount
find_one_count_internal eid cid = do
  found ← gets λ s. count_in eid (get cid s.inventory_counts)
  or_raise found (not_found not_found_code)

-- What every call on a count begins with; it is `findOneCount` itself.
unfoldable pub find_one_count : ℕ → ℕ → ℕ → M InventoryCount
unfolding get_event_and_check_permission find_one_count_internal
find_one_count eid cid uid = do
  get_event_and_check_permission eid uid
  find_one_count_internal eid cid

abbrev pub is_draft : InventoryCountStatus → Bool
is_draft InventoryCountStatus.draft = true
is_draft _ = false

abbrev pub is_in_progress : InventoryCountStatus → Bool
is_in_progress InventoryCountStatus.in_progress = true
is_in_progress _ = false

abbrev pub is_completed : InventoryCountStatus → Bool
is_completed InventoryCountStatus.completed = true
is_completed _ = false

unfoldable pub save_count : ℕ → InventoryCount → M (Unit {0})
save_count cid c = modify λ s. record s { inventory_counts = put cid c s.inventory_counts }

abbrev pub runs_in : ℕ → ℕ × InventoryCount → Bool
runs_in eid row = row.1.event_id == eid && is_in_progress row.1.status

abbrev pub new_count : ℕ → ℕ → CreateInventoryCountDto → InventoryCount
new_count eid uid dto = record {
  event_id = eid;
  name = dto.name;
  status = InventoryCountStatus.draft;
  started_at = none;
  completed_at = none;
  notes = dto.notes;
  created_by_user_id = uid;
  completed_by_user_id = none;
  items = [];
}

unfoldable pub create_count : ℕ → ℕ → CreateInventoryCountDto → M InventoryCount
unfolding get_event_and_check_permission save_count
create_count eid uid dto = do
  get_event_and_check_permission eid uid
  running ← gets λ s. exists (runs_in eid) s.inventory_counts
  raise_if running (bad_request inventory_in_progress)
  cid ← new_id
  save_count cid (new_count eid uid dto)
  pure (new_count eid uid dto)

abbrev pub or_kept : Option String → Option String → Option String
or_kept none old = old
or_kept (some new) old = some new

-- `Object.assign(count, updateDto)`
abbrev pub assigned : UpdateInventoryCountDto → InventoryCount → InventoryCount
assigned dto c = record c { name = get_or dto.name c.name; notes = or_kept dto.notes c.notes }

unfoldable pub update_count : ℕ → ℕ → UpdateInventoryCountDto → ℕ → M InventoryCount
unfolding find_one_count save_count
update_count eid cid dto uid = do
  c ← find_one_count eid cid uid
  raise_if (is_completed c.status) (bad_request inventory_already_completed)
  save_count cid (assigned dto c)
  pure (assigned dto c)

unfoldable pub delete_count : ℕ → ℕ → ℕ → M (Unit {0})
unfolding find_one_count
delete_count eid cid uid = do
  c ← find_one_count eid cid uid
  raise_if (is_completed c.status) (bad_request inventory_already_completed)
  modify λ s. record s { inventory_counts = drop_row cid s.inventory_counts }

abbrev pub started : Env → InventoryCount → InventoryCount
started env c = record c { status = InventoryCountStatus.in_progress; started_at = some env.now }

unfoldable pub start_count : Env → ℕ → ℕ → ℕ → M InventoryCount
unfolding find_one_count save_count
start_count env eid cid uid = do
  c ← find_one_count eid cid uid
  raise_if (not (is_draft c.status)) (bad_request validation_error)
  raise_if (is_empty c.items) (bad_request validation_error)
  save_count cid (started env c)
  pure (started env c)

abbrev pub adjustment : ℕ → ℕ → Product → ℤ → ℕ → ℕ → StockMovement
adjustment eid pid p difference cid uid = record {
  product_id = pid;
  event_id = some eid;
  kind = inventory_count;
  quantity = difference;
  quantity_before = p.stock_quantity;
  quantity_after = max_ℤ (pos 0) (p.stock_quantity +ℤ difference);
  reference_id = cid;
  created_by_user_id = uid;
}

abbrev pub adjust_found : ℕ → ℕ → ℤ → ℕ → ℕ → Option Product → M (Unit {0})
adjust_found eid pid difference cid uid none = pure tt
adjust_found eid pid difference cid uid (some p) = do
  save_product pid (with_stock p (max_ℤ (pos 0) (p.stock_quantity +ℤ difference)))
  create_stock_movement (adjustment eid pid p difference cid uid)

unfoldable pub apply_stock_adjustment : ℕ → ℕ → ℤ → ℕ → ℕ → M (Unit {0})
apply_stock_adjustment eid pid difference cid uid =
    gets (λ s. get pid s.products) >>= adjust_found eid pid difference cid uid

-- `item.difference !== null && item.difference !== 0`
abbrev pub differs : Option ℤ → Bool
differs none = false
differs (some d) = not (eqb_ℤ d (pos 0))

unfoldable pub adjust_items : ℕ → ℕ → ℕ → List InventoryCountItem → M (Unit {0})
unfolding apply_stock_adjustment
adjust_items eid cid uid [] = pure tt
adjust_items eid cid uid (i ∷ is) = do
  when (differs i.difference)
      (apply_stock_adjustment eid i.product_id (get_or i.difference (pos 0)) cid uid)
  adjust_items eid cid uid is

abbrev pub uncounted : List InventoryCountItem → Bool
uncounted items = exists (λ i. not (is_some i.counted_quantity)) items

abbrev pub completed : Env → ℕ → InventoryCount → InventoryCount
completed env uid c = record c {
  status = InventoryCountStatus.completed;
  completed_at = some env.now;
  completed_by_user_id = some uid;
}

unfoldable pub complete_count : Env → ℕ → ℕ → ℕ → M InventoryCount
unfolding find_one_count save_count adjust_items
complete_count env eid cid uid = do
  c ← find_one_count eid cid uid
  raise_if (not (is_in_progress c.status)) (bad_request validation_error)
  raise_if (uncounted c.items) (bad_request validation_error)
  adjust_items eid cid uid c.items
  save_count cid (completed env uid c)
  find_one_count_internal eid cid

abbrev pub cancelled : InventoryCount → InventoryCount
cancelled c = record c { status = InventoryCountStatus.cancelled }

unfoldable pub cancel_count : ℕ → ℕ → ℕ → M InventoryCount
unfolding find_one_count save_count
cancel_count eid cid uid = do
  c ← find_one_count eid cid uid
  raise_if (is_completed c.status) (bad_request inventory_already_completed)
  save_count cid (cancelled c)
  pure (cancelled c)

abbrev pub new_item : ℕ → ℕ → Product → InventoryCountItem
new_item iid pid p = record {
  id = iid;
  product_id = pid;
  expected_quantity = p.stock_quantity;
  counted_quantity = none;
  difference = none;
  notes = none;
  counted_by_user_id = none;
  counted_at = none;
}

abbrev pub with_items : InventoryCount → List InventoryCountItem → InventoryCount
with_items c items = record c { items = items }

abbrev pub product_in : ℕ → Option Product → Option Product
product_in eid none = none
product_in eid (some p) = if p.event_id == eid then some p else none

abbrev pub holds : ℕ → List InventoryCountItem → Bool
holds pid items = exists (λ i. i.product_id == pid) items

unfoldable pub add_item : ℕ → ℕ → ℕ → ℕ → M InventoryCountItem
unfolding find_one_count save_count
add_item eid cid pid uid = do
  c ← find_one_count eid cid uid
  raise_if (not (is_draft c.status)) (bad_request validation_error)
  found ← gets λ s. product_in eid (get pid s.products)
  p ← or_raise found (not_found not_found_code)
  raise_if (holds pid c.items) (bad_request validation_error)
  iid ← new_id
  save_count cid (with_items c (c.items ++ new_item iid pid p ∷ []))
  pure (new_item iid pid p)

-- The products that a bulk call asks for: those of a category, those named, or all that are tracked.
abbrev pub asks_for : Option ℕ → List ℕ → ℕ → Product → Bool
asks_for (some category) ids pid p = (p.category_id == category) && p.track_inventory
asks_for none [] pid p = p.track_inventory
asks_for none (i ∷ is) pid p = exists (λ j. j == pid) (i ∷ is)

-- Those among them that belong to the event and are not in the count yet.
abbrev pub to_add :
    ℕ → BulkAddInventoryItemsDto → List InventoryCountItem → List (ℕ × Product) → List (ℕ × Product)
to_add eid dto items products =
    keep
      (λ row.
        (row.1.event_id == eid)
        && asks_for dto.category_id dto.product_ids row.0 row.1
        && not (holds row.0 items))
      products

unfoldable pub add_products : ℕ → InventoryCount → List (ℕ × Product) → M (List InventoryCountItem)
unfolding save_count
add_products cid c [] = pure []
add_products cid c ((pid, p) ∷ rest) = do
  iid ← new_id
  save_count cid (with_items c (c.items ++ new_item iid pid p ∷ []))
  added ← add_products cid (with_items c (c.items ++ new_item iid pid p ∷ [])) rest
  pure (new_item iid pid p ∷ added)

unfoldable pub bulk_add_items : ℕ → ℕ → BulkAddInventoryItemsDto → ℕ → M (List InventoryCountItem)
unfolding find_one_count add_products
bulk_add_items eid cid dto uid = do
  c ← find_one_count eid cid uid
  raise_if (not (is_draft c.status)) (bad_request validation_error)
  products ← gets λ s. to_add eid dto c.items s.products
  add_products cid c products

-- `dto.notes || item.notes`
abbrev pub or_item_notes : Option String → Option String → Option String
or_item_notes none old = old
or_item_notes (some String.[]) old = old
or_item_notes (some (String.◌∷◌ c s)) old = some (String.◌∷◌ c s)

abbrev pub counted : Env → ℕ → UpdateInventoryItemDto → InventoryCountItem → InventoryCountItem
counted env uid dto i = record i {
  counted_quantity = some dto.counted_quantity;
  difference = some (pos dto.counted_quantity -ℤ i.expected_quantity);
  notes = or_item_notes dto.notes i.notes;
  counted_by_user_id = some uid;
  counted_at = some env.now;
}

-- The items after the save of one.
unfoldable pub save_item : InventoryCountItem → List InventoryCountItem → List InventoryCountItem
save_item i [] = []
save_item i (j ∷ js) = if j.id == i.id then i ∷ js else j ∷ save_item i js

unfoldable pub update_item : Env → ℕ → ℕ → ℕ → ℕ → UpdateInventoryItemDto → M InventoryCountItem
unfolding find_one_count save_count save_item
update_item env eid cid iid uid dto = do
  c ← find_one_count eid cid uid
  raise_if (not (is_in_progress c.status)) (bad_request validation_error)
  i ← or_raise (find_first (λ j. j.id == iid) c.items) (not_found not_found_code)
  save_count cid (with_items c (save_item (counted env uid dto i) c.items))
  pure (counted env uid dto i)
