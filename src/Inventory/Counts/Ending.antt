-- ===== src/Inventory/Counts/Ending.antt =====
-- bulkAddItems and completeCount of src/modules/inventory/inventory.service.ts keep the counts well
-- formed.
use openeos_api.Base.{
  ℕ, suc, ◌≡◌, refl, inl, inr, arith, Bool, true, false, not, ◌&&◌, List, [], ◌∷◌, ◌++◌, ◌==◌, keep,
  All, put, get-put_self, Bool-cases,
}
use openeos_api.Entities.{Product, InventoryCount, InventoryCountItem}
use openeos_api.Store.{Store, Env, Result, ok, err, and_then, pure}
use openeos_api.Store.Reads.{after_guard}
use openeos_api.Inventory.{
  BulkAddInventoryItemsDto, save_count, complete_count, bulk_add_items, add_products, to_add,
  asks_for, holds, uncounted, completed, new_item, with_items, is_draft, is_in_progress,
}
use openeos_api.Inventory.Reads.{after_find_count, find_one_count_internal-run}
use openeos_api.Inventory.Stock.{IsKeyed, has_key, adjust_items-Adjusted}
use openeos_api.Inventory.Counts.{IsWellFormed, IsCounted-All, holds-append}
use openeos_api.Inventory.Counts.Keeps.{CountInv, After, saved, appended, is_true}

-- The product of a row is not in the count yet.
abbrev IsNew : InventoryCount → ℕ × Product → Type 0
IsNew c row = holds row.0 c.items ≡ false

stay-IsNew :
    (c : InventoryCount) (pid : ℕ) (i : InventoryCountItem) (rows : List (ℕ × Product))
    → i.product_id ≡ pid
    → has_key pid rows ≡ false
    → All (IsNew c) rows
    → All (IsNew (with_items c (c.items ++ i ∷ []))) rows
stay-IsNew c pid i [] same apart h = tt
stay-IsNew c pid i ((k, p) ∷ rows) same apart h = (
  ground (arith, holds-append k c.items i, h.0, same, apart),
  stay-IsNew c pid i rows same (ground (arith, apart)) h.1,
)

then_pure :
    {A B : Type 0} (r : Result A × Store) (f : A → B)
    → CountInv r.1
    → CountInv (and_then r λ a. pure (f a)).1
then_pure (ok a, t) f v = v
then_pure (err x, t) f v = v

add_products-CountInv :
    (cid : ℕ) (c : InventoryCount) (rows : List (ℕ × Product)) (s : Store)
    → CountInv s
    → IsWellFormed c
    → is_draft c.status ≡ true
    → IsKeyed rows
    → All (IsNew c) rows
    → CountInv (add_products cid c rows s).1
unfolding add_products save_count
add_products-CountInv cid c [] s v w draft keyed new = v
add_products-CountInv cid c ((pid, p) ∷ rest) s v w draft keyed new =
    let i = new_item s.next_id pid p in
    let d = with_items c (c.items ++ i ∷ []) in
    let grown = appended c i w draft (refl, refl) new.0 in
    then_pure _ _ (
      add_products-CountInv cid d rest
        (record s { next_id = suc s.next_id; inventory_counts = put cid d s.inventory_counts })
        (saved cid d s.inventory_counts s.products v grown) grown draft keyed.1
        (stay-IsNew c pid i rest refl keyed.0 new.1))

has_key-keep :
    (k : ℕ) (p : ℕ × Product → Bool) (rows : List (ℕ × Product))
    → has_key k rows ≡ false
    → has_key k (keep p rows) ≡ false
has_key-keep k p [] h = refl
has_key-keep k p (row ∷ rows) h = elim (Bool-cases (p row)) [
  | inl y ↦ rw y (ground (arith, h, has_key-keep k p rows (ground (arith, h))))
  | inr n ↦ rw n (has_key-keep k p rows (ground (arith, h)))
]

keep-IsKeyed :
    (p : ℕ × Product → Bool) (rows : List (ℕ × Product)) → IsKeyed rows → IsKeyed (keep p rows)
keep-IsKeyed p [] h = tt
keep-IsKeyed p ((k, q) ∷ rows) h = elim (Bool-cases (p (k, q))) [
  | inl y ↦ rw y (has_key-keep k p rows h.0, keep-IsKeyed p rows h.1)
  | inr n ↦ rw n (keep-IsKeyed p rows h.1)
]

last_test : (a b c : Bool) → (a && b && not c) ≡ true → c ≡ false
last_test a b c h = ground arith

to_add-IsNew :
    (eid : ℕ) (dto : BulkAddInventoryItemsDto) (c : InventoryCount) (rows : List (ℕ × Product))
    → All (IsNew c) (to_add eid dto c.items rows)
to_add-IsNew eid dto c [] = tt
to_add-IsNew eid dto c (row ∷ rows) =
    elim (Bool-cases (
      (row.1.event_id == eid)
      && asks_for dto.category_id dto.product_ids row.0 row.1
      && not (holds row.0 c.items))) [
        | inl y ↦ rw y (
          last_test (row.1.event_id == eid) (asks_for dto.category_id dto.product_ids row.0 row.1)
              (holds row.0 c.items) y,
          to_add-IsNew eid dto c rows,
        )
        | inr n ↦ rw n (to_add-IsNew eid dto c rows)
      ]

pub bulk_add_items-CountInv :
    (eid cid uid : ℕ) (dto : BulkAddInventoryItemsDto) (s : Store)
    → CountInv s
    → CountInv (bulk_add_items eid cid dto uid s).1
unfolding bulk_add_items
bulk_add_items-CountInv eid cid uid dto s v =
    after_find_count After eid cid _ s (λ x. v)
      (λ c found _. after_guard After (not (is_draft c.status)) _ _ s v λ draft.
        add_products-CountInv cid c (to_add eid dto c.items s.products) s v
          (v.well_formed cid c found) (is_true (is_draft c.status) draft)
          (keep-IsKeyed _ s.products v.keyed) (to_add-IsNew eid dto c s.products))
      uid

-- A count in progress that is counted and completed.
completed-IsWellFormed :
    (env : Env) (uid : ℕ) (c : InventoryCount)
    → IsWellFormed c
    → uncounted c.items ≡ false
    → IsWellFormed (completed env uid c)
completed-IsWellFormed env uid c w done = record {
  consistent = w.consistent;
  distinct = w.distinct;
  draft_uncounted = λ h. cc;
  in_progress_items = λ h. cc;
  completed_counted = λ _. IsCounted-All c.items w.consistent done;
}

pub complete_count-CountInv :
    (env : Env) (eid cid uid : ℕ) (s : Store)
    → CountInv s
    → CountInv (complete_count env eid cid uid s).1
unfolding complete_count save_count
complete_count-CountInv env eid cid uid s v =
    after_find_count After eid cid _ s (λ x. v)
      (λ c found own. after_guard After (not (is_in_progress c.status)) _ _ s v λ running.
        after_guard After (uncounted c.items) _ _ s v λ done.
          let adjusted = adjust_items-Adjusted eid cid uid c.items s in
          let counts = put cid (completed env uid c) s.inventory_counts in
          let found_again =
            find_one_count_internal-run eid cid (completed env uid c)
              (record s {
                products = adjusted.products;
                movements = adjusted.movements;
                inventory_counts = counts;
              })
              (get-put_self cid (completed env uid c) s.inventory_counts) own in
          rw (adjusted.run, found_again)
            (saved cid (completed env uid c) s.inventory_counts adjusted.products
              (record { well_formed = v.well_formed; keyed = adjusted.keyed v.keyed })
              (completed-IsWellFormed env uid c (v.well_formed cid c found) done)))
      uid
