-- ===== src/Inventory/Counts/Keeps.antt =====
-- Every method of src/modules/inventory/inventory.service.ts keeps the counts well formed.
use openeos_api.Base.{
  ℕ, ◌≡◌, refl, sym, ◌∙◌, inl, inr, Bool, true, false, not, some, List, [], ◌∷◌, ◌++◌, ◌==◌,
  is_empty, exists, find_first, get, put, get-put_cases, get-drop_row,
}
use openeos_api.Entities.{Product, InventoryCount, InventoryCountItem, InventoryCountStatus}
use openeos_api.Store.{Store, Env, Result}
use openeos_api.Store.Reads.{after_reads, after_guard, after_some}
use openeos_api.Inventory.Stock.{IsKeyed}
use openeos_api.Inventory.{
  CreateInventoryCountDto, UpdateInventoryCountDto, UpdateInventoryItemDto,
  get_event_and_check_permission, save_count, create_count, update_count, delete_count, start_count,
  cancel_count, add_item, update_item, holds, new_count, assigned, started, cancelled, new_item,
  with_items, product_in, counted, save_item, is_draft, is_in_progress, is_completed, runs_in,
}
use openeos_api.Inventory.Reads.{Reads-get_event, after_find_count}
use openeos_api.Inventory.Counts.{
  IsUncounted, IsConsistent, IsWellFormed, All-append, append-IsDistinct, save_item-All,
  save_item-IsDistinct, is_empty-save_item, found_item,
}

pub record CountRows (counts : List (ℕ × InventoryCount)) (products : List (ℕ × Product))
    : Type 0 where
  pub well_formed : (cid : ℕ) (c : InventoryCount) → get cid counts ≡ some c → IsWellFormed c
  pub keyed : IsKeyed products

abbrev pub CountInv : Store → Type 0
CountInv s = CountRows s.inventory_counts s.products

abbrev pub After {ℓ} : {A : Type ℓ} → Result A × Store → Type 0
After r = CountInv r.1

pub saved :
    (cid : ℕ) (c : InventoryCount) (counts : List (ℕ × InventoryCount))
    (products : List (ℕ × Product))
    → CountRows counts products
    → IsWellFormed c
    → CountRows (put cid c counts) products
saved cid c counts products v w = record {
  well_formed = λ k d h. elim (get-put_cases cid k c d counts h) [
    | inl (_, _, new) ↦ rw new w
    | inr (_, old) ↦ v.well_formed k d old
  ];
  keyed = v.keyed;
}

pub create_count-CountInv :
    (eid uid : ℕ) (dto : CreateInventoryCountDto) (s : Store)
    → CountInv s
    → CountInv (create_count eid uid dto s).1
unfolding create_count save_count
create_count-CountInv eid uid dto s v =
    after_reads After (get_event_and_check_permission eid uid) _ s (λ x. v)
      (Reads-get_event eid uid s)
      λ _ _. after_guard After (exists (runs_in eid) s.inventory_counts) _ _ s v λ _.
        saved s.next_id (new_count eid uid dto) s.inventory_counts s.products v (record {
          consistent = tt;
          distinct = tt;
          draft_uncounted = λ _. tt;
          in_progress_items = λ h. sym h;
          completed_counted = λ h. tt;
        })

pub update_count-CountInv :
    (eid cid : ℕ) (dto : UpdateInventoryCountDto) (uid : ℕ) (s : Store)
    → CountInv s
    → CountInv (update_count eid cid dto uid s).1
unfolding update_count save_count
update_count-CountInv eid cid dto uid s v =
    after_find_count After eid cid _ s (λ x. v)
      (λ c found _. after_guard After (is_completed c.status) _ _ s v λ _.
        saved cid (assigned dto c) s.inventory_counts s.products v (
          let w = v.well_formed cid c found in
          record {
            consistent = w.consistent;
            distinct = w.distinct;
            draft_uncounted = w.draft_uncounted;
            in_progress_items = w.in_progress_items;
            completed_counted = w.completed_counted;
          }))
      uid

pub delete_count-CountInv :
    (eid cid uid : ℕ) (s : Store) → CountInv s → CountInv (delete_count eid cid uid s).1
unfolding delete_count
delete_count-CountInv eid cid uid s v =
    after_find_count After eid cid _ s (λ x. v)
      (λ c found _. after_guard After (is_completed c.status) _ _ s v λ _. record {
        well_formed = λ k d h. v.well_formed k d (get-drop_row cid k s.inventory_counts d h);
        keyed = v.keyed;
      })
      uid

pub start_count-CountInv :
    (env : Env) (eid cid uid : ℕ) (s : Store)
    → CountInv s
    → CountInv (start_count env eid cid uid s).1
unfolding start_count save_count
start_count-CountInv env eid cid uid s v =
    after_find_count After eid cid _ s (λ x. v)
      (λ c found _. after_guard After (not (is_draft c.status)) _ _ s v λ _.
        after_guard After (is_empty c.items) _ _ s v λ some_items.
          saved cid (started env c) s.inventory_counts s.products v (
            let w = v.well_formed cid c found in
            record {
              consistent = w.consistent;
              distinct = w.distinct;
              draft_uncounted = λ h. cc;
              in_progress_items = λ _. some_items;
              completed_counted = λ h. cc;
            }))
      uid

pub cancel_count-CountInv :
    (eid cid uid : ℕ) (s : Store) → CountInv s → CountInv (cancel_count eid cid uid s).1
unfolding cancel_count save_count
cancel_count-CountInv eid cid uid s v =
    after_find_count After eid cid _ s (λ x. v)
      (λ c found _. after_guard After (is_completed c.status) _ _ s v λ _.
        saved cid (cancelled c) s.inventory_counts s.products v (
          let w = v.well_formed cid c found in
          record {
            consistent = w.consistent;
            distinct = w.distinct;
            draft_uncounted = λ h. cc;
            in_progress_items = λ h. cc;
            completed_counted = λ h. cc;
          }))
      uid

pub is_true : (b : Bool) → not b ≡ false → b ≡ true
is_true true h = refl
is_true false h = sym h

draft_is :
    (status : InventoryCountStatus) → is_draft status ≡ true → status ≡ InventoryCountStatus.draft
draft_is InventoryCountStatus.draft h = refl
draft_is InventoryCountStatus.in_progress h = cc
draft_is InventoryCountStatus.completed h = cc
draft_is InventoryCountStatus.cancelled h = cc

-- One more uncounted item in a draft, for a product that it does not hold.
pub appended :
    (c : InventoryCount) (i : InventoryCountItem)
    → IsWellFormed c
    → is_draft c.status ≡ true
    → IsUncounted i
    → holds i.product_id c.items ≡ false
    → IsWellFormed (with_items c (c.items ++ i ∷ []))
appended c i w draft fresh apart = record {
  consistent = All-append IsConsistent c.items i w.consistent (inl fresh);
  distinct = append-IsDistinct c.items i w.distinct apart;
  draft_uncounted = λ h. All-append IsUncounted c.items i (w.draft_uncounted h) fresh;
  in_progress_items = λ h. let dead = rw (draft_is c.status draft) at h in cc;
  completed_counted = λ h. let dead = rw (draft_is c.status draft) at h in cc;
}

pub add_item-CountInv :
    (eid cid pid uid : ℕ) (s : Store) → CountInv s → CountInv (add_item eid cid pid uid s).1
unfolding add_item save_count
add_item-CountInv eid cid pid uid s v =
    after_find_count After eid cid _ s (λ x. v)
      (λ c found _. after_guard After (not (is_draft c.status)) _ _ s v λ draft.
        after_some After (product_in eid (get pid s.products)) _ _ s v λ p _.
          after_guard After (holds pid c.items) _ _ s v λ apart.
            saved cid (with_items c (c.items ++ new_item s.next_id pid p ∷ [])) s.inventory_counts
              s.products v
              (appended c (new_item s.next_id pid p) (v.well_formed cid c found)
                (is_true (is_draft c.status) draft) (refl, refl) apart))
      uid

in_progress_is :
    (status : InventoryCountStatus)
    → is_in_progress status ≡ true
    → status ≡ InventoryCountStatus.in_progress
in_progress_is InventoryCountStatus.in_progress h = refl
in_progress_is InventoryCountStatus.draft h = cc
in_progress_is InventoryCountStatus.completed h = cc
in_progress_is InventoryCountStatus.cancelled h = cc

-- A count in progress with one of its items counted.
recounted :
    (env : Env) (iid uid : ℕ) (dto : UpdateInventoryItemDto) (c : InventoryCount)
    (i : InventoryCountItem)
    → IsWellFormed c
    → c.status ≡ InventoryCountStatus.in_progress
    → find_first (λ j. j.id == iid) c.items ≡ some i
    → IsWellFormed (with_items c (save_item (counted env uid dto i) c.items))
recounted env iid uid dto c i w running here =
    let same_id = (found_item iid i IsConsistent c.items here w.consistent).0 in
    let x = counted env uid dto i in
    record {
      consistent =
          save_item-All iid i x same_id refl IsConsistent c.items
            (inr (dto.counted_quantity, refl, refl)) w.consistent;
      distinct = save_item-IsDistinct iid i x same_id refl c.items here w.distinct;
      draft_uncounted = λ h. let dead = rw running at h in cc;
      in_progress_items =
          λ h. is_empty-save_item iid i x same_id refl c.items ∙ w.in_progress_items h;
      completed_counted = λ h. let dead = rw running at h in cc;
    }

pub update_item-CountInv :
    (env : Env) (eid cid iid uid : ℕ) (dto : UpdateInventoryItemDto) (s : Store)
    → CountInv s
    → CountInv (update_item env eid cid iid uid dto s).1
unfolding update_item save_count
update_item-CountInv env eid cid iid uid dto s v =
    after_find_count After eid cid _ s (λ x. v)
      (λ c found _. after_guard After (not (is_in_progress c.status)) _ _ s v λ running.
        after_some After (find_first (λ j. j.id == iid) c.items) _ _ s v λ i here.
          saved cid (with_items c (save_item (counted env uid dto i) c.items)) s.inventory_counts
            s.products v
            (recounted env iid uid dto c i (v.well_formed cid c found)
              (in_progress_is c.status (is_true (is_in_progress c.status) running)) here))
      uid
