-- ===== src/Inventory/Complete.antt =====
-- completeCount of src/modules/inventory/inventory.service.ts: it returns, and the stock is what was
-- counted.
use openeos_api.Base.{
  ==_eq, ℕ, ◌≡◌, refl, sym, ap, subst, ◌∙◌, inl, inr, ℤ, pos, ◌+ℤ◌, ◌-ℤ◌, max_ℤ, eqb_ℤ, pos_part,
  neg_part, int_laws, arith, Bool, true, false, not, Option, some, some-injective, List, [], ◌∷◌,
  ◌==◌, find_first, get, put, get-put_self, All, Bool-cases,
}
use openeos_api.Entities.{Event, Product, InventoryCount, InventoryCountItem}
use openeos_api.Store.{Store, Env, Result, ok}
use openeos_api.Orders.Stock.{with_stock}
use openeos_api.Inventory.{
  get_event_and_check_permission, find_one_count, save_count, complete_count, holds, uncounted,
  completed, is_in_progress,
}
use openeos_api.Inventory.Reads.{find_one_count_internal-run}
use openeos_api.Inventory.Stock.{put_right, put_right_found, restocked, adjust_items-Adjusted}
use openeos_api.Inventory.Counts.{IsDistinct, IsCounted, IsWellFormed, IsCounted-All}

restocked-absent :
    (pid : ℕ) (is : List InventoryCountItem) (o : Option Product)
    → holds pid is ≡ false
    → restocked pid is o ≡ o
restocked-absent pid [] o h = refl
restocked-absent pid (i ∷ is) o h = elim (Bool-cases (i.product_id == pid)) [
  | inl y ↦ let dead = rw y at h in cc
  | inr n ↦ rw n (restocked-absent pid is o (rw n at h))
]

-- The item of a product is the only one that moves its stock.
restocked-found :
    (pid : ℕ) (is : List InventoryCountItem) (i : InventoryCountItem) (o : Option Product)
    → find_first (λ j. j.product_id == pid) is ≡ some i
    → IsDistinct is
    → restocked pid is o ≡ put_right_found i o
restocked-found pid [] i o h d = cc
restocked-found pid (j ∷ js) i o h d = elim (Bool-cases (j.product_id == pid)) [
  | inl y ↦
      let is_i = some-injective j i (rw y at h) in
      rw (y, is_i)
        (restocked-absent pid js (put_right_found i o) (rw (==_eq j.product_id pid y) at d.0))
  | inr n ↦ rw n (restocked-found pid js i o (rw n at h) d.1)
]

-- What `completeCount` leaves behind.
pub record Completed (env : Env) (cid uid : ℕ) (c : InventoryCount) (s : Store)
    (r : Result InventoryCount × Store) : Type 0 where
  pub returned : r.0 ≡ ok (completed env uid c)
  pub stored : get cid r.1.inventory_counts ≡ some (completed env uid c)
  pub stock : (pid : ℕ) → get pid r.1.products ≡ restocked pid c.items (get pid s.products)

-- completeCount by a caller who may manage the inventory, on a count of the event that is in progress
-- and whose items are all counted: it returns the count as completed, stores it, and makes the stock of
-- every product what its items put right, one after the other.
pub complete_count_lem :
    (env : Env) (eid cid uid : ℕ) (e : Event) (c : InventoryCount) (s : Store)
    → get_event_and_check_permission eid uid s ≡ (ok e, s)
    → get cid s.inventory_counts ≡ some c
    → c.event_id ≡ eid
    → is_in_progress c.status ≡ true
    → uncounted c.items ≡ false
    → Completed env cid uid c s (complete_count env eid cid uid s)
unfolding complete_count save_count find_one_count
complete_count_lem env eid cid uid e c s permitted found own running done =
    let begun = find_one_count_internal-run eid cid c s found own in
    let adjusted = adjust_items-Adjusted eid cid uid c.items s in
    let counts = put cid (completed env uid c) s.inventory_counts in
    let again =
      find_one_count_internal-run eid cid (completed env uid c)
        (record s {
          products = adjusted.products;
          movements = adjusted.movements;
          inventory_counts = counts;
        })
        (get-put_self cid (completed env uid c) s.inventory_counts) own in
    rw (permitted, begun, running, done, adjusted.run, again)
      (record {
        returned = refl;
        stored = get-put_self cid (completed env uid c) s.inventory_counts;
        stock = adjusted.stock;
      })

max_pos : (n : ℕ) → max_ℤ (pos 0) (pos n) ≡ pos n
unfolding max_ℤ
max_pos n = ground arith

back_to : (b : ℤ) (n : ℕ) → b +ℤ (pos n -ℤ b) ≡ pos n
back_to b n = omega int_laws

counted_up : (a b : ℤ) (n : ℕ) → b ≡ a → max_ℤ (pos 0) (a +ℤ (pos n -ℤ b)) ≡ pos n
counted_up a b n h = rw (h, back_to a n) (max_pos n)

eq_zero : (d : ℤ) → not (eqb_ℤ d (pos 0)) ≡ false → d ≡ pos 0
eq_zero d h = ground arith

same_as : (n : ℕ) (b : ℤ) → pos n -ℤ b ≡ pos 0 → b ≡ pos n
same_as n b h = omega (int_laws, ap pos_part h, ap neg_part h)

-- An item that expected what is in stock makes it what was counted.
put_right-counted :
    (i : InventoryCountItem) (p : Product) (n : ℕ)
    → i.expected_quantity ≡ p.stock_quantity
    → i.difference ≡ some (pos n -ℤ i.expected_quantity)
    → put_right i p ≡ with_stock p (pos n)
put_right-counted i p n expected difference =
    elim (Bool-cases (not (eqb_ℤ (pos n -ℤ i.expected_quantity) (pos 0)))) [
      | inl y ↦ rw (difference, y, counted_up p.stock_quantity i.expected_quantity n expected) refl
      | inr h ↦
          rw (difference, h)
            (ap (with_stock p) (
              sym expected
              ∙ same_as n i.expected_quantity (eq_zero (pos n -ℤ i.expected_quantity) h)))
    ]

all_at :
    (q : InventoryCountItem → Bool) (P : InventoryCountItem → Type 0) (is : List InventoryCountItem)
    (i : InventoryCountItem)
    → find_first q is ≡ some i
    → All P is
    → P i
all_at q P [] i h a = cc
all_at q P (j ∷ js) i h a = elim (Bool-cases (q j)) [
  | inl y ↦ subst P (some-injective j i (rw y at h)) a.0
  | inr n ↦ all_at q P js i (rw n at h) a.1
]

-- A completed count sets the stock to what was counted: for a well-formed count in progress of the
-- event whose items are all counted, completed by a caller who may manage the inventory, a product
-- whose item expected the quantity that is still in stock has the counted quantity in stock afterwards.
pub complete_count-stock :
    (env : Env) (eid cid uid pid n : ℕ) (e : Event) (c : InventoryCount) (i : InventoryCountItem)
    (p : Product) (s : Store)
    → get_event_and_check_permission eid uid s ≡ (ok e, s)
    → get cid s.inventory_counts ≡ some c
    → c.event_id ≡ eid
    → is_in_progress c.status ≡ true
    → uncounted c.items ≡ false
    → IsWellFormed c
    → find_first (λ j. j.product_id == pid) c.items ≡ some i
    → i.counted_quantity ≡ some n
    → get pid s.products ≡ some p
    → i.expected_quantity ≡ p.stock_quantity
    → ((complete_count env eid cid uid s).0 ≡ ok (completed env uid c))
      × (get pid (complete_count env eid cid uid s).1.products ≡ some (with_stock p (pos n)))
complete_count-stock env eid cid uid pid n e c i p s permitted found own running done w here
      is_counted in_stock expected =
    let result = complete_count_lem env eid cid uid e c s permitted found own running done in
    let (m, is_m, difference) =
      all_at _ IsCounted c.items i here (IsCounted-All c.items w.consistent done) in
    let same = some-injective m n (sym is_m ∙ is_counted) in
    (
      result.returned,
      result.stock pid
          ∙ restocked-found pid c.items i (get pid s.products) here w.distinct
          ∙ ap (put_right_found i) in_stock
          ∙ ap some (
              put_right-counted i p n expected
                (difference ∙ ap (λ k. some (pos k -ℤ i.expected_quantity)) same)),
    )
