-- ===== src/Inventory/Stock.antt =====
-- What completing a count of src/modules/inventory/inventory.service.ts makes of the stock.
use openeos_api.Base.{
  ==_eq, ℕ, ◌≡◌, refl, ap, ◌∙◌, inl, inr, pos, ◌+ℤ◌, max_ℤ, Bool, true, false, Option, none, some,
  List, [], ◌∷◌, ◌==◌, if◌then◌else◌, exists, get, put, get-put, get_or, Bool-cases, Option-cases,
}
use openeos_api.Entities.{Product, InventoryCountItem, StockMovement}
use openeos_api.Store.{Store, Result, ok, when}
use openeos_api.Orders.Stock.{save_product, create_stock_movement, with_stock}
use openeos_api.Inventory.{adjust_items, apply_stock_adjustment, adjust_found, differs, adjustment}

-- No two rows have the same key.
abbrev pub has_key : ℕ → List (ℕ × Product) → Bool
has_key k rows = exists (λ row. row.0 == k) rows

abbrev pub IsKeyed : List (ℕ × Product) → Type 0
IsKeyed [] = Unit
IsKeyed ((k, p) ∷ rows) = (has_key k rows ≡ false) × IsKeyed rows

has_key-put :
    (k j : ℕ) (p q : Product) (rows : List (ℕ × Product))
    → get j rows ≡ some q
    → has_key k (put j p rows) ≡ has_key k rows
unfolding get put
has_key-put k j p q [] h = cc
has_key-put k j p q ((i, r) ∷ rows) h = elim (Bool-cases (i == j)) [
  | inl y ↦ rw (y, ==_eq i j y) refl
  | inr n ↦ rw (n, has_key-put k j p q rows (rw n at h)) refl
]

put-IsKeyed :
    (j : ℕ) (p q : Product) (rows : List (ℕ × Product))
    → get j rows ≡ some q
    → IsKeyed rows
    → IsKeyed (put j p rows)
unfolding get put
put-IsKeyed j p q [] h k = cc
put-IsKeyed j p q ((i, r) ∷ rows) h k = elim (Bool-cases (i == j)) [
  | inl y ↦ rw (y, ← (==_eq i j y)) k
  | inr n ↦
      rw n (has_key-put i j p q rows (rw n at h) ∙ k.0, put-IsKeyed j p q rows (rw n at h) k.1)
]

-- The stock of a product after an item: what was counted too few or too many is put right, down to
-- zero at most.
abbrev pub put_right : InventoryCountItem → Product → Product
put_right i p =
    if differs i.difference
    then with_stock p (max_ℤ (pos 0) (p.stock_quantity +ℤ get_or i.difference (pos 0)))
    else p

abbrev pub put_right_found : InventoryCountItem → Option Product → Option Product
put_right_found i none = none
put_right_found i (some p) = some (put_right i p)

-- A product after the items of a count, each taken for itself.
abbrev pub restocked : ℕ → List InventoryCountItem → Option Product → Option Product
restocked pid [] o = o
restocked pid (i ∷ is) o = restocked pid is (if i.product_id == pid then put_right_found i o else o)

pub record Adjusted (items : List InventoryCountItem) (s : Store) (r : Result (Unit {0}) × Store)
    : Type 0 where
  pub products : List (ℕ × Product)
  pub movements : List StockMovement
  pub run : r ≡ (ok tt, record s { products = products; movements = movements })
  pub keyed : IsKeyed s.products → IsKeyed products
  pub stock : (pid : ℕ) → get pid products ≡ restocked pid items (get pid s.products)

idle :
    (i : InventoryCountItem) (o : Option Product)
    → differs i.difference ≡ false
    → o ≡ put_right_found i o
idle i none h = refl
idle i (some p) h = rw h refl

if_same : (b : Bool) (a o : Option Product) → o ≡ a → o ≡ (if b then a else o)
if_same true a o h = h
if_same false a o h = refl

-- An item that finds nothing to put right.
unchanged :
    (i : InventoryCountItem) (s : Store) (r : Result (Unit {0}) × Store)
    → r ≡ (ok tt, s)
    → ((pid : ℕ)
        → (i.product_id == pid) ≡ true
        → get pid s.products ≡ put_right_found i (get pid s.products))
    → Adjusted (i ∷ []) s r
unchanged i s r run same = record {
  products = s.products;
  movements = s.movements;
  run = run;
  keyed = λ k. k;
  stock = λ pid. elim (Bool-cases (i.product_id == pid)) [
    | inl y ↦ rw y (same pid y)
    | inr n ↦ rw n refl
  ];
}

-- The stock of a found product, and its movement.
changed :
    (eid cid uid : ℕ) (i : InventoryCountItem) (p : Product) (s : Store)
    → get i.product_id s.products ≡ some p
    → differs i.difference ≡ true
    → Adjusted
        (i ∷ [])
        s
        (adjust_found eid i.product_id (get_or i.difference (pos 0)) cid uid (some p) s)
unfolding save_product create_stock_movement
changed eid cid uid i p s found differ = record {
  products = put i.product_id q s.products;
  movements = adjustment eid i.product_id p (get_or i.difference (pos 0)) cid uid ∷ s.movements;
  run = refl;
  keyed = put-IsKeyed i.product_id q p s.products found;
  stock = λ pid. elim (Bool-cases (i.product_id == pid)) [
    | inl y ↦
        rw (get-put i.product_id pid q s.products, y, ← (==_eq i.product_id pid y), found, differ)
          refl
    | inr n ↦ rw (get-put i.product_id pid q s.products, n) refl
  ];
}
  where
    q : Product
    q = with_stock p (max_ℤ (pos 0) (p.stock_quantity +ℤ get_or i.difference (pos 0)))

one_item :
    (eid cid uid : ℕ) (i : InventoryCountItem) (s : Store)
    → Adjusted (i ∷ []) s (
        when
          (differs i.difference)
          (apply_stock_adjustment eid i.product_id (get_or i.difference (pos 0)) cid uid)
          s)
unfolding apply_stock_adjustment
one_item eid cid uid i s = elim (Bool-cases (differs i.difference)) [
  | inr n ↦ unchanged i s _ (rw n refl) λ pid _. idle i (get pid s.products) n
  | inl y ↦ elim (Option-cases (get i.product_id s.products)) [
    | inl none_there ↦
        unchanged i s _ (rw (y, none_there) refl)
          λ pid same. rw (← (==_eq i.product_id pid same), none_there) refl
    | inr (p, found) ↦ rw (y, found) (changed eid cid uid i p s found y)
  ]
]

-- All items of a count, one after the other.
pub adjust_items-Adjusted :
    (eid cid uid : ℕ) (items : List InventoryCountItem) (s : Store)
    → Adjusted items s (adjust_items eid cid uid items s)
unfolding adjust_items
adjust_items-Adjusted eid cid uid [] s = record {
  products = s.products;
  movements = s.movements;
  run = refl;
  keyed = λ k. k;
  stock = λ pid. refl;
}
adjust_items-Adjusted eid cid uid (i ∷ is) s =
    let first = one_item eid cid uid i s in
    let rest =
      adjust_items-Adjusted eid cid uid is
        (record s { products = first.products; movements = first.movements }) in
    record {
      products = rest.products;
      movements = rest.movements;
      run = rw first.run rest.run;
      keyed = λ k. rest.keyed (first.keyed k);
      stock = λ pid. rest.stock pid ∙ ap (restocked pid is) (first.stock pid);
    }
