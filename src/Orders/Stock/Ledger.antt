-- ===== src/Orders/Stock/Ledger.antt =====
-- The stock of every product is what it was at the opening plus its movements, and the stock of a
-- tracked product is not negative. Here: the steps that write stock.
use openeos_api.Base.{
  ℕ, ◌≡◌, refl, ℤ, pos, ◌+ℤ◌, ◌≤ℤ◌, int_laws, true, Option, none, some, List, [], ◌∷◌, ◌==◌,
  if◌then◌else◌, get, get-put_cases, Option-cases, inl, inr, arith, ap,
}
use openeos_api.Entities.{Product, Order, OrderItem, StockMovement, StockMovementType}
use openeos_api.Store.{Store}
use openeos_api.Orders.Rows.{stored_order}
use openeos_api.Orders.Stock.{with_stock, change_stock, tracked, restore_stock_for_item}

-- The sum of the movements of a product.
abbrev pub moved : ℕ → List StockMovement → ℤ
moved pid [] = pos 0
moved pid (m ∷ ms) = (if m.product_id == pid then m.quantity else pos 0) +ℤ moved pid ms

-- Each movement leads from the stock before it to the stock after it.
abbrev pub IsBalanced : List StockMovement → Type 0
IsBalanced [] = Unit
IsBalanced (m ∷ ms) = (m.quantity_after ≡ m.quantity_before +ℤ m.quantity) × IsBalanced ms

pub record StockRows (opening : ℕ → ℤ) (products : List (ℕ × Product))
    (movements : List StockMovement) : Type 0 where
  pub ledger :
      (pid : ℕ) (p : Product)
      → get pid products ≡ some p
      → p.stock_quantity ≡ opening pid +ℤ moved pid movements
  pub in_stock :
      (pid : ℕ) (p : Product)
      → get pid products ≡ some p
      → p.track_inventory ≡ true
      → pos 0 ≤ℤ p.stock_quantity
  pub balanced : IsBalanced movements

abbrev pub StockInv : (ℕ → ℤ) → Store → Type 0
StockInv opening s = StockRows opening s.products s.movements

pub tracked-eq :
    (found : Option Product) {p : Product}
    → tracked found ≡ some p
    → (found ≡ some p) × (p.track_inventory ≡ true)
unfolding tracked
tracked-eq none h = cc
tracked-eq (some q) h = ground arith

shifted : (a b c : ℤ) → a +ℤ b +ℤ c ≡ a +ℤ (c +ℤ b)
shifted a b c = omega int_laws

unmoved : (a : ℤ) → a ≡ pos 0 +ℤ a
unmoved a = omega int_laws

module _ (opening : ℕ → ℤ) where
  shifted_at :
      (pid k : ℕ) (ms : List StockMovement) (c : ℤ)
      → k ≡ pid
      → opening pid +ℤ moved pid ms +ℤ c ≡ opening k +ℤ (c +ℤ moved k ms)
  shifted_at pid k ms c e = rw e (shifted (opening pid) (moved pid ms) c)

  -- A change of the stock of a stored product, down to zero at most, with its movement.
  pub change_stock-StockInv :
      (pid : ℕ) (p : Product) (event_id : Option ℕ) (oid : ℕ) (change : ℤ)
      (kind : StockMovementType) (user_id : ℕ) (s : Store)
      → get pid s.products ≡ some p
      → pos 0 ≤ℤ p.stock_quantity +ℤ change
      → StockInv opening s
      → StockInv opening (change_stock pid p event_id oid change kind user_id s).1
  unfolding change_stock
  change_stock-StockInv pid p event_id oid change kind user_id s found enough v = record {
    ledger = λ k q e.
        elim (get-put_cases pid k (with_stock p (p.stock_quantity +ℤ change)) q s.products e) [
          | inl (hit, same, new) ↦
              rw (hit, new, v.ledger pid p found) (shifted_at pid k s.movements change same)
          | inr (miss, old) ↦ rw (miss, v.ledger k q old) (ap (◌+ℤ◌ (opening k)) (unmoved _))
        ];
    in_stock = λ k q e t.
        elim (get-put_cases pid k (with_stock p (p.stock_quantity +ℤ change)) q s.products e) [
          | inl (hit, same, new) ↦ rw new enough
          | inr (miss, old) ↦ v.in_stock k q old t
        ];
    balanced = (refl, v.balanced);
  }

  given_back : (a : ℤ) (n : ℕ) → pos 0 ≤ℤ a → pos 0 ≤ℤ a +ℤ pos n
  given_back a n h = omega int_laws

  -- Giving an item back keeps the ledger, if its order is stored.
  pub restore_stock_for_item-StockInv :
      (oid : ℕ) (item : OrderItem) (user_id : ℕ) (s : Store) {o : Order}
      → stored_order oid s ≡ some o
      → StockInv opening s
      → StockInv opening (restore_stock_for_item oid item user_id s).1
  unfolding restore_stock_for_item
  restore_stock_for_item-StockInv oid item user_id s {o} h v =
      elim (Option-cases (tracked (get item.product_id s.products))) [
        | inl e ↦ rw e v
        | inr (p, e) ↦
            let (found, on) = tracked-eq _ e in
            rw (e, h)
              (change_stock-StockInv item.product_id p o.event_id oid (pos item.quantity) _ user_id
                s found (given_back p.stock_quantity item.quantity (v.in_stock _ p found on)) v)
      ]
