-- ===== src/Inventory/Counts.antt =====
-- When a count of src/modules/inventory/inventory.service.ts is well formed, and that its items stay so.
pub mod Keeps
pub mod Ending
use openeos_api.Base.{
  ==_eq, ℕ, ◌≡◌, refl, sym, ap, subst, ◌∙◌, ◌⊎◌, inl, inr, ℤ, pos, ◌-ℤ◌, arith, Bool, true, false,
  not, ◌||◌, Option, none, some, some-injective, List, [], ◌∷◌, ◌++◌, ◌==◌, if◌then◌else◌, is_empty,
  is_some, exists, find_first, All, get, Bool-cases,
}
use openeos_api.Entities.{Product, InventoryCount, InventoryCountItem, InventoryCountStatus}
use openeos_api.Store.{Store}
use openeos_api.Inventory.{
  holds, uncounted, save_item, new_item, is_draft, is_in_progress, is_completed,
}

abbrev pub IsUncounted : InventoryCountItem → Type 0
IsUncounted i = (i.counted_quantity ≡ none) × (i.difference ≡ none)

-- The difference of a counted item is what was counted less what was expected.
abbrev pub IsCounted : InventoryCountItem → Type 0
IsCounted i =
    (n : ℕ) × (i.counted_quantity ≡ some n) × (i.difference ≡ some (pos n -ℤ i.expected_quantity))

abbrev pub IsConsistent : InventoryCountItem → Type 0
IsConsistent i = IsUncounted i ⊎ IsCounted i

-- No product is counted twice.
abbrev pub IsDistinct : List InventoryCountItem → Type 0
IsDistinct [] = Unit
IsDistinct (i ∷ is) = (holds i.product_id is ≡ false) × IsDistinct is

pub record IsWellFormed (c : InventoryCount) : Type 0 where
  pub consistent : All IsConsistent c.items
  pub distinct : IsDistinct c.items
  pub draft_uncounted : is_draft c.status ≡ true → All IsUncounted c.items
  pub in_progress_items : is_in_progress c.status ≡ true → is_empty c.items ≡ false
  pub completed_counted : is_completed c.status ≡ true → All IsCounted c.items

pub All-append :
    (P : InventoryCountItem → Type 0) (is : List InventoryCountItem) (i : InventoryCountItem)
    → All P is
    → P i
    → All P (is ++ i ∷ [])
All-append P [] i h p = (p, tt)
All-append P (j ∷ js) i h p = (h.0, All-append P js i h.1 p)

pub holds-append :
    (pid : ℕ) (is : List InventoryCountItem) (i : InventoryCountItem)
    → holds pid (is ++ i ∷ []) ≡ (holds pid is || (i.product_id == pid))
holds-append pid [] i = ground arith
holds-append pid (j ∷ js) i = ground (arith, holds-append pid js i)

pub append-IsDistinct :
    (is : List InventoryCountItem) (i : InventoryCountItem)
    → IsDistinct is
    → holds i.product_id is ≡ false
    → IsDistinct (is ++ i ∷ [])
append-IsDistinct [] i h apart = (refl, tt)
append-IsDistinct (j ∷ js) i h apart = (
  ground (arith, holds-append j.product_id js i, h.0, apart),
  append-IsDistinct js i h.1 (ground (arith, apart)),
)

-- The save of an item that takes the place of a found one.
module _ (iid : ℕ) (i x : InventoryCountItem) (same_id : x.id ≡ iid)
    (same_product : x.product_id ≡ i.product_id) where
  pub save_item-All :
      (P : InventoryCountItem → Type 0) (is : List InventoryCountItem)
      → P x
      → All P is
      → All P (save_item x is)
  unfolding save_item
  save_item-All P [] p h = tt
  save_item-All P (j ∷ js) p h = elim (Bool-cases (j.id == x.id)) [
    | inl y ↦ rw y (p, h.1)
    | inr n ↦ rw n (h.0, save_item-All P js p h.1)
  ]

  holds-save_item :
      (pid : ℕ) (is : List InventoryCountItem)
      → find_first (λ j. j.id == iid) is ≡ some i
      → holds pid (save_item x is) ≡ holds pid is
  unfolding save_item
  holds-save_item pid [] h = refl
  holds-save_item pid (j ∷ js) h = elim (Bool-cases (j.id == iid)) [
    | inl y ↦
        let is_i = ap (λ k. k.product_id) (some-injective j i (rw y at h)) in
        rw (same_id, y, same_product, is_i) refl
    | inr n ↦ rw (same_id, n, holds-save_item pid js (rw n at h)) refl
  ]

  pub save_item-IsDistinct :
      (is : List InventoryCountItem)
      → find_first (λ j. j.id == iid) is ≡ some i
      → IsDistinct is
      → IsDistinct (save_item x is)
  unfolding save_item
  save_item-IsDistinct [] h d = tt
  save_item-IsDistinct (j ∷ js) h d = elim (Bool-cases (j.id == iid)) [
    | inl y ↦
        let is_i = ap (λ k. k.product_id) (some-injective j i (rw y at h)) in
        rw (same_id, y) (rw (same_product, ← is_i) d.0, d.1)
    | inr n ↦
        rw (same_id, n)
          (
            holds-save_item j.product_id js (rw n at h) ∙ d.0,
            save_item-IsDistinct js (rw n at h) d.1,
          )
  ]

  pub is_empty-save_item : (is : List InventoryCountItem) → is_empty (save_item x is) ≡ is_empty is
  unfolding save_item
  is_empty-save_item [] = refl
  is_empty-save_item (j ∷ js) = ground arith

pub found_item :
    (iid : ℕ) (i : InventoryCountItem) (P : InventoryCountItem → Type 0)
    (is : List InventoryCountItem)
    → find_first (λ j. j.id == iid) is ≡ some i
    → All P is
    → (i.id ≡ iid) × P i
found_item iid i P [] h a = cc
found_item iid i P (j ∷ js) h a = elim (Bool-cases (j.id == iid)) [
  | inl y ↦
      let one = some-injective j i (rw y at h) in
      (sym (ap (λ k. k.id) one) ∙ ==_eq j.id iid y, subst P one a.0)
  | inr n ↦ found_item iid i P js (rw n at h) a.1
]

-- Where nothing is left to count, every item is counted.
pub IsCounted-All :
    (is : List InventoryCountItem) → All IsConsistent is → uncounted is ≡ false → All IsCounted is
IsCounted-All [] a h = tt
IsCounted-All (i ∷ is) (inl u, a) h = let dead = rw u.0 at h in cc
IsCounted-All (i ∷ is) (inr c, a) h = (c, IsCounted-All is a (rw c.1 at h))

pub All-IsConsistent : (is : List InventoryCountItem) → All IsUncounted is → All IsConsistent is
All-IsConsistent [] a = tt
All-IsConsistent (i ∷ is) a = (inl a.0, All-IsConsistent is a.1)
