-- ===== src/Inventory/Reads.antt =====
-- The lookups of src/modules/inventory/inventory.service.ts only read.
use openeos_api.Base.{
  ==_eq, ℕ, ◌≡◌, inl, inr, arith, refl, true, Option, none, some, ◌==◌, get, Bool-cases,
  some-injective, ap, sym, ◌∙◌,
}
use openeos_api.Entities.{InventoryCount}
use openeos_api.Store.{
  Store, M, Result, ok, err, Exception, or_raise, ◌>>=◌, not_found, not_found_code,
}
use openeos_api.Store.Reads.{Reads, raises, returns, Reads-bind, Reads-or_raise, after_some}
use openeos_api.Organizations.{check_permission}
use openeos_api.Organizations.Reads.{Reads-check_permission}
use openeos_api.Inventory.{
  get_event_and_check_permission, find_one_count_internal, find_one_count, count_in,
}

pub Reads-get_event : (eid uid : ℕ) (s : Store) → Reads (get_event_and_check_permission eid uid s) s
unfolding get_event_and_check_permission
Reads-get_event eid uid s =
    Reads-bind (or_raise (get eid s.events) (not_found not_found_code)) _ s
      (Reads-or_raise (get eid s.events) _ s)
      λ e _.
        Reads-bind (check_permission (λ p. p.inventory) e.organization_id uid) _ s
          (Reads-check_permission (λ p. p.inventory) e.organization_id uid s) λ _ _. returns e refl

pub count_in-some :
    (eid : ℕ) (o : Option InventoryCount) (c : InventoryCount)
    → count_in eid o ≡ some c
    → (o ≡ some c) × (c.event_id ≡ eid)
count_in-some eid none c h = cc
count_in-some eid (some d) c h = elim (Bool-cases (d.event_id == eid)) [
  | inl y ↦
      let same = rw y at h in
      (same, sym (ap (λ x. x.event_id) (some-injective d c same)) ∙ ==_eq d.event_id eid y)
  | inr n ↦ let nothing = rw n at h in cc
]

module _ {ℓ ν} {B : Type ℓ} (P : Result B × Store → Type ν) (eid cid : ℕ) (f : InventoryCount → M B)
    (s : Store) (bad : (x : Exception) → P (err x, s))
    (good : (c : InventoryCount)
      → get cid s.inventory_counts ≡ some c
      → c.event_id ≡ eid
      → P (f c s)) where
  pub after_find_count : (uid : ℕ) → P ((find_one_count eid cid uid >>= f) s)
  unfolding find_one_count find_one_count_internal
  after_find_count uid = elim (Reads-get_event eid uid s) [
    | raises x e ↦ rw e (bad x)
    | returns _ e ↦ rw e (
        after_some P (count_in eid (get cid s.inventory_counts)) _ f s (bad _)
          λ c h. let row = count_in-some eid (get cid s.inventory_counts) c h in good c row.0 row.1)
  ]

-- A stored count of the event is found again.
pub find_one_count_internal-run :
    (eid cid : ℕ) (c : InventoryCount) (s : Store)
    → get cid s.inventory_counts ≡ some c
    → c.event_id ≡ eid
    → find_one_count_internal eid cid s ≡ (ok c, s)
unfolding find_one_count_internal
find_one_count_internal-run eid cid c s found own = rw found (inside c (ground (arith, own)))
  where
    inside :
        (d : InventoryCount)
        → (d.event_id == eid) ≡ true
        → (or_raise (count_in eid (some d)) (not_found not_found_code)) s ≡ (ok d, s)
    inside d y = rw y refl
