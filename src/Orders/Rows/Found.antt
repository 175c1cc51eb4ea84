-- ===== src/Orders/Rows/Found.antt =====
-- The two outcomes of findOne; it writes nothing.
use openeos_api.Base.{ℕ, ◌≡◌, ◌⊎◌, inl, inr, some, Option-cases}
use openeos_api.Entities.{Order, User}
use openeos_api.Store.{
  Store, M, ok, err, Exception, ◌>>=◌, not_found, not_found_code, forbidden, forbidden_code,
}
use openeos_api.Store.Keeps.{Keeps}
use openeos_api.Access.Cases.{check_membership_cases}
use openeos_api.Orders.Rows.{stored_order, organization_order, find_one, reload_order}
use openeos_api.Orders.Rows.Laws.{organization_order-stored}

pub find_one_cases :
    (org oid : ℕ) (user : User) (s : Store)
    → ((e : Exception) × (find_one org oid user s ≡ (err e, s)))
      ⊎ ((o : Order) × (find_one org oid user s ≡ (ok o, s))
          × (stored_order oid s ≡ some o)
          × (o.organization_id ≡ org))
unfolding find_one
find_one_cases org oid user s = elim (check_membership_cases org user.id s) [
  | inl (_, e) ↦ inl (forbidden forbidden_code, rw e)
  | inr (m, _, e) ↦ elim (Option-cases (organization_order org oid s)) [
    | inl n ↦ inl (not_found not_found_code, rw (e, n))
    | inr (o, f) ↦
        let (found, mine) = organization_order-stored org oid s f in inr (o, rw (e, f), found, mine)
  ]
]

module _ (I : Store → Type 0) where
  -- What follows a read may assume that the order is the stored one.
  pub Keeps-found {ℓ} :
      (org oid : ℕ) (user : User) {A : Type ℓ} (k : Order → M A)
      → ((o : Order) (s : Store) → stored_order oid s ≡ some o → I s → I (k o s).1)
      → Keeps I (find_one org oid user >>= k)
  Keeps-found org oid user k h = record {
    run = λ s i. elim (find_one_cases org oid user s) [
      | inl (x, e) ↦ rw e i
      | inr (o, e, found, _) ↦ rw e (h o s found i)
    ];
  }

  pub Keeps-find_one : (org oid : ℕ) (user : User) → Keeps I (find_one org oid user)
  Keeps-find_one org oid user = record {
    run = λ s i. elim (find_one_cases org oid user s) [
      | inl (x, e) ↦ rw e i
      | inr (o, e, _, _) ↦ rw e i
    ];
  }

  pub Keeps-reload : (org oid : ℕ) → Keeps I (reload_order org oid)
  unfolding reload_order
  Keeps-reload org oid = record {
    run = λ s i. elim (Option-cases (organization_order org oid s)) [
      | inl n ↦ rw n i
      | inr (o, f) ↦ rw f i
    ];
  }
