-- ===== src/Access/Cases.antt =====
-- The two outcomes of the access checks; neither writes.
use openeos_api.Base.{ℕ, ◌≡◌, ◌⊎◌, inl, inr, true, none, some, Option-cases, Bool-cases}
use openeos_api.Entities.{User, UserOrganization}
use openeos_api.Store.{Store, M, ok, err, forbidden, forbidden_code, ◌>>◌}
use openeos_api.Store.Keeps.{Keeps}
use openeos_api.Access.{membership, check_membership, check_org_admin, is_admin, admin_only}

pub check_membership_cases :
    (org uid : ℕ) (s : Store)
    → ((membership org uid s ≡ none)
        × (check_membership org uid s ≡ (err (forbidden forbidden_code), s)))
      ⊎ ((m : UserOrganization) × (membership org uid s ≡ some m)
          × (check_membership org uid s ≡ (ok m, s)))
unfolding check_membership
check_membership_cases org uid s = elim (Option-cases (membership org uid s)) [
  | inl e ↦ inl (e, rw e)
  | inr (m, e) ↦ inr (m, e, rw e)
]

-- Who may force: a super admin, or a member of the organization in the role of an admin.
abbrev pub MayForce : ℕ → User → Store → Type 0
MayForce org user s =
    (user.is_super_admin ≡ true)
    ⊎ ((m : UserOrganization) × (membership org user.id s ≡ some m) × (is_admin m.role ≡ true))

pub check_org_admin_cases :
    (org : ℕ) (user : User) (s : Store)
    → (check_org_admin org user s ≡ (err (forbidden forbidden_code), s))
      ⊎ ((check_org_admin org user s ≡ (ok tt, s)) × MayForce org user s)
unfolding check_org_admin
check_org_admin_cases org user s = elim (Bool-cases user.is_super_admin) [
  | inl e ↦ inr (rw (e, check_org_admin), inl e)
  | inr e ↦ elim (Option-cases (membership org user.id s)) [
    | inl n ↦ inl (rw (e, check_org_admin, n))
    | inr (m, f) ↦ elim (Bool-cases (is_admin m.role)) [
      | inl a ↦ inr (rw (e, check_org_admin, f, a, admin_only), inr (m, f, a))
      | inr a ↦ inl (rw (e, check_org_admin, f, a, admin_only))
    ]
  ]
]

module _ (I : Store → Type 0) where
  pub Keeps-member {ℓ} :
      (org uid : ℕ) {A : Type ℓ} (k : M A) → Keeps I k → Keeps I (check_membership org uid >> k)
  Keeps-member org uid k h = record {
    run = λ s i. elim (check_membership_cases org uid s) [
      | inl (_, e) ↦ rw e i
      | inr (m, _, e) ↦ rw e (h.run s i)
    ];
  }

  pub Keeps-admin {ℓ} :
      (org : ℕ) (user : User) {A : Type ℓ} (k : M A)
      → Keeps I k
      → Keeps I (check_org_admin org user >> k)
  Keeps-admin org user k h = record {
    run = λ s i. elim (check_org_admin_cases org user s) [
      | inl e ↦ rw e i
      | inr (e, _) ↦ rw e (h.run s i)
    ];
  }
