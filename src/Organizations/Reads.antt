-- ===== src/Organizations/Reads.antt =====
-- The checks of src/modules/organizations/organizations.service.ts and
-- src/modules/events/events.service.ts only read.
use openeos_api.Base.{ℕ, Bool, true, false, not, refl}
use openeos_api.Entities.{User, OrganizationPermissions}
use openeos_api.Store.{Store, M}
use openeos_api.Store.Reads.{Reads, returns, Reads-bind, Reads-or_raise, Reads-raise_if}
use openeos_api.Access.{membership, check_membership, is_admin}
use openeos_api.Organizations.{
  may, check_permission, check_admin, check_role_admin, check_org_permission, unless_super,
}

pub Reads-check_membership : (org uid : ℕ) (s : Store) → Reads (check_membership org uid s) s
unfolding check_membership
Reads-check_membership org uid s = Reads-or_raise (membership org uid s) _ s

pub Reads-check_permission :
    (p : OrganizationPermissions → Bool) (org uid : ℕ) (s : Store)
    → Reads (check_permission p org uid s) s
unfolding check_permission
Reads-check_permission p org uid s =
    Reads-bind (check_membership org uid) _ s (Reads-check_membership org uid s)
      λ m _. Reads-raise_if (not (may p m)) _ s

pub Reads-check_admin : (org uid : ℕ) (s : Store) → Reads (check_admin org uid s) s
unfolding check_admin
Reads-check_admin org uid s =
    Reads-bind (check_membership org uid) _ s (Reads-check_membership org uid s)
      λ m _. Reads-raise_if (not (is_admin m.role)) _ s

Reads-unless_super :
    (b : Bool) (m : M (Unit {0})) (s : Store) → Reads (m s) s → Reads (unless_super b m s) s
Reads-unless_super true m s h = returns tt refl
Reads-unless_super false m s h = h

pub Reads-check_role_admin :
    (org : ℕ) (user : User) (s : Store) → Reads (check_role_admin org user s) s
unfolding check_role_admin
Reads-check_role_admin org user s =
    Reads-unless_super user.is_super_admin _ s (Reads-check_admin org user.id s)

pub Reads-check_org_permission :
    (p : OrganizationPermissions → Bool) (org : ℕ) (user : User) (s : Store)
    → Reads (check_org_permission p org user s) s
unfolding check_org_permission
Reads-check_org_permission p org user s =
    Reads-unless_super user.is_super_admin _ s (Reads-check_permission p org user.id s)
