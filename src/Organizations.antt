-- ===== src/Organizations.antt =====
-- checkMembership, checkRole and checkPermission of src/modules/organizations/organizations.service.ts,
-- where a super admin passes as an admin, and checkPermission and checkAdmin of
-- src/modules/events/events.service.ts, which know no super admin. What they return is not used.
pub mod Reads
use openeos_api.Base.{ℕ, Bool, true, false, not, ◌||◌, Option, none, some}
use openeos_api.Entities.{User, UserOrganization, OrganizationRole, OrganizationPermissions, admin}
use openeos_api.Store.{
  Store, M, pure, raise, gets, raise_if, ◌>>=◌, ◌>>◌, forbidden, forbidden_code,
}
use openeos_api.Access.{membership, check_membership, is_admin, check_org_admin, admin_only}

-- `membership.role !== ADMIN && !membership.permissions?.[permission]`
abbrev pub may : (OrganizationPermissions → Bool) → UserOrganization → Bool
may permission m = is_admin m.role || permission m.permissions

unfoldable pub check_permission : (OrganizationPermissions → Bool) → ℕ → ℕ → M (Unit {0})
check_permission permission org uid = do
  m ← check_membership org uid
  raise_if (not (may permission m)) (forbidden forbidden_code)

unfoldable pub check_admin : ℕ → ℕ → M (Unit {0})
check_admin org uid = do
  m ← check_membership org uid
  raise_if (not (is_admin m.role)) (forbidden forbidden_code)

-- The three checks of OrganizationsService; `checkRole` is only called for the role of an admin.
abbrev pub unless_super : Bool → M (Unit {0}) → M (Unit {0})
unless_super true m = pure tt
unless_super false m = m

unfoldable pub check_role_admin : ℕ → User → M (Unit {0})
unfolding check_admin
check_role_admin org user = unless_super user.is_super_admin (check_admin org user.id)

unfoldable pub check_org_permission : (OrganizationPermissions → Bool) → ℕ → User → M (Unit {0})
unfolding check_permission
check_org_permission permission org user =
    unless_super user.is_super_admin (check_permission permission org user.id)
