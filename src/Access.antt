-- ===== src/Access.antt =====
-- checkMembership and checkOrgAdmin of src/modules/orders/orders.service.ts. The same two methods stand
-- in src/modules/payments/payments.service.ts.
pub mod Cases
use openeos_api.Base.{
  ℕ, ◌≡◌, refl, Bool, true, false, ◌&&◌, Option, none, some, List, [], ◌∷◌, ◌==◌, find_first, arith,
}
use openeos_api.Entities.{User, UserOrganization, OrganizationRole, admin, member}
use openeos_api.Store.{
  Store, M, pure, raise, gets, or_raise, ◌>>=◌, ◌>>◌, forbidden, forbidden_code,
}

-- `userOrganizationRepository.findOne({ where: { organizationId, userId } })`
abbrev pub membership : ℕ → ℕ → Store → Option UserOrganization
membership org uid s = find_first (λ m. m.organization_id == org && m.user_id == uid) s.members

unfoldable pub check_membership : ℕ → ℕ → M UserOrganization
check_membership org uid = do
  found ← gets (membership org uid)
  or_raise found (forbidden forbidden_code)

abbrev pub is_admin : OrganizationRole → Bool
is_admin admin = true
is_admin member = false

unfoldable pub admin_only : Option UserOrganization → M (Unit {0})
admin_only none = raise (forbidden forbidden_code)
admin_only (some m) = elim (is_admin m.role) [
  | true ↦ pure tt
  | false ↦ raise (forbidden forbidden_code)
]

unfoldable pub check_org_admin : ℕ → User → M (Unit {0})
unfolding admin_only
check_org_admin org user = elim user.is_super_admin [
  | true ↦ pure tt
  | false ↦ gets (membership org user.id) >>= admin_only
]
