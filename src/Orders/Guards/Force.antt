-- ===== src/Orders/Guards/Force.antt =====
-- The methods of src/modules/orders/orders.service.ts that override the checks of the others.
mod Tests
use openeos_api.Base.{
  ℕ, ◌≡◌, refl, Bool, true, false, not, ◌||◌, Option, none, some, String, if◌then◌else◌, Bool-cases,
  inl, inr, ◌∷◌, arith,
}
use openeos_api.Entities.{
  Order, OrderStatus, User, UserOrganization, OrderAuditLog, force_update_status_action,
  status_only,
}
use openeos_api.Store.{
  Store, Env, M, ok, err, ◌>>=◌, ◌>>◌, forbidden, forbidden_code, bad_request, validation_error,
}
use openeos_api.Access.{membership, check_org_admin, is_admin, admin_only}
use openeos_api.Orders.Rows.{find_one, organization_order, with_order, save_order, is_live}
use openeos_api.Orders.Rows.Laws.{organization_order-stored, stored_order-live}
use openeos_api.Orders.Status.{force_update_status, is_cancelled_order, save_audit}
use openeos_api.Orders.Cancel.{force_cancel_order}
use openeos_api.Orders.Guards.{refused, find_one_found, find_one_saved}

abbrev pub forced : OrderStatus → Order → Order
forced status o = record o { status = status }

abbrev pub status_entry : ℕ → ℕ → Order → OrderStatus → String → User → OrderAuditLog
status_entry org oid o status reason user = record {
  organization_id = org;
  order_id = oid;
  actor_user_id = user.id;
  action = force_update_status_action;
  reason = reason;
  before = status_only o.status;
  after = some (status_only status);
  failure = none;
}

-- The order in its new status, with the entry of the audit trail.
abbrev pub forced_store : ℕ → Order → OrderAuditLog → Store → Store
forced_store oid o entry s = record (with_order oid o s) { audit = entry ∷ s.audit }

second : (a b : Bool) → (a || b) ≡ true → a ≡ false → b ≡ true
second a b h e = ground arith

pub passed_admin :
    (org : ℕ) (user : User) (s : Store) (m : UserOrganization)
    → membership org user.id s ≡ some m
    → (user.is_super_admin || is_admin m.role) ≡ true
    → check_org_admin org user s ≡ (ok tt, s)
unfolding check_org_admin admin_only
passed_admin org user s m e h = elim (Bool-cases user.is_super_admin) [
  | inl a ↦ rw a
  | inr a ↦ rw (a, check_org_admin, e, second _ _ h a, admin_only)
]

-- An admin of the organization, or a member who is a super admin, forces a status exactly if neither
-- the new status nor the old one is CANCELLED: then the order alone changes, to the new status, and
-- one entry with the old and the new status goes into the audit trail. Otherwise the call is refused
-- and nothing is written, in the audit trail neither.
pub force_update_status_lem :
    (org oid : ℕ) (status : OrderStatus) (reason : String) (user : User) (s : Store)
    (m : UserOrganization) (o : Order)
    → membership org user.id s ≡ some m
    → (user.is_super_admin || is_admin m.role) ≡ true
    → organization_order org oid s ≡ some o
    → force_update_status org oid status reason user s ≡ (
        if is_cancelled_order status || is_cancelled_order o.status
        then (err (bad_request validation_error), s)
        else (
          ok (forced status o),
          forced_store oid (forced status o) (status_entry org oid o status reason user) s,
        ))
unfolding force_update_status save_order save_audit
force_update_status_lem org oid status reason user s m o e h f =
    let (found, mine) = organization_order-stored org oid s f in
    let entry = status_entry org oid o status reason user in
    let saved =
      find_one_saved org oid user (record s { audit = entry ∷ s.audit }) (forced status o) e
        (stored_order-live oid s found).1 mine in
    elim (Bool-cases (is_cancelled_order status)) [
      | inl a ↦ rw (passed_admin org user s m e h, a)
      | inr a ↦ elim (Bool-cases (is_cancelled_order o.status)) [
        | inl b ↦ rw (passed_admin org user s m e h, a, find_one_found org oid user s e f, b)
        | inr b ↦ rw (passed_admin org user s m e h, a, find_one_found org oid user s e f, b, saved)
      ]
    ]

-- A super admin who is not a member of the organization passes the role check of `forceCancelOrder`,
-- and is refused by the read of the order that follows it; nothing is written.
pub force_cancel_order-non_member :
    (env : Env) (org oid : ℕ) (reason : String) (user : User) (s : Store)
    → membership org user.id s ≡ none
    → user.is_super_admin ≡ true
    → (check_org_admin org user s ≡ (ok tt, s))
      × (force_cancel_order env org oid reason user s ≡ (err (forbidden forbidden_code), s))
unfolding force_cancel_order check_org_admin find_one
force_cancel_order-non_member env org oid reason user s e f =
    (rw f, rw (f, refused org user.id s e))
