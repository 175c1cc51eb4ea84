-- ===== src/Orders/Guards.antt =====
-- Who may call the methods of OrdersService, and what completeOrder does on every branch.
pub mod Force
mod Tests
use openeos_api.Base.{
  ℕ, ◌≡◌, refl, Bool, true, false, not, ◌||◌, Option, none, some, String, if◌then◌else◌, Bool-cases,
  inl, inr, ◌∷◌,
}
use openeos_api.Entities.{
  Order, OrderStatus, User, UserOrganization, OrderAuditLog, force_update_status_action,
  status_only,
}
use openeos_api.Store.{
  Store, Env, M, Result, ok, err, ◌>>=◌, ◌>>◌, forbidden, forbidden_code, bad_request,
  validation_error, not_found, not_found_code,
}
use openeos_api.Access.{membership, check_membership, check_org_admin, admin_only}
use openeos_api.Orders.Rows.{
  find_one, organization_order, stored_order, with_order, save_order, is_live,
}
use openeos_api.Orders.Rows.Laws.{
  organization_order-with_order, organization_order-stored, stored_order-live,
}
use openeos_api.Orders.Status.{
  complete_order, force_update_status, with_completion, is_completed, is_cancelled_order, is_paid,
  save_audit, mark_item_ready, mark_item_delivered, call_order,
}
use openeos_api.Orders.Items.{add_item, update_item, remove_item}
use openeos_api.Orders.Create.{create, update, remove}
use openeos_api.Orders.Cancel.{cancel_order, force_cancel_order}
use openeos_api.Orders.Calls.{OrderCall, perform}
use openeos_api.Orders.Calls.OrderCall.{
  create_call, update_call, remove_call, add_item_call, update_item_call, remove_item_call,
  ready_call, delivered_call, device_ready_call, complete_call, cancel_call, force_cancel_call,
  force_status_call,
}

pub refused :
    (org uid : ℕ) (s : Store)
    → membership org uid s ≡ none
    → check_membership org uid s ≡ (err (forbidden forbidden_code), s)
unfolding check_membership
refused org uid s e = rw e

pub refused_admin :
    (org : ℕ) (user : User) (s : Store)
    → membership org user.id s ≡ none
    → user.is_super_admin ≡ false
    → check_org_admin org user s ≡ (err (forbidden forbidden_code), s)
unfolding check_org_admin admin_only
refused_admin org user s e f = rw (f, e)

-- Is this the call that a device makes, whose organization the device guard has checked?
abbrev pub by_device : OrderCall → Bool
by_device (device_ready_call iid) = true
by_device _ = false

writing-outsider :
    (env : Env) (org : ℕ) (user : User) (c : OrderCall) (s : Store)
    → membership org user.id s ≡ none
    → user.is_super_admin ≡ false
    → by_device c ≡ false
    → perform env org user c s ≡ (err (forbidden forbidden_code), s)
unfolding perform create update remove add_item update_item remove_item mark_item_ready
    mark_item_delivered complete_order cancel_order force_cancel_order force_update_status
writing-outsider env org user (create_call dto) s e f d = rw (refused org user.id s e)
writing-outsider env org user (update_call oid dto) s e f d = rw (refused org user.id s e)
writing-outsider env org user (remove_call oid) s e f d = rw (refused org user.id s e)
writing-outsider env org user (add_item_call oid dto) s e f d = rw (refused org user.id s e)
writing-outsider env org user (update_item_call oid iid dto) s e f d = rw (refused org user.id s e)
writing-outsider env org user (remove_item_call oid iid) s e f d = rw (refused org user.id s e)
writing-outsider env org user (ready_call oid iid) s e f d = rw (refused org user.id s e)
writing-outsider env org user (delivered_call oid iid) s e f d = rw (refused org user.id s e)
writing-outsider env org user (device_ready_call iid) s e f d = cc
writing-outsider env org user (complete_call oid) s e f d = rw (refused org user.id s e)
writing-outsider env org user (cancel_call oid reason) s e f d = rw (refused org user.id s e)
writing-outsider env org user (force_cancel_call oid reason) s e f d =
    rw (refused_admin org user s e f)
writing-outsider env org user (force_status_call oid status reason) s e f d =
    rw (refused_admin org user s e f)

-- A user who is neither a member of the organization nor a super admin is refused by every writing call
-- that is not a device's, by findOne and by callOrder, and nothing is written.
pub perform-outsider :
    (env : Env) (org : ℕ) (user : User) (c : OrderCall) (s : Store)
    → membership org user.id s ≡ none
    → user.is_super_admin ≡ false
    → by_device c ≡ false
    → (oid : ℕ)
    → (perform env org user c s ≡ (err (forbidden forbidden_code), s))
      × (find_one org oid user s ≡ (err (forbidden forbidden_code), s))
      × (call_order org oid user s ≡ (err (forbidden forbidden_code), s))
unfolding find_one call_order
perform-outsider env org user c s e f d oid = (
  writing-outsider env org user c s e f d,
  rw (refused org user.id s e),
  rw (refused org user.id s e),
)

-- A member reads an order of the organization.
pub find_one_found :
    (org oid : ℕ) (user : User) (s : Store) {m : UserOrganization} {o : Order}
    → membership org user.id s ≡ some m
    → organization_order org oid s ≡ some o
    → find_one org oid user s ≡ (ok o, s)
unfolding find_one check_membership
find_one_found org oid user s e f = rw (e, f)

pub passed :
    (org uid : ℕ) (s : Store) {m : UserOrganization}
    → membership org uid s ≡ some m
    → check_membership org uid s ≡ (ok m, s)
unfolding check_membership
passed org uid s e = rw e

-- Reading back what was just saved.
pub find_one_saved :
    (org oid : ℕ) (user : User) (s : Store) (o : Order) {m : UserOrganization}
    → membership org user.id s ≡ some m
    → is_live o ≡ true
    → o.organization_id ≡ org
    → find_one org oid user (with_order oid o s) ≡ (ok o, with_order oid o s)
find_one_saved org oid user s o e l g =
    find_one_found org oid user (with_order oid o s) e
      (organization_order-with_order org oid o s l g)

abbrev pub may_complete : Order → Bool
may_complete o =
    not (is_completed o.status || is_cancelled_order o.status || not (is_paid o.payment_status))

-- A member completes an order of the organization exactly if it is paid, not completed and not
-- cancelled: then the order alone changes, to COMPLETED with the time of completion, and is returned.
-- Otherwise the call is refused and nothing is written.
pub complete_order_lem :
    (env : Env) (org oid : ℕ) (user : User) (s : Store) (m : UserOrganization) (o : Order)
    → membership org user.id s ≡ some m
    → organization_order org oid s ≡ some o
    → complete_order env org oid user s ≡ (
        if may_complete o
        then (ok (with_completion env o), with_order oid (with_completion env o) s)
        else (err (bad_request validation_error), s))
unfolding complete_order save_order
complete_order_lem env org oid user s m o e f =
    let (found, mine) = organization_order-stored org oid s f in
    let saved =
      find_one_saved org oid user s (with_completion env o) e (stored_order-live oid s found).1
        mine in
    elim (Bool-cases (is_completed o.status)) [
      | inl a ↦ rw (passed org user.id s e, find_one_found org oid user s e f, a)
      | inr a ↦ elim (Bool-cases (is_cancelled_order o.status)) [
        | inl b ↦ rw (passed org user.id s e, find_one_found org oid user s e f, a, b)
        | inr b ↦ elim (Bool-cases (is_paid o.payment_status)) [
          | inl c ↦ rw (passed org user.id s e, find_one_found org oid user s e f, a, b, c, saved)
          | inr c ↦ rw (passed org user.id s e, find_one_found org oid user s e f, a, b, c)
        ]
      ]
    ]
