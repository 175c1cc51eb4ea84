-- ===== src/Orders/Guards/Force/Tests.antt =====
-- The forced methods at the sample orders.
use openeos_api.Base.{get, ◌≡◌, refl, true}
use openeos_api.Entities.{OrderStatus, User}
use openeos_api.Store.{ok, err, forbidden, forbidden_code}
use openeos_api.Samples.{signing, user_of, paid_store, paid_order, head_of}
use openeos_api.Access.{check_org_admin}
use openeos_api.Orders.Rows.{organization_order}
use openeos_api.Orders.Status.{force_update_status}
use openeos_api.Orders.Cancel.{force_cancel_order}
use openeos_api.Orders.Guards.Force.{
  force_update_status_lem, force_cancel_order-non_member, forced, forced_store, status_entry,
}

abbrev super_admin : User
super_admin = record { id = 4; is_super_admin = true }

force_update_status_lem_example :
    force_update_status 1 7 OrderStatus.completed "till" (user_of 9) paid_store ≡ (
      ok (forced OrderStatus.completed paid_order),
      forced_store 7
          (forced OrderStatus.completed paid_order)
          (status_entry 1 7 paid_order OrderStatus.completed "till" (user_of 9))
          paid_store,
    )
unfolding organization_order get
force_update_status_lem_example =
    force_update_status_lem 1 7 OrderStatus.completed "till" (user_of 9) paid_store head_of
      paid_order refl refl refl

force_cancel_order-non_member_example :
    (check_org_admin 1 super_admin paid_store ≡ (ok tt, paid_store))
    × (force_cancel_order signing 1 7 "till" super_admin paid_store
        ≡ (err (forbidden forbidden_code), paid_store))
force_cancel_order-non_member_example =
    force_cancel_order-non_member signing 1 7 "till" super_admin paid_store refl refl
