-- ===== src/Orders/Guards/Tests.antt =====
-- The guards at the sample orders.
use openeos_api.Base.{get, ◌≡◌, refl}
use openeos_api.Store.{ok, err, forbidden, forbidden_code}
use openeos_api.Samples.{signing, user_of, unpaid_store, paid_store, two_more, paid_order, head_of}
use openeos_api.Orders.Rows.{organization_order, with_order, find_one}
use openeos_api.Orders.Status.{complete_order, with_completion, call_order}
use openeos_api.Orders.Calls.{OrderCall, perform}
use openeos_api.Orders.Guards.{perform-outsider, complete_order_lem}

perform-outsider_example :
    (perform signing 1 (user_of 4) (OrderCall.add_item_call 7 two_more) unpaid_store
      ≡ (err (forbidden forbidden_code), unpaid_store))
    × (find_one 1 7 (user_of 4) unpaid_store ≡ (err (forbidden forbidden_code), unpaid_store))
    × (call_order 1 7 (user_of 4) unpaid_store ≡ (err (forbidden forbidden_code), unpaid_store))
perform-outsider_example =
    perform-outsider signing 1 (user_of 4) (OrderCall.add_item_call 7 two_more) unpaid_store refl
      refl refl 7

complete_order_lem_example : complete_order signing 1 7 (user_of 9) paid_store ≡ (
  ok (with_completion signing paid_order),
  with_order 7 (with_completion signing paid_order) paid_store,
)
unfolding organization_order get
complete_order_lem_example =
    complete_order_lem signing 1 7 (user_of 9) paid_store head_of paid_order refl refl
