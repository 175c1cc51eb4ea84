-- ===== src/Orders/Create/Limits/Tests.antt =====
-- The sample event, in test with one order of two.
use openeos_api.Base.{◌≡◌, refl, some, get}
use openeos_api.Entities.{Event}
use openeos_api.Samples.{signing, unpaid_store}
use openeos_api.Policies.{assert_test_event_order_limit_not_reached}
use openeos_api.Orders.Create.{check_event, event_in, orders_of_event}
use openeos_api.Orders.Create.Limits.{Takes, check_event-Takes}

check_event-Takes_example :
    (unpaid_store ≡ unpaid_store)
    × (e : Event) × (event_in 1 (get 3 unpaid_store.events) ≡ some e)
    × Takes signing.test_event_max_orders (orders_of_event 3 unpaid_store) 1 e.status
unfolding check_event get assert_test_event_order_limit_not_reached
check_event-Takes_example = check_event-Takes signing 1 3 unpaid_store unpaid_store refl
