-- ===== src/Policies.antt =====
-- src/common/utils/pfand-policy.ts and src/common/utils/test-event-order-limit.util.ts.
use openeos_api.Base.{ℕ, Bool, true, false, Option, none, some, leb, get_or}
use openeos_api.Entities.{
  OrderFulfillmentType, table_service, counter_pickup, PfandPolicy, EventStatus, test,
}
use openeos_api.Store.{M, pure, raise_if, forbidden, test_limit_reached}

abbrev pub flag : (PfandPolicy → Option Bool) → Option PfandPolicy → Option Bool
flag f none = none
flag f (some p) = f p

unfoldable pub is_pfand_charged_for_fulfillment : OrderFulfillmentType → Option PfandPolicy → Bool
is_pfand_charged_for_fulfillment table_service pfand =
    get_or (flag (λ p. p.table_service) pfand) false
is_pfand_charged_for_fulfillment counter_pickup pfand =
    get_or (flag (λ p. p.counter_pickup) pfand) true

unfoldable pub assert_test_event_order_limit_not_reached : EventStatus → ℕ → ℕ → M (Unit {0})
assert_test_event_order_limit_not_reached test current max_orders =
    raise_if (leb max_orders current) (forbidden test_limit_reached)
assert_test_event_order_limit_not_reached _ current max_orders = pure tt
