-- ===== src/Orders/Create.antt =====
-- create, update, remove, generateOrderNumber and getDailyNumber of src/modules/orders/orders.service.ts.
pub mod Limits
use openeos_api.Base.{
  ℕ, ◌+◌, ℤ, pos, Bool, true, false, not, ◌&&◌, ◌||◌, Option, none, some, String, List, [], ◌∷◌,
  length, keep, values, leb, ◌==◌, is_empty, is_some, get, get_or, if◌then◌else◌,
}
use openeos_api.Entities.{
  Order, OrderItem, OrderTexts, OrderStatus, OrderSource, OrderPriority, OrderFulfillmentType,
  pos_terminal, normal, counter_pickup, PaymentStatus, unpaid, Event, EventStatus, active, test,
  User,
}
use openeos_api.Store.{
  Store, Env, M, pure, gets, or_raise, raise_if, when, new_id, ◌>>=◌, ◌>>◌, not_found, bad_request,
  not_found_code, validation_error,
}
use openeos_api.Access.{check_membership}
use openeos_api.Policies.{assert_test_event_order_limit_not_reached}
use openeos_api.Orders.Rows.{find_one, save_order, or_null, is_live}
use openeos_api.Orders.Totals.{recalculate_order_totals}
use openeos_api.Orders.Stock.{restore_stock_for_item}
use openeos_api.Orders.Items.{AddOrderItemDto, add_item_to_order, should_charge_pfand, is_closed}

-- CreateOrderDto, absent fields as `none` and an absent list of items as the empty one. Its
-- `tipAmount` and `userId` are not read by `create`.
pub record CreateOrderDto : Type 0 where
  pub event_id : Option ℕ
  pub texts : OrderTexts
  pub priority : Option OrderPriority
  pub source : Option OrderSource
  pub fulfillment_type : Option OrderFulfillmentType
  pub discount_amount : Option ℤ
  pub items : List AddOrderItemDto

abbrev pub is_today : Env → ℕ → Order → Bool
is_today env org o =
    o.organization_id == org
    && leb (env.start_of_day env.now) o.created_at
    && leb o.created_at (env.end_of_day env.now)
    && is_live o

-- The day and the running number that the text `YYYYMMDD-NNNN` shows.
unfoldable pub generate_order_number : Env → ℕ → Store → ℕ × ℕ
generate_order_number env org s =
    (env.utc_date env.now, length (keep (is_today env org) (values s.orders)) + 1)

abbrev pub same_event : Option ℕ → Option ℕ → Bool
same_event none e = true
same_event (some k) none = false
same_event (some k) (some j) = k == j

unfoldable pub get_daily_number : Env → ℕ → Option ℕ → Store → ℕ
get_daily_number env org event_id s =
    length (
      keep
        (λ o.
          o.organization_id == org
          && same_event event_id o.event_id
          && leb (env.start_of_day env.now) o.created_at
          && is_live o)
        (values s.orders))
    + 1

-- `eventRepository.findOne({ where: { id, organizationId } })`
abbrev pub event_in : ℕ → Option Event → Option Event
event_in org none = none
event_in org (some e) = if e.organization_id == org then some e else none

abbrev pub takes_orders : EventStatus → Bool
takes_orders EventStatus.active = true
takes_orders EventStatus.test = true
takes_orders EventStatus.inactive = false

abbrev pub orders_of_event : ℕ → Store → ℕ
orders_of_event eid s =
    length (keep (λ o. same_event (some eid) o.event_id && is_live o) (values s.orders))

unfoldable pub check_event : Env → ℕ → Option ℕ → M (Unit {0})
check_event env org none = pure tt
check_event env org (some eid) = do
  found ← gets λ s. event_in org (get eid s.events)
  e ← or_raise found (not_found not_found_code)
  raise_if (not (takes_orders e.status)) (bad_request validation_error)
  existing ← gets (orders_of_event eid)
  assert_test_event_order_limit_not_reached e.status existing env.test_event_max_orders

abbrev pub cleared_texts : OrderTexts → OrderTexts
cleared_texts t = record {
  table_number = or_null t.table_number;
  customer_name = or_null t.customer_name;
  customer_phone = or_null t.customer_phone;
  notes = or_null t.notes;
  discount_reason = or_null t.discount_reason;
}

unfoldable pub new_order : Env → ℕ → CreateOrderDto → User → ℕ × ℕ → ℕ → Order
new_order env org dto user order_number daily_number = record {
  organization_id = org;
  event_id = dto.event_id;
  order_number = order_number;
  daily_number = daily_number;
  texts = cleared_texts dto.texts;
  status = OrderStatus.open_;
  payment_status = PaymentStatus.unpaid;
  source = get_or dto.source pos_terminal;
  priority = get_or dto.priority normal;
  fulfillment_type = get_or dto.fulfillment_type counter_pickup;
  subtotal = pos 0;
  tax_total = pos 0;
  total = pos 0;
  paid_amount = pos 0;
  tip_amount = pos 0;
  discount_amount = get_or dto.discount_amount (pos 0);
  pfand_total = pos 0;
  completed_at = none;
  cancelled_at = none;
  cancellation_reason = none;
  bewirtungsbeleg_requested = false;
  created_by_user_id = some user.id;
  created_by_device_id = none;
  created_at = env.now;
  deleted_at = none;
  items = [];
}

-- The loop over `createDto.items`.
unfoldable pub add_items : ℕ → Order → List AddOrderItemDto → User → Bool → M (Unit {0})
add_items oid o [] user charge_pfand = pure tt
add_items oid o (dto ∷ dtos) user charge_pfand = do
  add_item_to_order oid o dto user charge_pfand
  add_items oid o dtos user charge_pfand

unfoldable pub fill : ℕ → Order → List AddOrderItemDto → User → M (Unit {0})
unfolding add_items
fill oid o dtos user = do
  charge_pfand ← should_charge_pfand o
  add_items oid o dtos user charge_pfand
  recalculate_order_totals oid

unfoldable pub create : Env → ℕ → CreateOrderDto → User → M Order
unfolding generate_order_number get_daily_number check_event new_order fill
create env org dto user = do
  check_membership org user.id
  check_event env org dto.event_id
  order_number ← gets (generate_order_number env org)
  daily_number ← gets (get_daily_number env org dto.event_id)
  oid ← new_id
  let o = new_order env org dto user order_number daily_number
  save_order oid o
  when (not (is_empty dto.items)) (fill oid o dto.items user)
  find_one org oid user

-- UpdateOrderDto; `none` is an absent field, which `Object.assign` leaves alone.
pub record UpdateOrderDto : Type 0 where
  pub texts : OrderTexts
  pub priority : Option OrderPriority
  pub tip_amount : Option ℤ
  pub discount_amount : Option ℤ

abbrev pub assigned : Option String → Option String → Option String
assigned none old = old
assigned (some t) old = some t

unfoldable pub assign : Order → UpdateOrderDto → Order
assign o dto = record o {
  texts = record {
    table_number = assigned dto.texts.table_number o.texts.table_number;
    customer_name = assigned dto.texts.customer_name o.texts.customer_name;
    customer_phone = assigned dto.texts.customer_phone o.texts.customer_phone;
    notes = assigned dto.texts.notes o.texts.notes;
    discount_reason = assigned dto.texts.discount_reason o.texts.discount_reason;
  };
  priority = get_or dto.priority o.priority;
  tip_amount = get_or dto.tip_amount o.tip_amount;
  discount_amount = get_or dto.discount_amount o.discount_amount;
}

unfoldable pub update : ℕ → ℕ → UpdateOrderDto → User → M Order
unfolding assign
update org oid dto user = do
  check_membership org user.id
  o ← find_one org oid user
  raise_if (is_closed o.status) (bad_request validation_error)
  save_order oid (assign o dto)
  when (is_some dto.discount_amount || is_some dto.tip_amount) (recalculate_order_totals oid)
  find_one org oid user

-- The loop of `remove` over the items.
unfoldable pub restore_all : ℕ → List OrderItem → ℕ → M (Unit {0})
restore_all oid [] user_id = pure tt
restore_all oid (i ∷ is) user_id = do
  restore_stock_for_item oid i user_id
  restore_all oid is user_id

abbrev pub is_unpaid : PaymentStatus → Bool
is_unpaid PaymentStatus.unpaid = true
is_unpaid _ = false

unfoldable pub remove : Env → ℕ → ℕ → User → M (Unit {0})
unfolding restore_all
remove env org oid user = do
  check_membership org user.id
  o ← find_one org oid user
  raise_if (not (is_unpaid o.payment_status)) (bad_request validation_error)
  restore_all oid o.items user.id
  save_order oid (record o { deleted_at = some env.now })
