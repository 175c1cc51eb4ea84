-- ===== src/Samples.antt =====
-- A small store for the runs: organization 1 with an admin (user 9) and an event in test, product 5
-- with a tracked stock of 10, order 7 with one line of two units at 3.00, and payment 8 on it.
use openeos_api.Base.{ℕ, pos, true, false, none, some, List, [], ◌∷◌}
use openeos_api.Entities.{
  User, UserOrganization, OrganizationRole, OrganizationPermissions, OrganizationBillingMode,
  EventBillingStatus, Organization, Event, EventStatus, Product, Order, OrderItem, OrderTexts,
  OrderStatus, PaymentStatus, OrderItemStatus, Payment, PaymentMethod, PaymentProvider,
  PaymentTransactionStatus, TseProviderName, pos_terminal, normal, counter_pickup,
}
use openeos_api.Store.{Store, Env, SignOutcome}
use openeos_api.Orders.Items.{AddOrderItemDto}
use openeos_api.Payments.Create.{CreatePaymentDto}

abbrev pub signing : Env
signing = record {
  now = 100;
  utc_date = λ t. t;
  start_of_day = λ t. 0;
  end_of_day = λ t. 1000;
  test_event_max_orders = 2;
  lower = λ email. email;
  day_of = λ zone t. t;
  event_price = 2500;
  first_event_discount = 2000;
  foreign_key = λ old changed. old;
  has_platform_credential = true;
  sign = λ sent r. SignOutcome.signature "signed";
}

-- The TSE is out of order.
abbrev pub refusing : Env
refusing = record signing {
  sign = λ sent r.
      SignOutcome.refusal
        (record { error_code = some "E_TSE"; http_status = some 503; failure_reason = none });
}

abbrev pub user_of : ℕ → User
user_of n = record { id = n; is_super_admin = false }

abbrev pub no_permissions : OrganizationPermissions
no_permissions = record {
  products = false;
  events = false;
  devices = false;
  members = false;
  shift_plans = false;
  discounts = false;
  pfand = false;
  reports = false;
  inventory = false;
}

abbrev pub head_of : UserOrganization
head_of = record {
  user_id = 9;
  organization_id = 1;
  role = OrganizationRole.admin;
  permissions = no_permissions;
}

abbrev pub event : Event
event = record {
  organization_id = 1;
  name = "Fair";
  description = none;
  start_date = some 4;
  end_date = some 6;
  status = EventStatus.test;
  billing_status = EventBillingStatus.none_;
  paid_at = none;
  stripe_checkout_session_id = none;
  price_charged = none;
}

abbrev pub product : Product
product = record {
  event_id = 3;
  category_id = 4;
  name = "Cola";
  category_name = "Drinks";
  price = pos 300;
  tax_rate = 1900;
  is_active = true;
  is_available = true;
  track_inventory = true;
  stock_quantity = pos 10;
  production_station_id = none;
  category_station_id = none;
  pfand_type = some (2, pos 100);
}

abbrev pub item : OrderItem
item = record {
  id = 20;
  product_id = 5;
  category_id = 4;
  product_name = "Cola";
  category_name = "Drinks";
  quantity = 2;
  unit_price = pos 300;
  options_price = pos 0;
  tax_rate = 1900;
  total_price = pos 600;
  options = [];
  status = OrderItemStatus.pending;
  notes = none;
  kitchen_notes = none;
  paid_quantity = 0;
  ready_at = none;
  delivered_at = none;
  sort_order = 0;
  production_station_id = none;
  pfand_type_id = none;
  deposit_amount = pos 0;
  is_refill = false;
}

abbrev pub no_texts : OrderTexts
no_texts = record {
  table_number = none;
  customer_name = none;
  customer_phone = none;
  notes = none;
  discount_reason = none;
}

-- The order with what is paid of its 6.00.
abbrev pub order_with : PaymentStatus → ℕ → Order
order_with status paid_amount = record {
  organization_id = 1;
  event_id = some 3;
  order_number = (100, 1);
  daily_number = 1;
  texts = no_texts;
  status = OrderStatus.open_;
  payment_status = status;
  source = pos_terminal;
  priority = normal;
  fulfillment_type = counter_pickup;
  subtotal = pos 600;
  tax_total = pos 1140000;
  total = pos 600;
  paid_amount = pos paid_amount;
  tip_amount = pos 0;
  discount_amount = pos 0;
  pfand_total = pos 0;
  completed_at = none;
  cancelled_at = none;
  cancellation_reason = none;
  bewirtungsbeleg_requested = false;
  created_by_user_id = some 9;
  created_by_device_id = none;
  created_at = 50;
  deleted_at = none;
  items = item ∷ [];
}

abbrev pub paid_order : Order
paid_order = order_with PaymentStatus.paid 600

abbrev pub payment : Payment
payment = record {
  order_id = 7;
  amount = pos 600;
  payment_method = PaymentMethod.cash;
  payment_provider = PaymentProvider.cash;
  provider_transaction_id = none;
  status = PaymentTransactionStatus.captured;
  tse_data = none;
  processed_by_user_id = some 9;
  reverses_payment_id = none;
  item_payments = [];
}

abbrev pub organization : Organization
organization = record {
  pfand = none;
  tse = some (record {
    enabled = true;
    provider = TseProviderName.local;
    has_fiskaly = false;
    has_local = true;
    reseller = false;
  });
  timezone = none;
  billing_mode = OrganizationBillingMode.prepaid;
  event_price_override = none;
  discount_percent = none;
  discount_valid_until = none;
  stripe_customer_id = none;
}

abbrev pub store_with : Order → List (ℕ × Payment) → Store
store_with o payments = record {
  members = head_of ∷ [];
  organizations = (1, organization) ∷ [];
  events = (3, event) ∷ [];
  devices = [];
  products = (5, product) ∷ [];
  orders = (7, o) ∷ [];
  payments = payments;
  movements = [];
  audit = [];
  notices = [];
  signed = [];
  status_notices = [];
  inventory_counts = [];
  vouchers = [];
  pfand_types = [];
  pfand_returns = [];
  shift_plans = [];
  shifts = [];
  registrations = [];
  magic_links = [];
  shift_proposals = [];
  next_id = 30;
}

abbrev pub unpaid_store : Store
unpaid_store = store_with (order_with PaymentStatus.unpaid 0) []

abbrev pub paid_store : Store
paid_store = store_with paid_order ((8, payment) ∷ [])

abbrev pub two_more : AddOrderItemDto
two_more = record {
  product_id = 5;
  quantity = 2;
  notes = none;
  kitchen_notes = none;
  selected_options = [];
  is_refill = false;
}

abbrev pub pay_dto : CreatePaymentDto
pay_dto = record {
  order_id = 7;
  amount = pos 250;
  payment_method = PaymentMethod.cash;
  provider_transaction_id = none;
  bewirtungsbeleg_requested = false;
}
