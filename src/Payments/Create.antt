-- ===== src/Payments/Create.antt =====
-- create of src/modules/payments/payments.service.ts.
pub mod Laws
pub mod Outcome
pub mod Completes
mod Tests
use openeos_api.Base.{
  ℕ, ℤ, ◌+ℤ◌, ◌-ℤ◌, leb_ℤ, ltb_ℤ, Bool, true, false, ◌||◌, Option, none, some, String, List, [],
  ◌∷◌, map,
}
use openeos_api.Entities.{
  Order, OrderItem, Payment, PaymentMethod, PaymentTransactionStatus, User, TseTransactionData,
}
use openeos_api.Store.{
  Store, Env, M, pure, gets, or_raise, raise_if, when, new_id, ◌>>=◌, ◌>>◌, not_found, bad_request,
  not_found_code, validation_error,
}
use openeos_api.Access.{check_membership}
use openeos_api.Orders.Rows.{organization_order, save_item, or_null}
use openeos_api.Orders.Status.{is_paid}
use openeos_api.Payments.Reversal.{save_payment}
use openeos_api.Payments.Doubles.{number_of, add, subtract}
use openeos_api.Payments.Rows.{
  find_one, get_provider_for_method, update_order_payment_status, with_payment_status,
  sign_payment_with_tse,
}

-- CreatePaymentDto, without the metadata, which is stored and never read.
pub record CreatePaymentDto : Type 0 where
  pub order_id : ℕ
  pub amount : ℤ
  pub payment_method : PaymentMethod
  pub provider_transaction_id : Option String
  pub bewirtungsbeleg_requested : Bool

unfoldable pub new_payment : ℕ → ℤ → PaymentMethod → Option String → User → Payment
new_payment oid amount method transaction_id user = record {
  order_id = oid;
  amount = amount;
  payment_method = method;
  payment_provider = get_provider_for_method method;
  provider_transaction_id = or_null transaction_id;
  status = PaymentTransactionStatus.captured;
  tse_data = none;
  processed_by_user_id = some user.id;
  reverses_payment_id = none;
  item_payments = [];
}

abbrev pub fully_paid_item : OrderItem → OrderItem
fully_paid_item i = record i { paid_quantity = i.quantity }

unfoldable pub save_items : ℕ → List OrderItem → M (Unit {0})
save_items oid [] = pure tt
save_items oid (i ∷ is) = save_item oid i >> save_items oid is

-- The order once `createDto.amount` is booked.
abbrev pub booked : CreatePaymentDto → Order → Order
booked dto o = record o {
  paid_amount = o.paid_amount +ℤ dto.amount;
  bewirtungsbeleg_requested = dto.bewirtungsbeleg_requested || o.bewirtungsbeleg_requested;
}

-- `Number(order.paidAmount) + createDto.amount`
abbrev pub paid_with : CreatePaymentDto → Order → ℤ
paid_with dto o = add (number_of o.paid_amount) (number_of dto.amount)

-- `createDto.amount > Number(order.total) - Number(order.paidAmount)`
abbrev pub exceeds_remaining : CreatePaymentDto → Order → Bool
exceeds_remaining dto o =
    ltb_ℤ (subtract (number_of o.total) (number_of o.paid_amount)) (number_of dto.amount)

abbrev pub is_fully_paid : CreatePaymentDto → Order → Bool
is_fully_paid dto o = leb_ℤ (number_of o.total) (paid_with dto o)

unfoldable pub create : Env → ℕ → CreatePaymentDto → User → M Payment
unfolding new_payment save_items
create env org dto user = do
  check_membership org user.id
  found ← gets (organization_order org dto.order_id)
  o ← or_raise found (not_found not_found_code)
  raise_if (is_paid o.payment_status) (bad_request validation_error)
  raise_if (exceeds_remaining dto o) (bad_request validation_error)
  pid ← new_id
  let p = new_payment dto.order_id dto.amount dto.payment_method dto.provider_transaction_id user
  save_payment pid p
  paid ← update_order_payment_status dto.order_id (paid_with dto o) (booked dto o)
  when (is_fully_paid dto o) (save_items dto.order_id (map fully_paid_item paid.items))
  sign_payment_with_tse env pid paid p []
  find_one org pid user
