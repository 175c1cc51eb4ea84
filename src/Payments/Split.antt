-- ===== src/Payments/Split.antt =====
-- createSplitPayment of src/modules/payments/payments.service.ts.
pub mod Checks
use openeos_api.Base.{
  ℕ, ◌+◌, ℤ, pos, ◌+ℤ◌, ◌-ℤ◌, ◌*ℤ◌, abs_ℕ, ltb, ltb_ℤ, Bool, Option, none, some, String, List, [],
  ◌∷◌, ◌++◌, map, get,
}
use openeos_api.Entities.{Order, OrderItem, OrderItemPayment, Payment, PaymentMethod, User}
use openeos_api.Store.{
  Store, Env, M, pure, gets, or_raise, raise_if, new_id, ◌>>=◌, ◌>>◌, not_found, bad_request,
  not_found_code, validation_error,
}
use openeos_api.Access.{check_membership}
use openeos_api.VatSplit.{VatSplitItem}
use openeos_api.Orders.Rows.{organization_order, save_item, item_of, put_item}
use openeos_api.Payments.Reversal.{save_payment}
use openeos_api.Payments.Doubles.{number_of, add, subtract, times}
use openeos_api.Payments.Rows.{find_one, update_order_payment_status, sign_payment_with_tse}
use openeos_api.Payments.Create.{new_payment}

pub record SplitPaymentItemDto : Type 0 where
  pub order_item_id : ℕ
  pub quantity : ℕ

pub record SplitPaymentDto : Type 0 where
  pub order_id : ℕ
  pub amount : ℤ
  pub payment_method : PaymentMethod
  pub items : List SplitPaymentItemDto
  pub provider_transaction_id : Option String

abbrev pub price_per_unit : OrderItem → ℤ
price_per_unit i = i.unit_price +ℤ i.options_price

-- The loop that validates the items; it returns `itemsToUpdate`, each item as it was read.
unfoldable pub items_to_update : Order → List SplitPaymentItemDto → M (List (OrderItem × ℕ))
items_to_update o [] = pure []
items_to_update o (d ∷ ds) = do
  item ← or_raise (item_of d.order_item_id o) (not_found not_found_code)
  raise_if (ltb item.quantity (item.paid_quantity + d.quantity)) (bad_request validation_error)
  rest ← items_to_update o ds
  pure ((item, d.quantity) ∷ rest)

-- `calculatedTotal`, as a number that is summed up from the first entry on.
unfoldable pub calculated_total : ℤ → List (OrderItem × ℕ) → ℤ
calculated_total total [] = total
calculated_total total ((i, q) ∷ rows) =
    calculated_total
      (add total (times (add (number_of i.unit_price) (number_of i.options_price)) q)) rows

-- `Math.abs(calculatedTotal - splitDto.amount) > 0.02`
abbrev pub differs : ℤ → ℤ → Bool
differs total amount = ltb_ℤ (number_of (pos 2)) (pos (abs_ℕ (subtract total (number_of amount))))

-- `Number(order.paidAmount) + splitDto.amount`
abbrev pub split_paid : SplitPaymentDto → Order → ℤ
split_paid dto o = add (number_of o.paid_amount) (number_of dto.amount)

abbrev pub item_payment : OrderItem → ℕ → OrderItemPayment
item_payment i q = record { order_item_id = i.id; quantity = q; amount = price_per_unit i *ℤ pos q }

abbrev pub with_item_payment : OrderItemPayment → Payment → Payment
with_item_payment row p = record p { item_payments = p.item_payments ++ row ∷ [] }

abbrev pub add_to_payment : ℕ → OrderItemPayment → Option Payment → M (Unit {0})
add_to_payment pid row none = pure tt
add_to_payment pid row (some p) = save_payment pid (with_item_payment row p)

unfoldable pub save_item_payment : ℕ → OrderItemPayment → M (Unit {0})
save_item_payment pid row = gets (λ s. get pid s.payments) >>= add_to_payment pid row

-- `item.paidQuantity += quantityToPayNow` on the object that the loaded order holds: an item that is
-- named twice is paid twice.
abbrev pub paid_item : ℕ → OrderItem → OrderItem
paid_item q i = record i { paid_quantity = i.paid_quantity + q }

abbrev pub current : OrderItem → Order → OrderItem
current i o = elim (item_of i.id o) [ none ↦ i | some now ↦ now ]

abbrev pub with_item : OrderItem → Order → Order
with_item i o = record o { items = put_item i o.items }

unfoldable pub pay_items : ℕ → ℕ → List (OrderItem × ℕ) → Order → M Order
pay_items oid pid [] o = pure o
pay_items oid pid ((i, q) ∷ rows) o = do
  save_item_payment pid (item_payment i q)
  save_item oid (paid_item q (current i o))
  pay_items oid pid rows (with_item (paid_item q (current i o)) o)

abbrev pub paid_split_item : OrderItem × ℕ → VatSplitItem
paid_split_item (i, q) = record {
  quantity = q;
  unit_price = i.unit_price;
  options_price = i.options_price;
  tax_rate = i.tax_rate;
}

-- The payment row that the TSE signature is stored on is the one with its item payments.
abbrev pub stored_payment : ℕ → Payment → Store → Payment
stored_payment pid p s = elim (get pid s.payments) [ none ↦ p | some now ↦ now ]

unfoldable pub create_split_payment : Env → ℕ → SplitPaymentDto → User → M Payment
unfolding items_to_update calculated_total pay_items
create_split_payment env org dto user = do
  check_membership org user.id
  found ← gets (organization_order org dto.order_id)
  o ← or_raise found (not_found not_found_code)
  rows ← items_to_update o dto.items
  raise_if (differs (calculated_total (pos 0) rows) dto.amount) (bad_request validation_error)
  pid ← new_id
  save_payment pid
      (new_payment dto.order_id dto.amount dto.payment_method dto.provider_transaction_id user)
  paid_rows ← pay_items dto.order_id pid rows o
  paid ←
      update_order_payment_status dto.order_id (split_paid dto o)
        (record paid_rows { paid_amount = paid_rows.paid_amount +ℤ dto.amount })
  p ← gets (
      stored_payment pid
        (new_payment dto.order_id dto.amount dto.payment_method dto.provider_transaction_id user))
  sign_payment_with_tse env pid paid p (map paid_split_item rows)
  find_one org pid user
