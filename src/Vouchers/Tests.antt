-- ===== src/Vouchers/Tests.antt =====
-- Vouchers of src/modules/discount-vouchers/discount-vouchers.service.ts on a small store.
use openeos_api.Base.{ℕ, ◌≡◌, refl, ℤ, pos, negsuc, Option, none, some, List, [], ◌∷◌, get, put}
use openeos_api.Entities.{User, DiscountVoucher, DiscountVoucherType}
use openeos_api.Samples.{user_of, paid_store}
use openeos_api.Access.{check_membership}
use openeos_api.Organizations.{check_permission}
use openeos_api.Vouchers.{
  CreateDiscountVoucherDto, UpdateDiscountVoucherDto, create_voucher, update_voucher, find_voucher,
  save_voucher, normalize_amount, next_amount,
}
use openeos_api.Vouchers.Coupled.{
  AllCoupled, VoucherCall, serve_vouchers, serve_vouchers-AllCoupled,
}

abbrev three_euros : CreateDiscountVoucherDto
three_euros = record {
  name = "Artists";
  description = none;
  kind = DiscountVoucherType.fixed;
  amount = some (pos 300);
  is_active = none;
  allow_multiple_per_order = none;
  sort_order = none;
}

abbrev no_change : UpdateDiscountVoucherDto
no_change = record {
  name = none;
  description = none;
  kind = none;
  amount = none;
  is_active = none;
  allow_multiple_per_order = none;
  sort_order = none;
}

-- The amount alone, which no decorator checks when the type is not sent along.
abbrev below_zero : UpdateDiscountVoucherDto
below_zero = record no_change { amount = some (some (negsuc 4)) }

abbrev calls : List (ℕ × User × VoucherCall)
calls =
    (1, user_of 9, VoucherCall.create_voucher_call three_euros)
    ∷ (1, user_of 9, VoucherCall.update_voucher_call 30 below_zero)
    ∷ []

no_vouchers : AllCoupled paid_store.vouchers
unfolding get
no_vouchers = record { coupled = λ k v h. cc }

serve_vouchers-AllCoupled_example : AllCoupled (serve_vouchers calls paid_store).vouchers
serve_vouchers-AllCoupled_example = serve_vouchers-AllCoupled calls paid_store no_vouchers

abbrev amount_of : Option DiscountVoucher → Option ℤ
amount_of none = none
amount_of (some v) = v.amount

-- A fixed voucher of -5 cents.
below_zero_is : amount_of (get 30 (serve_vouchers calls paid_store).vouchers) ≡ some (negsuc 4)
unfolding serve_vouchers create_voucher update_voucher find_voucher save_voucher normalize_amount
    next_amount check_permission check_membership get put
below_zero_is = refl
