-- ===== src/Vouchers.antt =====
-- src/modules/discount-vouchers/discount-vouchers.service.ts. In an update an outer `none` is a field
-- that is undefined, an inner one a field that is null. Not modelled: the list queries.
pub mod Coupled
mod Tests
use openeos_api.Base.{
  ℕ, ℤ, pos, Bool, true, false, not, ◌||◌, Option, none, some, String, List, ◌==◌, if◌then◌else◌,
  get, put, drop_row, get_or, is_some,
}
use openeos_api.Entities.{User, DiscountVoucher, DiscountVoucherType, OrganizationPermissions}
use openeos_api.Store.{
  Store, M, pure, raise, gets, modify, or_raise, new_id, ◌>>=◌, ◌>>◌, bad_request, not_found,
  not_found_code, validation_error,
}
use openeos_api.Access.{check_membership}
use openeos_api.Organizations.{check_permission}

pub record CreateDiscountVoucherDto : Type 0 where
  pub name : String
  pub description : Option String
  pub kind : DiscountVoucherType
  pub amount : Option ℤ
  pub is_active : Option Bool
  pub allow_multiple_per_order : Option Bool
  pub sort_order : Option ℤ

pub record UpdateDiscountVoucherDto : Type 0 where
  pub name : Option String
  pub description : Option (Option String)
  pub kind : Option DiscountVoucherType
  pub amount : Option (Option ℤ)
  pub is_active : Option Bool
  pub allow_multiple_per_order : Option Bool
  pub sort_order : Option ℤ

unfoldable pub normalize_amount : DiscountVoucherType → Option ℤ → M (Option ℤ)
normalize_amount DiscountVoucherType.manual amount = pure none
normalize_amount DiscountVoucherType.fixed none = raise (bad_request validation_error)
normalize_amount DiscountVoucherType.fixed (some amount) = pure (some amount)

unfoldable pub save_voucher : ℕ → DiscountVoucher → M (Unit {0})
save_voucher vid v = modify λ s. record s { vouchers = put vid v s.vouchers }

abbrev pub new_voucher : ℕ → CreateDiscountVoucherDto → Option ℤ → DiscountVoucher
new_voucher org dto amount = record {
  organization_id = org;
  name = dto.name;
  description = dto.description;
  kind = dto.kind;
  amount = amount;
  is_active = get_or dto.is_active true;
  allow_multiple_per_order = get_or dto.allow_multiple_per_order false;
  sort_order = get_or dto.sort_order (pos 0);
}

unfoldable pub create_voucher : ℕ → CreateDiscountVoucherDto → User → M DiscountVoucher
unfolding normalize_amount save_voucher
create_voucher org dto user = do
  check_permission (λ p. p.discounts) org user.id
  amount ← normalize_amount dto.kind dto.amount
  vid ← new_id
  save_voucher vid (new_voucher org dto amount)
  pure (new_voucher org dto amount)

abbrev pub voucher_in : ℕ → Option DiscountVoucher → Option DiscountVoucher
voucher_in org none = none
voucher_in org (some v) = if v.organization_id == org then some v else none

unfoldable pub find_voucher : ℕ → ℕ → User → M DiscountVoucher
find_voucher org vid user = do
  check_membership org user.id
  found ← gets λ s. voucher_in org (get vid s.vouchers)
  or_raise found (not_found not_found_code)

-- The fields that do not depend on each other, and the type.
abbrev pub revised : UpdateDiscountVoucherDto → Option ℤ → DiscountVoucher → DiscountVoucher
revised dto amount v = record v {
  name = get_or dto.name v.name;
  description = get_or dto.description v.description;
  is_active = get_or dto.is_active v.is_active;
  allow_multiple_per_order = get_or dto.allow_multiple_per_order v.allow_multiple_per_order;
  sort_order = get_or dto.sort_order v.sort_order;
  kind = get_or dto.kind v.kind;
  amount = amount;
}

unfoldable pub next_amount : UpdateDiscountVoucherDto → DiscountVoucher → Bool → M (Option ℤ)
unfolding normalize_amount
next_amount dto v true = normalize_amount (get_or dto.kind v.kind) (get_or dto.amount v.amount)
next_amount dto v false = pure v.amount

unfoldable pub update_voucher : ℕ → ℕ → UpdateDiscountVoucherDto → User → M DiscountVoucher
unfolding find_voucher next_amount save_voucher
update_voucher org vid dto user = do
  check_permission (λ p. p.discounts) org user.id
  v ← find_voucher org vid user
  amount ← next_amount dto v (is_some dto.kind || is_some dto.amount)
  save_voucher vid (revised dto amount v)
  pure (revised dto amount v)

unfoldable pub remove_voucher : ℕ → ℕ → User → M (Unit {0})
unfolding find_voucher
remove_voucher org vid user = do
  check_permission (λ p. p.discounts) org user.id
  find_voucher org vid user
  modify λ s. record s { vouchers = drop_row vid s.vouchers }
