-- ===== src/Store.antt =====
-- The database that the services share, and their control flow: a call returns a value or raises an
-- HTTP exception, and what was saved before a raise stays saved (there is no transaction around a
-- handler). `Env` holds what the services take from elsewhere.
pub mod Keeps
pub mod Reads
use openeos_api.Base.{ℕ, suc, String, Bool, true, false, Option, none, some, List}
use openeos_api.Entities.{
  UserOrganization, Organization, Event, Device, Product, Order, Payment, StockMovement,
  OrderAuditLog, TseRequest, TseFailure, InventoryCount, DiscountVoucher, PfandType, PfandReturn,
  ShiftPlan, Shift, ShiftRegistration, HelperMagicLink, ShiftChangeProposal,
}

-- The calls of GatewayService.notifyProductUpdated: event, product and the stock that is announced.
pub record ProductNotice : Type 0 where
  pub organization_id : ℕ
  pub event_id : ℕ
  pub product_id : ℕ
  pub product : Product

pub record Store : Type 0 where
  pub members : List UserOrganization
  pub organizations : List (ℕ × Organization)
  pub events : List (ℕ × Event)
  pub devices : List (ℕ × Device)
  pub products : List (ℕ × Product)
  pub orders : List (ℕ × Order)
  pub payments : List (ℕ × Payment)
  pub movements : List StockMovement
  pub audit : List OrderAuditLog
  pub notices : List ProductNotice
  pub signed : List TseRequest
  pub status_notices : List (ℕ × Event)
  pub inventory_counts : List (ℕ × InventoryCount)
  pub vouchers : List (ℕ × DiscountVoucher)
  pub pfand_types : List (ℕ × PfandType)
  pub pfand_returns : List (ℕ × PfandReturn)
  pub shift_plans : List (ℕ × ShiftPlan)
  pub shifts : List (ℕ × Shift)
  pub registrations : List (ℕ × ShiftRegistration)
  pub magic_links : List (ℕ × HelperMagicLink)
  pub shift_proposals : List (ℕ × ShiftChangeProposal)
  pub next_id : ℕ

-- The answer of a TSE provider to one request.
pub data SignOutcome : Type 0 where
  signature : String → SignOutcome
  refusal : TseFailure → SignOutcome

-- The clock and its calendar (`day_of` is the calendar day of a time in a time zone, counted in days;
-- the default zone is `none`), the configuration, and the TSE provider, which may answer by all the
-- requests that it has seen. `foreign_key` is what the ORM writes for a column of a foreign key that was
-- changed while the loaded relation still holds the old row: one of the two, old and new.
pub record Env : Type 0 where
  pub now : ℕ
  pub utc_date : ℕ → ℕ
  pub start_of_day : ℕ → ℕ
  pub end_of_day : ℕ → ℕ
  pub test_event_max_orders : ℕ
  pub lower : ℕ → ℕ
  pub day_of : Option ℕ → ℕ → ℕ
  pub event_price : ℕ
  pub first_event_discount : ℕ
  pub foreign_key : ℕ → ℕ → ℕ
  pub has_platform_credential : Bool
  pub sign : List TseRequest → TseRequest → SignOutcome

-- src/common/constants/error-codes.ts, the codes that the modelled services raise.
pub data ErrorCode : Type 0 where
  not_found_code validation_error forbidden_code test_limit_reached : ErrorCode
  tse_reversal_required inventory_in_progress inventory_already_completed event_not_paid : ErrorCode
  no_code : ErrorCode

-- The exception classes of @nestjs/common, and what others throw: reading a field of null, the ORM on
-- a table that it cannot soft-delete from and on a statement that the database refuses, and the Stripe
-- client.
pub data Exception : Type 0 where
  not_found bad_request forbidden : ErrorCode → Exception
  type_error missing_delete_date_column query_failed stripe_error : Exception

pub data Result {ℓ} (A : Type ℓ) : Type ℓ where
  ok : A → Result A
  err : Exception → Result A

abbrev pub M {ℓ} : Type ℓ → Type ℓ
M A = Store → Result A × Store

abbrev pub pure {ℓ} : {A : Type ℓ} → A → M A
pure a s = (ok a, s)

abbrev pub raise {ℓ} : {A : Type ℓ} → Exception → M A
raise e s = (err e, s)

-- An exception skips what follows.
abbrev pub and_then {ℓ κ} :
    {A : Type ℓ} {B : Type κ} → Result A × Store → (A → M B) → Result B × Store
and_then (ok a, s) f = f a s
and_then (err e, s) f = (err e, s)

infixl 5 ◌>>=◌ ◌>>◌
abbrev pub ◌>>=◌ {ℓ κ} : {A : Type ℓ} {B : Type κ} → M A → (A → M B) → M B
◌>>=◌ m f s = and_then (m s) f

abbrev pub ◌>>◌ {ℓ κ} : {A : Type ℓ} {B : Type κ} → M A → M B → M B
m >> k = m >>= λ _. k

abbrev pub gets {ℓ} : {A : Type ℓ} → (Store → A) → M A
gets f s = (ok (f s), s)

abbrev pub modify : (Store → Store) → M (Unit {0})
modify f s = (ok tt, f s)

abbrev pub or_raise {ℓ} : {A : Type ℓ} → Option A → Exception → M A
or_raise none e = raise e
or_raise (some a) e = pure a

-- `if (b) throw e`
abbrev pub raise_if : Bool → Exception → M (Unit {0})
raise_if true e = raise e
raise_if false e = pure tt

-- `if (b) { m }`
abbrev pub when : Bool → M (Unit {0}) → M (Unit {0})
when true m = m
when false m = pure tt

-- A fresh UUID.
abbrev pub new_id : M ℕ
new_id s = (ok s.next_id, record s { next_id = suc s.next_id })
