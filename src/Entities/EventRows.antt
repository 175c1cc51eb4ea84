-- ===== src/Entities/EventRows.antt =====
-- Organizations and events: src/database/entities/{organization,event}.entity.ts, each with the fields
-- that the modelled services read or write.
use openeos_api.Base.{ℕ, ℤ, String, Bool, Option}

-- `settings.pfand`; an unset flag is `none`.
pub record PfandPolicy : Type 0 where
  pub table_service : Option Bool
  pub counter_pickup : Option Bool

pub data TseProviderName : Type 0 where
  fiskaly local no_provider : TseProviderName

-- `settings.tse`: which provider, and which of the credential blocks are there.
pub record TseConfig : Type 0 where
  pub enabled : Bool
  pub provider : TseProviderName
  pub has_fiskaly : Bool
  pub has_local : Bool
  pub reseller : Bool

pub data OrganizationBillingMode : Type 0 where
  prepaid invoice : OrganizationBillingMode

-- `timezone` is `settings.timezone`; percents are in hundredths.
pub record Organization : Type 0 where
  pub pfand : Option PfandPolicy
  pub tse : Option TseConfig
  pub timezone : Option ℕ
  pub billing_mode : OrganizationBillingMode
  pub event_price_override : Option ℕ
  pub discount_percent : Option ℕ
  pub discount_valid_until : Option ℕ
  pub stripe_customer_id : Option ℕ

pub data EventStatus : Type 0 where
  active inactive test : EventStatus

pub data EventBillingStatus : Type 0 where
  none_ pending paid invoice waived : EventBillingStatus

pub record Event : Type 0 where
  pub organization_id : ℕ
  pub name : String
  pub description : Option String
  pub start_date : Option ℕ
  pub end_date : Option ℕ
  pub status : EventStatus
  pub billing_status : EventBillingStatus
  pub paid_at : Option ℕ
  pub stripe_checkout_session_id : Option ℕ
  pub price_charged : Option ℤ
