-- ===== src/Entities/PaymentRows.antt =====
-- src/database/entities/payment.entity.ts and order-item-payment.entity.ts, and the signing request of
-- src/modules/tse/tse.interface.ts.
use openeos_api.Base.{ℕ, ℤ, String, Bool, Option, List}

pub data PaymentMethod : Type 0 where
  cash card sumup_terminal sumup_online paypal google_pay apple_pay : PaymentMethod

-- The enum's members CASH, CARD, SUMUP and PAYPAL.
pub data PaymentProvider : Type 0 where
  cash card sumup paypal : PaymentProvider

pub data PaymentTransactionStatus : Type 0 where
  pending authorized captured failed refunded : PaymentTransactionStatus

-- The gross amount, in cents, at one tax rate, in hundredths of a percent.
pub record TseVatSplit : Type 0 where
  pub rate : ℕ
  pub gross_amount : ℤ

-- What a provider is asked to sign.
pub record TseRequest : Type 0 where
  pub client_id : ℕ
  pub amount : ℤ
  pub payment_method : PaymentMethod
  pub vat_splits : List TseVatSplit

-- The structured detail of a failed attempt.
pub record TseFailure : Type 0 where
  pub error_code : Option String
  pub http_status : Option ℕ
  pub failure_reason : Option String

-- `signature` stands for the fields that the provider fills: numbers, counter, value, times, QR code.
pub record TseTransactionData : Type 0 where
  pub client_id : ℕ
  pub signature : Option String
  pub vat_splits : List TseVatSplit
  pub failed : Bool
  pub failure : Option TseFailure

pub record OrderItemPayment : Type 0 where
  pub order_item_id : ℕ
  pub quantity : ℕ
  pub amount : ℤ

-- The relation `itemPayments` is loaded with its payment.
pub record Payment : Type 0 where
  pub order_id : ℕ
  pub amount : ℤ
  pub payment_method : PaymentMethod
  pub payment_provider : PaymentProvider
  pub provider_transaction_id : Option String
  pub status : PaymentTransactionStatus
  pub tse_data : Option TseTransactionData
  pub processed_by_user_id : Option ℕ
  pub reverses_payment_id : Option ℕ
  pub item_payments : List OrderItemPayment
