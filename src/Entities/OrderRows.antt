-- ===== src/Entities/OrderRows.antt =====
-- src/database/entities/order.entity.ts and order-item.entity.ts.
use openeos_api.Base.{ℕ, ℤ, String, Bool, Option, List}

pub data OrderStatus : Type 0 where
  open_ in_progress ready completed cancelled : OrderStatus

pub data PaymentStatus : Type 0 where
  unpaid partly_paid paid refunded : PaymentStatus

pub data OrderSource : Type 0 where
  pos_terminal online qr_order : OrderSource

pub data OrderPriority : Type 0 where
  normal high rush : OrderPriority

pub data OrderFulfillmentType : Type 0 where
  table_service counter_pickup : OrderFulfillmentType

pub data OrderItemStatus : Type 0 where
  pending preparing ready delivered cancelled : OrderItemStatus

pub record SelectedOption : Type 0 where
  pub group : String
  pub choice : String
  pub price_modifier : ℤ

-- One order line. `unit_price`, `options_price`, `total_price` and `deposit_amount` are in cents,
-- `tax_rate` in hundredths of a percent.
pub record OrderItem : Type 0 where
  pub id : ℕ
  pub product_id : ℕ
  pub category_id : ℕ
  pub product_name : String
  pub category_name : String
  pub quantity : ℕ
  pub unit_price : ℤ
  pub options_price : ℤ
  pub tax_rate : ℕ
  pub total_price : ℤ
  pub options : List SelectedOption
  pub status : OrderItemStatus
  pub notes : Option String
  pub kitchen_notes : Option String
  pub paid_quantity : ℕ
  pub ready_at : Option ℕ
  pub delivered_at : Option ℕ
  pub sort_order : ℕ
  pub production_station_id : Option ℕ
  pub pfand_type_id : Option ℕ
  pub deposit_amount : ℤ
  pub is_refill : Bool

-- The texts of an order that the services store and never read.
pub record OrderTexts : Type 0 where
  pub table_number : Option String
  pub customer_name : Option String
  pub customer_phone : Option String
  pub notes : Option String
  pub discount_reason : Option String

-- The id of a row is its key in the store. The relation `items` is loaded with its order: it holds
-- the rows of order_items of this order.
-- `tax_total` is in ten-thousandths of a cent: the column rounds it, which no service reads back.
pub record Order : Type 0 where
  pub organization_id : ℕ
  pub event_id : Option ℕ
  pub order_number : ℕ × ℕ
  pub daily_number : ℕ
  pub texts : OrderTexts
  pub status : OrderStatus
  pub payment_status : PaymentStatus
  pub source : OrderSource
  pub priority : OrderPriority
  pub fulfillment_type : OrderFulfillmentType
  pub subtotal : ℤ
  pub tax_total : ℤ
  pub total : ℤ
  pub paid_amount : ℤ
  pub tip_amount : ℤ
  pub discount_amount : ℤ
  pub pfand_total : ℤ
  pub completed_at : Option ℕ
  pub cancelled_at : Option ℕ
  pub cancellation_reason : Option String
  pub bewirtungsbeleg_requested : Bool
  pub created_by_user_id : Option ℕ
  pub created_by_device_id : Option ℕ
  pub created_at : ℕ
  pub deleted_at : Option ℕ
  pub items : List OrderItem
