-- ===== src/Entities/TenantRows.antt =====
-- Organizations, members, events, devices, products, stock movements and the audit trail:
-- src/database/entities/{user-organization,organization,event,device,product,stock-movement,
-- order-audit-log}.entity.ts, each with the fields that the modelled services read or write.
use openeos_api.Base.{ℕ, ℤ, String, Bool, Option}
use openeos_api.Entities.OrderRows.{OrderStatus, PaymentStatus}
use openeos_api.Entities.PaymentRows.{PaymentTransactionStatus, TseFailure}

pub record User : Type 0 where
  pub id : ℕ
  pub is_super_admin : Bool

pub data OrganizationRole : Type 0 where
  admin member : OrganizationRole

-- The permissions of a member; one that is not set is `false`.
pub record OrganizationPermissions : Type 0 where
  pub products : Bool
  pub events : Bool
  pub devices : Bool
  pub members : Bool
  pub shift_plans : Bool
  pub discounts : Bool
  pub pfand : Bool
  pub reports : Bool
  pub inventory : Bool

pub record UserOrganization : Type 0 where
  pub user_id : ℕ
  pub organization_id : ℕ
  pub role : OrganizationRole
  pub permissions : OrganizationPermissions

pub record Device : Type 0 where
  pub tse_client_id : Option ℕ

-- `category_name` and `category_station_id` come with the relation `category`, `pfand_type` (id and
-- amount) with the relation `pfandType`.
pub record Product : Type 0 where
  pub event_id : ℕ
  pub category_id : ℕ
  pub name : String
  pub category_name : String
  pub price : ℤ
  pub tax_rate : ℕ
  pub is_active : Bool
  pub is_available : Bool
  pub track_inventory : Bool
  pub stock_quantity : ℤ
  pub production_station_id : Option ℕ
  pub category_station_id : Option ℕ
  pub pfand_type : Option (ℕ × ℤ)

pub data StockMovementType : Type 0 where
  initial sale sale_cancelled purchase adjustment_plus adjustment_minus : StockMovementType
  inventory_count waste transfer_in transfer_out : StockMovementType

pub record StockMovement : Type 0 where
  pub product_id : ℕ
  pub event_id : Option ℕ
  pub kind : StockMovementType
  pub quantity : ℤ
  pub quantity_before : ℤ
  pub quantity_after : ℤ
  pub reference_id : ℕ
  pub created_by_user_id : ℕ

pub data OrderAuditAction : Type 0 where
  force_cancel_action force_refund_action force_update_status_action : OrderAuditAction

-- The states that an audit entry records.
pub data AuditState : Type 0 where
  order_state : OrderStatus → PaymentStatus → AuditState
  status_only : OrderStatus → AuditState
  payment_state : ℕ → PaymentTransactionStatus → AuditState

pub record OrderAuditLog : Type 0 where
  pub organization_id : ℕ
  pub order_id : ℕ
  pub actor_user_id : ℕ
  pub action : OrderAuditAction
  pub reason : String
  pub before : AuditState
  pub after : Option AuditState
  pub failure : Option TseFailure
