-- ===== src/Entities/StockRows.antt =====
-- Inventory counts, discount vouchers and deposits: src/database/entities/{inventory-count,
-- inventory-count-item,discount-voucher,pfand-type,pfand-return}.entity.ts.
use openeos_api.Base.{ℕ, ℤ, String, Bool, Option, List}

pub data InventoryCountStatus : Type 0 where
  draft in_progress completed cancelled : InventoryCountStatus

pub record InventoryCountItem : Type 0 where
  pub id : ℕ
  pub product_id : ℕ
  pub expected_quantity : ℤ
  pub counted_quantity : Option ℕ
  pub difference : Option ℤ
  pub notes : Option String
  pub counted_by_user_id : Option ℕ
  pub counted_at : Option ℕ

-- The relation `items` is loaded with its count.
pub record InventoryCount : Type 0 where
  pub event_id : ℕ
  pub name : String
  pub status : InventoryCountStatus
  pub started_at : Option ℕ
  pub completed_at : Option ℕ
  pub notes : Option String
  pub created_by_user_id : ℕ
  pub completed_by_user_id : Option ℕ
  pub items : List InventoryCountItem

pub data DiscountVoucherType : Type 0 where
  fixed manual : DiscountVoucherType

pub record DiscountVoucher : Type 0 where
  pub organization_id : ℕ
  pub name : String
  pub description : Option String
  pub kind : DiscountVoucherType
  pub amount : Option ℤ
  pub is_active : Bool
  pub allow_multiple_per_order : Bool
  pub sort_order : ℤ

pub record PfandType : Type 0 where
  pub organization_id : ℕ
  pub name : String
  pub amount : ℤ

pub record PfandReturnLine : Type 0 where
  pub pfand_type_id : ℕ
  pub name : String
  pub unit_amount : ℤ
  pub quantity : ℕ

pub record PfandReturn : Type 0 where
  pub organization_id : ℕ
  pub event_id : Option ℕ
  pub device_id : Option ℕ
  pub created_by_user_id : Option ℕ
  pub total_amount : ℤ
  pub lines : List PfandReturnLine
