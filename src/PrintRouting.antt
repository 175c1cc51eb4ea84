-- ===== src/PrintRouting.antt =====
-- src/modules/print-jobs/print-routing.service.ts: which printer prints a line item or a receipt. The
-- repositories are lookups; an id that is missing or empty is `none`.
pub mod Cascade
mod Tests
use openeos_api.Base.{ℕ, Bool, true, false, not, Option, none, some, ◌==◌, if◌then◌else◌}

pub data PrinterMode : Type 0 where
  fixed dynamic device category product : PrinterMode

pub record DeviceSettings : Type 0 where
  pub printer_mode : Option PrinterMode
  pub default_printer_id : Option ℕ

-- `settings.orderFlow`
pub record OrderFlow : Type 0 where
  pub kitchen_ticket_printing : Option ℕ
  pub receipt_printing : Option ℕ
  pub order_ticket_printing : Option ℕ

-- The printer of a station, and what the other repositories hold.
pub record Repositories : Type 0 where
  pub find_device : ℕ → Option DeviceSettings
  pub find_station : ℕ → Option (Option ℕ)
  pub find_organization : ℕ → Option OrderFlow

pub data ItemPrinterSource : Type 0 where
  from_product from_category from_device from_org nowhere : ItemPrinterSource

pub data OrderWorkflow : Type 0 where
  kitchen receipt order_ticket : OrderWorkflow

-- The station that is noted on the item, and that of its product, if the product is loaded.
pub record RoutedItem : Type 0 where
  pub production_station_id : Option ℕ
  pub product_station_id : Option (Option ℕ)

pub record ResolveResult : Type 0 where
  pub printer_id : Option ℕ
  pub source : ItemPrinterSource

abbrev pub and_find {ℓ} : {A : Type ℓ} → Option ℕ → (ℕ → Option A) → Option A
and_find none find = none
and_find (some k) find = find k

abbrev pub is_fixed_mode : Option PrinterMode → Bool
is_fixed_mode (some PrinterMode.fixed) = true
is_fixed_mode _ = false

abbrev pub is_fixed : Option DeviceSettings → Bool
is_fixed none = false
is_fixed (some d) = is_fixed_mode d.printer_mode

abbrev pub default_of : Option DeviceSettings → Option ℕ
default_of none = none
default_of (some d) = d.default_printer_id

abbrev pub flatten {ℓ} : {A : Type ℓ} → Option (Option A) → Option A
flatten none = none
flatten (some o) = o

abbrev pub printer_for : OrderWorkflow → Option OrderFlow → Option ℕ
printer_for kitchen none = none
printer_for receipt none = none
printer_for order_ticket none = none
printer_for kitchen (some f) = f.kitchen_ticket_printing
printer_for receipt (some f) = f.receipt_printing
printer_for order_ticket (some f) = f.order_ticket_printing

abbrev pub is_station : Option ℕ → ℕ → Bool
is_station none k = false
is_station (some j) k = j == k

-- Whether the station on the item is that of its product.
abbrev pub source_of : Option (Option ℕ) → ℕ → ItemPrinterSource
source_of none sid = from_product
source_of (some station) sid = if is_station station sid then from_product else from_category

abbrev pub org_step : Option ℕ → ResolveResult
org_step (some p) = record { printer_id = some p; source = from_org }
org_step none = record { printer_id = none; source = nowhere }

abbrev pub device_step : Option ℕ → ResolveResult → ResolveResult
device_step (some p) rest = record { printer_id = some p; source = from_device }
device_step none rest = rest

abbrev pub printer_step : Option ℕ → ItemPrinterSource → ResolveResult → ResolveResult
printer_step (some p) source rest = record { printer_id = some p; source = source }
printer_step none source rest = rest

-- Step 1, unless the device is fixed or the item has no station.
abbrev pub station_step :
    Repositories → Bool → Option ℕ → Option (Option ℕ) → ResolveResult → ResolveResult
station_step repos true station product_station rest = rest
station_step repos false none product_station rest = rest
station_step repos false (some sid) product_station rest =
    printer_step (flatten (repos.find_station sid)) (source_of product_station sid) rest

unfoldable pub resolve_item_printer : Repositories → RoutedItem → Option ℕ → ℕ → ResolveResult
resolve_item_printer repos item order_device org =
    let found_device = and_find order_device repos.find_device in
    station_step repos (is_fixed found_device) item.production_station_id item.product_station_id (
      device_step (default_of found_device)
        (org_step (printer_for kitchen (repos.find_organization org))))

unfoldable pub resolve_order_printer : Repositories → ℕ → Option ℕ → OrderWorkflow → ResolveResult
resolve_order_printer repos org order_device order_ticket =
    org_step (printer_for order_ticket (repos.find_organization org))
resolve_order_printer repos org order_device workflow =
    device_step (default_of (and_find order_device repos.find_device))
      (org_step (printer_for workflow (repos.find_organization org)))
