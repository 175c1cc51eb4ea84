-- ===== src/PrintRouting/Cascade.antt =====
-- The cascade of src/modules/print-jobs/print-routing.service.ts is the first printer of a list.
use openeos_api.Base.{
  ℕ, ◌≡◌, refl, sym, ap, ◌∙◌, Bool, true, false, Option, none, some, List, [], ◌∷◌, if◌then◌else◌,
}
use openeos_api.PrintRouting.{
  Repositories, RoutedItem, ItemPrinterSource, resolve_item_printer, resolve_order_printer,
  and_find, is_fixed, default_of, flatten, printer_for, station_step, device_step, org_step,
  printer_step,
}
use openeos_api.PrintRouting.OrderWorkflow.{kitchen}

-- The first printer that is there.
abbrev pub first_some : List (Option ℕ) → Option ℕ
first_some [] = none
first_some (some p ∷ rest) = some p
first_some (none ∷ rest) = first_some rest

-- The printer of the station of an item.
abbrev pub station_printer : Repositories → RoutedItem → Option ℕ
station_printer repos item = flatten (and_find item.production_station_id repos.find_station)

abbrev pub is_nowhere : ItemPrinterSource → Bool
is_nowhere ItemPrinterSource.nowhere = true
is_nowhere _ = false

abbrev pub is_missing : Option ℕ → Bool
is_missing none = true
is_missing (some p) = false

last_steps : (d o : Option ℕ) → (device_step d (org_step o)).printer_id ≡ first_some (d ∷ o ∷ [])
last_steps (some p) o = refl
last_steps none (some q) = refl
last_steps none none = refl

station_first :
    (repos : Repositories) (b : Bool) (item : RoutedItem) (station : Option ℕ)
    (product_station : Option (Option ℕ)) (d o : Option ℕ)
    → (station_step repos b station product_station (device_step d (org_step o))).printer_id
      ≡ first_some
          ((if b then none else flatten (and_find station repos.find_station)) ∷ d ∷ o ∷ [])
station_first repos true item station product_station d o = last_steps d o
station_first repos false item none product_station d o = last_steps d o
station_first repos false item (some sid) product_station d o =
    found (flatten (repos.find_station sid)) _
  where
    found :
        (p : Option ℕ) (source : ItemPrinterSource)
        → (printer_step p source (device_step d (org_step o))).printer_id
          ≡ first_some (p ∷ d ∷ o ∷ [])
    found (some p) source = refl
    found none source = last_steps d o

-- The printer of a line item is the first one that is there of: the printer of the station noted on the
-- item, unless the device of the order is in fixed mode, the default printer of that device, and the
-- kitchen printer of the organization.
pub resolve_item_printer_lem :
    (repos : Repositories) (item : RoutedItem) (order_device : Option ℕ) (org : ℕ)
    → (resolve_item_printer repos item order_device org).printer_id
      ≡ first_some (
          (if is_fixed (and_find order_device repos.find_device)
            then none
            else station_printer repos item)
          ∷ default_of (and_find order_device repos.find_device)
          ∷ printer_for kitchen (repos.find_organization org)
          ∷ [])
unfolding resolve_item_printer
resolve_item_printer_lem repos item order_device org =
    station_first repos _ item item.production_station_id item.product_station_id _ _

-- A line item whose station gives no printer, or whose device is in fixed mode, goes where the kitchen
-- ticket of its order goes.
pub resolve_item_printer-kitchen :
    (repos : Repositories) (item : RoutedItem) (order_device : Option ℕ) (org : ℕ)
    → (if is_fixed (and_find order_device repos.find_device)
        then none
        else station_printer repos item)
      ≡ none
    → (resolve_item_printer repos item order_device org).printer_id
      ≡ (resolve_order_printer repos org order_device kitchen).printer_id
unfolding resolve_order_printer
resolve_item_printer-kitchen repos item order_device org h =
    let d = default_of (and_find order_device repos.find_device) in
    let o = printer_for kitchen (repos.find_organization org) in
    resolve_item_printer_lem repos item order_device org
    ∙ ap (λ p. first_some (p ∷ d ∷ o ∷ [])) h
    ∙ sym (last_steps d o)
