-- ===== src/PrintRouting/Tests.antt =====
-- Routes of src/modules/print-jobs/print-routing.service.ts.
use openeos_api.Base.{◌≡◌, refl, none, some, [], ◌∷◌}
use openeos_api.PrintRouting.{
  Repositories, RoutedItem, PrinterMode, resolve_item_printer, resolve_order_printer,
}
use openeos_api.PrintRouting.OrderWorkflow.{kitchen}
use openeos_api.PrintRouting.Cascade.{
  first_some, resolve_item_printer_lem, resolve_item_printer-kitchen,
}

-- Device 1 is fixed to printer 40; station 6 has printer 41, and the kitchen of organization 1 printer 42.
abbrev repos : Repositories
repos = record {
  find_device =
      λ k. some (record { printer_mode = some PrinterMode.fixed; default_printer_id = some 40 });
  find_station = λ k. some (some 41);
  find_organization = λ k. some (record {
    kitchen_ticket_printing = some 42;
    receipt_printing = none;
    order_ticket_printing = none;
  });
}

abbrev item : RoutedItem
item = record { production_station_id = some 6; product_station_id = some (some 6) }

on_device : (resolve_item_printer repos item (some 1) 1).printer_id ≡ some 40
unfolding resolve_item_printer
on_device = refl

at_station : (resolve_item_printer repos item none 1).printer_id ≡ some 41
unfolding resolve_item_printer
at_station = refl

resolve_item_printer_lem_example :
    (resolve_item_printer repos item none 1).printer_id ≡ first_some (some 41 ∷ none ∷ some 42 ∷ [])
resolve_item_printer_lem_example = resolve_item_printer_lem repos item none 1

resolve_item_printer-kitchen_example :
    (resolve_item_printer repos item (some 1) 1).printer_id
    ≡ (resolve_order_printer repos 1 (some 1) kitchen).printer_id
resolve_item_printer-kitchen_example = resolve_item_printer-kitchen repos item (some 1) 1 refl
