-- ===== src/Orders/Ledger/Calls.antt =====
-- Whatever is called, in whatever order, the stock ledger holds.
use openeos_api.Store.{Store}
use openeos_api.Store.Keeps.{Keeps}
use openeos_api.Orders.Calls.{OrderCall}
