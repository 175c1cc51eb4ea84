-- ===== src/Orders/Cancel/Tests.antt =====
-- The cancellations at the sample order that is paid.
use openeos_api.Base.{none}
use openeos_api.Entities.{Order}
use openeos_api.Store.{Store}
use openeos_api.Samples.{refusing, paid_order}
use openeos_api.Orders.Cancel.{cancelled_order}

abbrev gone : Order
gone = cancelled_order refusing none paid_order
