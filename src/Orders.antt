-- ===== src/Orders.antt =====
-- src/modules/orders/orders.service.ts: one child for each group of its methods, with the proofs below
-- them. Printing, log lines and the two list queries (findAll, getStats) are not modelled.
pub mod Rows
pub mod Totals
pub mod Stock
pub mod Progress
pub mod Items
pub mod Create
pub mod Status
pub mod Cancel
pub mod Calls
pub mod Guards
pub mod Ledger
