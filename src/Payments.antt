-- ===== src/Payments.antt =====
-- src/modules/payments/payments.service.ts: one child for each group of its methods. Receipts (PDF, mail,
-- signed link), the list queries and printing are not modelled.
pub mod Reversal
pub mod Doubles
pub mod Net
pub mod Rows
pub mod Create
pub mod Split
pub mod Refund
