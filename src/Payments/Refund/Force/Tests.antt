-- ===== src/Payments/Refund/Force/Tests.antt =====
-- The forced refund of the sample payment while the TSE is out of order.
use openeos_api.Store.{Store}
