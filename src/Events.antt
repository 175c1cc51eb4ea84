-- ===== src/Events.antt =====
-- src/modules/events: the life of an event (events.service.ts), its days
-- (src/common/utils/event-schedule.util.ts) and its billing (event-billing.service.ts). Not modelled:
-- copyFromEvent, the list queries, the invoices that Stripe issues, the company search and the shop.
mod Tests
pub mod Schedule
pub mod Rows
pub mod Lifecycle
pub mod Billing
pub mod Calls
pub mod Steps
pub mod Refinement
