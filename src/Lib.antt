-- ===== src/Lib.antt =====
-- Verification library of the openEOS API: the selling core of its backend, which takes orders,
-- keeps stock, takes payments, signs them with a technical security device (TSE), and cancels and
-- refunds; and around it the life and the billing of events, inventory counts, vouchers, deposit
-- returns, the routing of prints and the registrations of helpers.
--
-- The parts and their files.
--   Base        numbers, lists, signed integers, and tables as rows under ids
--   Entities    src/database/entities/: the rows that the services read and write
--   Store       the database that the services share, and their control flow: a call returns a value
--               or raises an exception, and what it saved before it raised stays saved, as no handler
--               runs in a transaction. Store/Keeps: rules for what a call keeps true
--   Access      checkMembership and checkOrgAdmin, which the two services have in the same words
--   Policies    src/common/utils/pfand-policy.ts and test-event-order-limit.util.ts
--   VatSplit    src/modules/payments/vat-split.ts
--   Tse         src/modules/tse/tse.service.ts: resolveProvider, resolveClientId, recordTransaction
--               and reverseTransaction
--   Orders      src/modules/orders/orders.service.ts: Rows (findOne and the repositories), Totals,
--               Stock, Progress (the status of an order from its items), Items (add, change, remove),
--               Create (create, update, remove), Status (mark, complete, force a status), Cancel.
--               Calls is one type of all calls that write; Ledger holds what they keep true of the
--               stock, Guards who may call them
--   Payments    src/modules/payments/payments.service.ts: Create, Split, Refund, Rows; Doubles has the
--               numbers they compute with; Reversal is the
--               reversal of a payment, which both services spell out
--   Organizations  checkMembership, checkRole and checkPermission of src/modules/organizations/
--               organizations.service.ts, and the checks of the events service
--   Events      src/modules/events: Schedule (countEventDays of src/common/utils/event-schedule.util.ts),
--               Rows (lookups), Lifecycle (events.service.ts), Billing (event-billing.service.ts). Steps
--               reads the services as a step relation on the table, Refinement relates it to the
--               abstract state: which event an organization runs
--   Inventory   src/modules/inventory/inventory.service.ts: counts and the stock they put right
--   Vouchers    src/modules/discount-vouchers/discount-vouchers.service.ts
--   PfandReturns  src/modules/pfand-types/pfand-returns.service.ts
--   PrintRouting  src/modules/print-jobs/print-routing.service.ts
--   Shifts      the registrations of src/modules/shifts/shifts.service.ts: Links has its magic links,
--               Proposals the answers to proposals, Edits the edit by an admin
--   Samples     a small store for the runs
-- The event that Events switches on is the one that Orders takes orders for; Inventory writes the stock
-- that Orders sells from. Orders and payments meet in the store: a payment books its amount on the row of its order, the
-- cancellation of an order adds reversals to the payments. Both call Tse, which calls the provider.
--
-- How the code is read. A method of a service is a function of its arguments, of the caller and of the
-- store; `Env` holds the clock, the configuration, the TSE provider, which may give any answer, and
-- what the ORM writes for a changed foreign key whose relation is loaded. A
-- handler runs as one step: interleavings of two handlers are not modelled. Money is an integer number
-- of cents and stock an integer number of units, where the code has decimal columns: amounts with
-- fractions of a cent are outside of the model. Where the payments service adds, subtracts and compares
-- amounts as JavaScript numbers, Payments/Doubles has these numbers, rounded to 53 bits; everywhere else
-- the code rounds to cents (`toCents` of vat-split.ts, or the column it writes to) and the model stays
-- in cents. A tax rate is in hundredths of a percent. Ids are numbers, fresh ones are counted up; dates are numbers. The order
-- of rows in a table is the order of insertion. A database error is not
-- modelled, but for the two that the code always runs into: the soft deletion of an event, and saving
-- an order whose loaded payments are stale. The loops of the code run over lists and are structural
-- recursions, so no fuel is needed; the exponent of a rounded number is searched for with fuel 64, and
-- the columns hold amounts below 10^8, for which 34 is enough; the loop of `allocateToAmount`
-- runs once for each cent that is left, and is a recursion on that number.
--
-- What is not modelled: list queries and statistics, receipts, printing, mails and log lines, the
-- WebSocket gateway beyond the calls that announce a product or the status of an event, validation of
-- DTOs by decorators, and the other modules of the API (authentication, the administration of
-- organizations, devices, products and categories, reports, the DSFinV-K export, shift plans and
-- the making of proposals, rentals, online orders, and the connectors to payment providers).
pub mod Base
pub mod Entities
pub mod Store
pub mod VatSplit
pub mod Access
pub mod Policies
pub mod Tse
pub mod Inventory
pub mod Vouchers
pub mod PfandReturns
pub mod PrintRouting
pub mod Shifts
pub mod Organizations
pub mod Orders
pub mod Payments
pub mod Events
pub mod Samples
