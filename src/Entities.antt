-- ===== src/Entities.antt =====
-- The rows of src/database/entities and the request bodies of the dto folders that the services read.
-- Ids stand for UUIDs and times for `Date` values, as numbers; money is in cents.
mod OrderRows
mod PaymentRows
mod TenantRows
mod EventRows
mod StockRows
mod ShiftRows
pub use OrderRows.*
pub use PaymentRows.*
pub use TenantRows.*
pub use EventRows.*
pub use StockRows.*
pub use ShiftRows.*
