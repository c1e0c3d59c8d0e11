-- ===== src/Stock.antt =====
-- apps/api/src/stock: which batches stock leaves from and comes back to. Quantities are thousandths,
-- dates numbers yyyymmdd, and ids numbers in the order of `localeCompare`.
pub mod Batches
pub mod BatchStock
pub mod Ledger
pub mod Counts
pub mod Lines
pub mod Lists
