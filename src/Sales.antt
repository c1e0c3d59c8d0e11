-- ===== src/Sales.antt =====
-- apps/api/src/sales: the lines of a sale, taking payment for it, and the bill with its stock.
pub mod Lines
pub mod Settlement
pub mod Bills
pub mod Checkout
pub mod Cancel
pub mod Numbers
