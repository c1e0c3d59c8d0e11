-- ===== src/Suppliers.antt =====
-- apps/api/src/suppliers: what is owed to a supplier.
pub mod Ledger
