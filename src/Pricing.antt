-- ===== src/Pricing.antt =====
-- packages/contracts/src/pricing.ts: a sale's amounts, and what a return refunds. Amounts are in
-- paise, quantities in thousandths, tax rates in hundredths of a percent.
pub mod Tax
pub mod RoundOff
pub mod Spread
pub mod Discount
pub mod Allocation
pub mod Totals
pub mod Refund
