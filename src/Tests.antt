-- ===== src/Tests.antt =====
-- Runs at concrete inputs, and the theorems applied at inputs that meet their hypotheses.
mod PricingTests
mod StockTests
mod SalesTests
mod SaleSamples
mod RegisterTests
mod LedgerTests
mod CodeTests
mod LineTests
mod ServiceTests
mod CountTests
mod BillTests
mod FallbackTests
