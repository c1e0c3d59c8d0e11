-- ===== src/Lib.antt =====
-- A verification library of the point-of-sale system in this repository. The server (apps/api)
-- prices sales with the functions that it shares with the web app (packages/contracts), and keeps
-- stock, registers, customers' wallets and suppliers' accounts in a database. The library models
-- that core: each function is a definition that computes, and each handler takes the rows that it
-- reads and gives back the rows as it leaves them, or a refusal.
--
-- The parts, and the code that each is about:
--
-- - Base: tests, lists, signed integers, sorting, and results with `do` blocks (`guard` is a check
--   that throws, `found` a row that must be there, `put` an update of one row). No code.
-- - Money: `roundTo`, `round2` and `round3` of packages/contracts/src/pricing.ts.
-- - Pricing: packages/contracts/src/pricing.ts. Pricing/Tax is `lineTax`, `splitGst` and
--   `exclusiveBase`; RoundOff the rounding of a bill; Spread the two loops that hand out single
--   paise; Discount `resolveDiscountAmounts`; Allocation `allocateDiscountAcrossBases`; Totals
--   `computeSaleTotals`; Refund the amounts and the round-off of a return.
-- - Stock/Batches: apps/api/src/stock/batches.ts: which batches stock leaves from (`pickBatches`),
--   how a document's lines share them (`splitOverShares`), and where returned goods go
--   (`putBack`). Stock/BatchStock: apps/api/src/stock/batch-stock.ts: what `takeFromBatches` takes
--   or refuses; Stock/Lines: `sharesOfLines`, the batches that a document's lines moved.
--   Stock/Ledger: apps/api/src/stock/stock.service.ts: the ledger, the rows of items and of
--   batches beside it, `recordStock`, which writes both, and `resolveBatch`; Stock/Counts: opening
--   counts, their correction and adjustments, and, in Counts/Steps, the changes that a shop's
--   stock goes through; Stock/Lists: `lowStock` and `listBatches`.
-- - Fallback: apps/api/src/fallback/batch-shortfalls.ts: `placeBatchShortfalls`, how the sales
--   that an offline counter made past a batch's stock are split before they reach the ledger.
-- - Shop: the tables, sessions and receipt numbers (`nextSequence`) that the services of
--   apps/api/src share, and `assertRegisterOpen`.
-- - Sales/Lines: apps/api/src/sales/sale-lines.ts: how a line is priced and checked against its
--   item, with apps/api/src/common/quantities.ts and branch-prices.ts, and the cashier's discount
--   limit.
-- - Sales/Bills, Sales/Checkout and Sales/Cancel: apps/api/src/sales/sales.service.ts: a bill and
--   its movements, `createSaleInTx` and `checkoutSale` with the credit limit of
--   apps/api/src/customers/receivables.service.ts, and `cancelSale`; Sales/Numbers: the numbers of
--   bills (`nextDocumentNumber` of apps/api/src/sequences/sequences.service.ts). A bill reads the
--   lines, the pricing, the stock, the register and the settlement of the other parts in the order
--   of the code.
-- - Sales/Settlement: apps/api/src/sales/sale-settlement.service.ts: `settleSaleInTx`, with the
--   wallet, the receipt and the replay of a request that is sent again.
-- - Customers: apps/api/src/customers/customers.service.ts: topping up a wallet (`topupWallet`).
-- - Registers: apps/api/src/registers/registers.service.ts: opening and closing a register.
--   Drawer: the cash that should be in its drawer (`registerCash`), which reads the payments that
--   settlements write.
-- - Service: packages/contracts/src/billing.ts (where a subscription stands, and how its paid time
--   is extended), packages/contracts/src/version.ts (`isOlderVersion`) and
--   apps/api/src/common/rate-limit.ts (`FailureLimiter`).
-- - Suppliers/Ledger: apps/api/src/suppliers/supplier-ledger.ts.
-- - Codes: the codes of packages/contracts/src: GSTINs, units and document numbers (gst.ts), EAN
--   check digits and scale labels (barcodes.ts), Code 128 barcodes (code128.ts).
-- - Tests: runs at concrete inputs, and the theorems applied at inputs that meet their hypotheses.
--
-- How the code is read. An amount is a natural number of paise and a quantity one of thousandths,
-- which is what the code rounds to after each step; a tax rate and a percentage are hundredths of
-- a percent, and an amount that may be negative is a signed integer. The code's doubles are taken
-- as the decimals that they stand for: a sum or a difference that the code rounds is exact here,
-- and a quotient is compared by its numerator and denominator, so two fractions that are equal as
-- numbers but not as doubles are ordered as equal. NaN and infinities, which the code refuses or
-- treats as 0, are not values here. A date is a number yyyymmdd, a time and an id are numbers, ids
-- in the order of `localeCompare`; a text that is read character by character is the list of its
-- code points. A table is a function of its key or a list of rows, newest first (the stock ledger
-- and the batches oldest first); a transaction either gives new tables or a refusal, and a refusal
-- leaves the tables, as a rollback does. Requests on one row follow one another, which is what the
-- row and advisory locks are for. What the database or a library computes is a parameter: the id
-- of a new row, the time, and the digest that marks a request (SHA-256 of its payments).
--
-- Loops that run until nothing is left take the number of paise still to hand out as fuel. Each
-- round hands out at least one, so it is enough: the sums of the discounts and of their shares are
-- proved exactly, which a loop that stopped early would not meet. The other loops follow their
-- lists.
--
-- Not modelled: the web and desktop apps, sign-in and tokens, the separation of businesses
-- (tenancy), settings, mail, backups, exports and imports, reports and GST returns, the layout of
-- receipts and labels, the SQL schema and its migrations, and the HTTP layer with its validation.
-- The services not named above (the lists, lookups and printed rows of sales, returns beyond their
-- amounts, purchases, transfers, items, customers beyond top-ups, the rest of the fallback
-- counter's synchronisation, payments for subscriptions) call the parts that are modelled.
pub mod Base
pub mod Money
pub mod Pricing
pub mod Service
pub mod Shop
pub mod Codes
pub mod Customers
pub mod Drawer
pub mod Fallback
pub mod Registers
pub mod Sales
pub mod Stock
pub mod Suppliers
pub mod Tests
