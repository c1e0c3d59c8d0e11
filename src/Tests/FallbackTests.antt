-- ===== src/Tests/FallbackTests.antt =====
-- apps/api/src/fallback/batch-shortfalls.ts at concrete inputs; quantities in thousandths.
use pointofsale.Base.{
  ℕ, ◌+◌, ◌≡◌, refl, false, none, some, List, [], ◌∷◌, ◌++◌, sort, insert, if◌then◌else◌, pos, ◌-ℤ◌,
  arith, All,
}
use pointofsale.Stock.Ledger.{StockEntry, StockTables, sale, is_key}
use pointofsale.Stock.Counts.Steps.{new_shop}
use pointofsale.Fallback.{
  OutboxRow, OutboxDocument, all_rows, fresh_rows, before_row, seller_of, add_shortfall, place_sale,
  place_rows, place_batch_shortfalls,
}
use pointofsale.Fallback.Totals.{IsToldBy, rows_sum, place_batch_shortfalls-rows_sum}

-- The server has 3 of batch 0, the counter sold 5 of it, then 2.
abbrev server : StockTables
server = record new_shop {
  batches = record { id = 0; item_id = 5; batch_no = 77; expiry_date = none; created_at = 3 } ∷ [];
  batch_stock = λ b k. if is_key 1 0 b k then some (pos 3000) else none;
}

abbrev sold : ℕ → StockEntry
sold qty = record {
  branch_id = 1;
  item_id = 5;
  txn_type = sale;
  qty_in = 0;
  qty_out = qty;
  cost_price = 900;
  reason = none;
  reference_id = none;
  line_id = none;
  batch_id = some 0;
}

abbrev row : ℕ → ℕ → ℕ → OutboxRow
row id time qty = record { id = id; created_at = time; entry = sold qty }

abbrev bills : List OutboxDocument
bills =
    record { created_by = 8; ledger = row 101 21 2000 ∷ [] }
    ∷ record { created_by = 9; ledger = row 100 20 5000 ∷ [] }
    ∷ []

placed_run :
    (place_batch_shortfalls server (λ id. false) (λ id. id + 500) bills []).shortfalls
    ≡ record {
      branch_id = 1;
      batch_id = 0;
      batch_no = 77;
      item_id = 5;
      qty = 4000;
      user_id = some 9;
    }
      ∷ []
unfolding place_batch_shortfalls fresh_rows sort insert before_row place_rows place_sale
    add_shortfall seller_of ◌-ℤ◌
placed_run = refl

bills_told : All (IsToldBy (all_rows bills ++ [])) (all_rows bills ++ [])
bills_told = (
  ((λ e. refl, (λ e. ground (arith, e), tt)), λ e. refl),
  (((λ e. ground (arith, e), (λ e. refl, tt)), λ e. refl), tt),
)

place_batch_shortfalls-rows_sum_example :
    let placed = place_batch_shortfalls server (λ id. false) (λ id. id + 500) bills [] in
    rows_sum 1 5 (all_rows placed.invoices ++ all_rows placed.returns)
    ≡ rows_sum 1 5 (all_rows bills ++ [])
place_batch_shortfalls-rows_sum_example =
    place_batch_shortfalls-rows_sum server (λ id. false) (λ id. id + 500) bills [] 1 5 bills_told
