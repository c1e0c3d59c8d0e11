-- ===== src/Tests/BillTests.antt =====
-- apps/api/src/sales/sales.service.ts at concrete inputs: two boxes of ten are billed, and cancelled.
use pointofsale.Base.{
  ◌≡◌, ◌⊎◌, refl, true, false, none, some, [], ◌∷◌, ◌==◌, if◌then◌else◌, pos, ◌+ℤ◌, ◌-ℤ◌, ◌≤ℤ◌, ok,
  sort,
}
use pointofsale.Money.{round_div}
use pointofsale.Codes.Gstin.{regular, charges_gst}
use pointofsale.Pricing.RoundOff.{RoundOffMode}
use pointofsale.Pricing.Tax.{mrp_problem, price_with_tax}
use pointofsale.Customers.{shared}
use pointofsale.Shop.{assert_register_open}
use pointofsale.Stock.Batches.{
  SharesByItem, put_shares, is_expired, fresh_lots, expired_lots, unbatched_share, sources_of,
  take_sources, pick_batches,
}
use pointofsale.Stock.BatchStock.{take_from_batches, take_item, take_picked, unbatched_of}
use pointofsale.Stock.Ledger.{
  stock_out, get_on_hand_for_item, item_moves, batch_moves, add_deltas, add_delta, apply_moves,
  record_stock, lots_of,
}
use pointofsale.Stock.Ledger.Signed.{signed}
use pointofsale.Sales.Lines.{
  normalize_sale_lines, normalize_sale_line, resolve_line_pricing, unit_in, variant_unit,
  with_branch_prices, assert_qty_respects_least_count, resolve_place_of_supply,
}
use pointofsale.Sales.Lines.Quantity.{ordered}
use pointofsale.Sales.Bills.{
  CheckedOut, calculate_sale_totals, SaleRows, SaleState, CreateSaleInput, SaleRun, qty_by_item,
  add_want, check_on_hand, write_bill, next_document_number, draft_invoice,
}
use pointofsale.Sales.Checkout.Replay.{checkout_sale-replay}
use pointofsale.Sales.Checkout.{
  checkout_sale, checkout_new, check_unpaid, assert_within_credit_limit, sale_customer, take_stock,
  sale_totals, new_bill, written, create_sale_in_tx,
}
use pointofsale.Sales.Checkout.Sold.{create_sale_in_tx-on_hand}
use pointofsale.Sales.Checkout.Covered.{create_sale_in_tx-not_below_zero}
use pointofsale.Sales.Cancel.{cancel_sale, cancelled_state}
use pointofsale.Sales.Cancel.RoundTrip.{SameStock, cancel_sale-create_sale_in_tx}
use pointofsale.Sales.Numbers.{HasNumbers}
use pointofsale.Sales.Numbers.Reached.{
  BillsReached, no_bills, next_bill, billed, cancelled, BillsReached-HasNumbers,
}
use pointofsale.Tests.SaleSamples.{
  sample_tables, cashier, online, sample_fingerprint, sample_payments,
}
use pointofsale.Tests.LineTests.{soap, box_price, sample_line, sample_normalized}
use pointofsale.Tests.CountTests.{opened_shop}

abbrev sample_rows : SaleRows
sample_rows = record {
  settings = record {
    allow_negative_stock = false;
    customer_scope = shared;
    round_off_mode = RoundOffMode.none;
    cashier_max_discount = 200;
  };
  seller = λ b. record { taxpayer_type = regular; gstin = some 33; state_code = some 27 };
  customers = λ c. some (record {
    wallet = record { customer_id = c; branch_id = 1 };
    credit_limit = none;
    owed_at_copy = 0;
  });
  users = λ u. some (record { is_admin = true; may_sell_past_stock = false });
  items = soap ∷ [];
  prices = λ b. box_price ∷ [];
}

abbrev before_bill : SaleState
before_bill = record {
  tables = sample_tables;
  stock = opened_shop;
  bills = [];
  document_seq = λ series year. 8;
}

abbrev bill_input : CreateSaleInput
bill_input = record {
  branch_id = 1;
  customer_id = 5;
  lines = sample_line ∷ [];
  discounts = [];
  place_of_supply = none;
  idempotency_key = none;
}

abbrev bill_run : SaleRun
bill_run = record { today = 20_270_101; fiscal_year = 2026; invoice_id = 80; line_ids = 501 ∷ [] }

abbrev bill_shares : SharesByItem
bill_shares = put_shares (λ item. none) 5 (record { batch_id = some 0; qty = 20_000 } ∷ [])

abbrev after_bill : SaleState
after_bill =
    (written sample_rows true before_bill cashier bill_run bill_input 2 (some 27)
      (sample_normalized ∷ []) bill_shares).0

create_run :
    create_sale_in_tx sample_rows true before_bill cashier bill_run bill_input
    ≡ ok (
        written sample_rows true before_bill cashier bill_run bill_input 2
          (some 27)
          (sample_normalized ∷ [])
          bill_shares)
unfolding create_sale_in_tx resolve_place_of_supply charges_gst sale_customer take_stock
    check_on_hand qty_by_item add_want assert_register_open normalize_sale_lines normalize_sale_line
    resolve_line_pricing unit_in variant_unit with_branch_prices assert_qty_respects_least_count
    mrp_problem price_with_tax round_div get_on_hand_for_item record_stock item_moves batch_moves
    add_deltas add_delta apply_moves take_from_batches lots_of take_item take_picked unbatched_of
    pick_batches sources_of take_sources fresh_lots expired_lots unbatched_share ◌-ℤ◌ ◌+ℤ◌ sort
    is_expired
create_run = refl

create_sale_in_tx-on_hand_example :
    get_on_hand_for_item after_bill.stock 1 5
    ≡ get_on_hand_for_item opened_shop 1 5
      +ℤ signed stock_out (if 1 == 1 then ordered 5 (sample_line ∷ []) else 0)
create_sale_in_tx-on_hand_example =
    create_sale_in_tx-on_hand sample_rows true before_bill cashier bill_run bill_input _ 1 5 refl
      create_run

create_sale_in_tx-not_below_zero_example :
    (ordered 5 (sample_line ∷ []) ≡ 0) ⊎ (pos 0 ≤ℤ get_on_hand_for_item after_bill.stock 1 5)
create_sale_in_tx-not_below_zero_example =
    create_sale_in_tx-not_below_zero sample_rows true before_bill cashier bill_run bill_input _ 5
      refl refl create_run

abbrev cancelled_bill : SaleState
cancelled_bill =
    cancelled_state after_bill 9
      (draft_invoice bill_input bill_run
        (sale_totals sample_rows true bill_input (some 27) (sample_normalized ∷ [])))
      (new_bill sample_rows true cashier bill_run bill_input 2 9 (some 27) (sample_normalized ∷ []))

cancel_run : cancel_sale sample_rows after_bill cashier 1 20_270_101 80 12 ≡ ok cancelled_bill
unfolding cancel_sale write_bill next_document_number
cancel_run = refl

cancel_sale-create_sale_in_tx_example : SameStock opened_shop cancelled_bill.stock 1 5 0
unfolding record_stock
cancel_sale-create_sale_in_tx_example =
    cancel_sale-create_sale_in_tx sample_rows true before_bill cancelled_bill cashier cashier
      bill_run bill_input _ 1 20_270_101 12 1 5 0 (tt, tt) (refl, tt) create_run cancel_run

-- On credit, with a key.
abbrev keyed_input : CreateSaleInput
keyed_input = record bill_input { idempotency_key = some 7 }

abbrev on_credit : CheckedOut
on_credit =
    let made =
      written sample_rows true before_bill cashier bill_run keyed_input 2 (some 27)
        (sample_normalized ∷ []) bill_shares in
    record { state = made.0; invoice = made.1; receipt = none }

checkout_run :
    checkout_sale sample_rows true sample_fingerprint online before_bill cashier bill_run bill_input
      7 []
    ≡ ok on_credit
unfolding checkout_sale checkout_new check_unpaid assert_within_credit_limit write_bill
    next_document_number create_sale_in_tx resolve_place_of_supply charges_gst sale_customer
    take_stock check_on_hand qty_by_item add_want assert_register_open normalize_sale_lines
    normalize_sale_line resolve_line_pricing unit_in variant_unit with_branch_prices
    assert_qty_respects_least_count mrp_problem price_with_tax round_div get_on_hand_for_item
    record_stock item_moves batch_moves add_deltas add_delta apply_moves take_from_batches lots_of
    take_item take_picked unbatched_of pick_batches sources_of take_sources fresh_lots expired_lots
    unbatched_share ◌-ℤ◌ ◌+ℤ◌ sort is_expired calculate_sale_totals
checkout_run = refl

checkout_sale-replay_example :
    checkout_sale sample_rows true sample_fingerprint online on_credit.state cashier bill_run
      bill_input 7 sample_payments
    ≡ ok on_credit
checkout_sale-replay_example =
    checkout_sale-replay sample_rows true sample_fingerprint online before_bill cashier bill_run
      bill_run bill_input bill_input 7 [] sample_payments on_credit refl checkout_run

sample-BillsReached : BillsReached cancelled_bill
sample-BillsReached =
    next_bill
      (next_bill (no_bills before_bill refl)
        (billed sample_rows true cashier bill_run bill_input _ create_run))
      (cancelled sample_rows cashier 1 20_270_101 80 12 cancel_run)

BillsReached-HasNumbers_example : HasNumbers cancelled_bill
BillsReached-HasNumbers_example = BillsReached-HasNumbers cancelled_bill sample-BillsReached
