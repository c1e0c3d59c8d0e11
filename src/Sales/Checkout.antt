-- ===== src/Sales/Checkout.antt =====
-- apps/api/src/sales/sales.service.ts: `createSaleInTx`, `createSale` and `checkoutSale`, with the credit
-- limit of apps/api/src/customers/receivables.service.ts.
pub mod Sold
pub mod Covered
pub mod Replay
use pointofsale.Base.{
  ℕ, ◌+◌, ◌≤◌, Bool, true, false, not, ◌&&◌, ◌||◌, Option, none, some, List, [], ◌∷◌, ◌++◌, map,
  ltb, leb, ◌==◌, if◌then◌else◌, filter, sum_by, Result, ok, err, ◌>>=◌, ◌>>◌, found, guard,
  map_err, put, pos, ltb_ℤ, pos_part,
}
use pointofsale.Shop.{
  Refusal, branch_mismatch, PaymentMode, InvoiceStatus, draft, partially_settled, settled,
  cancelled, SessionUser, Invoice, Receipt, Tables, PosEnv, is_fallback, is_wallet,
  require_session_branch_id, find, assert_register_open,
}
use pointofsale.Codes.Gstin.{TaxpayerType, regular, composition, unregistered, charges_gst}
use pointofsale.Pricing.Discount.{DiscountInput}
use pointofsale.Pricing.RoundOff.{RoundOffMode}
use pointofsale.Pricing.Totals.{PricedLineInput, SaleTotals, compute_sale_totals}
use pointofsale.Customers.{CustomerScope, WalletCustomer, customer_usable_at}
use pointofsale.Stock.Batches.{BatchShare, DocumentLine, SharesByItem, split_over_shares}
use pointofsale.Stock.BatchStock.{Want, take_from_batches}
use pointofsale.Stock.Ledger.{
  stock_out, StockTxnType, StockError, StockEntry, StockTables, ensure_branch_exists,
  get_on_hand_for_item, record_stock, lots_of, not_taken,
}
use pointofsale.Stock.Counts.{is_tracked, whole, shares_or}
use pointofsale.Stock.Lines.{shares_of_lines}
use pointofsale.Sales.Lines.{
  LineRefusal, SaleItem, BranchPrice, SaleLineInput, NormalizedSaleLine, normalize_sale_lines,
  resolve_place_of_supply, assert_within_cashier_discount_limit,
}
use pointofsale.Sales.Settlement.{
  PaymentInput, Settled, pay_total, settle_sale_in_tx, invoice_due, is_settled,
}
use pointofsale.Sales.Bills.{
  CheckedOut, has_key, SaleRefusal, SaleSettings, Seller, SaleCustomer, SaleUser, SaleRows,
  BillLine, Bill, SaleState, CreateSaleInput, SaleRun, is_unregistered, has_value, billing_seller,
  is_other_state, add_want, qty_by_item, may_sell_past, check_on_hand, priced_input,
  calculate_sale_totals, bill_lines, document_line, sale_entry, sale_entries, sold_entries,
  next_document_number, draft_invoice, write_bill, no_seller_gstin, customer_not_found,
  customer_of_other_branch, user_unknown, insufficient_stock, over_credit_limit, offline_payment,
  walk_in_not_paid, checkout_key_used, no_cancel_reason, bill_not_found, not_an_unpaid_draft,
  made_earlier, of_shop, of_line, of_stock,
}

-- Bills that may still have something owed on them.
abbrev pub is_unpaid : InvoiceStatus → Bool
is_unpaid draft = true
is_unpaid partially_settled = true
is_unpaid settled = false
is_unpaid cancelled = false

abbrev pub due_of : ℕ → Option Invoice → ℕ
due_of customer none = 0
due_of customer (some inv) =
    if (inv.customer_id == customer) && is_unpaid inv.status then invoice_due inv else 0

abbrev pub no_payments : List PaymentInput → Bool
no_payments [] = true
no_payments (p ∷ ps) = false

abbrev pub pays_by_wallet : List PaymentInput → Bool
pays_by_wallet [] = false
pays_by_wallet (p ∷ ps) = is_wallet p.mode || pays_by_wallet ps

module _ (rows : SaleRows) (is_admin : Bool) where
  -- The customer, and that the branch may sell to them.
  unfoldable pub sale_customer : SaleState → ℕ → ℕ → Result SaleRefusal SaleCustomer
  sale_customer st branch id = do
    c ← found (rows.customers id) customer_not_found
    guard
        (customer_usable_at (st.tables.is_walk_in id) c.wallet branch rows.settings.customer_scope)
        customer_of_other_branch
    ok c

  -- The stock that is sold: checked, and the batches it leaves.
  unfoldable pub take_stock :
      StockTables → ℕ → ℕ → Bool → List Want → Result SaleRefusal SharesByItem
  take_stock s branch today may wants = do
    check_on_hand s branch may wants
    map_err of_stock (
        map_err not_taken (
          take_from_batches (is_tracked s) (lots_of s branch) wants
            (record { today = today; allow_short = may; include_expired = false })))

  -- A cashier's discounts are limited.
  abbrev pub check_discounts :
      List NormalizedSaleLine → SaleTotals → Bool → Result SaleRefusal (Unit {0})
  check_discounts lines totals charge_tax =
      if is_admin
      then ok tt
      else map_err of_line (
          assert_within_cashier_discount_limit lines (map (λ c. c.taxable) totals.lines)
            rows.settings.cashier_max_discount charge_tax)

  abbrev pub sale_totals : CreateSaleInput → Option ℕ → List NormalizedSaleLine → SaleTotals
  sale_totals input place lines =
      let seller = rows.seller input.branch_id in
      calculate_sale_totals lines input.discounts (charges_gst seller.taxpayer_type)
        (is_other_state seller.state_code place) rows.settings.round_off_mode

  abbrev pub new_bill :
      SessionUser → SaleRun → CreateSaleInput → ℕ → ℕ → Option ℕ → List NormalizedSaleLine → Bill
  new_bill session run input counter seq place lines = record {
    invoice_id = run.invoice_id;
    series = counter;
    fiscal_year = run.fiscal_year;
    seq = seq;
    idempotency_key = input.idempotency_key;
    created_by = session.user_id;
    created_on = run.today;
    place_of_supply = place;
    seller_gstin = (billing_seller (rows.seller input.branch_id)).gstin;
    lines = bill_lines run.line_ids lines;
    totals = sale_totals input place lines;
    cancelled_by = none;
  }

  -- The bill, numbered, with its invoice and its movements.
  abbrev pub written :
      SaleState
      → SessionUser
      → SaleRun
      → CreateSaleInput
      → ℕ
      → Option ℕ
      → List NormalizedSaleLine
      → SharesByItem
      → SaleState × Invoice
  written st session run input counter place lines shares =
      let numbered = next_document_number st counter run.fiscal_year in
      let inv = draft_invoice input run (sale_totals input place lines) in
      (
        write_bill numbered.0 inv (new_bill session run input counter numbered.1 place lines)
            shares,
        inv,
      )

  -- `createSaleInTx`
  unfoldable pub create_sale_in_tx :
      SaleState → SessionUser → SaleRun → CreateSaleInput → Result SaleRefusal (SaleState × Invoice)
  create_sale_in_tx st session run input = do
    branch ← map_err of_shop (require_session_branch_id session)
    guard (branch == input.branch_id) (of_shop branch_mismatch)
    map_err of_stock (ensure_branch_exists st.stock input.branch_id)
    let seller = rows.seller input.branch_id
    let charge_tax = charges_gst seller.taxpayer_type
    guard (is_unregistered seller.taxpayer_type || has_value seller.gstin) no_seller_gstin
    place ←
        map_err of_line
          (resolve_place_of_supply seller.state_code input.place_of_supply seller.taxpayer_type)
    customer ← sale_customer st input.branch_id input.customer_id
    user ← found (rows.users session.user_id) user_unknown
    lines ←
        map_err of_line
          (normalize_sale_lines rows.items (rows.prices input.branch_id) charge_tax input.lines)
    shares ←
        take_stock st.stock input.branch_id run.today (may_sell_past rows.settings user)
          (qty_by_item [] lines)
    counter ← map_err of_shop (assert_register_open st.tables session)
    check_discounts lines (sale_totals input place lines) charge_tax
    ok (written st session run input counter place lines shares)

  -- `outstanding`: what a customer owes on their bills, and on those the copy has not.
  unfoldable pub outstanding : SaleState → ℕ → ℕ → ℕ
  outstanding st customer owed_at_copy =
      sum_by (λ b. due_of customer (st.tables.invoices b.invoice_id)) st.bills + owed_at_copy

  abbrev pub within_limit : SaleState → ℕ → SaleCustomer → Option ℕ → Bool
  within_limit st id c none = true
  within_limit st id c (some limit) = is_admin || leb (outstanding st id c.owed_at_copy) limit

  unfoldable pub assert_within_credit_limit :
      SaleState → ℕ → Option SaleCustomer → Result SaleRefusal (Unit {0})
  assert_within_credit_limit st id none = ok tt
  assert_within_credit_limit st id (some c) =
      guard (within_limit st id c c.credit_limit) over_credit_limit

  -- `createSale`: a bill to be paid later.
  unfoldable pub create_sale :
      SaleState → SessionUser → SaleRun → CreateSaleInput → Result SaleRefusal (SaleState × Invoice)
  create_sale st session run input = do
    made ← create_sale_in_tx st session run input
    assert_within_credit_limit made.0 made.1.customer_id (rows.customers made.1.customer_id)
    ok made

  -- A bill that is not paid in full is owed by a customer who can owe it.
  unfoldable pub check_unpaid : SaleState → ℕ → Invoice → Result SaleRefusal (Unit {0})
  check_unpaid st customer inv =
      let owes = (do
        guard (not (st.tables.is_walk_in customer)) walk_in_not_paid
        assert_within_credit_limit st customer (rows.customers customer)) in
      if is_settled inv.status then ok tt else owes

  module _ (fingerprint : List PaymentInput → ℕ) (env : PosEnv) where
    abbrev pub paid_part :
        SaleState → SessionUser → Invoice → List PaymentInput → Result SaleRefusal CheckedOut
    paid_part st session inv payments = do
      done ←
          map_err of_shop (settle_sale_in_tx fingerprint env st.tables session inv.id payments none)
      ok (record {
        state = record st { tables = done.tables };
        invoice = done.invoice;
        receipt = some done.receipt;
      })

    -- `findCheckoutReplay`: the bill of a key, its invoice and its last receipt.
    abbrev pub replayed :
        SaleState → SessionUser → Bill → Option Invoice → Result SaleRefusal CheckedOut
    replayed st session b none = err bill_not_found
    replayed st session b (some inv) =
        if (b.created_by == session.user_id)
          && elim session.branch_id [ none ↦ false | some br ↦ inv.branch_id == br ]
        then ok (record {
          state = st;
          invoice = inv;
          receipt = find (λ r. r.invoice_id == inv.id) st.tables.receipts;
        })
        else err checkout_key_used

    -- A new sale, and its payments.
    unfoldable pub checkout_new :
        SaleState
        → SessionUser
        → SaleRun
        → CreateSaleInput
        → List PaymentInput
        → Result SaleRefusal CheckedOut
    checkout_new st session run input payments = do
      made ← create_sale_in_tx st session run input
      done ←
          (if no_payments payments
            then ok (record { state = made.0; invoice = made.1; receipt = none })
            else paid_part made.0 session made.1 payments)
      guard
          (not (
            is_fallback env
            && (pays_by_wallet payments || ltb done.invoice.grand_total (pay_total payments))))
          offline_payment
      check_unpaid done.state input.customer_id done.invoice
      ok done

    abbrev checkout_found :
        SaleState
        → SessionUser
        → SaleRun
        → CreateSaleInput
        → List PaymentInput
        → Option Bill
        → Result SaleRefusal CheckedOut
    checkout_found st session run input payments none = checkout_new st session run input payments
    checkout_found st session run input payments (some b) =
        replayed st session b (st.tables.invoices b.invoice_id)

    -- `checkoutSale`, with a key that is the request's.
    unfoldable pub checkout_sale :
        SaleState
        → SessionUser
        → SaleRun
        → CreateSaleInput
        → ℕ
        → List PaymentInput
        → Result SaleRefusal CheckedOut
    checkout_sale st session run input key payments =
        checkout_found st session run (record input { idempotency_key = some key }) payments
          (find (has_key key) st.bills)
