-- ===== src/Sales/Cancel.antt =====
-- apps/api/src/sales/sales.service.ts: `cancelSale`.
pub mod Shares
pub mod PutBack
pub mod Undone
pub mod RoundTrip
use pointofsale.Base.{
  ℕ, Bool, true, false, not, ◌&&◌, Option, none, some, List, [], ◌∷◌, ◌++◌, map, ltb, leb, ◌==◌,
  if◌then◌else◌, Result, ok, err, ◌>>=◌, ◌>>◌, found, guard, put,
}
use pointofsale.Shop.{
  InvoiceStatus, draft, partially_settled, settled, cancelled, SessionUser, Invoice, Tables, find,
}
use pointofsale.Stock.Batches.{BatchShare}
use pointofsale.Stock.Ledger.{stock_out, StockTxnType, StockEntry, record_stock}
use pointofsale.Stock.Counts.{whole, shares_or}
use pointofsale.Stock.Lines.{shares_of_lines}
use pointofsale.Sales.Bills.{
  SaleRefusal, no_cancel_reason, bill_not_found, not_an_unpaid_draft, made_earlier, user_unknown,
  SaleRows, BillLine, Bill, SaleState,
}

abbrev pub is_draft : InvoiceStatus → Bool
is_draft draft = true
is_draft settled = false
is_draft partially_settled = false
is_draft cancelled = false

abbrev pub cancel_entry : ℕ → ℕ → BillLine → BatchShare → StockEntry
cancel_entry branch invoice l share = record {
  branch_id = branch;
  item_id = l.item_id;
  txn_type = StockTxnType.sale_cancel;
  qty_in = share.qty;
  qty_out = 0;
  cost_price = 0;
  reason = none;
  reference_id = some invoice;
  line_id = some l.id;
  batch_id = share.batch_id;
}

-- Back into the batches that each line took, or without a batch.
abbrev pub cancelled_shares : (ℕ → Option (List BatchShare)) → BillLine → List BatchShare
cancelled_shares taken l = shares_or (taken l.id) (whole none l.qty)

unfoldable pub cancel_entries :
    ℕ → ℕ → (ℕ → Option (List BatchShare)) → List BillLine → List StockEntry
cancel_entries branch invoice taken [] = []
cancel_entries branch invoice taken (l ∷ ls) =
    map (cancel_entry branch invoice l) (cancelled_shares taken l)
    ++ cancel_entries branch invoice taken ls

abbrev pub line_id_of : BillLine → ℕ
line_id_of l = l.id

-- The movements that put a bill's stock back.
unfoldable pub put_back_entries : SaleState → Invoice → Bill → List StockEntry
put_back_entries st inv bill =
    cancel_entries inv.branch_id inv.id
      (shares_of_lines st.stock.batches st.stock.ledger (map line_id_of bill.lines) stock_out)
      bill.lines

abbrev pub mark_cancelled : ℕ → ℕ → Bill → Bill
mark_cancelled invoice user b =
    if b.invoice_id == invoice then record b { cancelled_by = some user } else b

-- The cancelled bill, with its stock back.
unfoldable pub cancelled_state : SaleState → ℕ → Invoice → Bill → SaleState
cancelled_state st user inv bill = record st {
  stock = record_stock st.stock (put_back_entries st inv bill);
  tables = record st.tables {
    invoices = put st.tables.invoices inv.id (some (record inv { status = cancelled }));
  };
  bills = map (mark_cancelled inv.id user) st.bills;
}

-- `cancelSale`: the reason is given by its length.
unfoldable pub cancel_sale :
    SaleRows → SaleState → SessionUser → ℕ → ℕ → ℕ → ℕ → Result SaleRefusal SaleState
cancel_sale rows st session branch today invoice_id reason_length = do
  guard (leb 3 reason_length) no_cancel_reason
  inv ← found (st.tables.invoices invoice_id) bill_not_found
  guard (inv.branch_id == branch) bill_not_found
  bill ← found (find (λ b. b.invoice_id == invoice_id) st.bills) bill_not_found
  guard (is_draft inv.status && (inv.paid_total == 0)) not_an_unpaid_draft
  guard (bill.created_on == today) made_earlier
  user ← found (rows.users session.user_id) user_unknown
  ok (cancelled_state st session.user_id inv bill)
