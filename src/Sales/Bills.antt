-- ===== src/Sales/Bills.antt =====
-- apps/api/src/sales/sales.service.ts: making a bill with its stock, checking out, and cancelling a bill.
-- What the settings, the tax registration and the item list say is read as it stands; the ids that
-- `randomUUID` and the database make are given with the request. Texts (names, phones, addresses, the
-- reference), the HSN columns, the due date and the audit log are left out. A transaction that is refused
-- leaves the state as it was; two requests with one key at the same time are not modelled.
use pointofsale.Base.{
  ℕ, ◌+◌, Bool, true, false, not, ◌&&◌, ◌||◌, Option, none, some, List, [], ◌∷◌, ◌++◌, map, ◌==◌,
  if◌then◌else◌, Result, ok, ◌>>◌, guard, put, pos, ltb_ℤ, pos_part,
}
use pointofsale.Shop.{Refusal, draft, Invoice, Receipt, Tables}
use pointofsale.Codes.Gstin.{TaxpayerType, regular, composition, unregistered}
use pointofsale.Pricing.Discount.{DiscountInput}
use pointofsale.Pricing.RoundOff.{RoundOffMode}
use pointofsale.Pricing.Totals.{PricedLineInput, SaleTotals, compute_sale_totals}
use pointofsale.Customers.{CustomerScope, WalletCustomer}
use pointofsale.Stock.Batches.{BatchShare, DocumentLine, SharesByItem, split_over_shares}
use pointofsale.Stock.BatchStock.{Want}
use pointofsale.Stock.Ledger.{
  StockTxnType, StockError, StockEntry, StockTables, get_on_hand_for_item, record_stock,
}
use pointofsale.Sales.Lines.{LineRefusal, SaleItem, BranchPrice, SaleLineInput, NormalizedSaleLine}

pub data SaleRefusal : Type 0 where
  no_seller_gstin customer_not_found customer_of_other_branch user_unknown : SaleRefusal
  insufficient_stock over_credit_limit offline_payment walk_in_not_paid : SaleRefusal
  checkout_key_used no_cancel_reason bill_not_found not_an_unpaid_draft made_earlier : SaleRefusal
  of_shop : Refusal → SaleRefusal
  of_line : LineRefusal → SaleRefusal
  of_stock : StockError → SaleRefusal

pub record SaleSettings : Type 0 where
  pub allow_negative_stock : Bool
  pub customer_scope : CustomerScope
  pub round_off_mode : RoundOffMode
  pub cashier_max_discount : ℕ

-- The taxpayer type that decides the bill, and the branch's registration.
pub record Seller : Type 0 where
  pub taxpayer_type : TaxpayerType
  pub gstin : Option ℕ
  pub state_code : Option ℕ

pub record SaleCustomer : Type 0 where
  pub wallet : WalletCustomer
  pub credit_limit : Option ℕ
  pub owed_at_copy : ℕ

pub record SaleUser : Type 0 where
  pub is_admin : Bool
  pub may_sell_past_stock : Bool

-- What a sale reads of the shop.
pub record SaleRows : Type 0 where
  pub settings : SaleSettings
  pub seller : ℕ → Seller
  pub customers : ℕ → Option SaleCustomer
  pub users : ℕ → Option SaleUser
  pub items : List SaleItem
  pub prices : ℕ → List BranchPrice

pub record BillLine : Type 0 where
  pub id : ℕ
  pub item_id : ℕ
  pub qty : ℕ

-- The columns of a bill that a settlement does not read: its number (a counter's series, the financial
-- year and the count), its lines and its totals.
pub record Bill : Type 0 where
  pub invoice_id : ℕ
  pub series : ℕ
  pub fiscal_year : ℕ
  pub seq : ℕ
  pub idempotency_key : Option ℕ
  pub created_by : ℕ
  pub created_on : ℕ
  pub place_of_supply : Option ℕ
  pub seller_gstin : Option ℕ
  pub lines : List BillLine
  pub totals : SaleTotals
  pub cancelled_by : Option ℕ

pub record SaleState : Type 0 where
  pub tables : Tables
  pub stock : StockTables
  pub bills : List Bill
  pub document_seq : ℕ → ℕ → ℕ

pub record CheckedOut : Type 0 where
  pub state : SaleState
  pub invoice : Invoice
  pub receipt : Option Receipt

abbrev pub has_key : ℕ → Bill → Bool
has_key key b = elim b.idempotency_key [ none ↦ false | some k ↦ k == key ]

pub record CreateSaleInput : Type 0 where
  pub branch_id : ℕ
  pub customer_id : ℕ
  pub lines : List SaleLineInput
  pub discounts : List DiscountInput
  pub place_of_supply : Option ℕ
  pub idempotency_key : Option ℕ

-- The date (yyyymmdd), the financial year, and the new ids.
pub record SaleRun : Type 0 where
  pub today : ℕ
  pub fiscal_year : ℕ
  pub invoice_id : ℕ
  pub line_ids : List ℕ

abbrev pub is_unregistered : TaxpayerType → Bool
is_unregistered unregistered = true
is_unregistered regular = false
is_unregistered composition = false

abbrev pub has_value : Option ℕ → Bool
has_value none = false
has_value (some n) = true

-- An unregistered shop has no GSTIN on its bills.
abbrev pub billing_seller : Seller → Seller
billing_seller s = if is_unregistered s.taxpayer_type then record s { gstin = none } else s

abbrev pub is_other_state : Option ℕ → Option ℕ → Bool
is_other_state none place = false
is_other_state (some state) none = false
is_other_state (some state) (some place) = not (place == state)

-- `qtyByItem`: every line of an item, in the order of the first.
unfoldable pub add_want : List Want → ℕ → ℕ → List Want
add_want [] item qty = record { item_id = item; qty = qty } ∷ []
add_want (w ∷ ws) item qty =
    if w.item_id == item then record w { qty = w.qty + qty } ∷ ws else w ∷ add_want ws item qty

unfoldable pub qty_by_item : List Want → List NormalizedSaleLine → List Want
qty_by_item wants [] = wants
qty_by_item wants (n ∷ ns) = qty_by_item (add_want wants n.line.item_id n.pricing.unit.qty) ns

abbrev pub may_sell_past : SaleSettings → SaleUser → Bool
may_sell_past settings u = settings.allow_negative_stock && (u.is_admin || u.may_sell_past_stock)

-- Each item's stock covers what is sold of it, unless it may be sold past the count.
unfoldable pub check_on_hand : StockTables → ℕ → Bool → List Want → Result SaleRefusal (Unit {0})
check_on_hand s branch may [] = ok tt
check_on_hand s branch may (w ∷ ws) =
    guard (not (ltb_ℤ (get_on_hand_for_item s branch w.item_id) (pos w.qty) && not may))
      insufficient_stock
    >> check_on_hand s branch may ws

-- What the maths shared with the POS is given.
abbrev pub priced_input : NormalizedSaleLine → PricedLineInput
priced_input n = record {
  qty = n.pricing.unit.qty;
  sale_uom_qty = n.pricing.unit.sale_uom_qty;
  rate = n.pricing.rate;
  tax_rate = n.pricing.tax_rate;
  tax_mode = some n.pricing.tax_mode;
  discounts = n.line.discounts;
}

-- `calculateSaleTotals`
unfoldable pub calculate_sale_totals :
    List NormalizedSaleLine → List DiscountInput → Bool → Bool → RoundOffMode → SaleTotals
calculate_sale_totals lines discounts charge_tax inter_state mode =
    compute_sale_totals (map priced_input lines) discounts (record {
      charge_tax = some charge_tax;
      inter_state = some inter_state;
      round_off = some mode;
    })

-- The lines with their new ids.
abbrev pub bill_lines : List ℕ → List NormalizedSaleLine → List BillLine
bill_lines [] ns = []
bill_lines (id ∷ ids) [] = []
bill_lines (id ∷ ids) (n ∷ ns) =
    record { id = id; item_id = n.line.item_id; qty = n.pricing.unit.qty } ∷ bill_lines ids ns

abbrev pub document_line : BillLine → DocumentLine
document_line l = record { item_id = l.item_id; qty = l.qty }

abbrev pub sale_entry : ℕ → ℕ → BillLine → BatchShare → StockEntry
sale_entry branch invoice l part = record {
  branch_id = branch;
  item_id = l.item_id;
  txn_type = StockTxnType.sale;
  qty_in = 0;
  qty_out = part.qty;
  cost_price = 0;
  reason = none;
  reference_id = some invoice;
  line_id = some l.id;
  batch_id = part.batch_id;
}

unfoldable pub sale_entries : ℕ → ℕ → List BillLine → List (List BatchShare) → List StockEntry
sale_entries branch invoice [] parts = []
sale_entries branch invoice (l ∷ ls) [] = []
sale_entries branch invoice (l ∷ ls) (p ∷ parts) =
    map (sale_entry branch invoice l) p ++ sale_entries branch invoice ls parts

-- The bill's movements: each line out of the batches taken for its item.
unfoldable pub sold_entries : ℕ → ℕ → List BillLine → SharesByItem → List StockEntry
sold_entries branch invoice lines shares =
    sale_entries branch invoice lines (split_over_shares (map document_line lines) shares).0

-- `nextDocumentNumber` of an invoice: the count of a counter's series in a financial year. The series is
-- the counter's id, which the code's text of its branch's code and its own number stands for.
unfoldable pub next_document_number : SaleState → ℕ → ℕ → SaleState × ℕ
next_document_number st counter year =
    let seq = st.document_seq counter year + 1 in
    (
      record st {
        document_seq = put st.document_seq counter (put (st.document_seq counter) year seq);
      },
      seq,
    )

abbrev pub draft_invoice : CreateSaleInput → SaleRun → SaleTotals → Invoice
draft_invoice i run totals = record {
  id = run.invoice_id;
  branch_id = i.branch_id;
  customer_id = i.customer_id;
  status = draft;
  grand_total = pos_part totals.rounding.grand_total;
  paid_total = 0;
  credited_total = 0;
}

-- The bill's rows and its movements.
unfoldable pub write_bill : SaleState → Invoice → Bill → SharesByItem → SaleState
write_bill st inv bill shares = record st {
  tables = record st.tables { invoices = put st.tables.invoices inv.id (some inv) };
  bills = bill ∷ st.bills;
  stock = record_stock st.stock (sold_entries inv.branch_id inv.id bill.lines shares);
}
