-- ===== src/Sales/Cancel/RoundTrip.antt =====
-- A bill that is made and cancelled.
use pointofsale.Base.{
  ℕ, ◌+◌, ◌≡◌, refl, sym, ap, subst, Bool, true, Option, some, List, [], ◌∷◌, ◌++◌, map, ◌==◌, All,
  All-map, All-Any, Any, arith, ◌∙◌, ◌+ℤ◌, ok, some_injective, put_self,
}
use pointofsale.Shop.{find, SessionUser, Invoice}
use pointofsale.Stock.Batches.{BatchShare, split_over_shares, SharesByItem}
use pointofsale.Stock.Batches.Split.{split_over_shares-AddUp}
use pointofsale.Stock.Ledger.{
  stock_in, stock_out, StockEntry, StockTables, batch_row_qty, get_on_hand_for_item, record_stock,
}
use pointofsale.Stock.Ledger.Sums.{
  is_keyed, record_stock-on_hand, record_stock-in_batch, record_stock-ledger,
}
use pointofsale.Stock.Ledger.Signed.{signed, out_and_in}
use pointofsale.Sales.Lines.{NormalizedSaleLine}
use pointofsale.Sales.Bills.{
  SaleRows, SaleState, Bill, CreateSaleInput, SaleRun, bill_lines, document_line, sale_entries,
  sold_entries, next_document_number, write_bill, draft_invoice,
}
use pointofsale.Sales.Checkout.{create_sale_in_tx, new_bill, sale_totals}
use pointofsale.Sales.Checkout.Sold.{create_sale_in_tx-ok, sale_entries-item, taken_at}
use pointofsale.Sales.Cancel.{cancel_sale, cancelled_state}
use pointofsale.Sales.Cancel.Shares.{out_of_line}
use pointofsale.Sales.Cancel.PutBack.{
  cancel_sale-ok, cancelled_state-in_batch, cancelled_state-on_hand, given_back,
}
use pointofsale.Sales.Cancel.Undone.{
  IsUnique, IsUnused, bill_lines-IsUniqueLines, out_unused, OutMatches, OutMatches-prefix,
  sale_entries-OutMatches, parts_total, OutMatches-sum, sale_entries-batch, OutMatches-whole,
}

lines_member :
    (all ids : List ℕ) (ns : List NormalizedSaleLine)
    → All (λ x. Any (λ y. x ≡ y) all) ids
    → All (λ l. Any (λ y. l.id ≡ y) all) (bill_lines ids ns)
lines_member all [] ns h = tt
lines_member all (id ∷ ids) [] h = tt
lines_member all (id ∷ ids) (n ∷ ns) h = (h.0, lines_member all ids ns h.1)

-- The ledger with a new bill's movements, line by line.
sold-OutMatches :
    (p : Option ℕ → Bool) (ledger : List StockEntry) (branch invoice : ℕ) (ids : List ℕ)
    (ns : List NormalizedSaleLine) (parts : List (List BatchShare))
    → IsUnique ids
    → IsUnused ids ledger
    → OutMatches p
        (ledger ++ sale_entries branch invoice (bill_lines ids ns) parts)
        (bill_lines ids ns)
        parts
sold-OutMatches p ledger branch invoice ids ns parts unique unused =
    let lines = bill_lines ids ns in
    OutMatches-prefix p ledger (sale_entries branch invoice lines parts) lines parts
      (All-map _ _ lines (λ l m. out_unused p l.id ids ledger m unused)
        (lines_member ids ids ns (All-Any ids)))
      (sale_entries-OutMatches p branch invoice lines parts
        (bill_lines-IsUniqueLines ids ns unique))

abbrev pub SameStock : StockTables → StockTables → ℕ → ℕ → ℕ → Type 0
SameStock s t branch item batch =
    (get_on_hand_for_item t branch item ≡ get_on_hand_for_item s branch item)
    × (batch_row_qty (t.batch_stock branch batch) ≡ batch_row_qty (s.batch_stock branch batch))

-- The state after a bill, and after its cancellation.
cancelled_bill-SameStock :
    (st st1 : SaleState) (user : ℕ) (inv : Invoice) (bill : Bill) (ids : List ℕ)
    (ns : List NormalizedSaleLine) (shares : SharesByItem) (b i k : ℕ)
    → bill.lines ≡ bill_lines ids ns
    → st1.stock
      ≡ record_stock st.stock (sold_entries inv.branch_id inv.id (bill_lines ids ns) shares)
    → IsUnique ids
    → IsUnused ids st.stock.ledger
    → SameStock st.stock (cancelled_state st1 user inv bill).stock b i k
unfolding sold_entries
cancelled_bill-SameStock st st1 user inv bill ids ns shares b i k same_lines made unique unused =
    let lines = bill_lines ids ns in
    let branch = inv.branch_id in
    let parts = (split_over_shares (map document_line lines) shares).0 in
    let add_up = split_over_shares-AddUp (map document_line lines) shares in
    let entries = sale_entries branch inv.id lines parts in
    let ledger : st1.stock.ledger ≡ st.stock.ledger ++ entries =
      ap (λ s. s.ledger) made ∙ record_stock-ledger st.stock entries in
    let p = is_keyed b k branch in
    let by_batch = sold-OutMatches p st.stock.ledger branch inv.id ids ns parts unique unused in
    let all =
      sold-OutMatches (λ x. true) st.stock.ledger branch inv.id ids ns parts unique unused in
    let whole_lines : All (λ l. out_of_line (λ x. true) l.id st1.stock.ledger ≡ l.qty) bill.lines =
      rw (ledger, same_lines)
        (OutMatches-whole (st.stock.ledger ++ entries) lines parts add_up all) in
    let given : given_back (λ l. out_of_line p l.id st1.stock.ledger) bill.lines
        ≡ parts_total p lines parts =
      rw (ledger, same_lines)
        (OutMatches-sum p (st.stock.ledger ++ entries) lines parts add_up by_batch) in
    let on_hand = get_on_hand_for_item st.stock b i in
    let sold = taken_at branch lines b i in
    let in_batch = batch_row_qty (st.stock.batch_stock b k) in
    let went = parts_total p lines parts in
    let item_out : get_on_hand_for_item st1.stock b i ≡ on_hand +ℤ signed stock_out sold =
      ap (λ s. get_on_hand_for_item s b i) made
      ∙ (record_stock-on_hand st.stock entries b i
          ∙ ap (λ x. on_hand +ℤ x) (sale_entries-item branch inv.id lines parts b i add_up)) in
    let batch_out : batch_row_qty (st1.stock.batch_stock b k) ≡ in_batch +ℤ signed stock_out went =
      ap (λ (s : StockTables). batch_row_qty (s.batch_stock b k)) made
      ∙ (record_stock-in_batch st.stock entries b k
          ∙ ap (λ x. in_batch +ℤ x) (sale_entries-batch branch inv.id lines parts b k)) in
    (
      cancelled_state-on_hand st1 user inv bill b i whole_lines
          ∙ (ap (λ x. x +ℤ signed stock_in (taken_at branch bill.lines b i)) item_out
              ∙ (ap
                    (λ ls.
                      (on_hand +ℤ signed stock_out sold)
                      +ℤ signed stock_in (taken_at branch ls b i))
                    same_lines
                  ∙ out_and_in on_hand sold)),
      cancelled_state-in_batch st1 user inv bill b k
          ∙ (ap
                (λ x.
                  x
                  +ℤ signed stock_in
                      (given_back (λ l. out_of_line p l.id st1.stock.ledger) bill.lines))
                batch_out
              ∙ (ap (λ n. (in_batch +ℤ signed stock_out went) +ℤ signed stock_in n) given
                  ∙ out_and_in in_batch went)),
    )

find_new :
    (new : Bill) (bills : List Bill)
    → find (λ b. b.invoice_id == new.invoice_id) (new ∷ bills) ≡ some new
find_new new bills =
    let same : (new.invoice_id == new.invoice_id) ≡ true = ground arith in rw same refl

-- A bill that is made and then cancelled leaves the stock of every item and of every batch as it was,
-- when its lines have new ids, one each and all different.
pub cancel_sale-create_sale_in_tx :
    (rows : SaleRows) (is_admin : Bool) (st st' : SaleState) (session canceller : SessionUser)
    (run : SaleRun) (input : CreateSaleInput) (r : SaleState × Invoice)
    (branch today reason_length b i k : ℕ)
    → IsUnique run.line_ids
    → IsUnused run.line_ids st.stock.ledger
    → create_sale_in_tx rows is_admin st session run input ≡ ok r
    → cancel_sale rows r.0 canceller branch today run.invoice_id reason_length ≡ ok st'
    → SameStock st.stock st'.stock b i k
unfolding write_bill next_document_number
cancel_sale-create_sale_in_tx rows is_admin st st' session canceller run input r branch today
      reason_length b i k unique unused h c =
    let (place, user, lines, shares, counter, normalized, taken, made) =
      create_sale_in_tx-ok rows is_admin st session run input r h in
    let (inv, bill, inv_row, bill_row, here, unpaid, same_day, done) =
      cancel_sale-ok rows r.0 st' canceller branch today run.invoice_id reason_length c in
    let inv0 = draft_invoice input run (sale_totals rows is_admin input place lines) in
    let seq = st.document_seq counter run.fiscal_year + 1 in
    let bill0 = new_bill rows is_admin session run input counter seq place lines in
    let is_inv : inv0 ≡ inv = some_injective inv0 inv (
      sym (put_self st.tables.invoices run.invoice_id (some inv0))
      ∙ (ap (λ (x : SaleState × Invoice). x.0.tables.invoices run.invoice_id) made ∙ inv_row)) in
    let is_bill : bill0 ≡ bill = some_injective bill0 bill (
      sym (find_new bill0 st.bills)
      ∙ (ap (λ (x : SaleState × Invoice). find (λ b. b.invoice_id == run.invoice_id) x.0.bills) made
          ∙ bill_row)) in
    subst (λ (x : SaleState). SameStock st.stock x.stock b i k) done
      (subst (λ x. SameStock st.stock (cancelled_state r.0 canceller.user_id x bill).stock b i k)
        is_inv
        (cancelled_bill-SameStock st r.0 canceller.user_id inv0 bill run.line_ids lines shares b i k
          (sym (ap (λ (x : Bill). x.lines) is_bill))
          (sym (ap (λ (x : SaleState × Invoice). x.0.stock) made)) unique unused))
