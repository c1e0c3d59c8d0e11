-- ===== src/Sales/Cancel/PutBack.antt =====
-- What cancelling a bill puts back.
use pointofsale.Base.{
  ℕ, ◌≡◌, refl, ap, Bool, true, ◌&&◌, Option, some, List, [], ◌∷◌, map, ◌==◌, if◌then◌else◌, sum_by,
  leb, All, All-map, Any, inl, inr, ◌∙◌, ◌+ℤ◌, ok, >>=-ok, guard->>=, ok_injective, found, found-ok,
}
use pointofsale.Shop.{find, SessionUser, Invoice}
use pointofsale.Stock.Batches.{BatchShare}
use pointofsale.Stock.Ledger.{
  stock_in, stock_out, StockEntry, is_key, batch_key, item_key, get_on_hand_for_item, batch_row_qty,
}
use pointofsale.Stock.Ledger.Sums.{
  is_keyed, entries_sum, of_key, item_sum, batch_sum, entries_sum-append, record_stock-on_hand,
  record_stock-in_batch,
}
use pointofsale.Stock.Ledger.Signed.{signed, signed_add, moved_in, entries_sum-signed, sum_by-const}
use pointofsale.Sales.Checkout.Sold.{taken_at}
use pointofsale.Stock.Lines.{shares_of_lines}
use pointofsale.Sales.Bills.{
  no_cancel_reason, bill_not_found, not_an_unpaid_draft, made_earlier, user_unknown, SaleRows,
  BillLine, Bill, SaleState,
}
use pointofsale.Sales.Cancel.{
  is_draft, cancel_entry, cancelled_shares, cancel_entries, line_id_of, put_back_entries,
  cancelled_state, cancel_sale,
}
use pointofsale.Sales.Cancel.Shares.{out_of_line, shares_of_lines-counted_qty, shares_of_lines_all}

-- What each line gives back, all together.
abbrev pub given_back : (BillLine → ℕ) → List BillLine → ℕ
given_back = sum_by

module _ (branch invoice : ℕ) (taken : ℕ → Option (List BatchShare)) (q : StockEntry → Bool) where
  -- The entries that count, line by line.
  pub cancel_entries-sum :
      (back : BillLine → ℕ) (lines : List BillLine)
      → All
          (λ l.
            sum_by
              (λ x. if q (cancel_entry branch invoice l x) then x.qty else 0)
              (cancelled_shares taken l)
            ≡ back l)
          lines
      → entries_sum q (cancel_entries branch invoice taken lines)
        ≡ signed stock_in (given_back back lines)
  unfolding cancel_entries
  cancel_entries-sum back [] h = refl
  cancel_entries-sum back (l ∷ ls) h =
      let first = map (cancel_entry branch invoice l) (cancelled_shares taken l) in
      entries_sum-append q first (cancel_entries branch invoice taken ls)
      ∙ rw
          (
            entries_sum-signed (cancel_entry branch invoice l) stock_in (λ x. moved_in x.qty) q
                (cancelled_shares taken l),
            h.0,
            cancel_entries-sum back ls h.1,
          )
          (signed_add stock_in (back l) (given_back back ls))

-- Each line is one of the lines.
lines_member : (lines : List BillLine) → All (λ l. Any (λ y. l.id ≡ y) (map line_id_of lines)) lines
lines_member [] = tt
lines_member (l ∷ ls) = (
  inl refl,
  All-map (λ (m : BillLine). Any (λ y. m.id ≡ y) (map line_id_of ls)) _ ls (λ m h. inr h)
      (lines_member ls),
)

-- The bill and the invoice that are cancelled.
pub cancel_sale-ok :
    (rows : SaleRows) (st st' : SaleState) (session : SessionUser)
    (branch today invoice_id reason_length : ℕ)
    → cancel_sale rows st session branch today invoice_id reason_length ≡ ok st'
    → (inv : Invoice) × (bill : Bill) × (st.tables.invoices invoice_id ≡ some inv)
      × (find (λ b. b.invoice_id == invoice_id) st.bills ≡ some bill)
      × ((inv.branch_id == branch) ≡ true)
      × ((is_draft inv.status && (inv.paid_total == 0)) ≡ true)
      × ((bill.created_on == today) ≡ true)
      × (cancelled_state st session.user_id inv bill ≡ st')
unfolding cancel_sale
cancel_sale-ok rows st st' session branch today invoice_id reason_length h =
    let (reason, h1) = guard->>= (leb 3 reason_length) no_cancel_reason _ h in
    let (inv, e2, h2) = >>=-ok (found (st.tables.invoices invoice_id) bill_not_found) _ h1 in
    let (here, h3) = guard->>= (inv.branch_id == branch) bill_not_found _ h2 in
    let (bill, e4, h4) =
      >>=-ok (found (find (λ b. b.invoice_id == invoice_id) st.bills) bill_not_found) _ h3 in
    let (unpaid, h5) =
      guard->>= (is_draft inv.status && (inv.paid_total == 0)) not_an_unpaid_draft _ h4 in
    let (same_day, h6) = guard->>= (bill.created_on == today) made_earlier _ h5 in
    let (user, e7, h7) = >>=-ok (found (rows.users session.user_id) user_unknown) _ h6 in
    (
      inv,
      bill,
      found-ok (st.tables.invoices invoice_id) bill_not_found e2,
      found-ok (find (λ b. b.invoice_id == invoice_id) st.bills) bill_not_found e4,
      here,
      unpaid,
      same_day,
      ok_injective _ _ h7,
    )

-- A cancelled bill gives each batch at its branch what the ledger says its lines took of it.
pub cancelled_state-in_batch :
    (st : SaleState) (user : ℕ) (inv : Invoice) (bill : Bill) (b k : ℕ)
    → batch_row_qty ((cancelled_state st user inv bill).stock.batch_stock b k)
      ≡ batch_row_qty (st.stock.batch_stock b k)
        +ℤ signed stock_in (
            given_back
              (λ l. out_of_line (is_keyed b k inv.branch_id) l.id st.stock.ledger)
              bill.lines)
unfolding cancelled_state put_back_entries batch_sum
cancelled_state-in_batch st user inv bill b k =
    let ids = map line_id_of bill.lines in
    let taken = shares_of_lines st.stock.batches st.stock.ledger ids stock_out in
    let p = is_keyed b k inv.branch_id in
    let entries = put_back_entries st inv bill in
    record_stock-in_batch st.stock entries b k
    ∙ ap (λ x. batch_row_qty (st.stock.batch_stock b k) +ℤ x)
        (cancel_entries-sum inv.branch_id inv.id taken (of_key batch_key b k)
          (λ l. out_of_line p l.id st.stock.ledger) bill.lines
          (All-map _ _ bill.lines
            (λ l m.
              shares_of_lines-counted_qty st.stock.batches st.stock.ledger ids l.id p l.qty m refl)
            (lines_member bill.lines)))

All-both :
    (P Q : BillLine → Type 0) (ls : List BillLine) → All P ls → All Q ls → All (λ l. P l × Q l) ls
All-both P Q [] hp hq = tt
All-both P Q (l ∷ ls) hp hq = ((hp.0, hq.0), All-both P Q ls hp.1 hq.1)

-- And, where the ledger has all of each line, its items get back what the lines sold.
pub cancelled_state-on_hand :
    (st : SaleState) (user : ℕ) (inv : Invoice) (bill : Bill) (b i : ℕ)
    → All (λ l. out_of_line (λ x. true) l.id st.stock.ledger ≡ l.qty) bill.lines
    → get_on_hand_for_item (cancelled_state st user inv bill).stock b i
      ≡ get_on_hand_for_item st.stock b i +ℤ signed stock_in (taken_at inv.branch_id bill.lines b i)
unfolding cancelled_state put_back_entries item_sum
cancelled_state-on_hand st user inv bill b i whole_lines =
    let ids = map line_id_of bill.lines in
    let taken = shares_of_lines st.stock.batches st.stock.ledger ids stock_out in
    let entries = put_back_entries st inv bill in
    record_stock-on_hand st.stock entries b i
    ∙ ap (λ x. get_on_hand_for_item st.stock b i +ℤ x)
        (cancel_entries-sum inv.branch_id inv.id taken (of_key item_key b i)
          (λ l. if is_key b i inv.branch_id l.item_id then l.qty else 0) bill.lines
          (All-map _ _ bill.lines
            (λ l h.
              let here = is_key b i inv.branch_id l.item_id in
              sum_by-const (λ x. here) here (λ x. refl) (cancelled_shares taken l)
              ∙ ap (λ n. if here then n else 0)
                  (shares_of_lines_all st.stock.batches st.stock.ledger ids l.id l.qty h.0 h.1))
            (All-both _ _ bill.lines (lines_member bill.lines) whole_lines)))
