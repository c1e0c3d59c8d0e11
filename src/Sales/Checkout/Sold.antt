-- ===== src/Sales/Checkout/Sold.antt =====
-- What a bill takes out of stock.
use pointofsale.Base.{
  ℕ, ◌+◌, ◌≡◌, refl, sym, ap, subst, Bool, ◌||◌, Option, List, [], ◌∷◌, map, ◌==◌, if◌then◌else◌,
  sum_by, length, arith, ◌∙◌, ◌+ℤ◌, ok, >>=-ok, guard->>=, ok_injective, found, map_err, map_err-ok,
}
use pointofsale.Shop.{
  require_session_branch_id, assert_register_open, branch_mismatch, SessionUser, Invoice,
}
use pointofsale.Codes.Gstin.{charges_gst}
use pointofsale.Stock.Batches.{BatchShare, SharesByItem, split_over_shares}
use pointofsale.Stock.Batches.Split.{AddUp, split_over_shares-AddUp}
use pointofsale.Stock.BatchStock.{Want}
use pointofsale.Stock.Ledger.{
  stock_out, is_key, item_key, get_on_hand_for_item, ensure_branch_exists,
}
use pointofsale.Stock.Ledger.Sums.{of_key, item_sum, entries_sum-append, record_stock-on_hand}
use pointofsale.Stock.Ledger.Signed.{
  signed, signed_zero, signed_add, moved_out, signed-if, item_sum-signed,
}
use pointofsale.Sales.Lines.{NormalizedSaleLine, normalize_sale_lines, resolve_place_of_supply}
use pointofsale.Sales.Lines.Quantity.{ordered, sold_of, normalize_sale_lines-qty}
use pointofsale.Sales.Bills.{
  of_shop, of_line, of_stock, no_seller_gstin, user_unknown, SaleRows, SaleUser, BillLine,
  SaleState, CreateSaleInput, SaleRun, is_unregistered, has_value, add_want, qty_by_item,
  may_sell_past, bill_lines, document_line, sale_entry, sale_entries, sold_entries,
  next_document_number, write_bill,
}
use pointofsale.Sales.Checkout.{
  sale_customer, take_stock, check_discounts, sale_totals, written, create_sale_in_tx,
}

-- What is wanted of an item.
abbrev pub wanted : ℕ → List Want → ℕ
wanted item = sum_by (λ w. if w.item_id == item then w.qty else 0)

-- What a bill's lines take of an item at a branch.
abbrev pub taken_at : ℕ → List BillLine → ℕ → ℕ → ℕ
taken_at branch lines b i = sum_by (λ l. if is_key b i branch l.item_id then l.qty else 0) lines

pub sale_entries-item :
    (branch invoice : ℕ) (lines : List BillLine) (parts : List (List BatchShare)) (b i : ℕ)
    → AddUp (map document_line lines) parts
    → item_sum (sale_entries branch invoice lines parts) b i
      ≡ signed stock_out (taken_at branch lines b i)
unfolding sale_entries item_sum
sale_entries-item branch invoice [] parts b i h = sym (signed_zero stock_out)
sale_entries-item branch invoice (l ∷ ls) [] b i h = absurd h
sale_entries-item branch invoice (l ∷ ls) (p ∷ parts) b i h =
    let first = map (sale_entry branch invoice l) p in
    let rest = sale_entries branch invoice ls parts in
    let here = is_key b i branch l.item_id in
    entries_sum-append (of_key item_key b i) first rest
    ∙ rw
        (
          item_sum-signed (sale_entry branch invoice l) stock_out branch l.item_id (λ x. refl)
              (λ x. refl) (λ x. moved_out x.qty) p b i,
          h.0,
          sale_entries-item branch invoice ls parts b i h.1,
          signed-if stock_out here l.qty,
        )
        (signed_add stock_out (if here then l.qty else 0) (taken_at branch ls b i))

taken_at-bill_lines :
    (branch : ℕ) (ids : List ℕ) (ns : List NormalizedSaleLine) (b i : ℕ)
    → length ids ≡ length ns
    → taken_at branch (bill_lines ids ns) b i ≡ (if branch == b then sold_of i ns else 0)
taken_at-bill_lines branch [] [] b i h = ground arith
taken_at-bill_lines branch [] (n ∷ ns) b i h = ground (arith, h)
taken_at-bill_lines branch (id ∷ ids) [] b i h = ground (arith, h)
taken_at-bill_lines branch (id ∷ ids) (n ∷ ns) b i h =
    let ih = taken_at-bill_lines branch ids ns b i (omega (arith, h)) in ground (arith, ih)

module _ (rows : SaleRows) (is_admin : Bool) where
  -- The lines, the batches and the counter of a sale that is made.
  pub create_sale_in_tx-ok :
      (st : SaleState) (session : SessionUser) (run : SaleRun) (input : CreateSaleInput)
      (r : SaleState × Invoice)
      → create_sale_in_tx rows is_admin st session run input ≡ ok r
      → (place : Option ℕ) × (user : SaleUser) × (lines : List NormalizedSaleLine)
        × (shares : SharesByItem) × (counter : ℕ) × (normalize_sale_lines rows.items
              (rows.prices input.branch_id)
              (charges_gst (rows.seller input.branch_id).taxpayer_type)
              input.lines
            ≡ ok lines)
        × (take_stock rows is_admin st.stock input.branch_id run.today
              (may_sell_past rows.settings user)
              (qty_by_item [] lines)
            ≡ ok shares)
        × (written rows is_admin st session run input counter place lines shares ≡ r)
  unfolding create_sale_in_tx
  create_sale_in_tx-ok st session run input r h =
      let seller = rows.seller input.branch_id in
      let charge_tax = charges_gst seller.taxpayer_type in
      let (branch, e1, h1) = >>=-ok (map_err of_shop (require_session_branch_id session)) _ h in
      let (same, h2) = guard->>= (branch == input.branch_id) (of_shop branch_mismatch) _ h1 in
      let (u3, e3, h3) =
        >>=-ok (map_err of_stock (ensure_branch_exists st.stock input.branch_id)) _ h2 in
      let (registered, h4) =
        guard->>= (is_unregistered seller.taxpayer_type || has_value seller.gstin) no_seller_gstin _
          h3 in
      let (place, e5, h5) =
        >>=-ok
          (map_err of_line
            (resolve_place_of_supply seller.state_code input.place_of_supply seller.taxpayer_type))
          _ h4 in
      let (customer, e6, h6) =
        >>=-ok (sale_customer rows is_admin st input.branch_id input.customer_id) _ h5 in
      let (user, e7, h7) = >>=-ok (found (rows.users session.user_id) user_unknown) _ h6 in
      let normalized =
        normalize_sale_lines rows.items (rows.prices input.branch_id) charge_tax input.lines in
      let (lines, e8, h8) = >>=-ok (map_err of_line normalized) _ h7 in
      let (shares, e9, h9) =
        >>=-ok
          (take_stock rows is_admin st.stock input.branch_id run.today
            (may_sell_past rows.settings user) (qty_by_item [] lines))
          _ h8 in
      let (counter, e10, h10) =
        >>=-ok (map_err of_shop (assert_register_open st.tables session)) _ h9 in
      let (u11, e11, h11) =
        >>=-ok
          (check_discounts rows is_admin lines (sale_totals rows is_admin input place lines)
            charge_tax)
          _ h10 in
      (
        place,
        user,
        lines,
        shares,
        counter,
        map_err-ok of_line normalized e8,
        e9,
        ok_injective _ _ h11,
      )

  -- A bill takes what was ordered of each item out of its stock at the branch, and nothing of any other
  -- stock, when each line has an id.
  pub create_sale_in_tx-on_hand :
      (st : SaleState) (session : SessionUser) (run : SaleRun) (input : CreateSaleInput)
      (r : SaleState × Invoice) (branch item : ℕ)
      → length run.line_ids ≡ length input.lines
      → create_sale_in_tx rows is_admin st session run input ≡ ok r
      → get_on_hand_for_item r.0.stock branch item
        ≡ get_on_hand_for_item st.stock branch item
          +ℤ signed stock_out (if input.branch_id == branch then ordered item input.lines else 0)
  unfolding write_bill next_document_number sold_entries
  create_sale_in_tx-on_hand st session run input r b i ids h =
      let (place, user, lines, shares, counter, normalized, taken, made) =
        create_sale_in_tx-ok st session run input r h in
      let branch = input.branch_id in
      let bill = bill_lines run.line_ids lines in
      let parts = (split_over_shares (map document_line bill) shares).0 in
      let entries = sale_entries branch run.invoice_id bill parts in
      let (sold, count) =
        normalize_sale_lines-qty rows.items (rows.prices branch)
          (charges_gst (rows.seller branch).taxpayer_type) input.lines lines i normalized in
      subst
        (λ (x : SaleState × Invoice).
          get_on_hand_for_item x.0.stock b i
          ≡ get_on_hand_for_item st.stock b i
            +ℤ signed stock_out (if branch == b then ordered i input.lines else 0))
        made
        (record_stock-on_hand st.stock entries b i
          ∙ ap (λ x. get_on_hand_for_item st.stock b i +ℤ x)
              (sale_entries-item branch run.invoice_id bill parts b i
                  (split_over_shares-AddUp (map document_line bill) shares)
                ∙ ap (signed stock_out) (
                    taken_at-bill_lines branch run.line_ids lines b i (ids ∙ sym count)
                    ∙ ap (λ n. if branch == b then n else 0) sold)))

add_want-wanted :
    (ws : List Want) (item qty i : ℕ)
    → wanted i (add_want ws item qty) ≡ (if item == i then qty else 0) + wanted i ws
unfolding add_want
add_want-wanted [] item qty i = ground arith
add_want-wanted (w ∷ ws) item qty i = ground (arith, add_want-wanted ws item qty i)

pub qty_by_item-wanted :
    (ws : List Want) (ns : List NormalizedSaleLine) (i : ℕ)
    → wanted i (qty_by_item ws ns) ≡ wanted i ws + sold_of i ns
unfolding qty_by_item
qty_by_item-wanted ws [] i = omega arith
qty_by_item-wanted ws (n ∷ ns) i = omega (
  arith,
  qty_by_item-wanted (add_want ws n.line.item_id n.pricing.unit.qty) ns i,
  add_want-wanted ws n.line.item_id n.pricing.unit.qty i,
)
