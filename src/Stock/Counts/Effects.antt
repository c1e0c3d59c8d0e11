-- ===== src/Stock/Counts/Effects.antt =====
-- What an adjustment of the count does to the stock on hand.
use pointofsale.Base.{
  ℕ, ◌≡◌, refl, subst, Bool, true, false, not, Option, none, some, List, [], ◌∷◌, map,
  if◌then◌else◌, pos, ◌+ℤ◌, ◌≤ℤ◌, ltb_ℤ, Bool-cases, inl, inr, arith, ◌∙◌, ok, >>=-ok, guard->>=,
  ok_injective, map_err, map_err-ok, found, ◌==◌,
}
use pointofsale.Stock.Batches.{BatchShare, SharesByItem, total_qty, put_shares}
use pointofsale.Stock.BatchStock.{
  ItemStock, TakeOptions, Want, take_item, take_from_batches, pick_input,
}
use pointofsale.Stock.BatchStock.Taking.{take_item-IsTaken, IsTaken}
use pointofsale.Stock.Ledger.{
  StockDirection, stock_in, stock_out, StockTables, is_key, get_on_hand_for_item, find_batch,
  lots_of, not_taken, insufficient_stock, no_such_batch, batch_too_small, batch_row_qty,
}
use pointofsale.Stock.Ledger.Sums.{net_moved, record_stock-on_hand}
use pointofsale.Stock.Ledger.Signed.{signed, moved_in, moved_out, item_sum-signed}
use pointofsale.Stock.Counts.{
  CountInput, checked_item, item_and_batch, adjustment_shares, adjustment_entry, shares_out,
  shares_or, whole, is_tracked, create_stock_adjustment,
}
use pointofsale.Stock.Counts.Summed.{adjustment_shares-frame, SameCounts-on_hand}

-- The stock that may go out.
abbrev pub HasEnough : StockTables → CountInput → StockDirection → Type 0
HasEnough s c stock_in = Unit
HasEnough s c stock_out = pos c.qty ≤ℤ get_on_hand_for_item s c.branch_id c.item_id

taken_total :
    (i : ItemStock) (qty : ℕ) (o : TakeOptions) (shares : List BatchShare)
    → take_item i qty o ≡ ok shares
    → total_qty shares ≡ qty
taken_total i qty o shares h =
    (subst (λ r. IsTaken (pick_input i qty o) qty o.allow_short r) h (take_item-IsTaken i qty o)).0

put_total :
    (shares d : List BatchShare) (item qty : ℕ)
    → total_qty shares ≡ qty
    → total_qty (shares_or (put_shares (λ j. none) item shares item) d) ≡ qty
put_total shares d item qty h = let same : (item == item) ≡ true = ground arith in rw same h

whole_total : (batch : Option ℕ) (qty : ℕ) → total_qty (whole batch qty) ≡ qty
whole_total batch qty = omega arith

take_one-total :
    (tracked : ℕ → Bool) (stock : ℕ → ItemStock) (w : Want) (o : TakeOptions) (taken : SharesByItem)
    → take_from_batches tracked stock (w ∷ []) o ≡ ok taken
    → total_qty (shares_or (taken w.item_id) (whole none w.qty)) ≡ w.qty
unfolding take_from_batches
take_one-total tracked stock w o taken h = elim (Bool-cases (tracked w.item_id)) [
  | inl by_batch ↦
      let (shares, e, h1) = >>=-ok (take_item (stock w.item_id) w.qty o) _ (rw by_batch at h) in
      subst (λ (m : SharesByItem). total_qty (shares_or (m w.item_id) (whole none w.qty)) ≡ w.qty)
        (ok_injective _ _ h1)
        (put_total shares (whole none w.qty) w.item_id w.qty (taken_total _ w.qty o shares e))
  | inr plain ↦
      subst (λ (m : SharesByItem). total_qty (shares_or (m w.item_id) (whole none w.qty)) ≡ w.qty)
        (ok_injective _ _ (rw plain at h)) (whole_total none w.qty)
]

shares_out-total :
    (s : StockTables) (c : CountInput) (today : ℕ) (number : Option ℕ) (shares : List BatchShare)
    → shares_out s c today number ≡ ok shares
    → total_qty shares ≡ c.qty
shares_out-total s c today none shares h =
    let w : Want = record { item_id = c.item_id; qty = c.qty } in
    let o : TakeOptions = record { today = today; allow_short = false; include_expired = true } in
    let lots = lots_of s c.branch_id in
    let (taken, e, h1) =
      >>=-ok (map_err not_taken (take_from_batches (is_tracked s) lots (w ∷ []) o)) _ h in
    let e' = map_err-ok not_taken (take_from_batches (is_tracked s) lots (w ∷ []) o) e in
    subst (λ x. total_qty x ≡ c.qty) (ok_injective _ _ h1)
      (take_one-total (is_tracked s) lots w o taken e')
shares_out-total s c today (some number) shares h =
    let (named, e, h1) = >>=-ok (found (find_batch s c.item_id number) no_such_batch) _ h in
    let (enough, h2) =
      guard->>= (not (ltb_ℤ (batch_row_qty (s.batch_stock c.branch_id named.id)) (pos c.qty)))
        batch_too_small _ h1 in
    subst (λ x. total_qty x ≡ c.qty) (ok_injective _ _ h2) (whole_total (some named.id) c.qty)

adjustment_moved :
    (c : CountInput) (dir : StockDirection) (x : BatchShare)
    → net_moved (adjustment_entry c dir x) ≡ signed dir x.qty
adjustment_moved c stock_in x = moved_in x.qty
adjustment_moved c stock_out x = moved_out x.qty

adjustment_shares-total :
    (s : StockTables) (c : CountInput) (by_batch : Bool) (dir : StockDirection) (today now : ℕ)
    (r : StockTables × List BatchShare)
    → adjustment_shares s c by_batch dir today now ≡ ok r
    → HasEnough s c dir × (total_qty r.1 ≡ c.qty)
unfolding adjustment_shares
adjustment_shares-total s c by_batch stock_out today now r h =
    let (enough, h1) =
      guard->>= (not (ltb_ℤ (get_on_hand_for_item s c.branch_id c.item_id) (pos c.qty)))
        insufficient_stock _ h in
    let (shares, e, h2) =
      >>=-ok (if by_batch then shares_out s c today c.batch.batch_no else ok (whole none c.qty)) _
        h1 in
    (
      ground (arith, enough),
      subst (λ (x : StockTables × List BatchShare). total_qty x.1 ≡ c.qty) (ok_injective _ _ h2)
          (elim (Bool-cases by_batch) [
            | inl tracked ↦ shares_out-total s c today c.batch.batch_no shares (rw tracked at e)
            | inr plain ↦
                subst (λ x. total_qty x ≡ c.qty) (ok_injective _ _ (rw plain at e))
                  (whole_total none c.qty)
          ]),
    )
adjustment_shares-total s c by_batch stock_in today now r h =
    let (kept, e, h1) = >>=-ok (item_and_batch s c.item_id c.batch now) _ h in
    (
      tt,
      subst (λ (x : StockTables × List BatchShare). total_qty x.1 ≡ c.qty) (ok_injective _ _ h1)
          (whole_total kept.1 c.qty),
    )

-- An adjustment moves the item's stock at the branch by the quantity, in or out, and no other stock;
-- what goes out was there.
pub create_stock_adjustment-on_hand :
    (s t : StockTables) (c : CountInput) (dir : StockDirection) (today now : ℕ) (branch item : ℕ)
    → create_stock_adjustment s c dir today now ≡ ok t
    → HasEnough s c dir
      × (get_on_hand_for_item t branch item
          ≡ get_on_hand_for_item s branch item
            +ℤ (if is_key branch item c.branch_id c.item_id then signed dir c.qty else pos 0))
unfolding create_stock_adjustment
create_stock_adjustment-on_hand s t c dir today now b i h =
    let (it, e, h1) = >>=-ok (checked_item s c) _ h in
    let (shares, e2, h2) = >>=-ok (adjustment_shares s c it.tracks_batches dir today now) _ h1 in
    let (l, is, bs) = adjustment_shares-frame s c it.tracks_batches dir today now shares e2 in
    let (enough, total) = adjustment_shares-total s c it.tracks_batches dir today now shares e2 in
    let entries = map (adjustment_entry c dir) shares.1 in
    (
      enough,
      subst
          (λ (x : StockTables).
            get_on_hand_for_item x b i
            ≡ get_on_hand_for_item s b i
              +ℤ (if is_key b i c.branch_id c.item_id then signed dir c.qty else pos 0))
          (ok_injective _ _ h2)
          (record_stock-on_hand shares.0 entries b i
            ∙ rw
                (
                  SameCounts-on_hand s shares.0 b i (l, is, bs),
                  item_sum-signed (adjustment_entry c dir) dir c.branch_id c.item_id (λ x. refl)
                      (λ x. refl) (adjustment_moved c dir) shares.1 b i,
                  total,
                )
                refl),
    )
