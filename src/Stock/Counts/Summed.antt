-- ===== src/Stock/Counts/Summed.antt =====
-- The rows beside the ledger, and its sums, over the operations on counts.
use pointofsale.Base.{
  ℕ, ◌≡◌, refl, sym, ap, subst, Bool, not, ◌&&◌, ◌||◌, Option, none, some, List, [], ◌∷◌, map, ◌==◌,
  if◌then◌else◌, ℤ, pos, ◌+ℤ◌, Bool-cases, inl, inr, ◌∙◌, ok, >>=-ok, guard->>=, ok_injective,
  found, ltb_ℤ,
}
use pointofsale.Shop.{find}
use pointofsale.Stock.Batches.{BatchShare}
use pointofsale.Stock.Ledger.{
  StockDirection, stock_in, stock_out, StockEntry, StockTables, ItemStockRow, Rows, is_key, is_some,
  reorder_level_not_set, insufficient_stock, item_row_qty, batch_row_qty, get_on_hand_for_item,
  record_stock, set_reorder_level, with_levels, ensure_branch_exists, item_not_found,
  opening_exists, item_key, batch_key,
}
use pointofsale.Stock.Ledger.Sums.{
  is_key_≡, of_key, item_sum, batch_sum, entries_sum-append, record_stock-on_hand,
  record_stock-in_batch,
}
use pointofsale.Stock.Counts.{
  item_and_batch, CountInput, is_opening_type, is_opening_of, in_batch, is_found, opening_entry,
  checked_item, create_stock_opening, adjustment_shares, adjustment_entry, create_stock_adjustment,
  shares_out, whole,
}
use pointofsale.Stock.Counts.Sums.{SameCounts, item_and_batch-frame}

-- The rows of an item and of a batch at a branch hold the sums of the ledger.
abbrev pub IsSummed : StockTables → ℕ → ℕ → ℕ → Type 0
IsSummed s branch item batch =
    (get_on_hand_for_item s branch item ≡ item_sum s.ledger branch item)
    × (batch_row_qty (s.batch_stock branch batch) ≡ batch_sum s.ledger branch batch)

-- An opening count takes nothing out.
abbrev pub opens_in : StockEntry → Bool
opens_in e = not (is_opening_type e.txn_type) || (e.qty_out == 0)

pub record_stock-IsSummed :
    (s : StockTables) (es : List StockEntry) (b i k : ℕ)
    → IsSummed s b i k
    → IsSummed (record_stock s es) b i k
unfolding record_stock item_sum batch_sum
record_stock-IsSummed s es b i k h = (
  record_stock-on_hand s es b i
      ∙ (ap (λ x. x +ℤ item_sum es b i) h.0
          ∙ sym (entries_sum-append (of_key item_key b i) s.ledger es)),
  record_stock-in_batch s es b k
      ∙ (ap (λ x. x +ℤ batch_sum es b k) h.1
          ∙ sym (entries_sum-append (of_key batch_key b k) s.ledger es)),
)

pub SameCounts-on_hand :
    (s t : StockTables) (b i : ℕ)
    → SameCounts s t
    → get_on_hand_for_item t b i ≡ get_on_hand_for_item s b i
unfolding get_on_hand_for_item
SameCounts-on_hand s t b i (l, is, bs) = ap (λ (x : Rows ItemStockRow). item_row_qty (x b i)) is

pub SameCounts-IsSummed :
    (s t : StockTables) (b i k : ℕ) → SameCounts s t → IsSummed s b i k → IsSummed t b i k
unfolding get_on_hand_for_item
SameCounts-IsSummed s t b i k (l, is, bs) h = (
  ap (λ (x : Rows ItemStockRow). item_row_qty (x b i)) is
      ∙ (h.0 ∙ ap (λ x. item_sum x b i) (sym l)),
  ap (λ (x : Rows ℤ). batch_row_qty (x b k)) bs ∙ (h.1 ∙ ap (λ x. batch_sum x b k) (sym l)),
)

pub create_stock_opening-IsSummed :
    (s : StockTables) (c : CountInput) (now : ℕ) (r : StockTables × StockEntry) (b i k : ℕ)
    → create_stock_opening s c now ≡ ok r
    → IsSummed s b i k
    → IsSummed r.0 b i k
unfolding create_stock_opening
create_stock_opening-IsSummed s c now r b i k h wf =
    let (item, e, h1) = >>=-ok (checked_item s c) _ h in
    let (kept, e2, h2) = >>=-ok (item_and_batch s c.item_id c.batch now) _ h1 in
    let (fresh, h3) =
      guard->>=
        (not (
          is_found
            (find (λ e. is_opening_of c.branch_id c.item_id e && in_batch kept.1 e) kept.0.ledger)))
        opening_exists _ h2 in
    subst (λ (x : StockTables × StockEntry). IsSummed x.0 b i k) (ok_injective _ _ h3)
      (record_stock-IsSummed kept.0 (opening_entry c kept.1 ∷ []) b i k (
        SameCounts-IsSummed s kept.0 b i k (item_and_batch-frame s c.item_id c.batch now kept e2)
          wf))

pub adjustment_shares-frame :
    (s : StockTables) (c : CountInput) (by_batch : Bool) (dir : StockDirection) (today now : ℕ)
    (r : StockTables × List BatchShare)
    → adjustment_shares s c by_batch dir today now ≡ ok r
    → SameCounts s r.0
unfolding adjustment_shares
adjustment_shares-frame s c by_batch stock_out today now r h =
    let (enough, h1) =
      guard->>= (not (ltb_ℤ (get_on_hand_for_item s c.branch_id c.item_id) (pos c.qty)))
        insufficient_stock _ h in
    let (shares, e, h2) =
      >>=-ok (if by_batch then shares_out s c today c.batch.batch_no else ok (whole none c.qty)) _
        h1 in
    subst (λ (x : StockTables × List BatchShare). SameCounts s x.0) (ok_injective _ _ h2)
      (refl, refl, refl)
adjustment_shares-frame s c by_batch stock_in today now r h =
    let (kept, e, h1) = >>=-ok (item_and_batch s c.item_id c.batch now) _ h in
    subst (λ (x : StockTables × List BatchShare). SameCounts s x.0) (ok_injective _ _ h1)
      (item_and_batch-frame s c.item_id c.batch now kept e)

pub create_stock_adjustment-IsSummed :
    (s t : StockTables) (c : CountInput) (dir : StockDirection) (today now : ℕ) (b i k : ℕ)
    → create_stock_adjustment s c dir today now ≡ ok t
    → IsSummed s b i k
    → IsSummed t b i k
unfolding create_stock_adjustment
create_stock_adjustment-IsSummed s t c dir today now b i k h wf =
    let (item, e, h1) = >>=-ok (checked_item s c) _ h in
    let (shares, e2, h2) = >>=-ok (adjustment_shares s c item.tracks_batches dir today now) _ h1 in
    subst (λ x. IsSummed x b i k) (ok_injective _ _ h2)
      (record_stock-IsSummed shares.0 (map (adjustment_entry c dir) shares.1) b i k (
        SameCounts-IsSummed s shares.0 b i k
          (adjustment_shares-frame s c item.tracks_batches dir today now shares e2) wf))

pub set_reorder_level-ledger :
    (s t : StockTables) (branch item : ℕ) (level qty : Option ℕ)
    → set_reorder_level s branch item level qty ≡ ok t
    → t.ledger ≡ s.ledger
unfolding set_reorder_level
set_reorder_level-ledger s t branch item level qty h =
    let (u, e, h1) = >>=-ok (ensure_branch_exists s branch) _ h in
    let (row, e2, h2) = >>=-ok (found (s.items item) item_not_found) _ h1 in
    let (given, h3) = guard->>= (is_some level || not (is_some qty)) reorder_level_not_set _ h2 in
    subst (λ x. x.ledger ≡ s.ledger) (ok_injective _ _ h3) refl

levels_keep_qty :
    (r : Option ItemStockRow) (level qty : Option ℕ)
    → item_row_qty (some (with_levels r level qty)) ≡ item_row_qty r
levels_keep_qty none level qty = refl
levels_keep_qty (some r) level qty = refl

pub set_reorder_level-IsSummed :
    (s t : StockTables) (branch item : ℕ) (level qty : Option ℕ) (b i k : ℕ)
    → set_reorder_level s branch item level qty ≡ ok t
    → IsSummed s b i k
    → IsSummed t b i k
unfolding set_reorder_level get_on_hand_for_item
set_reorder_level-IsSummed s t branch item level qty b i k h wf =
    let (u, e, h1) = >>=-ok (ensure_branch_exists s branch) _ h in
    let (row, e2, h2) = >>=-ok (found (s.items item) item_not_found) _ h1 in
    let (given, h3) = guard->>= (is_some level || not (is_some qty)) reorder_level_not_set _ h2 in
    subst (λ x. IsSummed x b i k) (ok_injective _ _ h3)
      (elim (Bool-cases (is_key branch item b i)) [
        | inl same ↦
            let (eb, ei) = is_key_≡ branch item b i same in
            (rw (same, eb, ei) (levels_keep_qty (s.item_stock b i) level qty ∙ wf.0), wf.1)
        | inr other ↦ (rw other wf.0, wf.1)
      ])
