-- ===== src/Stock/Counts.antt =====
-- apps/api/src/stock/stock.service.ts: opening counts, their correction, and stock adjustments. What
-- the request says of a batch is its number and its expiry date; `today` and `now` are the clock's.
pub mod Sums
pub mod Summed
pub mod Corrected
pub mod Openings
pub mod Steps
pub mod Reached
pub mod Effects
use pointofsale.Base.{
  ℕ, Bool, true, false, not, ◌&&◌, Option, none, some, List, [], ◌∷◌, map, ltb, leb, ◌==◌,
  if◌then◌else◌, Result, ok, err, ◌>>=◌, ◌>>◌, found, guard, map_err, ℤ, pos, ◌-ℤ◌, ◌+ℤ◌, ltb_ℤ,
}
use pointofsale.Shop.{find}
use pointofsale.Sales.Lines.{assert_qty_respects_least_count}
use pointofsale.Stock.Batches.{BatchShare, SharesByItem, same_batch}
use pointofsale.Stock.BatchStock.{take_from_batches}
use pointofsale.Stock.Ledger.{
  StockDirection, stock_in, stock_out, StockTxnType, StockError, branch_not_found, item_not_found,
  batch_required, opening_exists, opening_not_found, stock_moved, insufficient_stock, no_such_batch,
  batch_too_small, row_not_found, bad_quantity, not_taken, StockEntry, ItemBatch, StockItem,
  StockTables, ensure_branch_exists, put_row, batch_row_qty, get_on_hand_for_item,
  adjust_item_stock, record_stock, find_batch, resolve_batch, lots_of,
}

pub record BatchInput : Type 0 where
  pub batch_no : Option ℕ
  pub expiry_date : Option ℕ

abbrev batch_in :
    StockTables → ℕ → BatchInput → ℕ → Option ℕ → Result StockError (StockTables × Option ℕ)
batch_in s item batch now none = err batch_required
batch_in s item batch now (some number) = do
  resolved ← resolve_batch s item number batch.expiry_date now
  ok (resolved.0, some resolved.1.id)

-- `itemAndBatch`: the batch that stock comes in to, if the item is kept by batch.
unfoldable pub item_and_batch :
    StockTables → ℕ → BatchInput → ℕ → Result StockError (StockTables × Option ℕ)
item_and_batch s item batch now = do
  row ← found (s.items item) item_not_found
  if row.tracks_batches then batch_in s item batch now batch.batch_no else ok (s, none)

abbrev pub is_opening_type : StockTxnType → Bool
is_opening_type StockTxnType.opening = true
is_opening_type _ = false

abbrev pub is_opening_of : ℕ → ℕ → StockEntry → Bool
is_opening_of branch item e =
    (e.branch_id == branch) && ((e.item_id == item) && is_opening_type e.txn_type)

-- `...(batchId ? { batchId } : {})`
abbrev pub in_batch : Option ℕ → StockEntry → Bool
in_batch none e = true
in_batch (some batch) e = same_batch e.batch_id (some batch)

abbrev pub is_found : Option StockEntry → Bool
is_found none = false
is_found (some e) = true

-- What the forms of the stock pages send.
pub record CountInput : Type 0 where
  pub branch_id : ℕ
  pub item_id : ℕ
  pub qty : ℕ
  pub cost_price : Option ℕ
  pub reason : Option ℕ
  pub batch : BatchInput

abbrev pub given_or : Option ℕ → ℕ → ℕ
given_or none n = n
given_or (some m) n = m

abbrev pub opening_entry : CountInput → Option ℕ → StockEntry
opening_entry c batch = record {
  branch_id = c.branch_id;
  item_id = c.item_id;
  txn_type = StockTxnType.opening;
  qty_in = c.qty;
  qty_out = 0;
  cost_price = given_or c.cost_price 0;
  reason = c.reason;
  reference_id = none;
  line_id = none;
  batch_id = batch;
}

-- The branch, the item, and the quantity in steps of its least count.
unfoldable pub checked_item : StockTables → CountInput → Result StockError StockItem
checked_item s c = do
  ensure_branch_exists s c.branch_id
  item ← found (s.items c.item_id) item_not_found
  map_err bad_quantity (assert_qty_respects_least_count c.qty item.least_count)
  ok item

unfoldable pub create_stock_opening :
    StockTables → CountInput → ℕ → Result StockError (StockTables × StockEntry)
create_stock_opening s c now = do
  item ← checked_item s c
  kept ← item_and_batch s c.item_id c.batch now
  guard
      (not (
        is_found
          (find (λ e. is_opening_of c.branch_id c.item_id e && in_batch kept.1 e) kept.0.ledger)))
      opening_exists
  ok (record_stock kept.0 (opening_entry c kept.1 ∷ []), opening_entry c kept.1)

-- `batch: { batchNo }`
abbrev pub batch_no_is : StockTables → ℕ → Option ℕ → Bool
batch_no_is s number none = false
batch_no_is s number (some id) = elim (find (λ b. b.id == id) s.batches) [
  | none ↦ false
  | some b ↦ b.batch_no == number
]

-- The opening count that a correction is of.
abbrev pub corrects : StockTables → CountInput → Bool → StockEntry → Bool
corrects s c by_batch e =
    is_opening_of c.branch_id c.item_id e
    && (if by_batch
        then elim c.batch.batch_no [ none ↦ true | some n ↦ batch_no_is s n e.batch_id ]
        else true)

abbrev pub is_movement_of : ℕ → ℕ → StockEntry → Bool
is_movement_of branch item e =
    (e.branch_id == branch) && ((e.item_id == item) && not (is_opening_type e.txn_type))

-- `reason: undefined` of an update leaves what is stored.
abbrev pub reason_or : Option ℕ → Option ℕ → Option ℕ
reason_or none stored = stored
reason_or (some given) stored = some given

abbrev pub corrected_entry : CountInput → StockEntry → StockEntry
corrected_entry c e = record e {
  qty_in = c.qty;
  qty_out = 0;
  cost_price = given_or c.cost_price e.cost_price;
  reason = reason_or c.reason e.reason;
}

-- Update the row that `findFirst` gives.
abbrev pub update_first :
    (StockEntry → Bool) → (StockEntry → StockEntry) → List StockEntry → List StockEntry
update_first p f [] = []
update_first p f (e ∷ es) = if p e then f e ∷ es else e ∷ update_first p f es

-- The stock of the batch of a corrected count, whose row must be there.
abbrev pub move_batch : StockTables → ℕ → ℤ → Option ℕ → Result StockError StockTables
move_batch s branch delta none = ok s
move_batch s branch delta (some batch) = do
  qty ← found (s.batch_stock branch batch) row_not_found
  ok (record s { batch_stock = put_row s.batch_stock branch batch (qty +ℤ delta) })

abbrev has_batch_no : BatchInput → Bool
has_batch_no b = elim b.batch_no [ none ↦ false | some n ↦ true ]

unfoldable pub update_stock_opening : StockTables → CountInput → Result StockError StockTables
update_stock_opening s c = do
  item ← checked_item s c
  guard (not (item.tracks_batches && not (has_batch_no c.batch))) batch_required
  opening ← found (find (corrects s c item.tracks_batches) s.ledger) opening_not_found
  guard (not (is_found (find (is_movement_of c.branch_id c.item_id) s.ledger))) stock_moved
  let delta = pos c.qty -ℤ pos opening.qty_in
  let rewritten = record s {
    ledger = update_first (corrects s c item.tracks_batches) (corrected_entry c) s.ledger;
  }
  move_batch (adjust_item_stock rewritten c.branch_id c.item_id delta) c.branch_id delta
      opening.batch_id

abbrev pub whole : Option ℕ → ℕ → List BatchShare
whole batch qty = record { batch_id = batch; qty = qty } ∷ []

abbrev pub is_tracked : StockTables → ℕ → Bool
is_tracked s item = elim (s.items item) [ none ↦ false | some i ↦ i.tracks_batches ]

abbrev pub shares_or : Option (List BatchShare) → List BatchShare → List BatchShare
shares_or none shares = shares
shares_or (some taken) shares = taken

-- What goes out of an item that is kept by batch.
abbrev pub shares_out :
    StockTables → CountInput → ℕ → Option ℕ → Result StockError (List BatchShare)
shares_out s c today none = do
  taken ← map_err not_taken (
      take_from_batches (is_tracked s) (lots_of s c.branch_id)
        (record { item_id = c.item_id; qty = c.qty } ∷ [])
        (record { today = today; allow_short = false; include_expired = true }))
  ok (shares_or (taken c.item_id) (whole none c.qty))
shares_out s c today (some number) = do
  named ← found (find_batch s c.item_id number) no_such_batch
  guard (not (ltb_ℤ (batch_row_qty (s.batch_stock c.branch_id named.id)) (pos c.qty)))
      batch_too_small
  ok (whole (some named.id) c.qty)

unfoldable pub adjustment_shares :
    StockTables
    → CountInput
    → Bool
    → StockDirection
    → ℕ
    → ℕ
    → Result StockError (StockTables × List BatchShare)
adjustment_shares s c by_batch stock_out today now = do
  guard (not (ltb_ℤ (get_on_hand_for_item s c.branch_id c.item_id) (pos c.qty))) insufficient_stock
  shares ← (if by_batch then shares_out s c today c.batch.batch_no else ok (whole none c.qty))
  ok (s, shares)
adjustment_shares s c by_batch stock_in today now = do
  kept ← item_and_batch s c.item_id c.batch now
  ok (kept.0, whole kept.1 c.qty)

abbrev adjustment_type : StockDirection → StockTxnType
adjustment_type stock_in = StockTxnType.adjustment_plus
adjustment_type stock_out = StockTxnType.adjustment_minus

abbrev qty_if_in : StockDirection → ℕ → ℕ
qty_if_in stock_in qty = qty
qty_if_in stock_out qty = 0

abbrev qty_if_out : StockDirection → ℕ → ℕ
qty_if_out stock_in qty = 0
qty_if_out stock_out qty = qty

abbrev pub adjustment_entry : CountInput → StockDirection → BatchShare → StockEntry
adjustment_entry c dir share = record {
  branch_id = c.branch_id;
  item_id = c.item_id;
  txn_type = adjustment_type dir;
  qty_in = qty_if_in dir share.qty;
  qty_out = qty_if_out dir share.qty;
  cost_price = given_or c.cost_price 0;
  reason = c.reason;
  reference_id = none;
  line_id = none;
  batch_id = share.batch_id;
}

unfoldable pub create_stock_adjustment :
    StockTables → CountInput → StockDirection → ℕ → ℕ → Result StockError StockTables
create_stock_adjustment s c dir today now = do
  item ← checked_item s c
  shares ← adjustment_shares s c item.tracks_batches dir today now
  ok (record_stock shares.0 (map (adjustment_entry c dir) shares.1))
