-- ===== src/Stock/Ledger.antt =====
-- apps/api/src/stock/stock.service.ts and the batches of batch-stock.ts: the stock ledger, and the rows
-- kept beside it (an item's and a batch's stock at a branch). Quantities are thousandths, which `round3`
-- leaves alone; a batch number is a number, the same for texts that differ in case and outer spaces
-- only, and an empty one is none. The id of a new batch (a uuid) is its place in the table. A
-- transaction holds the items' locks, so it runs by itself; ids are resolved already.
pub mod Sums
pub mod Signed
pub mod Once
use pointofsale.Base.{
  ℕ, ◌+◌, Bool, true, false, not, ◌&&◌, ◌||◌, Option, none, some, List, [], ◌∷◌, ◌++◌, map, ltb,
  leb, ◌==◌, if◌then◌else◌, filter, length, Result, ok, err, ◌>>=◌, ◌>>◌, found, guard, ℤ, pos,
  ◌+ℤ◌, ◌-ℤ◌, is_zero_ℤ,
}
use pointofsale.Shop.{find}
use pointofsale.Sales.Lines.{LineRefusal}
use pointofsale.Stock.Batches.{BatchLot, same_batch}
use pointofsale.Stock.BatchStock.{StockRefusal, ItemStock}

pub data StockTxnType : Type 0 where
  opening adjustment_plus adjustment_minus sale return sale_cancel purchase : StockTxnType
  transfer_out transfer_in transfer_cancel purchase_return : StockTxnType

pub data StockError : Type 0 where
  branch_not_found item_not_found batch_required opening_exists opening_not_found : StockError
  stock_moved insufficient_stock no_such_batch batch_too_small other_expiry : StockError
  reorder_level_not_set row_not_found : StockError
  bad_quantity : LineRefusal → StockError
  not_taken : StockRefusal → StockError

pub data StockDirection : Type 0 where
  stock_in stock_out : StockDirection

pub record StockEntry : Type 0 where
  pub branch_id : ℕ
  pub item_id : ℕ
  pub txn_type : StockTxnType
  pub qty_in : ℕ
  pub qty_out : ℕ
  pub cost_price : ℕ
  pub reason : Option ℕ
  pub reference_id : Option ℕ
  pub line_id : Option ℕ
  pub batch_id : Option ℕ

pub record ItemStockRow : Type 0 where
  pub qty : ℤ
  pub reorder_level : Option ℕ
  pub reorder_qty : Option ℕ

pub record ItemBatch : Type 0 where
  pub id : ℕ
  pub item_id : ℕ
  pub batch_no : ℕ
  pub expiry_date : Option ℕ
  pub created_at : ℕ

pub record StockItem : Type 0 where
  pub id : ℕ
  pub least_count : ℕ
  pub tracks_batches : Bool

-- Rows of a branch by their key.
abbrev pub Rows : Type 0 → Type 0
Rows A = ℕ → ℕ → Option A

pub record StockTables : Type 0 where
  pub branches : ℕ → Bool
  pub items : ℕ → Option StockItem
  pub ledger : List StockEntry
  pub item_stock : Rows ItemStockRow
  pub batch_stock : Rows ℤ
  pub batches : List ItemBatch

abbrev pub is_key : ℕ → ℕ → ℕ → ℕ → Bool
is_key b k b' k' = (b' == b) && (k' == k)

abbrev pub put_row : {A : Type 0} → Rows A → ℕ → ℕ → A → Rows A
put_row t b k a b' k' = if is_key b k b' k' then some a else t b' k'

-- `ensureBranchExists`
abbrev pub ensure_branch_exists : StockTables → ℕ → Result StockError (Unit {0})
ensure_branch_exists s branch = guard (s.branches branch) branch_not_found

abbrev pub item_row_qty : Option ItemStockRow → ℤ
item_row_qty none = pos 0
item_row_qty (some r) = r.qty

abbrev pub batch_row_qty : Option ℤ → ℤ
batch_row_qty none = pos 0
batch_row_qty (some q) = q

unfoldable pub get_on_hand_for_item : StockTables → ℕ → ℕ → ℤ
get_on_hand_for_item s branch item = item_row_qty (s.item_stock branch item)

-- The items asked for, each with its stock.
unfoldable pub get_on_hand_for_items : StockTables → ℕ → List ℕ → List (ℕ × ℤ)
get_on_hand_for_items s branch items =
    map (λ item. (item, item_row_qty (s.item_stock branch item))) items

-- `INSERT … ON CONFLICT … DO UPDATE`: a new row has the quantity, and one that is there moves by it.
abbrev pub upsert_item_row : Option ItemStockRow → ℤ → ItemStockRow
upsert_item_row none delta = record { qty = delta; reorder_level = none; reorder_qty = none }
upsert_item_row (some r) delta = record r { qty = r.qty +ℤ delta }

abbrev pub upsert_batch_row : Option ℤ → ℤ → ℤ
upsert_batch_row none delta = delta
upsert_batch_row (some q) delta = q +ℤ delta

unfoldable pub adjust_item_stock : StockTables → ℕ → ℕ → ℤ → StockTables
adjust_item_stock s branch item delta = if is_zero_ℤ delta then s else record s {
  item_stock = put_row s.item_stock branch item (upsert_item_row (s.item_stock branch item) delta);
}

-- A row's move: an entry of the `Map` of deltas.
pub record Move : Type 0 where
  pub branch_id : ℕ
  pub key : ℕ
  pub delta : ℤ

abbrev pub moved_by : ℤ → StockEntry → ℤ
moved_by delta e = (delta +ℤ pos e.qty_in) -ℤ pos e.qty_out

unfoldable pub add_delta : List Move → ℕ → StockEntry → List Move
add_delta [] key e = record { branch_id = e.branch_id; key = key; delta = moved_by (pos 0) e } ∷ []
add_delta (m ∷ ms) key e =
    if is_key e.branch_id key m.branch_id m.key
    then record m { delta = moved_by m.delta e } ∷ ms
    else m ∷ add_delta ms key e

abbrev pub add_keyed : List Move → Option ℕ → StockEntry → List Move
add_keyed ms none e = ms
add_keyed ms (some key) e = add_delta ms key e

-- The loop over the entries; an entry without a key moves nothing.
unfoldable pub add_deltas : (StockEntry → Option ℕ) → List Move → List StockEntry → List Move
add_deltas key ms [] = ms
add_deltas key ms (e ∷ es) = add_deltas key (add_keyed ms (key e) e) es

abbrev pub item_key : StockEntry → Option ℕ
item_key e = some e.item_id

abbrev pub batch_key : StockEntry → Option ℕ
batch_key e = e.batch_id

abbrev pub is_move : Move → Bool
is_move m = not (is_zero_ℤ m.delta)

unfoldable pub item_moves : List StockEntry → List Move
item_moves es = filter is_move (add_deltas item_key [] es)

unfoldable pub batch_moves : List StockEntry → List Move
batch_moves es = filter is_move (add_deltas batch_key [] es)

-- The statement that moves the rows.
unfoldable pub apply_moves : {A : Type 0} → (Option A → ℤ → A) → Rows A → List Move → Rows A
apply_moves upsert t [] = t
apply_moves upsert t (m ∷ ms) =
    apply_moves upsert (put_row t m.branch_id m.key (upsert (t m.branch_id m.key) m.delta)) ms

-- `recordStock`; without entries, nothing moves.
unfoldable pub record_stock : StockTables → List StockEntry → StockTables
record_stock s entries = record s {
  ledger = s.ledger ++ entries;
  item_stock = apply_moves upsert_item_row s.item_stock (item_moves entries);
  batch_stock = apply_moves upsert_batch_row s.batch_stock (batch_moves entries);
}

abbrev pub with_levels : Option ItemStockRow → Option ℕ → Option ℕ → ItemStockRow
with_levels none level qty = record { qty = pos 0; reorder_level = level; reorder_qty = qty }
with_levels (some r) level qty = record r { reorder_level = level; reorder_qty = qty }

abbrev pub is_some : Option ℕ → Bool
is_some none = false
is_some (some n) = true

-- `setReorderLevel`
unfoldable pub set_reorder_level :
    StockTables → ℕ → ℕ → Option ℕ → Option ℕ → Result StockError StockTables
set_reorder_level s branch item level qty = do
  ensure_branch_exists s branch
  row ← found (s.items item) item_not_found
  guard (is_some level || not (is_some qty)) reorder_level_not_set
  ok (record s {
    item_stock =
        put_row s.item_stock branch item (with_levels (s.item_stock branch item) level qty);
  })

abbrev pub has_no : ℕ → ItemBatch → Bool
has_no number b = b.batch_no == number

abbrev pub is_batch_of : ℕ → ItemBatch → Bool
is_batch_of item b = b.item_id == item

abbrev pub find_batch : StockTables → ℕ → ℕ → Option ItemBatch
find_batch s item number = find (λ b. is_batch_of item b && has_no number b) s.batches

abbrev pub keeps_expiry : Option ℕ → ItemBatch → Bool
keeps_expiry none b = true
keeps_expiry (some date) b = same_batch b.expiry_date (some date)

abbrev pub existing_or_new :
    StockTables
    → ℕ
    → ℕ
    → Option ℕ
    → ℕ
    → Option ItemBatch
    → Result StockError (StockTables × ItemBatch)
existing_or_new s item number expiry now (some b) =
    if keeps_expiry expiry b then ok (s, b) else err other_expiry
existing_or_new s item number expiry now none =
    let new : ItemBatch = record {
      id = length s.batches;
      item_id = item;
      batch_no = number;
      expiry_date = expiry;
      created_at = now;
    } in
    ok (record s { batches = s.batches ++ (new ∷ []) }, new)

-- `resolveBatch`
unfoldable pub resolve_batch :
    StockTables → ℕ → ℕ → Option ℕ → ℕ → Result StockError (StockTables × ItemBatch)
resolve_batch s item number expiry now =
    existing_or_new s item number expiry now (find_batch s item number)

abbrev pub lot_of : StockTables → ℕ → ItemBatch → Option ℤ → List BatchLot
lot_of s branch b none = []
lot_of s branch b (some qty) =
    record {
      batch_id = b.id;
      batch_no = b.batch_no;
      expiry_date = b.expiry_date;
      created_at = b.created_at;
      qty = qty;
    }
    ∷ []

abbrev pub lots_in : StockTables → ℕ → List ItemBatch → List BatchLot
lots_in s branch [] = []
lots_in s branch (b ∷ bs) = lot_of s branch b (s.batch_stock branch b.id) ++ lots_in s branch bs

-- `lotsOf`: an item's batches at a branch, and its stock.
unfoldable pub lots_of : StockTables → ℕ → ℕ → ItemStock
lots_of s branch item = record {
  lots = lots_in s branch (filter (is_batch_of item) s.batches);
  total = get_on_hand_for_item s branch item;
}
