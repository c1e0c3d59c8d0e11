-- ===== src/Stock/Lists.antt =====
-- apps/api/src/stock/stock.service.ts: `lowStock` and `listBatches`. The items are the rows of the table of
-- items, each with its place in the order of names; a page's texts are left out.
pub mod Order
use pointofsale.Base.{
  ℕ, ◌+◌, ◌≤◌, ◌≡◌, refl, Bool, true, false, not, ◌&&◌, Option, none, some, List, [], ◌∷◌, ◌++◌,
  ltb, leb, ◌==◌, if◌then◌else◌, filter, sort, insert, IsSorted, sort-IsSorted, All, All-sort,
  filter-All, All-map, All-append, Result, ok, err, ◌>>=◌, ◌>>◌, ℤ, pos, pos_part, neg_part, leb_ℤ,
  ltb_ℤ, ◌≤ℤ◌, ◌-ℤ◌, is_zero_ℤ, Bool-cases, inl, inr, arith,
}
use pointofsale.Stock.Batches.{is_expired, expiry_or_last}
use pointofsale.Stock.Ledger.{
  StockError, StockTables, ItemStockRow, ItemBatch, is_batch_of, ensure_branch_exists,
}

pub record ItemName : Type 0 where
  pub id : ℕ
  pub name : ℕ
  pub is_active : Bool

pub record LowStock : Type 0 where
  pub item : ItemName
  pub on_hand : ℤ
  pub reorder_level : ℕ
  pub reorder_qty : Option ℕ

abbrev pub level_of : ItemName → ℤ → Option ℕ → Option ℕ → List LowStock
level_of item qty none order = []
level_of item qty (some level) order =
    record { item = item; on_hand = qty; reorder_level = level; reorder_qty = order } ∷ []

abbrev pub low_row : ItemName → Option ItemStockRow → List LowStock
low_row item none = []
low_row item (some r) =
    if item.is_active then level_of item r.qty r.reorder_level r.reorder_qty else []

-- The active items with a reorder level at the branch.
unfoldable pub watched : StockTables → ℕ → List ItemName → List LowStock
watched s branch [] = []
watched s branch (i ∷ items) = low_row i (s.item_stock branch i.id) ++ watched s branch items

abbrev pub is_low : LowStock → Bool
is_low r = leb_ℤ r.on_hand (pos r.reorder_level)

abbrev pub below_by : LowStock → ℤ
below_by r = r.on_hand -ℤ pos r.reorder_level

-- The furthest below its level first, then by name.
unfoldable pub before_low : LowStock → LowStock → Bool
before_low a b =
    if ltb_ℤ (below_by a) (below_by b)
    then true
    else (if ltb_ℤ (below_by b) (below_by a) then false else leb a.item.name b.item.name)

unfoldable pub low_stock : StockTables → ℕ → List ItemName → Result StockError (List LowStock)
low_stock s branch items = do
  ensure_branch_exists s branch
  ok (sort before_low (filter is_low (watched s branch items)))

pub record BatchFilter : Type 0 where
  pub item_id : Option ℕ
  pub until : Option ℕ

pub record ListedBatch : Type 0 where
  pub batch : ItemBatch
  pub item_name : ℕ
  pub qty : ℤ
  pub expired : Bool

abbrev pub is_wanted_item : Option ℕ → ItemBatch → Bool
is_wanted_item none b = true
is_wanted_item (some item) b = is_batch_of item b

abbrev expires_by : Option ℕ → ℕ → Bool
expires_by none until = false
expires_by (some date) until = leb date until

-- Within `expiringWithinDays` of today: `until` is the last of these days.
abbrev pub is_expiring : Option ℕ → ItemBatch → Bool
is_expiring none b = true
is_expiring (some until) b = expires_by b.expiry_date until

abbrev pub listed_row : (ℕ → ℕ) → ℕ → ItemBatch → Option ℤ → List ListedBatch
listed_row name today b none = []
listed_row name today b (some qty) =
    if is_zero_ℤ qty
    then []
    else record {
      batch = b;
      item_name = name b.item_id;
      qty = qty;
      expired = is_expired b.expiry_date today;
    }
      ∷ []

unfoldable pub listed :
    StockTables → (ℕ → ℕ) → ℕ → ℕ → BatchFilter → List ItemBatch → List ListedBatch
listed s name branch today f [] = []
listed s name branch today f (b ∷ bs) =
    let row = listed_row name today b (s.batch_stock branch b.id) in
    (if is_wanted_item f.item_id b && is_expiring f.until b then row else [])
    ++ listed s name branch today f bs

-- The earliest expiry first, then by the item's name and the batch number.
unfoldable pub before_batch : ListedBatch → ListedBatch → Bool
before_batch a b =
    let x = expiry_or_last a.batch.expiry_date in
    let y = expiry_or_last b.batch.expiry_date in
    if ltb x y
    then true
    else (if ltb y x
        then false
        else (if ltb a.item_name b.item_name
            then true
            else (if ltb b.item_name a.item_name
                then false
                else leb a.batch.batch_no b.batch.batch_no)))

unfoldable pub list_batches :
    StockTables → (ℕ → ℕ) → ℕ → ℕ → BatchFilter → Result StockError (List ListedBatch)
list_batches s name branch today f = do
  ensure_branch_exists s branch
  ok (sort before_batch (listed s name branch today f s.batches))
