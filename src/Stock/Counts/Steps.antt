-- ===== src/Stock/Counts/Steps.antt =====
-- The changes of stock, as steps on the tables: stock.service.ts, the opening counts that
-- apps/api/src/items/item-import.service.ts adds for new items (one at a time), and the entries of the
-- other services, which are no opening counts.
use pointofsale.Base.{ℕ, ◌≡◌, Bool, true, false, ◌&&◌, Option, none, List, [], ◌∷◌, All, ok}
use pointofsale.Shop.{find}
use pointofsale.Stock.Ledger.{
  StockDirection, StockEntry, StockTables, StockItem, ItemBatch, record_stock, set_reorder_level,
  resolve_batch,
}
use pointofsale.Stock.Counts.{
  CountInput, is_opening_of, in_batch, is_found, create_stock_opening, update_stock_opening,
  create_stock_adjustment,
}
use pointofsale.Stock.Counts.Openings.{is_other}
use pointofsale.Stock.Counts.Summed.{opens_in}

pub data StockStep : StockTables → StockTables → Type 0 where
  recorded :
      {s : StockTables} (es : List StockEntry)
      → All (λ e. is_other e ≡ true) es
      → StockStep s (record_stock s es)
  imported :
      {s : StockTables} (e : StockEntry)
      → opens_in e ≡ true
      → is_found (find (λ x. is_opening_of e.branch_id e.item_id x && in_batch none x) s.ledger)
        ≡ false
      → StockStep s (record_stock s (e ∷ []))
  opened :
      {s : StockTables} (c : CountInput) (now : ℕ) (r : StockTables × StockEntry)
      → create_stock_opening s c now ≡ ok r
      → StockStep s r.0
  corrected : {s t : StockTables} (c : CountInput) → update_stock_opening s c ≡ ok t → StockStep s t
  adjusted :
      {s t : StockTables} (c : CountInput) (dir : StockDirection) (today now : ℕ)
      → create_stock_adjustment s c dir today now ≡ ok t
      → StockStep s t
  levelled :
      {s t : StockTables} (branch item : ℕ) (level qty : Option ℕ)
      → set_reorder_level s branch item level qty ≡ ok t
      → StockStep s t
  batch_received :
      {s : StockTables} (item number : ℕ) (expiry : Option ℕ) (now : ℕ)
      (r : StockTables × ItemBatch)
      → resolve_batch s item number expiry now ≡ ok r
      → StockStep s r.0
  catalogued :
      {s : StockTables} (branches : ℕ → Bool) (items : ℕ → Option StockItem)
      → StockStep s (record s { branches = branches; items = items })

abbrev pub new_shop : StockTables
new_shop = record {
  branches = λ b. false;
  items = λ i. none;
  ledger = [];
  item_stock = λ b i. none;
  batch_stock = λ b k. none;
  batches = [];
}

-- The tables that a new shop can come to.
pub data Reached : StockTables → Type 0 where
  start : Reached new_shop
  next : {s t : StockTables} → Reached s → StockStep s t → Reached t
