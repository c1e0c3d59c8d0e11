-- ===== src/Stock/Lines.antt =====
-- apps/api/src/stock/batch-stock.ts: `takenOrder` and `sharesOfLines`, the batches that the lines of a
-- document moved.
use pointofsale.Base.{
  ℕ, Bool, true, false, ◌&&◌, ◌||◌, Option, none, some, List, [], ◌∷◌, ltb, leb, ◌==◌,
  if◌then◌else◌, filter, sort,
}
use pointofsale.Shop.{find}
use pointofsale.Stock.Batches.{BatchShare, expiry_or_last}
use pointofsale.Stock.Ledger.{StockDirection, stock_in, stock_out, StockEntry, ItemBatch}

-- `include: { batch }`
abbrev pub batch_of : List ItemBatch → Option ℕ → Option ItemBatch
batch_of batches none = none
batch_of batches (some id) = find (λ b. b.id == id) batches

-- `takenOrder(a, b) <= 0`
unfoldable pub taken_order : Option ItemBatch → Option ItemBatch → Bool
taken_order none b = true
taken_order (some a) none = false
taken_order (some a) (some b) =
    if ltb (expiry_or_last a.expiry_date) (expiry_or_last b.expiry_date)
    then true
    else (if ltb (expiry_or_last b.expiry_date) (expiry_or_last a.expiry_date)
        then false
        else leb a.created_at b.created_at)

abbrev pub is_line : ℕ → Option ℕ → Bool
is_line line none = false
is_line line (some l) = l == line

abbrev pub is_of_lines : List ℕ → StockEntry → Bool
is_of_lines [] e = false
is_of_lines (l ∷ ls) e = is_line l e.line_id || is_of_lines ls e

abbrev pub qty_of : StockDirection → StockEntry → ℕ
qty_of stock_in e = e.qty_in
qty_of stock_out e = e.qty_out

-- The loop over the rows, as what it collects for a line.
unfoldable pub shares_of : StockDirection → ℕ → List StockEntry → List BatchShare
shares_of dir line [] = []
shares_of dir line (e ∷ es) =
    if is_line line e.line_id && ltb 0 (qty_of dir e)
    then record { batch_id = e.batch_id; qty = qty_of dir e } ∷ shares_of dir line es
    else shares_of dir line es

abbrev pub some_shares : List BatchShare → Option (List BatchShare)
some_shares [] = none
some_shares (s ∷ ss) = some (s ∷ ss)

-- `sharesOfLines`, as what `get` answers for a line.
unfoldable pub shares_of_lines :
    List ItemBatch → List StockEntry → List ℕ → StockDirection → ℕ → Option (List BatchShare)
shares_of_lines batches ledger lines dir line = some_shares (
    shares_of dir line (
      sort (λ a b. taken_order (batch_of batches a.batch_id) (batch_of batches b.batch_id))
        (filter (is_of_lines lines) ledger)))
