-- ===== src/Stock/Lists/Order.antt =====
-- The lists of the stock pages, in their order.
use pointofsale.Base.{
  ℕ, ◌≡◌, refl, if◌then◌else◌, true, false, List, filter, IsSorted, sort-IsSorted, ok, >>=-ok,
  ok_injective, subst, pos, pos_part, neg_part, ◌≤ℤ◌, ◌≤◌, ◌<◌, ◌+◌, ◌⊎◌, ◌↔◌, Any, Any-sort,
  Any-filter, Any-append, Any-map, Any-const, sym, ap, ◌∙◌, inl, inr, Bool, ◌∷◌, [], ℤ, -ℤ_parts,
  some, none, Option, sort-Pairwise, Pairwise, arith,
}
use pointofsale.Stock.Ledger.{StockTables, ItemStockRow, ensure_branch_exists}
use pointofsale.Stock.Lists.{
  ItemName, LowStock, level_of, low_row, watched, is_low, before_low, low_stock, BatchFilter,
  ListedBatch, listed, before_batch, list_batches,
}

-- How far below its level an item is, next to another: `onHand - reorderLevel` of the one, less that
-- of the other, is the first of these less the second.
abbrev left_over : LowStock → LowStock → ℕ
left_over a b = pos_part a.on_hand + neg_part b.on_hand + b.reorder_level

-- Further below its reorder level, or as far and first by name.
abbrev pub IsFurtherBelow : LowStock → LowStock → Type 0
IsFurtherBelow a b =
    (left_over a b < left_over b a)
    ⊎ ((left_over a b ≡ left_over b a) × (a.item.name ≤ b.item.name))

-- An active item of the list that is at its reorder level at the branch, or below it.
abbrev pub IsLowAt : StockTables → ℕ → List ItemName → LowStock → Type 0
IsLowAt s branch items r =
    Any (λ i. r.item ≡ i) items
    × (r.item.is_active ≡ true)
    × (s.item_stock branch r.item.id
        ≡ some (record {
          qty = r.on_hand;
          reorder_level = some r.reorder_level;
          reorder_qty = r.reorder_qty;
        }))
    × (r.on_hand ≤ℤ pos r.reorder_level)

before_low-true : (a b : LowStock) → before_low a b ≡ true → IsFurtherBelow a b
unfolding before_low
before_low-true a b h =
    ground
      (arith, -ℤ_parts a.on_hand (pos a.reorder_level), -ℤ_parts b.on_hand (pos b.reorder_level))

before_low-false : (a b : LowStock) → before_low a b ≡ false → IsFurtherBelow b a
unfolding before_low
before_low-false a b h =
    ground
      (arith, -ℤ_parts a.on_hand (pos a.reorder_level), -ℤ_parts b.on_hand (pos b.reorder_level))

IsFurtherBelow-trans :
    (a b c : LowStock) → IsFurtherBelow a b → IsFurtherBelow b c → IsFurtherBelow a c
IsFurtherBelow-trans a b c h k = ground arith

abbrev stock_row : LowStock → ItemStockRow
stock_row r = record {
  qty = r.on_hand;
  reorder_level = some r.reorder_level;
  reorder_qty = r.reorder_qty;
}

level_of-Any :
    (r : LowStock) (item : ItemName) (qty : ℤ) (level order : Option ℕ)
    → Any (λ x. r ≡ x) (level_of item qty level order)
    → (r.item ≡ item)
      × (stock_row r ≡ record { qty = qty; reorder_level = level; reorder_qty = order })
level_of-Any r item qty none order h = absurd h
level_of-Any r item qty (some level) order (inl e) = (ap (λ x. x.item) e, ap stock_row e)
level_of-Any r item qty (some level) order (inr h) = absurd h

if_Any :
    (P : LowStock → Type 0) (c : Bool) (xs : List LowStock)
    → Any P (if c then xs else [])
    → (c ≡ true) × Any P xs
if_Any P true xs h = (refl, h)
if_Any P false xs h = absurd h

low_row-Any :
    (r : LowStock) (item : ItemName) (row : Option ItemStockRow)
    → Any (λ x. r ≡ x) (low_row item row)
    → (r.item ≡ item) × (item.is_active ≡ true) × (row ≡ some (stock_row r))
low_row-Any r item none h = absurd h
low_row-Any r item (some row) h =
    let rows = level_of item row.qty row.reorder_level row.reorder_qty in
    let (active, among) = if_Any (λ x. r ≡ x) item.is_active rows h in
    let here = level_of-Any r item row.qty row.reorder_level row.reorder_qty among in
    (here.0, active, ap some (sym here.1))

-- An active item of the list with a reorder level.
abbrev IsWatched : StockTables → ℕ → List ItemName → LowStock → Type 0
IsWatched s branch items r =
    Any (λ i. r.item ≡ i) items
    × (r.item.is_active ≡ true)
    × (s.item_stock branch r.item.id ≡ some (stock_row r))

watched-Any :
    (s : StockTables) (branch : ℕ) (items : List ItemName) (r : LowStock)
    → Any (λ x. r ≡ x) (watched s branch items)
    → IsWatched s branch items r
unfolding watched
watched-Any s branch [] r h = absurd h
watched-Any s branch (i ∷ items) r h =
    let row = s.item_stock branch i.id in
    elim ((Any-append (λ x. r ≡ x) (low_row i row) (watched s branch items)).0 h) [
      | inl here ↦
          let (same, active, stock) = low_row-Any r i row here in
          (
            inl same,
            ap (λ (x : ItemName). x.is_active) same ∙ active,
            ap (λ (x : ItemName). s.item_stock branch x.id) same ∙ stock,
          )
      | inr there ↦
          let (among, active, stock) = watched-Any s branch items r there in
          (inr among, active, stock)
    ]

IsWatched-Any :
    (s : StockTables) (branch : ℕ) (items : List ItemName) (r : LowStock)
    → IsWatched s branch items r
    → Any (λ x. r ≡ x) (watched s branch items)
unfolding watched
IsWatched-Any s branch [] r (among, active, stock) = absurd among
IsWatched-Any s branch (i ∷ items) r (inl same, active, stock) =
    let here : Any (λ x. r ≡ x) (low_row r.item (s.item_stock branch r.item.id)) =
      rw (stock, active) (inl refl) in
    let row = s.item_stock branch i.id in
    (Any-append (λ x. r ≡ x) (low_row i row) (watched s branch items)).1 (
      inl (
        subst (λ (x : ItemName). Any (λ y. r ≡ y) (low_row x (s.item_stock branch x.id))) same
          here))
IsWatched-Any s branch (i ∷ items) r (inr among, active, stock) =
    (Any-append (λ x. r ≡ x) (low_row i (s.item_stock branch i.id)) (watched s branch items)).1
      (inr (IsWatched-Any s branch items r (among, active, stock)))

before_batch_total : (a b : ListedBatch) → before_batch a b ≡ false → before_batch b a ≡ true
unfolding before_batch
before_batch_total a b h = ground arith

low_of :
    (s : StockTables) (branch : ℕ) (items : List ItemName) (r : LowStock)
    → Any (λ x. (r ≡ x) × (is_low x ≡ true)) (watched s branch items)
    → IsLowAt s branch items r
low_of s branch items r h =
    let all = watched s branch items in
    let (among, active, stock) = watched-Any s branch items r (Any-map _ _ all (λ x p. p.0) h) in
    let low : is_low r ≡ true =
      Any-const all (Any-map _ (λ x. is_low r ≡ true) all (λ x p. ap is_low p.0 ∙ p.1) h) in
    (among, active, stock, ground (arith, low))

of_low :
    (s : StockTables) (branch : ℕ) (items : List ItemName) (r : LowStock)
    → IsLowAt s branch items r
    → Any (λ x. (r ≡ x) × (is_low x ≡ true)) (watched s branch items)
of_low s branch items r (among, active, stock, below) =
    let low : is_low r ≡ true = ground (arith, below) in
    Any-map _ _ (watched s branch items) (λ x same. (same, ap is_low (sym same) ∙ low))
      (IsWatched-Any s branch items r (among, active, stock))

-- Low stock is exactly the active items of the list that are at their reorder level at the branch or
-- below it, with what is on hand and the level, the furthest below it first and by name if as far.
pub low_stock-IsLowAt :
    (s : StockTables) (branch : ℕ) (items : List ItemName) (rows : List LowStock) (r : LowStock)
    → low_stock s branch items ≡ ok rows
    → (Any (λ x. r ≡ x) rows ↔ IsLowAt s branch items r) × Pairwise IsFurtherBelow rows
unfolding low_stock
low_stock-IsLowAt s branch items rows r h =
    let (u, e, h1) = >>=-ok (ensure_branch_exists s branch) _ h in
    let all = watched s branch items in
    let low = filter is_low all in
    let among = Any-sort before_low (λ x. r ≡ x) low in
    let kept = Any-filter (λ x. r ≡ x) is_low all in
    subst (λ rs. (Any (λ x. r ≡ x) rs ↔ IsLowAt s branch items r) × Pairwise IsFurtherBelow rs)
      (ok_injective _ _ h1)
      (
        (
          λ m. low_of s branch items r (kept.0 (among.0 m)),
          λ l. among.1 (kept.1 (of_low s branch items r l)),
        ),
        sort-Pairwise before_low IsFurtherBelow before_low-true before_low-false
            IsFurtherBelow-trans low,
      )

-- The batches of a branch are listed by their expiry, the earliest first.
pub list_batches-IsSorted :
    (s : StockTables) (name : ℕ → ℕ) (branch today : ℕ) (f : BatchFilter) (rows : List ListedBatch)
    → list_batches s name branch today f ≡ ok rows
    → IsSorted before_batch rows
unfolding list_batches
list_batches-IsSorted s name branch today f rows h =
    let (u, e, h1) = >>=-ok (ensure_branch_exists s branch) _ h in
    subst (IsSorted before_batch) (ok_injective _ _ h1)
      (sort-IsSorted before_batch before_batch_total (listed s name branch today f s.batches))
