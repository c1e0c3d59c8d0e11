-- ===== src/Stock/BatchStock.antt =====
-- apps/api/src/stock/batch-stock.ts: `lotsOf` and `takeFromBatches`. The rows that the database gives
-- (the items kept by batch, an item's lots and its stock) are arguments.
pub mod Taking
use pointofsale.Base.{
  ℕ, ◌+◌, ◌-◌, Bool, true, false, not, ◌&&◌, ◌||◌, Option, none, some, List, [], ◌∷◌, ◌++◌, map,
  ltb, leb, ◌==◌, if◌then◌else◌, filter, Result, ok, err, ◌>>=◌, ℤ, pos, ◌+ℤ◌, ◌-ℤ◌,
}
use pointofsale.Stock.Batches.{
  BatchLot, BatchShare, PickInput, Picked, pick_batches, same_batch, SharesByItem, put_shares,
  expiry_or_last,
}

-- Why stock is refused, with what can be sold.
pub data StockRefusal : Type 0 where
  only_expired_left insufficient_stock : ℕ → StockRefusal

pub record ItemStock : Type 0 where
  pub lots : List BatchLot
  pub total : ℤ

abbrev lots_total : List BatchLot → ℤ
lots_total [] = pos 0
lots_total (l ∷ ls) = l.qty +ℤ lots_total ls

-- `lotsOf`: the lots, and the stock without a batch.
unfoldable pub unbatched_of : ItemStock → ℤ
unfolding lots_total
unbatched_of s = s.total -ℤ lots_total s.lots

pub record TakeOptions : Type 0 where
  pub today : ℕ
  pub allow_short : Bool
  pub include_expired : Bool

abbrev pub pick_input : ItemStock → ℕ → TakeOptions → PickInput
pick_input s qty o = record {
  lots = s.lots;
  unbatched = unbatched_of s;
  qty = qty;
  today = o.today;
  include_expired = o.include_expired;
}

-- One item of `takeFromBatches`: what is short is refused, or taken without a batch.
unfoldable pub take_picked : Picked → ℕ → Bool → Result StockRefusal (List BatchShare)
take_picked picked qty allow_short =
    let past_stock = allow_short && ltb picked.expired picked.short in
    if ltb 0 picked.short
    then (if ltb 0 picked.expired && not past_stock
        then err (only_expired_left (qty - picked.short))
        else (if not allow_short
            then err (insufficient_stock (qty - picked.short))
            else ok (picked.taken ++ record { batch_id = none; qty = picked.short } ∷ [])))
    else ok picked.taken

unfoldable pub take_item : ItemStock → ℕ → TakeOptions → Result StockRefusal (List BatchShare)
take_item s qty o = take_picked (pick_batches (pick_input s qty o)) qty o.allow_short

pub record Want : Type 0 where
  pub item_id : ℕ
  pub qty : ℕ

-- The loop over the items that track batches.
unfoldable pub take_from_batches :
    (ℕ → Bool) → (ℕ → ItemStock) → List Want → TakeOptions → Result StockRefusal SharesByItem
take_from_batches is_tracked stock [] o = ok (λ item. none)
take_from_batches is_tracked stock (w ∷ ws) o =
    let rest = take_from_batches is_tracked stock ws o in
    let taken = (do
      shares ← take_item (stock w.item_id) w.qty o
      others ← rest
      ok (put_shares others w.item_id shares)) in
    if is_tracked w.item_id then taken else rest
