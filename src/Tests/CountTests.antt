-- ===== src/Tests/CountTests.antt =====
-- apps/api/src/stock/stock.service.ts at concrete inputs; quantities in thousandths.
use pointofsale.Base.{
  Any, Pairwise, ◌↔◌, List, ◌≡◌, refl, true, none, some, [], ◌∷◌, ◌==◌, if◌then◌else◌, pos, ◌+ℤ◌,
  ◌-ℤ◌, sort, insert, ok,
}
use pointofsale.Stock.Batches.{
  is_expired, fresh_lots, expired_lots, unbatched_share, sources_of, take_sources, pick_batches,
}
use pointofsale.Stock.BatchStock.{take_from_batches, take_item, take_picked, unbatched_of}
use pointofsale.Stock.Ledger.{
  StockTables, get_on_hand_for_item, item_moves, batch_moves, add_deltas, add_delta, apply_moves,
  record_stock, resolve_batch, lots_of, is_key, stock_out,
}
use pointofsale.Stock.Counts.{
  CountInput, item_and_batch, checked_item, create_stock_opening, opening_entry, adjustment_shares,
  create_stock_adjustment, adjustment_entry,
}
use pointofsale.Sales.Lines.{assert_qty_respects_least_count}
use pointofsale.Stock.Counts.Summed.{IsSummed}
use pointofsale.Stock.Counts.Openings.{HasOpenings}
use pointofsale.Stock.Counts.Steps.{Reached, start, next, catalogued, opened, adjusted, new_shop}
use pointofsale.Stock.Counts.Reached.{Reached-IsSummed, Reached-HasOpenings}
use pointofsale.Stock.Ledger.Once.{IsOncePerRow, moves-IsOncePerRow}
use pointofsale.Stock.Lists.{ItemName, LowStock, watched, low_stock}
use pointofsale.Stock.Lists.Order.{IsFurtherBelow, IsLowAt, low_stock-IsLowAt}
use pointofsale.Stock.Ledger.Signed.{signed}
use pointofsale.Stock.Counts.Effects.{HasEnough, create_stock_adjustment-on_hand}

-- A shop with one branch and one item, kept by batch, in whole units.
abbrev sample_shop : StockTables
sample_shop = record new_shop {
  branches = λ b. b == 1;
  items = λ i.
      if i == 5 then some (record { id = 5; least_count = 1000; tracks_batches = true }) else none;
}

abbrev count_of_60 : CountInput
count_of_60 = record {
  branch_id = 1;
  item_id = 5;
  qty = 60_000;
  cost_price = none;
  reason = none;
  batch = record { batch_no = some 77; expiry_date = some 20_270_301 };
}

abbrev with_batch : StockTables
with_batch = record sample_shop {
  batches =
      record { id = 0; item_id = 5; batch_no = 77; expiry_date = some 20_270_301; created_at = 3 }
      ∷ [];
}

abbrev pub opened_shop : StockTables
opened_shop = record_stock with_batch (opening_entry count_of_60 (some 0) ∷ [])

opened_run :
    create_stock_opening sample_shop count_of_60 3
    ≡ ok (opened_shop, opening_entry count_of_60 (some 0))
unfolding create_stock_opening checked_item assert_qty_respects_least_count item_and_batch
    resolve_batch
opened_run = refl

-- 15 are written off.
abbrev count_of_15 : CountInput
count_of_15 = record count_of_60 {
  qty = 15_000;
  batch = record { batch_no = none; expiry_date = none };
}

abbrev written_off : StockTables
written_off =
    record_stock opened_shop
      (adjustment_entry count_of_15 stock_out (record { batch_id = some 0; qty = 15_000 }) ∷ [])

written_off_run :
    create_stock_adjustment opened_shop count_of_15 stock_out 20_270_101 4 ≡ ok written_off
unfolding create_stock_adjustment checked_item assert_qty_respects_least_count adjustment_shares
    get_on_hand_for_item record_stock item_moves batch_moves add_deltas add_delta apply_moves
    take_from_batches lots_of take_item take_picked unbatched_of pick_batches sources_of
    take_sources fresh_lots expired_lots unbatched_share ◌-ℤ◌ ◌+ℤ◌ sort is_expired
written_off_run = refl

sample-Reached : Reached written_off
sample-Reached =
    next
      (next (next start (catalogued sample_shop.branches sample_shop.items))
        (opened count_of_60 3 _ opened_run))
      (adjusted count_of_15 stock_out 20_270_101 4 written_off_run)

Reached-IsSummed_example : IsSummed written_off 1 5 0
Reached-IsSummed_example = Reached-IsSummed written_off 1 5 0 sample-Reached

Reached-HasOpenings_example : HasOpenings written_off.ledger
Reached-HasOpenings_example = Reached-HasOpenings written_off sample-Reached

create_stock_adjustment-on_hand_example :
    HasEnough opened_shop count_of_15 stock_out
    × (get_on_hand_for_item written_off 1 5
        ≡ get_on_hand_for_item opened_shop 1 5
          +ℤ (if is_key 1 5 1 5 then signed stock_out 15_000 else pos 0))
create_stock_adjustment-on_hand_example =
    create_stock_adjustment-on_hand opened_shop written_off count_of_15 stock_out 20_270_101 4 1 5
      written_off_run

-- 45 are left.
written_off_left : get_on_hand_for_item written_off 1 5 ≡ pos 45_000
unfolding get_on_hand_for_item record_stock item_moves add_deltas add_delta apply_moves ◌-ℤ◌ ◌+ℤ◌
written_off_left = refl

moves-IsOncePerRow_example :
    IsOncePerRow (item_moves written_off.ledger) × IsOncePerRow (batch_moves written_off.ledger)
moves-IsOncePerRow_example = moves-IsOncePerRow written_off.ledger

-- 3 are left of an item that is ordered at 5.
abbrev watched_shop : StockTables
watched_shop = record sample_shop {
  item_stock = λ b i.
      if i == 5
      then some (record { qty = pos 3000; reorder_level = some 5000; reorder_qty = some 24_000 })
      else none;
}

abbrev soap_name : ItemName
soap_name = record { id = 5; name = 2; is_active = true }

abbrev low_row_of_soap : LowStock
low_row_of_soap = record {
  item = soap_name;
  on_hand = pos 3000;
  reorder_level = 5000;
  reorder_qty = some 24_000;
}

abbrev low_soap : List LowStock
low_soap = low_row_of_soap ∷ []

low_run : low_stock watched_shop 1 (soap_name ∷ []) ≡ ok low_soap
unfolding low_stock watched sort insert
low_run = refl

low_stock-IsLowAt_example :
    (Any (λ x. low_row_of_soap ≡ x) low_soap
      ↔ IsLowAt watched_shop 1 (soap_name ∷ []) low_row_of_soap)
    × Pairwise IsFurtherBelow low_soap
low_stock-IsLowAt_example =
    low_stock-IsLowAt watched_shop 1 (soap_name ∷ []) low_soap low_row_of_soap low_run
