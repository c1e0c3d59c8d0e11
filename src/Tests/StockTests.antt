-- ===== src/Tests/StockTests.antt =====
-- apps/api/src/stock at concrete inputs; quantities in thousandths.
use pointofsale.Base.{
  ◌+◌, ◌-◌, ◌≤◌, ◌≡◌, refl, false, none, some, List, [], ◌∷◌, ◌++◌, map, pos, All, sort, insert,
  if◌then◌else◌, ◌==◌,
}
use pointofsale.Stock.Batches.{
  BatchLot, BatchShare, share_of, PickInput, pick_batches, sources_of, total_qty, fresh_lots,
  expired_lots, unbatched_share, take_sources, is_expired, by_expiry, DocumentLine, SharesByItem,
  split_over_shares, put_back,
}
use pointofsale.Stock.Batches.Pick.{IsGreedy, FromFresh, pick_batches-sum, pick_batches-FromFresh}
use pointofsale.Stock.Batches.Order.{loose_share, pick_batches-IsGreedy}
use pointofsale.Stock.Batches.Split.{left_of, wanted, split_over_shares-left}
use pointofsale.Stock.Batches.PutBack.{qty_of, put_back_bounds}
use pointofsale.Stock.BatchStock.{ItemStock, TakeOptions, pick_input, take_item}
use pointofsale.Stock.BatchStock.Taking.{IsTaken, take_item-IsTaken}

-- Two fresh lots, the later first, and one that has expired.
abbrev sample_pick : PickInput
sample_pick = record {
  lots =
      record {
        batch_id = 1;
        batch_no = 11;
        expiry_date = some 20_270_301;
        created_at = 5;
        qty = pos 4000;
      }
      ∷ record {
        batch_id = 2;
        batch_no = 12;
        expiry_date = some 20_261_231;
        created_at = 6;
        qty = pos 3000;
      }
      ∷ record {
        batch_id = 3;
        batch_no = 13;
        expiry_date = some 20_261_001;
        created_at = 4;
        qty = pos 2000;
      }
      ∷ [];
  unbatched = pos 500;
  qty = 5000;
  today = 20_261_126;
  include_expired = false;
}

abbrev sample_lot : BatchLot
sample_lot = record {
  batch_id = 2;
  batch_no = 12;
  expiry_date = some 20_261_231;
  created_at = 6;
  qty = pos 3000;
}

pick_run :
    (pick_batches sample_pick).taken
    ≡ record { batch_id = none; qty = 500 }
      ∷ record { batch_id = some 2; qty = 3000 }
      ∷ record { batch_id = some 1; qty = 1500 }
      ∷ []
unfolding pick_batches sources_of unbatched_share fresh_lots expired_lots take_sources is_expired
    by_expiry sort insert
pick_run = refl

pick_batches-sum_example :
    total_qty (pick_batches sample_pick).taken + (pick_batches sample_pick).short ≡ 5000
pick_batches-sum_example = (pick_batches-sum sample_pick).0

pick_batches-IsGreedy_example :
    IsGreedy
      (loose_share 500 ++ (map share_of (fresh_lots sample_pick) ++ []))
      (pick_batches sample_pick).taken
pick_batches-IsGreedy_example = (pick_batches-IsGreedy sample_pick sample_lot).0

pick_batches-FromFresh_example : All (FromFresh sample_pick) (pick_batches sample_pick).taken
pick_batches-FromFresh_example = pick_batches-FromFresh sample_pick refl

abbrev sample_lines : List DocumentLine
sample_lines =
    record { item_id = 7; qty = 2000 }
    ∷ record { item_id = 8; qty = 1000 }
    ∷ record { item_id = 7; qty = 1500 }
    ∷ []

abbrev sample_shares : SharesByItem
sample_shares item =
    if item == 7
    then some
        (record { batch_id = some 1; qty = 2500 } ∷ record { batch_id = some 2; qty = 1500 } ∷ [])
    else none

split_over_shares-left_example :
    left_of ((split_over_shares sample_lines sample_shares).1 7)
    ≡ left_of (sample_shares 7) - wanted 7 sample_lines
split_over_shares-left_example = split_over_shares-left sample_lines sample_shares 7

abbrev sent_out : List BatchShare
sent_out = record { batch_id = some 1; qty = 2000 } ∷ record { batch_id = some 2; qty = 1000 } ∷ []

abbrev came_back : List BatchShare
came_back = record { batch_id = some 1; qty = 1500 } ∷ []

put_back_bounds_example :
    qty_of (some 1) (put_back sent_out came_back 1200)
    ≤ qty_of (some 1) sent_out - qty_of (some 1) came_back
put_back_bounds_example = (put_back_bounds sent_out came_back 1200 1).1

abbrev sample_stock : ItemStock
sample_stock = record { lots = sample_pick.lots; total = pos 9500 }

abbrev sample_options : TakeOptions
sample_options = record { today = 20_261_126; allow_short = false; include_expired = false }

take_item-IsTaken_example :
    IsTaken
      (pick_input sample_stock 9000 sample_options)
      9000
      false
      (take_item sample_stock 9000 sample_options)
take_item-IsTaken_example = take_item-IsTaken sample_stock 9000 sample_options
