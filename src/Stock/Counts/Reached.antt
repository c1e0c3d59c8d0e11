-- ===== src/Stock/Counts/Reached.antt =====
-- What holds of every shop's stock.
use pointofsale.Base.{
  ℕ, ◌≡◌, refl, subst, Bool, true, false, not, ◌&&◌, Option, none, some, List, [], ◌∷◌, map, All,
  map-All, All-every, arith, ok, >>=-ok, guard->>=, ok_injective,
}
use pointofsale.Shop.{find}
use pointofsale.Stock.Batches.{BatchShare, same_batch}
use pointofsale.Stock.Ledger.{
  StockDirection, stock_in, stock_out, StockEntry, StockTables, record_stock, opening_exists,
  get_on_hand_for_item,
}
use pointofsale.Stock.Ledger.Sums.{item_sum, batch_sum}
use pointofsale.Stock.Counts.{
  item_and_batch, CountInput, is_opening_of, in_batch, is_found, opening_entry, checked_item,
  create_stock_opening, corrects, update_stock_opening, adjustment_shares, adjustment_entry,
  create_stock_adjustment,
}
use pointofsale.Stock.Counts.Sums.{item_and_batch-frame, resolve_batch-frame}
use pointofsale.Stock.Counts.Summed.{
  IsSummed, opens_in, record_stock-IsSummed, create_stock_opening-IsSummed,
  create_stock_adjustment-IsSummed, set_reorder_level-IsSummed, set_reorder_level-ledger,
  SameCounts-IsSummed, adjustment_shares-frame,
}
use pointofsale.Stock.Counts.Corrected.{
  update_stock_opening-ok, correction-IsSummed, correction-ledger,
}
use pointofsale.Stock.Counts.Openings.{
  is_other, HasOpenings, others-HasOpenings, counted_twice, unfound_once, new-HasOpenings,
  update-opens_in, update-IsOpenedOnce,
}
use pointofsale.Stock.Counts.Steps.{
  StockStep, recorded, imported, opened, corrected, adjusted, levelled, batch_received, catalogued,
  Reached, start, next,
}

record_others-HasOpenings :
    (s : StockTables) (es : List StockEntry)
    → All (λ e. is_other e ≡ true) es
    → HasOpenings s.ledger
    → HasOpenings (record_stock s es).ledger
unfolding record_stock
record_others-HasOpenings s es h wf = others-HasOpenings s.ledger es h wf

record_new-HasOpenings :
    (s : StockTables) (e : StockEntry)
    → opens_in e ≡ true
    → All (λ x. All (λ e'. counted_twice x e' ≡ false) (e ∷ [])) s.ledger
    → HasOpenings s.ledger
    → HasOpenings (record_stock s (e ∷ [])).ledger
unfolding record_stock
record_new-HasOpenings s e ins once wf = new-HasOpenings s.ledger e ins once wf

same_in_batch :
    (batch : Option ℕ) (e : StockEntry)
    → same_batch e.batch_id batch ≡ true
    → in_batch batch e ≡ true
same_in_batch none e h = refl
same_in_batch (some b) e h = h

not-true : (b : Bool) → not b ≡ true → b ≡ false
not-true b h = ground arith

create_stock_opening-HasOpenings :
    (s : StockTables) (c : CountInput) (now : ℕ) (r : StockTables × StockEntry)
    → create_stock_opening s c now ≡ ok r
    → HasOpenings s.ledger
    → HasOpenings r.0.ledger
unfolding create_stock_opening
create_stock_opening-HasOpenings s c now r h wf =
    let (item, e, h1) = >>=-ok (checked_item s c) _ h in
    let (kept, e2, h2) = >>=-ok (item_and_batch s c.item_id c.batch now) _ h1 in
    let there =
      is_found
        (find (λ e. is_opening_of c.branch_id c.item_id e && in_batch kept.1 e) kept.0.ledger) in
    let (fresh, h3) = guard->>= (not there) opening_exists _ h2 in
    let (l, is, bs) = item_and_batch-frame s c.item_id c.batch now kept e2 in
    subst (λ (x : StockTables × StockEntry). HasOpenings x.0.ledger) (ok_injective _ _ h3)
      (record_new-HasOpenings kept.0 (opening_entry c kept.1) refl
        (unfound_once c.branch_id c.item_id kept.1 (opening_entry c kept.1) kept.0.ledger refl refl
          (same_in_batch kept.1) (not-true there fresh))
        (rw l wf))

update_stock_opening-HasOpenings :
    (s t : StockTables) (c : CountInput)
    → update_stock_opening s c ≡ ok t
    → HasOpenings s.ledger
    → HasOpenings t.ledger
update_stock_opening-HasOpenings s t c h (ins, once) =
    let (by_batch, opening, there, h1) = update_stock_opening-ok s t c h in
    rw (correction-ledger s t c by_batch opening h1) (
      update-opens_in (corrects s c by_batch) c s.ledger ins,
      update-IsOpenedOnce (corrects s c by_batch) c s.ledger once,
    )

adjustment_other :
    (c : CountInput) (dir : StockDirection) (x : BatchShare)
    → is_other (adjustment_entry c dir x) ≡ true
adjustment_other c stock_in x = refl
adjustment_other c stock_out x = refl

create_stock_adjustment-HasOpenings :
    (s t : StockTables) (c : CountInput) (dir : StockDirection) (today now : ℕ)
    → create_stock_adjustment s c dir today now ≡ ok t
    → HasOpenings s.ledger
    → HasOpenings t.ledger
unfolding create_stock_adjustment
create_stock_adjustment-HasOpenings s t c dir today now h wf =
    let (item, e, h1) = >>=-ok (checked_item s c) _ h in
    let (shares, e2, h2) = >>=-ok (adjustment_shares s c item.tracks_batches dir today now) _ h1 in
    let (l, is, bs) = adjustment_shares-frame s c item.tracks_batches dir today now shares e2 in
    subst (λ (x : StockTables). HasOpenings x.ledger) (ok_injective _ _ h2)
      (record_others-HasOpenings shares.0 (map (adjustment_entry c dir) shares.1)
        (map-All (λ e. is_other e ≡ true) (adjustment_entry c dir) shares.1
          (All-every _ shares.1 (adjustment_other c dir)))
        (rw l wf))

StockStep-HasOpenings :
    (s t : StockTables) → StockStep s t → HasOpenings s.ledger → HasOpenings t.ledger
StockStep-HasOpenings s _ (recorded es other) wf = record_others-HasOpenings s es other wf
StockStep-HasOpenings s _ (imported e ins new) wf =
    record_new-HasOpenings s e ins
      (unfound_once e.branch_id e.item_id none e s.ledger refl refl (λ x h. refl) new) wf
StockStep-HasOpenings s _ (opened c now r h) wf = create_stock_opening-HasOpenings s c now r h wf
StockStep-HasOpenings s t (corrected c h) wf = update_stock_opening-HasOpenings s t c h wf
StockStep-HasOpenings s t (adjusted c dir today now h) wf =
    create_stock_adjustment-HasOpenings s t c dir today now h wf
StockStep-HasOpenings s t (levelled branch item level qty h) wf =
    rw (set_reorder_level-ledger s t branch item level qty h) wf
StockStep-HasOpenings s _ (batch_received item number expiry now r h) wf =
    rw (resolve_batch-frame s item number expiry now r h).0 wf
StockStep-HasOpenings s _ (catalogued branches items) wf = wf

-- In every shop the opening counts take nothing out, and no item has two of them at a branch for one
-- batch (or two without a batch).
pub Reached-HasOpenings : (s : StockTables) → Reached s → HasOpenings s.ledger
Reached-HasOpenings _ start = (tt, tt)
Reached-HasOpenings t (next {s = s} r step) =
    StockStep-HasOpenings s t step (Reached-HasOpenings s r)

StockStep-IsSummed :
    (s t : StockTables) (b i k : ℕ)
    → StockStep s t
    → HasOpenings s.ledger
    → IsSummed s b i k
    → IsSummed t b i k
StockStep-IsSummed s _ b i k (recorded es other) ho wf = record_stock-IsSummed s es b i k wf
StockStep-IsSummed s _ b i k (imported e ins new) ho wf = record_stock-IsSummed s (e ∷ []) b i k wf
StockStep-IsSummed s _ b i k (opened c now r h) ho wf =
    create_stock_opening-IsSummed s c now r b i k h wf
StockStep-IsSummed s t b i k (corrected c h) ho wf =
    let (by_batch, opening, there, h1) = update_stock_opening-ok s t c h in
    correction-IsSummed s t c by_batch opening b i k ho.0 there h1 wf
StockStep-IsSummed s t b i k (adjusted c dir today now h) ho wf =
    create_stock_adjustment-IsSummed s t c dir today now b i k h wf
StockStep-IsSummed s t b i k (levelled branch item level qty h) ho wf =
    set_reorder_level-IsSummed s t branch item level qty b i k h wf
StockStep-IsSummed s _ b i k (batch_received item number expiry now r h) ho wf =
    SameCounts-IsSummed s r.0 b i k (resolve_batch-frame s item number expiry now r h) wf
StockStep-IsSummed s _ b i k (catalogued branches items) ho wf =
    SameCounts-IsSummed s (record s { branches = branches; items = items }) b i k (refl, refl, refl)
      wf

-- In every shop the stock of an item at a branch is the sum of the ledger's entries for it there, what
-- came in less what went out, and so is the stock of a batch.
pub Reached-IsSummed :
    (s : StockTables) (branch item batch : ℕ) → Reached s → IsSummed s branch item batch
unfolding item_sum batch_sum get_on_hand_for_item
Reached-IsSummed _ b i k start = (refl, refl)
Reached-IsSummed t b i k (next {s = s} r step) =
    StockStep-IsSummed s t b i k step (Reached-HasOpenings s r) (Reached-IsSummed s b i k r)
