-- ===== src/Stock/Counts/Corrected.antt =====
-- The correction of an opening count, against the ledger's sums.
use pointofsale.Base.{
  ℕ, ◌≡◌, refl, sym, ap, subst, Bool, true, not, ◌&&◌, Option, none, some, if◌then◌else◌, All, ℤ,
  pos, ◌+ℤ◌, ◌-ℤ◌, +ℤ_zero, arith, ◌∙◌, ok, >>=-ok, guard->>=, found-ok, ok_injective, found,
  Result, eq_of_parts, +ℤ_parts, -ℤ_parts,
}
use pointofsale.Shop.{find, find-All}
use pointofsale.Stock.Ledger.{
  StockError, StockEntry, StockTables, is_key, batch_row_qty, upsert_batch_row, adjust_item_stock,
  get_on_hand_for_item, batch_required, opening_not_found, stock_moved, row_not_found, item_key,
  batch_key,
}
use pointofsale.Stock.Ledger.Sums.{
  is_keyed, net_moved, entries_sum, of_key, item_sum, batch_sum, put_row-qty, batch_row_moves,
}
use pointofsale.Stock.Counts.{
  update_first, CountInput, is_opening_type, is_found, checked_item, corrects, is_movement_of,
  corrected_entry, move_batch, update_stock_opening, has_batch_no,
}
use pointofsale.Stock.Counts.Sums.{
  adjust_item_stock-on_hand, adjust_item_stock-frame, entries_sum-update,
}
use pointofsale.Stock.Counts.Summed.{IsSummed, opens_in}

move_batch-in_batch :
    (s t : StockTables) (branch : ℕ) (delta : ℤ) (batch : Option ℕ) (b k : ℕ)
    → move_batch s branch delta batch ≡ ok t
    → (t.ledger ≡ s.ledger)
      × (t.item_stock ≡ s.item_stock)
      × (batch_row_qty (t.batch_stock b k)
          ≡ batch_row_qty (s.batch_stock b k)
            +ℤ (if is_keyed b k branch batch then delta else pos 0))
move_batch-in_batch s t branch delta none b k h =
    subst
      (λ (x : StockTables).
        (x.ledger ≡ s.ledger)
        × (x.item_stock ≡ s.item_stock)
        × (batch_row_qty (x.batch_stock b k) ≡ batch_row_qty (s.batch_stock b k) +ℤ pos 0))
      (ok_injective _ _ h) (refl, refl, sym (+ℤ_zero (batch_row_qty (s.batch_stock b k))))
move_batch-in_batch s t branch delta (some batch) b k h =
    let (qty, e, h1) = >>=-ok (found (s.batch_stock branch batch) row_not_found) _ h in
    let there = found-ok (s.batch_stock branch batch) row_not_found e in
    let moves =
      put_row-qty upsert_batch_row batch_row_qty batch_row_moves s.batch_stock branch batch delta b
        k in
    subst
      (λ (x : StockTables).
        (x.ledger ≡ s.ledger)
        × (x.item_stock ≡ s.item_stock)
        × (batch_row_qty (x.batch_stock b k)
            ≡ batch_row_qty (s.batch_stock b k)
              +ℤ (if is_key b k branch batch then delta else pos 0)))
      (ok_injective _ _ h1) (refl, refl, rw there at moves)

pub corrects_where :
    (s : StockTables) (c : CountInput) (by_batch : Bool) (e : StockEntry)
    → corrects s c by_batch e ≡ true
    → (e.branch_id ≡ c.branch_id) × (e.item_id ≡ c.item_id) × (is_opening_type e.txn_type ≡ true)
corrects_where s c by_batch e h = ground arith

corrected_by :
    (c : CountInput) (e : StockEntry)
    → e.qty_out ≡ 0
    → net_moved (corrected_entry c e) -ℤ net_moved e ≡ pos c.qty -ℤ pos e.qty_in
corrected_by c e h =
    let z = pos 0 +ℤ pos c.qty in
    let y = pos 0 +ℤ pos e.qty_in in
    eq_of_parts _ _ (
      omega (
        arith,
        h,
        -ℤ_parts (net_moved (corrected_entry c e)) (net_moved e),
        -ℤ_parts (pos c.qty) (pos e.qty_in),
        -ℤ_parts z (pos 0),
        +ℤ_parts (pos 0) (pos c.qty),
        -ℤ_parts y (pos e.qty_out),
        +ℤ_parts (pos 0) (pos e.qty_in),
      ))

abbrev pub rewritten : StockTables → CountInput → Bool → StockTables
rewritten s c by_batch = record s {
  ledger = update_first (corrects s c by_batch) (corrected_entry c) s.ledger;
}

-- The rows after the correction of an opening count.
abbrev pub correction : StockTables → CountInput → Bool → StockEntry → Result StockError StockTables
correction s c by_batch opening =
    let delta = pos c.qty -ℤ pos opening.qty_in in
    move_batch (adjust_item_stock (rewritten s c by_batch) c.branch_id c.item_id delta) c.branch_id
      delta opening.batch_id

pub update_stock_opening-ok :
    (s t : StockTables) (c : CountInput)
    → update_stock_opening s c ≡ ok t
    → (by_batch : Bool) × (opening : StockEntry) × (find (corrects s c by_batch) s.ledger
        ≡ some opening)
      × (correction s c by_batch opening ≡ ok t)
unfolding update_stock_opening
update_stock_opening-ok s t c h =
    let (item, e, h1) = >>=-ok (checked_item s c) _ h in
    let (named, h2) =
      guard->>= (not (item.tracks_batches && not (has_batch_no c.batch))) batch_required _ h1 in
    let here = find (corrects s c item.tracks_batches) s.ledger in
    let (opening, e3, h3) = >>=-ok (found here opening_not_found) _ h2 in
    let (unmoved, h4) =
      guard->>= (not (is_found (find (is_movement_of c.branch_id c.item_id) s.ledger))) stock_moved
        _ h3 in
    (item.tracks_batches, opening, found-ok here opening_not_found e3, h4)

corrected-sum :
    (s : StockTables) (c : CountInput) (by_batch : Bool) (opening : StockEntry)
    (q : StockEntry → Bool) (same : (e : StockEntry) → q (corrected_entry c e) ≡ q e)
    → All (λ e. opens_in e ≡ true) s.ledger
    → find (corrects s c by_batch) s.ledger ≡ some opening
    → entries_sum q (rewritten s c by_batch).ledger
      ≡ entries_sum q s.ledger +ℤ (if q opening then pos c.qty -ℤ pos opening.qty_in else pos 0)
corrected-sum s c by_batch opening q same opens there =
    let here = corrects s c by_batch in
    let (is_it, ins) = find-All opens_in here s.ledger opening there opens in
    let (eb, ei, is_open) = corrects_where s c by_batch opening is_it in
    let out : opening.qty_out ≡ 0 = ground (arith, is_open, ins) in
    rw (sym (corrected_by c opening out))
      (entries_sum-update q here (corrected_entry c) same s.ledger opening there)

pub correction-ledger :
    (s t : StockTables) (c : CountInput) (by_batch : Bool) (opening : StockEntry)
    → correction s c by_batch opening ≡ ok t
    → t.ledger ≡ (rewritten s c by_batch).ledger
correction-ledger s t c by_batch opening h =
    let delta = pos c.qty -ℤ pos opening.qty_in in
    let r = rewritten s c by_batch in
    let s1 = adjust_item_stock r c.branch_id c.item_id delta in
    (move_batch-in_batch s1 t c.branch_id delta opening.batch_id 0 0 h).0
    ∙ (adjust_item_stock-frame r c.branch_id c.item_id delta).0

pub correction-IsSummed :
    (s t : StockTables) (c : CountInput) (by_batch : Bool) (opening : StockEntry) (b i k : ℕ)
    → All (λ e. opens_in e ≡ true) s.ledger
    → find (corrects s c by_batch) s.ledger ≡ some opening
    → correction s c by_batch opening ≡ ok t
    → IsSummed s b i k
    → IsSummed t b i k
unfolding item_sum batch_sum get_on_hand_for_item
correction-IsSummed s t c by_batch opening b i k opens there h wf =
    let (is_it, ins) = find-All opens_in (corrects s c by_batch) s.ledger opening there opens in
    let (eb, ei, is_open) = corrects_where s c by_batch opening is_it in
    let delta = pos c.qty -ℤ pos opening.qty_in in
    let r = rewritten s c by_batch in
    let s1 = adjust_item_stock r c.branch_id c.item_id delta in
    let (l, is, bs) = move_batch-in_batch s1 t c.branch_id delta opening.batch_id b k h in
    let (l1, bs1) = adjust_item_stock-frame r c.branch_id c.item_id delta in
    let of_item = of_key item_key b i in
    let of_batch = of_key batch_key b k in
    let by_item = if is_key b i c.branch_id c.item_id then delta else pos 0 in
    let by_batch_of = if is_keyed b k c.branch_id opening.batch_id then delta else pos 0 in
    let items : entries_sum of_item r.ledger ≡ entries_sum of_item s.ledger +ℤ by_item =
      rw (eb, ei) at (corrected-sum s c by_batch opening of_item (λ e. refl) opens there) in
    let batches : entries_sum of_batch r.ledger ≡ entries_sum of_batch s.ledger +ℤ by_batch_of =
      rw eb at (corrected-sum s c by_batch opening of_batch (λ e. refl) opens there) in
    (
      rw (l, l1, items, is)
          (adjust_item_stock-on_hand r c.branch_id c.item_id delta b i
            ∙ ap (λ x. x +ℤ by_item) wf.0),
      rw (l, l1, batches) (bs ∙ rw bs1 (ap (λ x. x +ℤ by_batch_of) wf.1)),
    )
