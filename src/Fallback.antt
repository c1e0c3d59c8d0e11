-- ===== src/Fallback.antt =====
-- apps/api/src/fallback/batch-shortfalls.ts: `placeBatchShortfalls`, which splits the sales of an offline
-- counter that took more of a batch than the server has. A new row's id (`randomUUID`) is a function of
-- the row that is split; names are left out. Without a split row the answer is what came.
pub mod Totals
use Prim.Native.Nat.{min}
use pointofsale.Base.{
  ℕ, ◌+◌, ◌-◌, Bool, true, false, not, ◌&&◌, ◌||◌, Option, none, some, List, [], ◌∷◌, ◌++◌, map,
  ltb, leb, ◌==◌, if◌then◌else◌, filter, sort, put, ℤ, pos, pos_part, ◌+ℤ◌, ◌-ℤ◌,
}
use pointofsale.Shop.{find}
use pointofsale.Stock.Ledger.{
  StockTxnType, StockEntry, ItemBatch, Rows, StockTables, is_key, put_row, batch_row_qty, moved_by,
}
use pointofsale.Stock.Lines.{batch_of}

pub record OutboxRow : Type 0 where
  pub id : ℕ
  pub created_at : ℕ
  pub entry : StockEntry

-- A bill with its cashier, or a return, with its movements.
pub record OutboxDocument : Type 0 where
  pub created_by : ℕ
  pub ledger : List OutboxRow

pub record BatchShortfall : Type 0 where
  pub branch_id : ℕ
  pub batch_id : ℕ
  pub batch_no : ℕ
  pub item_id : ℕ
  pub qty : ℕ
  pub user_id : Option ℕ

-- The `Map`s of the loop.
pub record Placing : Type 0 where
  pub balance : Rows ℤ
  pub replaced : ℕ → Option (List OutboxRow)
  pub shortfalls : List BatchShortfall

abbrev pub all_rows : List OutboxDocument → List OutboxRow
all_rows [] = []
all_rows (d ∷ ds) = d.ledger ++ all_rows ds

abbrev pub has_batch : OutboxRow → Bool
has_batch r = elim r.entry.batch_id [ none ↦ false | some b ↦ true ]

-- By time, then by id.
unfoldable pub before_row : OutboxRow → OutboxRow → Bool
before_row a b =
    if ltb a.created_at b.created_at
    then true
    else (if ltb b.created_at a.created_at then false else leb a.id b.id)

-- The movements of batches that the server does not have.
unfoldable pub fresh_rows : (ℕ → Bool) → List OutboxRow → List OutboxRow
fresh_rows known rows = sort before_row (filter (λ r. not (known r.id)) (filter has_batch rows))

abbrev has_row : ℕ → List OutboxRow → Bool
has_row id [] = false
has_row id (r ∷ rs) = (r.id == id) || has_row id rs

abbrev seller_or : Option ℕ → Option ℕ → Option ℕ
seller_or none first = first
seller_or (some last) first = some last

-- The cashier of the bill that a movement is of, the last bill if there are more.
unfoldable pub seller_of : List OutboxDocument → ℕ → Option ℕ
seller_of [] id = none
seller_of (d ∷ ds) id =
    seller_or (seller_of ds id) (if has_row id d.ledger then some d.created_by else none)

abbrev pub is_sale : StockTxnType → Bool
is_sale StockTxnType.sale = true
is_sale _ = false

unfoldable pub add_shortfall : List BatchShortfall → BatchShortfall → List BatchShortfall
add_shortfall [] s = s ∷ []
add_shortfall (t ∷ ts) s =
    if is_key s.branch_id s.batch_id t.branch_id t.batch_id
    then record t { qty = t.qty + s.qty } ∷ ts
    else t ∷ add_shortfall ts s

abbrev pub with_out : OutboxRow → ℕ → OutboxRow
with_out r qty = record r { entry = record r.entry { qty_out = qty } }

abbrev pub without_batch : OutboxRow → ℕ → OutboxRow
without_batch r short = record r { entry = record r.entry { batch_id = none; qty_out = short } }

-- What a movement is replaced by: the part from the batch, if any, and the part without one.
abbrev pub split_row : (ℕ → ℕ) → OutboxRow → ℕ → ℕ → List OutboxRow
split_row new_id r from_batch short =
    if ltb 0 from_batch
    then with_out r from_batch ∷ record (without_batch r short) { id = new_id r.id } ∷ []
    else without_batch r short ∷ []

abbrev pub on_hand_of : Option ℤ → Option ℤ → ℤ
on_hand_of none stock = batch_row_qty stock
on_hand_of (some q) stock = q

module _ (s : StockTables) (new_id : ℕ → ℕ) (seller : ℕ → Option ℕ) where
  -- A sale takes what the batch has, and the rest without a batch.
  unfoldable pub place_sale : Placing → OutboxRow → ItemBatch → ℤ → Placing
  place_sale p r batch on_hand =
      let from_batch = min r.entry.qty_out (pos_part on_hand) in
      let short = r.entry.qty_out - from_batch in
      let taken = record p {
        balance = put_row p.balance r.entry.branch_id batch.id (on_hand -ℤ pos from_batch);
      } in
      if short == 0 then taken else record taken {
        replaced = put p.replaced r.id (some (split_row new_id r from_batch short));
        shortfalls = add_shortfall p.shortfalls (record {
          branch_id = r.entry.branch_id;
          batch_id = batch.id;
          batch_no = batch.batch_no;
          item_id = batch.item_id;
          qty = short;
          user_id = seller r.id;
        });
      }

  abbrev pub place_in : Placing → OutboxRow → ItemBatch → ℤ → Placing
  place_in p r batch on_hand =
      let moved = record p {
        balance = put_row p.balance r.entry.branch_id batch.id (moved_by on_hand r.entry);
      } in
      if is_sale r.entry.txn_type && ltb 0 r.entry.qty_out
      then place_sale p r batch on_hand
      else moved

  -- A batch of another item is left alone.
  abbrev pub place_found : Placing → OutboxRow → Option ItemBatch → Placing
  place_found p r none = p
  place_found p r (some batch) =
      let b = r.entry.branch_id in
      let placed =
        place_in p r batch (on_hand_of (p.balance b batch.id) (s.batch_stock b batch.id)) in
      if batch.item_id == r.entry.item_id then placed else p

  -- The loop over the movements.
  unfoldable pub place_rows : Placing → List OutboxRow → Placing
  place_rows p [] = p
  place_rows p (r ∷ rs) = place_rows (place_found p r (batch_of s.batches r.entry.batch_id)) rs

abbrev pub no_placing : Placing
no_placing = record { balance = λ b k. none; replaced = λ id. none; shortfalls = [] }

abbrev pub replaced_by : OutboxRow → Option (List OutboxRow) → List OutboxRow
replaced_by r none = r ∷ []
replaced_by r (some rows) = rows

unfoldable pub split_ledger : (ℕ → Option (List OutboxRow)) → List OutboxRow → List OutboxRow
split_ledger replaced [] = []
split_ledger replaced (r ∷ rs) = replaced_by r (replaced r.id) ++ split_ledger replaced rs

abbrev pub split_document : (ℕ → Option (List OutboxRow)) → OutboxDocument → OutboxDocument
split_document replaced d = record d { ledger = split_ledger replaced d.ledger }

pub record Placed : Type 0 where
  pub invoices : List OutboxDocument
  pub returns : List OutboxDocument
  pub shortfalls : List BatchShortfall

-- `known` says which movements the server has.
unfoldable pub place_batch_shortfalls :
    StockTables → (ℕ → Bool) → (ℕ → ℕ) → List OutboxDocument → List OutboxDocument → Placed
place_batch_shortfalls s known new_id invoices returns =
    let rows = fresh_rows known (all_rows invoices ++ all_rows returns) in
    let p = place_rows s new_id (seller_of invoices) no_placing rows in
    record {
      invoices = map (split_document p.replaced) invoices;
      returns = map (split_document p.replaced) returns;
      shortfalls = p.shortfalls;
    }
