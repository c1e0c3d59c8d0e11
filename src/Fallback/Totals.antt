-- ===== src/Fallback/Totals.antt =====
-- apps/api/src/fallback/batch-shortfalls.ts: what the split movements add up to.
use Prim.Native.Nat.{min}
use pointofsale.Base.{
  ℕ, ◌+◌, ◌-◌, ◌≡◌, refl, sym, ap, Bool, true, false, ◌&&◌, Option, none, some, List, [], ◌∷◌, ◌++◌,
  map, ltb, ◌==◌, ==_iff, if◌then◌else◌, put, All, All-filter, All-sort, All-every, ℤ, pos,
  pos_part, ◌+ℤ◌, ◌-ℤ◌, Bool-cases, inl, inr, arith, ◌∙◌,
}
use mathlib.Core.List.{append_assoc}
use pointofsale.Stock.Ledger.{StockEntry, StockTables, ItemBatch, is_key}
use pointofsale.Stock.Ledger.Sums.{item_sum, entries_sum-append}
use pointofsale.Stock.Lines.{batch_of}
use pointofsale.Fallback.{
  OutboxRow, OutboxDocument, Placing, all_rows, fresh_rows, before_row, seller_of, is_sale,
  split_row, place_sale, place_in, place_found, on_hand_of, place_rows, no_placing, replaced_by,
  split_ledger, split_document, place_batch_shortfalls,
}

abbrev entries_of : List OutboxRow → List StockEntry
entries_of rows = map (λ r. r.entry) rows

-- What the movements say of an item at a branch.
abbrev pub rows_sum : ℕ → ℕ → List OutboxRow → ℤ
rows_sum branch item rows = item_sum (entries_of rows) branch item

-- A sale takes nothing in.
abbrev TakesNothingIn : OutboxRow → Type 0
TakesNothingIn r = is_sale r.entry.txn_type ≡ true → r.entry.qty_in ≡ 0

-- A movement's id tells its entry, and a sale takes nothing in.
abbrev pub IsToldBy : List OutboxRow → OutboxRow → Type 0
IsToldBy rows r = All (λ y. y.id ≡ r.id → y.entry ≡ r.entry) rows × TakesNothingIn r

abbrev AddsUp : ℕ → ℕ → OutboxRow → Option (List OutboxRow) → Type 0
AddsUp b i r parts = rows_sum b i (replaced_by r parts) ≡ rows_sum b i (r ∷ [])

-- Each movement's parts add up to it.
abbrev AllAddUp : ℕ → ℕ → List OutboxRow → (ℕ → Option (List OutboxRow)) → Type 0
AllAddUp b i rows replaced = All (λ y. AddsUp b i y (replaced y.id)) rows

split_amount :
    (p : Bool) (from short out : ℕ)
    → from + short ≡ out
    → (if p then (pos 0 +ℤ pos 0) -ℤ pos from else pos 0)
        +ℤ ((if p then (pos 0 +ℤ pos 0) -ℤ pos short else pos 0) +ℤ pos 0)
      ≡ (if p then (pos 0 +ℤ pos 0) -ℤ pos out else pos 0) +ℤ pos 0
unfolding ◌+ℤ◌ ◌-ℤ◌
split_amount true from short out h = ground arith
split_amount false from short out h = refl

split_row-AddsUp :
    (new_id : ℕ → ℕ) (r : OutboxRow) (b i from short : ℕ)
    → r.entry.qty_in ≡ 0
    → from + short ≡ r.entry.qty_out
    → AddsUp b i r (some (split_row new_id r from short))
unfolding item_sum
split_row-AddsUp new_id r b i from short none_in whole = elim (Bool-cases (ltb 0 from)) [
  | inl e ↦
      rw (e, none_in)
        (split_amount (is_key b i r.entry.branch_id r.entry.item_id) from short r.entry.qty_out
          whole)
  | inr e ↦ let all : short ≡ r.entry.qty_out = ground (arith, e, whole) in rw (e, all) refl
]

put-AllAddUp :
    (rows : List OutboxRow) (replaced : ℕ → Option (List OutboxRow)) (r : OutboxRow) (b i : ℕ)
    (parts : List OutboxRow)
    → All (λ y. y.id ≡ r.id → y.entry ≡ r.entry) rows
    → AddsUp b i r (some parts)
    → AllAddUp b i rows replaced
    → AllAddUp b i rows (put replaced r.id (some parts))
put-AllAddUp [] replaced r b i parts same up h = tt
put-AllAddUp (y ∷ ys) replaced r b i parts same up h =
    let rest = put-AllAddUp ys replaced r b i parts same.1 up h.1 in
    elim (Bool-cases (y.id == r.id)) [
      | inl e ↦
          let entry_same : r.entry ≡ y.entry = sym (same.0 ((==_iff y.id r.id).0 e)) in
          rw e (up ∙ ap (λ x. item_sum (x ∷ []) b i) entry_same, rest)
      | inr e ↦ rw e (h.0, rest)
    ]

module _ (s : StockTables) (new_id : ℕ → ℕ) (seller : ℕ → Option ℕ) (rows : List OutboxRow)
    (b i : ℕ) where
  place_sale-AllAddUp :
      (p : Placing) (r : OutboxRow) (batch : ItemBatch) (on_hand : ℤ)
      → All (λ y. y.id ≡ r.id → y.entry ≡ r.entry) rows
      → r.entry.qty_in ≡ 0
      → AllAddUp b i rows p.replaced
      → AllAddUp b i rows (place_sale s new_id seller p r batch on_hand).replaced
  unfolding place_sale
  place_sale-AllAddUp p r batch on_hand same none_in h =
      let from = min r.entry.qty_out (pos_part on_hand) in
      let short = r.entry.qty_out - from in
      let whole : from + short ≡ r.entry.qty_out = omega arith in
      elim (Bool-cases (short == 0)) [
        | inl e ↦ rw e h
        | inr e ↦ rw e (
            put-AllAddUp rows p.replaced r b i (split_row new_id r from short) same
              (split_row-AddsUp new_id r b i from short none_in whole) h)
      ]

  place_in-AllAddUp :
      (p : Placing) (r : OutboxRow) (batch : ItemBatch) (on_hand : ℤ)
      → IsToldBy rows r
      → AllAddUp b i rows p.replaced
      → AllAddUp b i rows (place_in s new_id seller p r batch on_hand).replaced
  place_in-AllAddUp p r batch on_hand told h =
      elim (Bool-cases (is_sale r.entry.txn_type && ltb 0 r.entry.qty_out)) [
        | inl e ↦
            let sale : is_sale r.entry.txn_type ≡ true = ground (arith, e) in
            rw e (place_sale-AllAddUp p r batch on_hand told.0 (told.1 sale) h)
        | inr e ↦ rw e h
      ]

  place_found-AllAddUp :
      (p : Placing) (r : OutboxRow) (batch : Option ItemBatch)
      → IsToldBy rows r
      → AllAddUp b i rows p.replaced
      → AllAddUp b i rows (place_found s new_id seller p r batch).replaced
  place_found-AllAddUp p r none told h = h
  place_found-AllAddUp p r (some batch) told h =
      elim (Bool-cases (batch.item_id == r.entry.item_id)) [
        | inl e ↦ rw e (
            place_in-AllAddUp p r batch
              (on_hand_of (p.balance r.entry.branch_id batch.id)
                (s.batch_stock r.entry.branch_id batch.id))
              told h)
        | inr e ↦ rw e h
      ]

  place_rows-AllAddUp :
      (p : Placing) (rs : List OutboxRow)
      → All (IsToldBy rows) rs
      → AllAddUp b i rows p.replaced
      → AllAddUp b i rows (place_rows s new_id seller p rs).replaced
  unfolding place_rows
  place_rows-AllAddUp p [] told h = h
  place_rows-AllAddUp p (r ∷ rs) told h =
      let found = batch_of s.batches r.entry.batch_id in
      place_rows-AllAddUp (place_found s new_id seller p r found) rs told.1
        (place_found-AllAddUp p r found told.0 h)

entries_of-append :
    (xs ys : List OutboxRow) → entries_of (xs ++ ys) ≡ entries_of xs ++ entries_of ys
entries_of-append [] ys = refl
entries_of-append (x ∷ xs) ys = ap (λ es. x.entry ∷ es) (entries_of-append xs ys)

rows_sum-append :
    (b i : ℕ) (xs ys : List OutboxRow)
    → rows_sum b i (xs ++ ys) ≡ rows_sum b i xs +ℤ rows_sum b i ys
unfolding item_sum
rows_sum-append b i xs ys =
    ap (λ es. item_sum es b i) (entries_of-append xs ys)
    ∙ entries_sum-append _ (entries_of xs) (entries_of ys)

split_ledger-rows_sum :
    (b i : ℕ) (replaced : ℕ → Option (List OutboxRow)) (rows : List OutboxRow)
    → AllAddUp b i rows replaced
    → rows_sum b i (split_ledger replaced rows) ≡ rows_sum b i rows
unfolding split_ledger
split_ledger-rows_sum b i replaced [] h = refl
split_ledger-rows_sum b i replaced (r ∷ rs) h =
    let parts = replaced_by r (replaced r.id) in
    rows_sum-append b i parts (split_ledger replaced rs)
    ∙ ap (λ d. d +ℤ rows_sum b i (split_ledger replaced rs)) h.0
    ∙ ap (λ d. rows_sum b i (r ∷ []) +ℤ d) (split_ledger-rows_sum b i replaced rs h.1)
    ∙ sym (rows_sum-append b i (r ∷ []) rs)

split_ledger-append :
    (replaced : ℕ → Option (List OutboxRow)) (xs ys : List OutboxRow)
    → split_ledger replaced (xs ++ ys) ≡ split_ledger replaced xs ++ split_ledger replaced ys
unfolding split_ledger
split_ledger-append replaced [] ys = refl
split_ledger-append replaced (x ∷ xs) ys =
    let parts = replaced_by x (replaced x.id) in
    ap (λ rs. parts ++ rs) (split_ledger-append replaced xs ys)
    ∙ sym (append_assoc parts (split_ledger replaced xs) (split_ledger replaced ys))

all_rows-split_document :
    (replaced : ℕ → Option (List OutboxRow)) (ds : List OutboxDocument)
    → all_rows (map (split_document replaced) ds) ≡ split_ledger replaced (all_rows ds)
unfolding split_ledger
all_rows-split_document replaced [] = refl
all_rows-split_document replaced (d ∷ ds) =
    ap (λ rs. split_ledger replaced d.ledger ++ rs) (all_rows-split_document replaced ds)
    ∙ sym (split_ledger-append replaced d.ledger (all_rows ds))

-- Splitting the movements of an offline counter keeps, for each item and branch, what they come to, whichever
-- of them the server has: one id is not on two different entries, and a sale takes nothing in.
pub place_batch_shortfalls-rows_sum :
    (s : StockTables) (known : ℕ → Bool) (new_id : ℕ → ℕ) (invoices returns : List OutboxDocument)
    (b i : ℕ)
    → All (IsToldBy (all_rows invoices ++ all_rows returns)) (all_rows invoices ++ all_rows returns)
    → let placed = place_batch_shortfalls s known new_id invoices returns in
      rows_sum b i (all_rows placed.invoices ++ all_rows placed.returns)
      ≡ rows_sum b i (all_rows invoices ++ all_rows returns)
unfolding place_batch_shortfalls fresh_rows
place_batch_shortfalls-rows_sum s known new_id invoices returns b i told =
    let rows = all_rows invoices ++ all_rows returns in
    let seller = seller_of invoices in
    let fresh = fresh_rows known rows in
    let f = (place_rows s new_id seller no_placing fresh).replaced in
    let told_fresh : All (IsToldBy rows) fresh =
      All-sort before_row _ _ (All-filter _ _ _ (All-filter _ _ rows told)) in
    let up : AllAddUp b i rows f =
      place_rows-AllAddUp s new_id seller rows b i no_placing fresh told_fresh
        (All-every _ rows (λ r. refl)) in
    ap (λ rs. rows_sum b i (rs ++ all_rows (map (split_document f) returns)))
      (all_rows-split_document f invoices)
    ∙ ap (λ rs. rows_sum b i (split_ledger f (all_rows invoices) ++ rs))
        (all_rows-split_document f returns)
    ∙ ap (λ rs. rows_sum b i rs)
        (sym (split_ledger-append f (all_rows invoices) (all_rows returns)))
    ∙ split_ledger-rows_sum b i f rows up
