-- ===== src/Stock/Counts/Sums.antt =====
-- What the operations on counts do to the ledger's sums and to the rows beside it.
use pointofsale.Base.{
  ℕ, ◌≡◌, refl, sym, ap, subst, Bool, true, false, Option, none, some, List, [], ◌∷◌, if◌then◌else◌,
  ℤ, pos, ◌+ℤ◌, ◌-ℤ◌, is_zero_ℤ, +ℤ_assoc, +ℤ_zero, Bool-cases, inl, inr, arith, eq_of_parts,
  +ℤ_parts, -ℤ_parts, ◌∙◌, ok, >>=-ok, ok_injective, some_injective, found,
}
use pointofsale.Shop.{find}
use pointofsale.Stock.Ledger.{
  StockEntry, StockTables, ItemBatch, is_key, item_row_qty, upsert_item_row, adjust_item_stock,
  get_on_hand_for_item, item_not_found, existing_or_new, find_batch, resolve_batch, keeps_expiry,
}
use pointofsale.Stock.Ledger.Sums.{net_moved, nothing, entries_sum, put_row-qty, item_row_moves}
use pointofsale.Stock.Counts.{BatchInput, batch_in, item_and_batch, update_first}

-- Only the table of batches may differ.
abbrev pub SameCounts : StockTables → StockTables → Type 0
SameCounts s t =
    (t.ledger ≡ s.ledger) × (t.item_stock ≡ s.item_stock) × (t.batch_stock ≡ s.batch_stock)

existing_or_new-frame :
    (s : StockTables) (item number : ℕ) (expiry : Option ℕ) (now : ℕ) (o : Option ItemBatch)
    (r : StockTables × ItemBatch)
    → existing_or_new s item number expiry now o ≡ ok r
    → SameCounts s r.0
existing_or_new-frame s item number expiry now none r h =
    subst (λ (x : StockTables × ItemBatch). SameCounts s x.0) (ok_injective _ _ h)
      (refl, refl, refl)
existing_or_new-frame s item number expiry now (some b) r h =
    elim (Bool-cases (keeps_expiry expiry b)) [
      | inl same ↦
          subst (λ (x : StockTables × ItemBatch). SameCounts s x.0)
            (ok_injective (s, b) r (rw same at h)) (refl, refl, refl)
      | inr other ↦ ground (arith, rw other at h)
    ]

pub resolve_batch-frame :
    (s : StockTables) (item number : ℕ) (expiry : Option ℕ) (now : ℕ) (r : StockTables × ItemBatch)
    → resolve_batch s item number expiry now ≡ ok r
    → SameCounts s r.0
unfolding resolve_batch
resolve_batch-frame s item number expiry now r h =
    existing_or_new-frame s item number expiry now (find_batch s item number) r h

batch_in-frame :
    (s : StockTables) (item : ℕ) (batch : BatchInput) (now : ℕ) (number : Option ℕ)
    (r : StockTables × Option ℕ)
    → batch_in s item batch now number ≡ ok r
    → SameCounts s r.0
batch_in-frame s item batch now none r h = ground arith
batch_in-frame s item batch now (some number) r h =
    let (resolved, e, h1) = >>=-ok (resolve_batch s item number batch.expiry_date now) _ h in
    subst (λ (x : StockTables × Option ℕ). SameCounts s x.0) (ok_injective _ _ h1)
      (resolve_batch-frame s item number batch.expiry_date now resolved e)

pub item_and_batch-frame :
    (s : StockTables) (item : ℕ) (batch : BatchInput) (now : ℕ) (r : StockTables × Option ℕ)
    → item_and_batch s item batch now ≡ ok r
    → SameCounts s r.0
unfolding item_and_batch
item_and_batch-frame s item batch now r h =
    let (row, e, h1) = >>=-ok (found (s.items item) item_not_found) _ h in
    elim (Bool-cases row.tracks_batches) [
      | inl tracked ↦ batch_in-frame s item batch now batch.batch_no r (rw tracked at h1)
      | inr plain ↦
          subst (λ (x : StockTables × Option ℕ). SameCounts s x.0)
            (ok_injective (s, none) r (rw plain at h1)) (refl, refl, refl)
    ]

pub adjust_item_stock-on_hand :
    (s : StockTables) (branch item : ℕ) (delta : ℤ) (b i : ℕ)
    → get_on_hand_for_item (adjust_item_stock s branch item delta) b i
      ≡ get_on_hand_for_item s b i +ℤ (if is_key b i branch item then delta else pos 0)
unfolding adjust_item_stock get_on_hand_for_item
adjust_item_stock-on_hand s branch item delta b i = elim (Bool-cases (is_zero_ℤ delta)) [
  | inl still ↦
      rw (still, nothing (is_key b i branch item) delta still)
        (sym (+ℤ_zero (item_row_qty (s.item_stock b i))))
  | inr moves ↦
      rw moves
        (put_row-qty upsert_item_row item_row_qty item_row_moves s.item_stock branch item delta b i)
]

replaced :
    (p : Bool) (a a' rest : ℤ)
    → (if p then a' else pos 0) +ℤ rest
      ≡ ((if p then a else pos 0) +ℤ rest) +ℤ (if p then a' -ℤ a else pos 0)
replaced true a a' rest = eq_of_parts _ _ (
    omega (arith, +ℤ_parts a' rest, +ℤ_parts a rest, -ℤ_parts a' a, +ℤ_parts (a +ℤ rest) (a' -ℤ a)))
replaced false a a' rest = sym (+ℤ_zero (pos 0 +ℤ rest))

pub adjust_item_stock-frame :
    (s : StockTables) (branch item : ℕ) (delta : ℤ)
    → ((adjust_item_stock s branch item delta).ledger ≡ s.ledger)
      × ((adjust_item_stock s branch item delta).batch_stock ≡ s.batch_stock)
unfolding adjust_item_stock
adjust_item_stock-frame s branch item delta = elim (Bool-cases (is_zero_ℤ delta)) [
  | inl still ↦ rw still (refl, refl)
  | inr moves ↦ rw moves (refl, refl)
]

-- Replace an entry by one with the same keys, and the sum moves by their difference.
pub entries_sum-update :
    (q p : StockEntry → Bool) (f : StockEntry → StockEntry)
    (same : (e : StockEntry) → q (f e) ≡ q e) (es : List StockEntry) (e : StockEntry)
    → find p es ≡ some e
    → entries_sum q (update_first p f es)
      ≡ entries_sum q es +ℤ (if q e then net_moved (f e) -ℤ net_moved e else pos 0)
entries_sum-update q p f same [] e h = ground arith
entries_sum-update q p f same (x ∷ es) e h = elim (Bool-cases (p x)) [
  | inl here ↦
      let rest = entries_sum q es in
      let is_first : x ≡ e = some_injective x e (rw here at h) in
      rw (here, is_first, same e) (replaced (q e) (net_moved e) (net_moved (f e)) rest)
  | inr there ↦
      let first = if q x then net_moved x else pos 0 in
      let rest = entries_sum q es in
      let change = if q e then net_moved (f e) -ℤ net_moved e else pos 0 in
      rw there (
        ap (λ s. first +ℤ s) (entries_sum-update q p f same es e (rw there at h))
        ∙ sym (+ℤ_assoc first rest change))
]
