-- ===== src/Stock/Ledger/Sums.antt =====
-- The stock ledger's sums, and what `recordStock` moves.
use pointofsale.Base.{
  ℕ, ◌≡◌, refl, sym, ap, Bool, true, false, Option, none, some, List, [], ◌∷◌, ◌++◌, if◌then◌else◌,
  filter, ℤ, pos, ◌+ℤ◌, ◌-ℤ◌, is_zero_ℤ, is_zero_ℤ→zero, +ℤ_assoc, +ℤ_zero, +ℤ_comm, zero_+ℤ,
  +ℤ_left_comm, Option-cases, Bool-cases, inl, inr, arith, eq_of_parts, +ℤ_parts, -ℤ_parts, ◌∙◌,
}
use pointofsale.Stock.Ledger.{
  StockEntry, StockTables, Rows, Move, is_key, put_row, moved_by, add_delta, add_keyed, add_deltas,
  is_move, apply_moves, item_row_qty, batch_row_qty, upsert_item_row, upsert_batch_row,
  ItemStockRow, record_stock, item_key, batch_key, item_moves, batch_moves, get_on_hand_for_item,
}

abbrev pub net_moved : StockEntry → ℤ
net_moved e = moved_by (pos 0) e

-- The sum of the entries that pass a test.
abbrev pub entries_sum : (StockEntry → Bool) → List StockEntry → ℤ
entries_sum p [] = pos 0
entries_sum p (e ∷ es) = (if p e then net_moved e else pos 0) +ℤ entries_sum p es

abbrev pub is_keyed : ℕ → ℕ → ℕ → Option ℕ → Bool
is_keyed branch k branch' none = false
is_keyed branch k branch' (some k') = is_key branch k branch' k'

abbrev pub of_key : (StockEntry → Option ℕ) → ℕ → ℕ → StockEntry → Bool
of_key key branch k e = is_keyed branch k e.branch_id (key e)

-- What the ledger says of an item, or of a batch, at a branch.
unfoldable pub item_sum : List StockEntry → ℕ → ℕ → ℤ
item_sum es branch item = entries_sum (of_key item_key branch item) es

unfoldable pub batch_sum : List StockEntry → ℕ → ℕ → ℤ
batch_sum es branch batch = entries_sum (of_key batch_key branch batch) es

pub entries_sum-append :
    (p : StockEntry → Bool) (xs ys : List StockEntry)
    → entries_sum p (xs ++ ys) ≡ entries_sum p xs +ℤ entries_sum p ys
entries_sum-append p [] ys = sym (+ℤ_zero (entries_sum p ys)) ∙ +ℤ_comm (entries_sum p ys) (pos 0)
entries_sum-append p (e ∷ es) ys =
    let first = if p e then net_moved e else pos 0 in
    ap (λ s. first +ℤ s) (entries_sum-append p es ys)
    ∙ sym (+ℤ_assoc first (entries_sum p es) (entries_sum p ys))

abbrev moves_sum : List Move → ℕ → ℕ → ℤ
moves_sum [] b k = pos 0
moves_sum (m ∷ ms) b k =
    (if is_key b k m.branch_id m.key then m.delta else pos 0) +ℤ moves_sum ms b k

moved_by-net_moved : (d : ℤ) (e : StockEntry) → moved_by d e ≡ d +ℤ net_moved e
moved_by-net_moved d e =
    let i = pos e.qty_in in
    let o = pos e.qty_out in
    let z = pos 0 +ℤ i in
    eq_of_parts _ _ (
      omega (
        arith,
        +ℤ_parts d i,
        -ℤ_parts (d +ℤ i) o,
        +ℤ_parts (pos 0) i,
        -ℤ_parts z o,
        +ℤ_parts d (z -ℤ o),
      ))

pub nothing : (p : Bool) (d : ℤ) → is_zero_ℤ d ≡ true → (if p then d else pos 0) ≡ pos 0
nothing true d h = is_zero_ℤ→zero d h
nothing false d h = refl

same_key : (b k b1 k1 b2 k2 : ℕ) → is_key b1 k1 b2 k2 ≡ true → is_key b k b2 k2 ≡ is_key b k b1 k1
same_key b k b1 k1 b2 k2 h = ground arith

merged :
    (p : Bool) (d rest : ℤ) (e : StockEntry)
    → (if p then moved_by d e else pos 0) +ℤ rest
      ≡ (if p then net_moved e else pos 0) +ℤ ((if p then d else pos 0) +ℤ rest)
merged true d rest e =
    ap (λ x. x +ℤ rest) (moved_by-net_moved d e)
    ∙ (+ℤ_assoc d (net_moved e) rest ∙ +ℤ_left_comm d (net_moved e) rest)
merged false d rest e = sym (zero_+ℤ (pos 0 +ℤ rest))

add_delta-sum :
    (ms : List Move) (key : ℕ) (e : StockEntry) (b k : ℕ)
    → moves_sum (add_delta ms key e) b k
      ≡ (if is_key b k e.branch_id key then net_moved e else pos 0) +ℤ moves_sum ms b k
unfolding add_delta
add_delta-sum [] key e b k = refl
add_delta-sum (m ∷ ms) key e b k =
    let rest = moves_sum ms b k in
    elim (Bool-cases (is_key e.branch_id key m.branch_id m.key)) [
      | inl same ↦
          rw (same, same_key b k e.branch_id key m.branch_id m.key same)
            (merged (is_key b k e.branch_id key) m.delta rest e)
      | inr other ↦
          let kept = if is_key b k m.branch_id m.key then m.delta else pos 0 in
          let added = if is_key b k e.branch_id key then net_moved e else pos 0 in
          rw other (ap (λ s. kept +ℤ s) (add_delta-sum ms key e b k) ∙ +ℤ_left_comm kept added rest)
    ]

add_keyed-sum :
    (ms : List Move) (key : StockEntry → Option ℕ) (e : StockEntry) (b k : ℕ)
    → moves_sum (add_keyed ms (key e) e) b k
      ≡ (if of_key key b k e then net_moved e else pos 0) +ℤ moves_sum ms b k
add_keyed-sum ms key e b k = elim (Option-cases (key e)) [
  | inl absent ↦ rw absent (sym (zero_+ℤ (moves_sum ms b k)))
  | inr (k', given) ↦ rw given (add_delta-sum ms k' e b k)
]

add_deltas-sum :
    (key : StockEntry → Option ℕ) (ms : List Move) (es : List StockEntry) (b k : ℕ)
    → moves_sum (add_deltas key ms es) b k ≡ moves_sum ms b k +ℤ entries_sum (of_key key b k) es
unfolding add_deltas
add_deltas-sum key ms [] b k = sym (+ℤ_zero (moves_sum ms b k))
add_deltas-sum key ms (e ∷ es) b k =
    let first = if of_key key b k e then net_moved e else pos 0 in
    let before = moves_sum ms b k in
    let rest = entries_sum (of_key key b k) es in
    add_deltas-sum key (add_keyed ms (key e) e) es b k
    ∙ (ap (λ s. s +ℤ rest) (add_keyed-sum ms key e b k ∙ +ℤ_comm first before)
        ∙ +ℤ_assoc before first rest)

-- A move by nothing does not count.
moves_sum-filter : (ms : List Move) (b k : ℕ) → moves_sum (filter is_move ms) b k ≡ moves_sum ms b k
moves_sum-filter [] b k = refl
moves_sum-filter (m ∷ ms) b k =
    let first = if is_key b k m.branch_id m.key then m.delta else pos 0 in
    elim (Bool-cases (is_zero_ℤ m.delta)) [
      | inl still ↦
          let none_moved : first ≡ pos 0 = nothing (is_key b k m.branch_id m.key) m.delta still in
          rw (still, none_moved) (moves_sum-filter ms b k ∙ sym (zero_+ℤ (moves_sum ms b k)))
      | inr moves ↦ rw moves (ap (λ s. first +ℤ s) (moves_sum-filter ms b k))
    ]

is_key_comm : (b k b' k' : ℕ) → is_key b k b' k' ≡ is_key b' k' b k
is_key_comm b k b' k' = ground arith

pub is_key_≡ : (b k b' k' : ℕ) → is_key b k b' k' ≡ true → (b ≡ b') × (k ≡ k')
is_key_≡ b k b' k' h = ground arith

module _ {A : Type 0} (upsert : Option A → ℤ → A) (qty : Option A → ℤ)
    (moves_by : (r : Option A) (d : ℤ) → qty (some (upsert r d)) ≡ qty r +ℤ d) where
  pub put_row-qty :
      (t : Rows A) (b' k' : ℕ) (d : ℤ) (b k : ℕ)
      → qty (put_row t b' k' (upsert (t b' k') d) b k)
        ≡ qty (t b k) +ℤ (if is_key b k b' k' then d else pos 0)
  put_row-qty t b' k' d b k = elim (Bool-cases (is_key b' k' b k)) [
    | inl same ↦
        let (eb, ek) = is_key_≡ b' k' b k same in
        rw (same, is_key_comm b k b' k', same, sym eb, sym ek) (moves_by (t b' k') d)
    | inr other ↦ rw (other, is_key_comm b k b' k', other) (sym (+ℤ_zero (qty (t b k))))
  ]

  apply_moves-qty :
      (t : Rows A) (ms : List Move) (b k : ℕ)
      → qty (apply_moves upsert t ms b k) ≡ qty (t b k) +ℤ moves_sum ms b k
  unfolding apply_moves
  apply_moves-qty t [] b k = sym (+ℤ_zero (qty (t b k)))
  apply_moves-qty t (m ∷ ms) b k =
      let t' = put_row t m.branch_id m.key (upsert (t m.branch_id m.key) m.delta) in
      let first = if is_key b k m.branch_id m.key then m.delta else pos 0 in
      let rest = moves_sum ms b k in
      apply_moves-qty t' ms b k
      ∙ (ap (λ s. s +ℤ rest) (put_row-qty t m.branch_id m.key m.delta b k)
          ∙ +ℤ_assoc (qty (t b k)) first rest)

  -- Rows moved by the deltas of entries move by the sum of the entries.
  apply_deltas-qty :
      (key : StockEntry → Option ℕ) (t : Rows A) (es : List StockEntry) (b k : ℕ)
      → qty (apply_moves upsert t (filter is_move (add_deltas key [] es)) b k)
        ≡ qty (t b k) +ℤ entries_sum (of_key key b k) es
  apply_deltas-qty key t es b k =
      let deltas = add_deltas key [] es in
      let sum = entries_sum (of_key key b k) es in
      apply_moves-qty t (filter is_move deltas) b k
      ∙ ap (λ s. qty (t b k) +ℤ s)
          (moves_sum-filter deltas b k ∙ (add_deltas-sum key [] es b k ∙ zero_+ℤ sum))

pub item_row_moves :
    (r : Option ItemStockRow) (d : ℤ)
    → item_row_qty (some (upsert_item_row r d)) ≡ item_row_qty r +ℤ d
item_row_moves none d = sym (zero_+ℤ d)
item_row_moves (some r) d = refl

pub batch_row_moves :
    (r : Option ℤ) (d : ℤ) → batch_row_qty (some (upsert_batch_row r d)) ≡ batch_row_qty r +ℤ d
batch_row_moves none d = sym (zero_+ℤ d)
batch_row_moves (some q) d = refl

pub record_stock-ledger :
    (s : StockTables) (es : List StockEntry) → (record_stock s es).ledger ≡ s.ledger ++ es
unfolding record_stock
record_stock-ledger s es = refl

-- Recording entries moves an item's stock at a branch by the sum of its entries there.
pub record_stock-on_hand :
    (s : StockTables) (es : List StockEntry) (branch item : ℕ)
    → get_on_hand_for_item (record_stock s es) branch item
      ≡ get_on_hand_for_item s branch item +ℤ item_sum es branch item
unfolding record_stock item_moves item_sum get_on_hand_for_item
record_stock-on_hand s es branch item =
    apply_deltas-qty upsert_item_row item_row_qty item_row_moves item_key s.item_stock es branch
      item

-- And a batch's.
pub record_stock-in_batch :
    (s : StockTables) (es : List StockEntry) (branch batch : ℕ)
    → batch_row_qty ((record_stock s es).batch_stock branch batch)
      ≡ batch_row_qty (s.batch_stock branch batch) +ℤ batch_sum es branch batch
unfolding record_stock batch_moves batch_sum
record_stock-in_batch s es branch batch =
    apply_deltas-qty upsert_batch_row batch_row_qty batch_row_moves batch_key s.batch_stock es
      branch batch
