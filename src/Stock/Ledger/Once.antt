-- ===== src/Stock/Ledger/Once.antt =====
-- `recordStock` moves a row once: PostgreSQL refuses an `INSERT … ON CONFLICT DO UPDATE` that would change
-- one row twice.
use pointofsale.Base.{
  ℕ, ◌≡◌, Bool, false, Option, none, some, List, [], ◌∷◌, filter, All, All-filter, Pairwise,
  Bool-cases, inl, inr, arith,
}
use pointofsale.Stock.Ledger.{
  StockEntry, Move, is_key, add_delta, add_keyed, add_deltas, is_move, item_key, batch_key,
  item_moves, batch_moves,
}

abbrev IsOther : ℕ → ℕ → Move → Type 0
IsOther branch key m = is_key branch key m.branch_id m.key ≡ false

-- No two moves are of one row.
abbrev pub IsOncePerRow : List Move → Type 0
IsOncePerRow = Pairwise (λ m n. IsOther m.branch_id m.key n)

add_delta-IsOther :
    (ms : List Move) (key : ℕ) (e : StockEntry) (b k : ℕ)
    → is_key b k e.branch_id key ≡ false
    → All (IsOther b k) ms
    → All (IsOther b k) (add_delta ms key e)
unfolding add_delta
add_delta-IsOther [] key e b k other h = (other, tt)
add_delta-IsOther (m ∷ ms) key e b k other h =
    elim (Bool-cases (is_key e.branch_id key m.branch_id m.key)) [
      | inl same ↦ rw same (h.0, h.1)
      | inr new ↦ rw new (h.0, add_delta-IsOther ms key e b k other h.1)
    ]

add_delta-IsOncePerRow :
    (ms : List Move) (key : ℕ) (e : StockEntry)
    → IsOncePerRow ms
    → IsOncePerRow (add_delta ms key e)
unfolding add_delta
add_delta-IsOncePerRow [] key e h = (tt, tt)
add_delta-IsOncePerRow (m ∷ ms) key e h =
    elim (Bool-cases (is_key e.branch_id key m.branch_id m.key)) [
      | inl same ↦ rw same (h.0, h.1)
      | inr new ↦
          let other : is_key m.branch_id m.key e.branch_id key ≡ false = ground (arith, new) in
          rw new (
            add_delta-IsOther ms key e m.branch_id m.key other h.0,
            add_delta-IsOncePerRow ms key e h.1,
          )
    ]

add_keyed-IsOncePerRow :
    (ms : List Move) (key : Option ℕ) (e : StockEntry)
    → IsOncePerRow ms
    → IsOncePerRow (add_keyed ms key e)
add_keyed-IsOncePerRow ms none e h = h
add_keyed-IsOncePerRow ms (some key) e h = add_delta-IsOncePerRow ms key e h

add_deltas-IsOncePerRow :
    (key : StockEntry → Option ℕ) (ms : List Move) (es : List StockEntry)
    → IsOncePerRow ms
    → IsOncePerRow (add_deltas key ms es)
unfolding add_deltas
add_deltas-IsOncePerRow key ms [] h = h
add_deltas-IsOncePerRow key ms (e ∷ es) h =
    add_deltas-IsOncePerRow key (add_keyed ms (key e) e) es (add_keyed-IsOncePerRow ms (key e) e h)

filter-IsOncePerRow :
    (p : Move → Bool) (ms : List Move) → IsOncePerRow ms → IsOncePerRow (filter p ms)
filter-IsOncePerRow p [] h = tt
filter-IsOncePerRow p (m ∷ ms) h = elim (Bool-cases (p m)) [
  | inl kept ↦
      rw kept (All-filter (IsOther m.branch_id m.key) p ms h.0, filter-IsOncePerRow p ms h.1)
  | inr dropped ↦ rw dropped (filter-IsOncePerRow p ms h.1)
]

-- The moves of any entries name each item's row at a branch once, and each batch's.
pub moves-IsOncePerRow :
    (es : List StockEntry) → IsOncePerRow (item_moves es) × IsOncePerRow (batch_moves es)
unfolding item_moves batch_moves
moves-IsOncePerRow es = (
  filter-IsOncePerRow is_move (add_deltas item_key [] es)
      (add_deltas-IsOncePerRow item_key [] es tt),
  filter-IsOncePerRow is_move (add_deltas batch_key [] es)
      (add_deltas-IsOncePerRow batch_key [] es tt),
)
