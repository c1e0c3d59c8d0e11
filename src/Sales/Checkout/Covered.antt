-- ===== src/Sales/Checkout/Covered.antt =====
-- The check of the stock that a bill takes.
use pointofsale.Base.{
  ℕ, ◌≡◌, refl, sym, subst, Bool, true, false, not, ◌&&◌, List, [], ◌∷◌, ◌==◌, length, All,
  Pairwise, ltb_ℤ, ◌≤ℤ◌, ◌⊎◌, inl, inr, arith, Bool-cases, ℤ, pos, ◌+ℤ◌, ◌-ℤ◌, +ℤ_parts, -ℤ_parts,
  ok, >>=-ok, guard->>=, ==_iff,
}
use pointofsale.Shop.{SessionUser, Invoice}
use pointofsale.Codes.Gstin.{charges_gst}
use pointofsale.Stock.Batches.{SharesByItem}
use pointofsale.Stock.BatchStock.{Want}
use pointofsale.Stock.Ledger.{stock_out, StockTables, get_on_hand_for_item}
use pointofsale.Stock.Ledger.Signed.{signed}
use pointofsale.Sales.Lines.{NormalizedSaleLine}
use pointofsale.Sales.Lines.Quantity.{ordered, sold_of, normalize_sale_lines-qty}
use pointofsale.Sales.Bills.{
  insufficient_stock, SaleRows, SaleState, CreateSaleInput, SaleRun, add_want, qty_by_item,
  may_sell_past, check_on_hand,
}
use pointofsale.Sales.Checkout.{take_stock, create_sale_in_tx}
use pointofsale.Sales.Checkout.Sold.{
  wanted, qty_by_item-wanted, create_sale_in_tx-ok, create_sale_in_tx-on_hand,
}

abbrev IsNot : ℕ → Want → Type 0
IsNot item w = (w.item_id == item) ≡ false

-- No item is wanted twice.
abbrev pub IsOncePerItem : List Want → Type 0
IsOncePerItem = Pairwise (λ w v. IsNot w.item_id v)

add_want-All :
    (ws : List Want) (item qty x : ℕ)
    → (item == x) ≡ false
    → All (IsNot x) ws
    → All (IsNot x) (add_want ws item qty)
unfolding add_want
add_want-All [] item qty x other h = (other, tt)
add_want-All (w ∷ ws) item qty x other h = elim (Bool-cases (w.item_id == item)) [
  | inl same ↦ rw same (h.0, h.1)
  | inr new ↦ rw new (h.0, add_want-All ws item qty x other h.1)
]

add_want-IsOncePerItem :
    (ws : List Want) (item qty : ℕ) → IsOncePerItem ws → IsOncePerItem (add_want ws item qty)
unfolding add_want
add_want-IsOncePerItem [] item qty h = (tt, tt)
add_want-IsOncePerItem (w ∷ ws) item qty h = elim (Bool-cases (w.item_id == item)) [
  | inl same ↦ rw same (h.0, h.1)
  | inr new ↦
      let other : (item == w.item_id) ≡ false = ground (arith, new) in
      rw new (add_want-All ws item qty w.item_id other h.0, add_want-IsOncePerItem ws item qty h.1)
]

qty_by_item-IsOncePerItem :
    (ws : List Want) (ns : List NormalizedSaleLine)
    → IsOncePerItem ws
    → IsOncePerItem (qty_by_item ws ns)
unfolding qty_by_item
qty_by_item-IsOncePerItem ws [] h = h
qty_by_item-IsOncePerItem ws (n ∷ ns) h =
    qty_by_item-IsOncePerItem (add_want ws n.line.item_id n.pricing.unit.qty) ns
      (add_want-IsOncePerItem ws n.line.item_id n.pricing.unit.qty h)

wanted_none : (ws : List Want) (item : ℕ) → All (IsNot item) ws → wanted item ws ≡ 0
wanted_none [] item h = refl
wanted_none (w ∷ ws) item h = rw h.0 (omega (arith, wanted_none ws item h.1))

-- A quantity of an item that is there to sell, if there is any.
abbrev IsCovered : StockTables → ℕ → ℕ → ℕ → Type 0
IsCovered s branch item n = (n ≡ 0) ⊎ (pos n ≤ℤ get_on_hand_for_item s branch item)

check_on_hand-covers :
    (s : StockTables) (branch item : ℕ) (ws : List Want) {u : Unit {0}}
    → IsOncePerItem ws
    → check_on_hand s branch false ws ≡ ok u
    → IsCovered s branch item (wanted item ws)
unfolding check_on_hand
check_on_hand-covers s branch item [] once h = inl refl
check_on_hand-covers s branch item (w ∷ ws) {u = u} once h =
    let (covered, h1) =
      guard->>= (not (ltb_ℤ (get_on_hand_for_item s branch w.item_id) (pos w.qty) && not false))
        insufficient_stock (check_on_hand s branch false ws) h in
    elim (Bool-cases (w.item_id == item)) [
      | inl same ↦
          let is_item : w.item_id ≡ item = (==_iff w.item_id item).0 same in
          let rest : wanted item ws ≡ 0 = wanted_none ws item (rw is_item at once.0) in
          let enough : pos w.qty ≤ℤ get_on_hand_for_item s branch item =
            ground (arith, rw is_item at covered) in
          inr (rw (same, rest) (omega (arith, enough)))
      | inr other ↦
          let skipped : wanted item ws ≡ wanted item (w ∷ ws) = rw other (omega arith) in
          subst (λ n. IsCovered s branch item n) skipped
            (check_on_hand-covers s branch item ws once.1 h1)
    ]

take_stock-covers :
    (rows : SaleRows) (is_admin : Bool) (s : StockTables) (branch today item : ℕ) (may : Bool)
    (ns : List NormalizedSaleLine) (shares : SharesByItem)
    → may ≡ false
    → take_stock rows is_admin s branch today may (qty_by_item [] ns) ≡ ok shares
    → IsCovered s branch item (sold_of item ns)
unfolding take_stock
take_stock-covers rows is_admin s branch today item may ns shares strict h =
    let wants = qty_by_item [] ns in
    let (u, e, h1) = >>=-ok (check_on_hand s branch may wants) _ h in
    let sold : wanted item wants ≡ sold_of item ns = omega (arith, qty_by_item-wanted [] ns item) in
    subst (λ n. IsCovered s branch item n) sold
      (check_on_hand-covers s branch item wants (qty_by_item-IsOncePerItem [] ns tt)
        (rw strict at e))

still_there :
    (a : ℤ) (n : ℕ) (after : ℤ)
    → (n ≡ 0) ⊎ (pos n ≤ℤ a)
    → after ≡ a +ℤ signed stock_out n
    → (n ≡ 0) ⊎ (pos 0 ≤ℤ after)
still_there a n after (inl none_sold) h = inl none_sold
still_there a n after (inr enough) h = inr (
    subst (λ x. pos 0 ≤ℤ x) (sym h)
      (omega (arith, enough, +ℤ_parts a (pos 0 -ℤ pos n), -ℤ_parts (pos 0) (pos n))))

not_allowed : (allowed b : Bool) → allowed ≡ false → (allowed && b) ≡ false
not_allowed allowed b h = ground arith

-- Where selling past the count is not allowed, the stock of an item that is sold is not below 0 after
-- the bill, when each line has an id.
pub create_sale_in_tx-not_below_zero :
    (rows : SaleRows) (is_admin : Bool) (st : SaleState) (session : SessionUser) (run : SaleRun)
    (input : CreateSaleInput) (r : SaleState × Invoice) (item : ℕ)
    → rows.settings.allow_negative_stock ≡ false
    → length run.line_ids ≡ length input.lines
    → create_sale_in_tx rows is_admin st session run input ≡ ok r
    → (ordered item input.lines ≡ 0)
      ⊎ (pos 0 ≤ℤ get_on_hand_for_item r.0.stock input.branch_id item)
create_sale_in_tx-not_below_zero rows is_admin st session run input r item strict ids h =
    let (place, user, lines, shares, counter, normalized, taken, made) =
      create_sale_in_tx-ok rows is_admin st session run input r h in
    let branch = input.branch_id in
    let (sold, count) =
      normalize_sale_lines-qty rows.items (rows.prices branch)
        (charges_gst (rows.seller branch).taxpayer_type) input.lines lines item normalized in
    let may = may_sell_past rows.settings user in
    let here : (branch == branch) ≡ true = ground arith in
    let after = create_sale_in_tx-on_hand rows is_admin st session run input r branch item ids h in
    still_there (get_on_hand_for_item st.stock branch item) (ordered item input.lines)
      (get_on_hand_for_item r.0.stock branch item)
      (subst (λ n. IsCovered st.stock branch item n) sold
        (take_stock-covers rows is_admin st.stock branch run.today item may lines shares
          (not_allowed rows.settings.allow_negative_stock _ strict) taken))
      (rw here at after)
