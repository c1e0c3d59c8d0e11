-- ===== src/Sales/Lines/Listed.antt =====
-- The unit that a line is sold in, and the price and MRP that it has at the branch.
use pointofsale.Base.{
  ℕ, ◌*◌, ◌≡◌, ◌⊎◌, refl, ap, sym, ◌∙◌, subst, Bool, true, false, not, ◌&&◌, Option, none, some,
  List, [], ◌∷◌, map, ◌==◌, ==_iff, filter, Any, Any-map, ok, ◌>>=◌, >>=-ok, guard->>=,
  ok_injective, some_injective, found, found-ok, arith, Bool-cases, inl, inr,
}
use pointofsale.Money.{round_div}
use pointofsale.Shop.{find}
use pointofsale.Sales.Lines.{
  SaleUom, SaleItem, BranchPrice, price_for, own_uom_price, own_item_price, with_branch_prices,
  SaleLineInput, LineUnit, base_unit, is_unset_or, variant_unit, unit_in, incomplete_unit,
  not_sold_in_unit, unit_size_changed, quantity_mismatch,
}

-- The branch's own price of an item in a unit, if it has one.
abbrev pub branch_price : List BranchPrice → ℕ → ℕ → Option BranchPrice
branch_price prices item uom = find (λ q. (q.item_id == item) && (q.uom == uom)) prices

-- The branch's price and MRP, or else those of the item or of its unit.
abbrev pub HasPrices : Option BranchPrice → ℕ → ℕ → LineUnit → Type 0
HasPrices none sell mrp u = (u.list_rate ≡ sell) × (u.mrp ≡ mrp)
HasPrices (some p) sell mrp u = (u.list_rate ≡ p.sell_price) × (u.mrp ≡ p.mrp)

abbrev pub IsBaseUnit : List BranchPrice → SaleItem → SaleLineInput → LineUnit → Type 0
IsBaseUnit prices item line u =
    (u.qty ≡ line.qty)
    × (u.sale_uom_qty ≡ none)
    × HasPrices (branch_price prices line.item_id item.uom) item.sell_price item.mrp u

-- A line in a unit of its own: the quantity is that many units of its size.
abbrev pub IsVariant : List BranchPrice → SaleLineInput → LineUnit → ℕ → SaleUom → Type 0
IsVariant prices line u uom v =
    (v.uom ≡ uom)
    × (v.is_default ≡ false)
    × (u.qty ≡ line.qty)
    × (u.sale_uom_qty ≡ line.sale_uom_qty)
    × ((q : ℕ) × (line.sale_uom_qty ≡ some q) × (line.qty ≡ round_div (q * v.conversion_qty) 1000))
    × HasPrices (branch_price prices line.item_id v.uom) v.sell_price v.mrp u

abbrev pub IsUnitOf : List BranchPrice → SaleItem → SaleLineInput → LineUnit → Option ℕ → Type 0
IsUnitOf prices item line u none = IsBaseUnit prices item line u
IsUnitOf prices item line u (some uom) =
    ((uom ≡ item.uom) × IsBaseUnit prices item line u)
    ⊎ Any (IsVariant prices line u uom) item.sale_uoms

find-filter :
    (p q : BranchPrice → Bool) (xs : List BranchPrice)
    → find p (filter q xs) ≡ find (λ x. q x && p x) xs
find-filter p q [] = refl
find-filter p q (x ∷ xs) = ground (arith, find-filter p q xs)

find-map :
    (p : SaleUom → Bool) (f : SaleUom → SaleUom) (vs : List SaleUom) (w : SaleUom)
    → find p (map f vs) ≡ some w
    → Any (λ v. (p (f v) ≡ true) × (f v ≡ w)) vs
find-map p f [] w h = ground arith
find-map p f (v ∷ vs) w h = elim (Bool-cases (p (f v))) [
  | inl e ↦ inl (e, some_injective (f v) w (rw e at h))
  | inr e ↦ inr (find-map p f vs w (rw e at h))
]

own_item_price-HasPrices :
    (o : Option BranchPrice) (item : SaleItem) (line : SaleLineInput)
    → HasPrices o item.sell_price item.mrp (base_unit (own_item_price o item) line)
own_item_price-HasPrices none item line = (refl, refl)
own_item_price-HasPrices (some p) item line = (refl, refl)

own_item_price-sale_uoms :
    (o : Option BranchPrice) (item : SaleItem) → (own_item_price o item).sale_uoms ≡ item.sale_uoms
own_item_price-sale_uoms none item = refl
own_item_price-sale_uoms (some p) item = refl

own_item_price-uom :
    (o : Option BranchPrice) (item : SaleItem) → (own_item_price o item).uom ≡ item.uom
own_item_price-uom none item = refl
own_item_price-uom (some p) item = refl

-- The unit of a line that gives no unit, or the item's own.
base_unit-IsBaseUnit :
    (item : SaleItem) (prices : List BranchPrice) (line : SaleLineInput)
    → IsBaseUnit prices item line
        (base_unit (with_branch_prices item (filter (λ q. q.item_id == line.item_id) prices)) line)
unfolding with_branch_prices
base_unit-IsBaseUnit item prices line =
    let same = find-filter (λ q. q.uom == item.uom) (λ q. q.item_id == line.item_id) prices in
    let priced = record item {
      sale_uoms =
          map
            (λ v.
              own_uom_price (price_for (filter (λ q. q.item_id == line.item_id) prices) v.uom) v)
            item.sale_uoms;
    } in
    let o = price_for (filter (λ q. q.item_id == line.item_id) prices) item.uom in
    (
      refl,
      refl,
      subst (λ o'. HasPrices o' item.sell_price item.mrp (base_unit (own_item_price o priced) line))
          same (own_item_price-HasPrices o priced line),
    )

-- What `variantUnit` makes of a line and a unit.
abbrev IsMadeOf : SaleLineInput → SaleUom → LineUnit → Type 0
IsMadeOf line w u =
    (u.qty ≡ line.qty)
    × (u.sale_uom_qty ≡ line.sale_uom_qty)
    × ((q : ℕ) × (line.sale_uom_qty ≡ some q) × (line.qty ≡ round_div (q * w.conversion_qty) 1000))
    × (u.list_rate ≡ w.sell_price)
    × (u.mrp ≡ w.mrp)

variant_unit-IsMadeOf :
    (line : SaleLineInput) (w : SaleUom) (u : LineUnit)
    → variant_unit line w ≡ ok u
    → IsMadeOf line w u
unfolding variant_unit
variant_unit-IsMadeOf line w u h =
    let (q, e, h1) = >>=-ok (found line.sale_uom_qty incomplete_unit) _ h in
    let (same_size, h2) =
      guard->>= (is_unset_or w.conversion_qty line.sale_uom_conversion_qty) unit_size_changed _
        h1 in
    let qty = round_div (q * w.conversion_qty) 1000 in
    let (same, h3) = guard->>= (qty == line.qty) quantity_mismatch _ h2 in
    let whole = (==_iff qty line.qty).0 same in
    let given = found-ok _ _ e in
    subst (IsMadeOf line w) (ok_injective _ u h3)
      (whole, sym given, (q, given, sym whole), refl, refl)

-- A unit of its own, at the branch's prices where it has them.
variant_unit-IsVariant :
    (o : Option BranchPrice) (prices : List BranchPrice) (line : SaleLineInput) (uom : ℕ)
    (v : SaleUom) (u : LineUnit)
    → o ≡ branch_price prices line.item_id v.uom
    → (not (own_uom_price o v).is_default && ((own_uom_price o v).uom == uom)) ≡ true
    → variant_unit line (own_uom_price o v) ≡ ok u
    → IsVariant prices line u uom v
variant_unit-IsVariant none prices line uom v u branch test h =
    let (qty, sold, size, list, mrp) = variant_unit-IsMadeOf line v u h in
    (
      ground (arith, test),
      ground (arith, test),
      qty,
      sold,
      size,
      subst (λ o. HasPrices o v.sell_price v.mrp u) branch (list, mrp),
    )
variant_unit-IsVariant (some p) prices line uom v u branch test h =
    let (qty, sold, size, list, mrp) = variant_unit-IsMadeOf line _ u h in
    (
      ground (arith, test),
      ground (arith, test),
      qty,
      sold,
      size,
      subst (λ o. HasPrices o v.sell_price v.mrp u) branch (list, mrp),
    )

found-IsVariant :
    (item : SaleItem) (prices : List BranchPrice) (line : SaleLineInput) (uom : ℕ) (u : LineUnit)
    → (found
          (find
            (λ v. not v.is_default && (v.uom == uom))
            (with_branch_prices item (filter (λ q. q.item_id == line.item_id) prices)).sale_uoms)
          not_sold_in_unit
        >>= variant_unit line)
      ≡ ok u
    → Any (IsVariant prices line u uom) item.sale_uoms
unfolding with_branch_prices
found-IsVariant item prices line uom u h =
    let (w, e, h1) = >>=-ok (found _ not_sold_in_unit) _ h in
    let its = filter (λ (q : BranchPrice). q.item_id == line.item_id) prices in
    let passes = λ (v : SaleUom). not v.is_default && (v.uom == uom) in
    let at_branch = λ (v : SaleUom). own_uom_price (price_for its v.uom) v in
    let uoms = map at_branch item.sale_uoms in
    let same : (with_branch_prices item its).sale_uoms ≡ uoms =
      own_item_price-sale_uoms (price_for its item.uom) _ in
    let among =
      find-map passes at_branch item.sale_uoms w (ap (find passes) (sym same) ∙ found-ok _ _ e) in
    Any-map _ _ item.sale_uoms
      (λ v p.
        variant_unit-IsVariant (price_for its v.uom) prices line uom v u
          (find-filter (λ q. q.uom == v.uom) (λ q. q.item_id == line.item_id) prices) p.0
          (ap (variant_unit line) p.1 ∙ h1))
      among

-- The unit of a line, with the branch's prices of its item.
pub unit_in-IsUnitOf :
    (item : SaleItem) (prices : List BranchPrice) (line : SaleLineInput) (uom : Option ℕ)
    (u : LineUnit)
    → unit_in (with_branch_prices item (filter (λ q. q.item_id == line.item_id) prices)) line uom
      ≡ ok u
    → IsUnitOf prices item line u uom
unfolding unit_in with_branch_prices
unit_in-IsUnitOf item prices line none u h =
    subst (IsBaseUnit prices item line) (ok_injective _ u h) (base_unit-IsBaseUnit item prices line)
unit_in-IsUnitOf item prices line (some uom) u h =
    let its = filter (λ (q : BranchPrice). q.item_id == line.item_id) prices in
    let at_branch = with_branch_prices item its in
    elim (Bool-cases (uom == at_branch.uom)) [
      | inl own ↦ inl (
        (==_iff uom at_branch.uom).0 own ∙ own_item_price-uom (price_for its item.uom) _,
        subst (IsBaseUnit prices item line)
            (ok_injective (base_unit at_branch line) u (rw own at h))
            (base_unit-IsBaseUnit item prices line),
      )
      | inr other ↦ inr (found-IsVariant item prices line uom u (rw other at h))
    ]
