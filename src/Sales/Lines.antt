-- ===== src/Sales/Lines.antt =====
-- apps/api/src/sales/sale-lines.ts (`resolveLinePricing`, `normalizeSaleLines`, the cashier's discount
-- limit and the place of supply), apps/api/src/common/quantities.ts and branch-prices.ts. A unit is a
-- number, the same for texts that differ in case and outer spaces only; an empty unit is none.
pub mod Priced
pub mod Listed
pub mod Quantity
use Prim.Native.Nat.{min}
use pointofsale.Base.{
  ℕ, ◌+◌, ◌-◌, ◌*◌, ◌/◌, ◌%◌, ◌^◌, Bool, true, false, not, ◌&&◌, ◌||◌, Option, none, some, List, [],
  ◌∷◌, map, ltb, leb, ◌==◌, if◌then◌else◌, filter, sum_by, Result, ok, err, ◌>>=◌, ◌>>◌, found,
  guard,
}
use pointofsale.Shop.{find}
use pointofsale.Money.{round_div}
use pointofsale.Codes.Gstin.{TaxpayerType, regular, composition, unregistered}
use pointofsale.Pricing.Tax.{TaxMode, is_inclusive, mrp_problem, MrpProblem, exclusive_base}
use pointofsale.Pricing.Discount.{DiscountInput}

pub data LineRefusal : Type 0 where
  item_not_found not_for_sale tax_changed not_sold_in_unit incomplete_unit unit_size_changed :
      LineRefusal
  quantity_mismatch above_list_price above_mrp quantity_not_positive least_count_not_positive :
      LineRefusal
  not_a_multiple over_discount_limit no_branch_state composition_inter_state : LineRefusal

pub record SaleUom : Type 0 where
  pub uom : ℕ
  pub conversion_qty : ℕ
  pub sell_price : ℕ
  pub mrp : ℕ
  pub is_default : Bool

pub record SaleItem : Type 0 where
  pub id : ℕ
  pub uom : ℕ
  pub least_count : ℕ
  pub sell_price : ℕ
  pub mrp : ℕ
  pub cost_price : ℕ
  pub tax_rate : ℕ
  pub tax_mode : TaxMode
  pub is_active : Bool
  pub sale_uoms : List SaleUom

pub record BranchPrice : Type 0 where
  pub item_id : ℕ
  pub uom : ℕ
  pub sell_price : ℕ
  pub mrp : ℕ

abbrev pub price_for : List BranchPrice → ℕ → Option BranchPrice
price_for prices uom = find (λ p. p.uom == uom) prices

abbrev pub own_uom_price : Option BranchPrice → SaleUom → SaleUom
own_uom_price none v = v
own_uom_price (some p) v = record v { sell_price = p.sell_price; mrp = p.mrp }

abbrev pub own_item_price : Option BranchPrice → SaleItem → SaleItem
own_item_price none i = i
own_item_price (some p) i = record i { sell_price = p.sell_price; mrp = p.mrp }

-- An item as sold at a branch: the branch's own prices where it has one.
unfoldable pub with_branch_prices : SaleItem → List BranchPrice → SaleItem
with_branch_prices item prices =
    own_item_price (price_for prices item.uom) (record item {
      sale_uoms = map (λ v. own_uom_price (price_for prices v.uom) v) item.sale_uoms;
    })

pub record SaleLineInput : Type 0 where
  pub item_id : ℕ
  pub qty : ℕ
  pub rate : ℕ
  pub sale_uom : Option ℕ
  pub sale_uom_qty : Option ℕ
  pub sale_uom_conversion_qty : Option ℕ
  pub tax_rate : ℕ
  pub tax_mode : Option TaxMode
  pub discounts : List DiscountInput

-- The unit that a line is sold in, with its list price and MRP, and the quantity in base units.
pub record LineUnit : Type 0 where
  pub qty : ℕ
  pub sale_uom : Option ℕ
  pub sale_uom_qty : Option ℕ
  pub sale_uom_conversion_qty : Option ℕ
  pub list_rate : ℕ
  pub mrp : ℕ

abbrev pub base_unit : SaleItem → SaleLineInput → LineUnit
base_unit item line = record {
  qty = line.qty;
  sale_uom = none;
  sale_uom_qty = none;
  sale_uom_conversion_qty = none;
  list_rate = item.sell_price;
  mrp = item.mrp;
}

-- `x === undefined || x === n`
abbrev pub is_unset_or : ℕ → Option ℕ → Bool
is_unset_or n none = true
is_unset_or n (some m) = m == n

unfoldable pub variant_unit : SaleLineInput → SaleUom → Result LineRefusal LineUnit
variant_unit line v = do
  sale_qty ← found line.sale_uom_qty incomplete_unit
  guard (is_unset_or v.conversion_qty line.sale_uom_conversion_qty) unit_size_changed
  let qty = round_div (sale_qty * v.conversion_qty) 1000
  guard (qty == line.qty) quantity_mismatch
  ok (record {
    qty = qty;
    sale_uom = some v.uom;
    sale_uom_qty = some sale_qty;
    sale_uom_conversion_qty = some v.conversion_qty;
    list_rate = v.sell_price;
    mrp = v.mrp;
  })

unfoldable pub unit_in : SaleItem → SaleLineInput → Option ℕ → Result LineRefusal LineUnit
unit_in item line none = ok (base_unit item line)
unit_in item line (some uom) =
    let variant =
      found (find (λ v. not v.is_default && (v.uom == uom)) item.sale_uoms) not_sold_in_unit in
    if uom == item.uom then ok (base_unit item line) else variant >>= variant_unit line

abbrev pub same_tax_mode : TaxMode → Option TaxMode → Bool
same_tax_mode mode none = true
same_tax_mode TaxMode.inclusive (some m) = is_inclusive (some m)
same_tax_mode TaxMode.exclusive (some m) = not (is_inclusive (some m))

abbrev pub is_none_problem : Option MrpProblem → Bool
is_none_problem none = true
is_none_problem (some p) = false

pub record LinePricing : Type 0 where
  pub unit : LineUnit
  pub rate : ℕ
  pub tax_rate : ℕ
  pub tax_mode : TaxMode

-- `resolveLinePricing`
unfoldable pub resolve_line_pricing :
    SaleItem → SaleLineInput → Bool → Result LineRefusal LinePricing
resolve_line_pricing item line charge_tax = do
  guard ((line.tax_rate == item.tax_rate) && same_tax_mode item.tax_mode line.tax_mode) tax_changed
  unit ← unit_in item line line.sale_uom
  guard (leb line.rate unit.list_rate) above_list_price
  guard
      (is_none_problem
        (mrp_problem line.rate unit.mrp (some item.tax_mode) item.tax_rate charge_tax))
      above_mrp
  ok (record { unit = unit; rate = line.rate; tax_rate = item.tax_rate; tax_mode = item.tax_mode })

-- `assertQtyRespectsLeastCount`: the quotient is within a millionth of a whole number.
unfoldable pub assert_qty_respects_least_count : ℕ → ℕ → Result LineRefusal (Unit {0})
assert_qty_respects_least_count qty least = do
  guard (ltb 0 qty) quantity_not_positive
  guard (ltb 0 least) least_count_not_positive
  guard (leb (1_000_000 * min (qty % least) (least - qty % least)) least) not_a_multiple

pub record NormalizedSaleLine : Type 0 where
  pub line : SaleLineInput
  pub pricing : LinePricing
  pub unit_cost : ℕ

-- One line of `normalizeSaleLines`.
unfoldable pub normalize_sale_line :
    List SaleItem → List BranchPrice → Bool → SaleLineInput → Result LineRefusal NormalizedSaleLine
normalize_sale_line items prices charge_tax line = do
  item ← found (find (λ i. i.id == line.item_id) items) item_not_found
  guard item.is_active not_for_sale
  pricing ←
      resolve_line_pricing
        (with_branch_prices item (filter (λ p. p.item_id == line.item_id) prices)) line charge_tax
  assert_qty_respects_least_count pricing.unit.qty item.least_count
  ok (record { line = line; pricing = pricing; unit_cost = item.cost_price })

-- `normalizeSaleLines`
unfoldable pub normalize_sale_lines :
    List SaleItem
    → List BranchPrice
    → Bool
    → List SaleLineInput
    → Result LineRefusal (List NormalizedSaleLine)
normalize_sale_lines items prices charge_tax [] = ok []
normalize_sale_lines items prices charge_tax (line ∷ lines) = do
  first ← normalize_sale_line items prices charge_tax line
  rest ← normalize_sale_lines items prices charge_tax lines
  ok (first ∷ rest)

-- The quantity a line is priced in: sale units when it has one, otherwise base units.
abbrev pub priced_qty : LineUnit → ℕ
priced_qty u = elim u.sale_uom_qty [ none ↦ u.qty | some q ↦ q ]

-- A line at its list price, before tax.
unfoldable pub list_amount : Bool → NormalizedSaleLine → ℕ
list_amount charge_tax n =
    let list_gross = round_div (priced_qty n.pricing.unit * n.pricing.unit.list_rate) 1000 in
    if charge_tax
    then exclusive_base list_gross (some n.pricing.tax_mode) n.pricing.tax_rate
    else list_gross

-- `assertWithinCashierDiscountLimit`, of the taxable amounts of the computed lines; the limit is in
-- hundredths of a percent, and one paisa is left for rounding.
unfoldable pub assert_within_cashier_discount_limit :
    List NormalizedSaleLine → List ℕ → ℕ → Bool → Result LineRefusal (Unit {0})
assert_within_cashier_discount_limit lines taxables max_percent charge_tax =
    let list_total = sum_by (list_amount charge_tax) lines in
    let reduction = list_total - sum_by (λ t. t) taxables in
    guard ((list_total == 0) || leb reduction (round_div (list_total * max_percent) 10_000 + 1))
      over_discount_limit

abbrev pub is_composition : TaxpayerType → Bool
is_composition composition = true
is_composition regular = false
is_composition unregistered = false

-- `resolvePlaceOfSupply`
unfoldable pub resolve_place_of_supply :
    Option ℕ → Option ℕ → TaxpayerType → Result LineRefusal (Option ℕ)
resolve_place_of_supply branch none kind = ok branch
resolve_place_of_supply none (some requested) kind = err no_branch_state
resolve_place_of_supply (some branch) (some requested) kind =
    if not (requested == branch) && is_composition kind
    then err composition_inter_state
    else ok (some requested)
