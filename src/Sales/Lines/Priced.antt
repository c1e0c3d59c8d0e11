-- ===== src/Sales/Lines/Priced.antt =====
-- What `normalizeSaleLines` lets through.
use Prim.Native.Nat.{min}
use pointofsale.Base.{
  ℕ, ◌-◌, ◌*◌, ◌%◌, ◌≤◌, ◌<◌, ltb→lt, ◌≡◌, ◌⊎◌, refl, ap, ◌∙◌, subst, Bool, true, ◌&&◌, Option,
  none, some, List, [], ◌∷◌, map, ltb, leb, ◌==◌, filter, All, ok, >>=-ok, ok_injective, found,
  found-ok, guard, guard-ok, arith, Bool-cases, inl, inr,
}
use native.Mathlib.Nat.{mod-lt}
use pointofsale.Shop.{find}
use pointofsale.Sales.Lines.Listed.{IsUnitOf, unit_in-IsUnitOf}
use pointofsale.Pricing.Tax.{TaxMode, price_with_tax, mrp_problem}
use pointofsale.Sales.Lines.{
  item_not_found, not_for_sale, tax_changed, above_list_price, above_mrp, quantity_not_positive,
  least_count_not_positive, SaleItem, BranchPrice, SaleLineInput, LinePricing, NormalizedSaleLine,
  with_branch_prices, own_item_price, price_for, unit_in, same_tax_mode, is_none_problem,
  resolve_line_pricing, assert_qty_respects_least_count, normalize_sale_line, normalize_sale_lines,
}

mrp_problem-none :
    (price mrp : ℕ) (mode : Option TaxMode) (rate : ℕ) (charge_tax : Bool)
    → is_none_problem (mrp_problem price mrp mode rate charge_tax) ≡ true
    → (mrp ≡ 0) ⊎ (price_with_tax price mode rate charge_tax ≤ mrp)
unfolding mrp_problem
mrp_problem-none price mrp mode rate charge_tax h = ground arith

-- The least count, but for one of 1,000 units or more, which lets a millionth of it pass.
abbrev pub IsMultiple : ℕ → ℕ → Type 0
IsMultiple qty least = (qty % least ≡ 0) ⊎ (1_000_000 ≤ least)

assert_qty-IsMultiple :
    (qty least : ℕ) {u : Unit {0}}
    → assert_qty_respects_least_count qty least ≡ ok u
    → (1 ≤ qty) × IsMultiple qty least
unfolding assert_qty_respects_least_count
assert_qty-IsMultiple qty least h =
    let (u1, e1, h1) = >>=-ok (guard (ltb 0 qty) quantity_not_positive) _ h in
    let (u2, e2, h2) = >>=-ok (guard (ltb 0 least) least_count_not_positive) _ h1 in
    let near = guard-ok _ _ h2 in
    let pos_qty = guard-ok _ _ e1 in
    let pos_least = guard-ok _ _ e2 in
    let below : 1_000_000 * min (qty % least) (least - qty % least) ≤ least =
      ground (arith, near) in
    let small : qty % least < least = mod-lt qty (ltb→lt 0 least pos_least) in
    (
      ground (arith, pos_qty),
      elim (Bool-cases (qty % least == 0)) [
        | inl whole ↦ inl (ground (arith, whole))
        | inr part ↦ inr (ground (arith, part, below, small))
      ],
    )

-- A line as it is priced from its item, at the branch's prices where it has them.
abbrev pub IsPriced : List SaleItem → List BranchPrice → Bool → NormalizedSaleLine → Type 0
IsPriced items prices charge_tax n =
    (item : SaleItem) × (find (λ i. i.id == n.line.item_id) items ≡ some item)
    × (item.is_active ≡ true)
    × (n.pricing.tax_rate ≡ item.tax_rate)
    × (n.pricing.tax_mode ≡ item.tax_mode)
    × (n.pricing.rate ≡ n.line.rate)
    × IsUnitOf prices item n.line n.pricing.unit n.line.sale_uom
    × (n.pricing.rate ≤ n.pricing.unit.list_rate)
    × ((n.pricing.unit.mrp ≡ 0)
        ⊎ (price_with_tax n.pricing.rate (some n.pricing.tax_mode) n.pricing.tax_rate charge_tax
            ≤ n.pricing.unit.mrp))
    × (1 ≤ n.pricing.unit.qty)
    × IsMultiple n.pricing.unit.qty item.least_count

-- What `resolveLinePricing` makes of an item and a line.
abbrev IsPricing : SaleItem → SaleLineInput → Bool → LinePricing → Type 0
IsPricing item line charge_tax p =
    (p.tax_rate ≡ item.tax_rate)
    × (p.tax_mode ≡ item.tax_mode)
    × (p.rate ≡ line.rate)
    × (unit_in item line line.sale_uom ≡ ok p.unit)
    × (p.rate ≤ p.unit.list_rate)
    × ((p.unit.mrp ≡ 0)
        ⊎ (price_with_tax p.rate (some p.tax_mode) p.tax_rate charge_tax ≤ p.unit.mrp))

resolve_line_pricing-IsPricing :
    (item : SaleItem) (line : SaleLineInput) (charge_tax : Bool) (p : LinePricing)
    → resolve_line_pricing item line charge_tax ≡ ok p
    → IsPricing item line charge_tax p
unfolding resolve_line_pricing
resolve_line_pricing-IsPricing item line charge_tax p h =
    let (u1, e1, h1) =
      >>=-ok
        (guard ((line.tax_rate == item.tax_rate) && same_tax_mode item.tax_mode line.tax_mode)
          tax_changed)
        _ h in
    let (unit, e2, h2) = >>=-ok (unit_in item line line.sale_uom) _ h1 in
    let (u3, e3, h3) = >>=-ok (guard (leb line.rate unit.list_rate) above_list_price) _ h2 in
    let (u4, e4, h4) =
      >>=-ok
        (guard
          (is_none_problem
            (mrp_problem line.rate unit.mrp (some item.tax_mode) item.tax_rate charge_tax))
          above_mrp)
        _ h3 in
    let below = guard-ok (leb line.rate unit.list_rate) above_list_price e3 in
    subst (IsPricing item line charge_tax) (ok_injective _ p h4) (
      refl,
      refl,
      refl,
      e2,
      ground (arith, below),
      mrp_problem-none line.rate unit.mrp (some item.tax_mode) item.tax_rate charge_tax
          (guard-ok _ _ e4),
    )

own_item_price-tax :
    (o : Option BranchPrice) (item : SaleItem)
    → ((own_item_price o item).tax_rate ≡ item.tax_rate)
      × ((own_item_price o item).tax_mode ≡ item.tax_mode)
own_item_price-tax none item = (refl, refl)
own_item_price-tax (some p) item = (refl, refl)

with_branch_prices-tax :
    (item : SaleItem) (prices : List BranchPrice)
    → ((with_branch_prices item prices).tax_rate ≡ item.tax_rate)
      × ((with_branch_prices item prices).tax_mode ≡ item.tax_mode)
unfolding with_branch_prices
with_branch_prices-tax item prices = own_item_price-tax (price_for prices item.uom) _

pricing-IsPriced :
    (items : List SaleItem) (prices : List BranchPrice) (charge_tax : Bool) (line : SaleLineInput)
    (item : SaleItem) (p : LinePricing)
    → find (λ i. i.id == line.item_id) items ≡ some item
    → item.is_active ≡ true
    → resolve_line_pricing
        (with_branch_prices item (filter (λ q. q.item_id == line.item_id) prices))
        line
        charge_tax
      ≡ ok p
    → (1 ≤ p.unit.qty) × IsMultiple p.unit.qty item.least_count
    → IsPriced items prices charge_tax
        (record { line = line; pricing = p; unit_cost = item.cost_price })
pricing-IsPriced items prices charge_tax line item p row active priced whole =
    let (rate, mode, sold, unit, list, mrp) =
      resolve_line_pricing-IsPricing _ line charge_tax p priced in
    let tax = with_branch_prices-tax item (filter (λ q. q.item_id == line.item_id) prices) in
    (
      item,
      row,
      active,
      rate ∙ tax.0,
      mode ∙ tax.1,
      sold,
      unit_in-IsUnitOf item prices line line.sale_uom p.unit unit,
      list,
      mrp,
      whole.0,
      whole.1,
    )

normalize_sale_line-IsPriced :
    (items : List SaleItem) (prices : List BranchPrice) (charge_tax : Bool) (line : SaleLineInput)
    (n : NormalizedSaleLine)
    → normalize_sale_line items prices charge_tax line ≡ ok n
    → (n.line ≡ line) × IsPriced items prices charge_tax n
unfolding normalize_sale_line
normalize_sale_line-IsPriced items prices charge_tax line n h =
    let (item, row, h1) =
      >>=-ok (found (find (λ i. i.id == line.item_id) items) item_not_found) _ h in
    let (u2, e2, h2) = >>=-ok (guard item.is_active not_for_sale) _ h1 in
    let (p, priced, h3) =
      >>=-ok
        (resolve_line_pricing
          (with_branch_prices item (filter (λ q. q.item_id == line.item_id) prices)) line
          charge_tax)
        _ h2 in
    let (u4, whole, h4) =
      >>=-ok (assert_qty_respects_least_count p.unit.qty item.least_count) _ h3 in
    subst (λ (m : NormalizedSaleLine). (m.line ≡ line) × IsPriced items prices charge_tax m)
      (ok_injective _ n h4)
      (
        refl,
        pricing-IsPriced items prices charge_tax line item p (found-ok _ _ row) (guard-ok _ _ e2)
            priced (assert_qty-IsMultiple p.unit.qty item.least_count whole),
      )

-- The lines of a sale that is not refused are those of the request, in order, each with its item, which
-- is for sale: at the item's tax and the rate of the request, which is at most the list price, and with
-- tax at most the MRP if there is one. These are the branch's for the item in the line's unit, or else
-- those of the item or its unit. The quantity is that of the line, which is its units by their size, more
-- than 0 and in whole least counts (but for a least count of 1,000 units or more).
pub normalize_sale_lines-IsPriced :
    (items : List SaleItem) (prices : List BranchPrice) (charge_tax : Bool)
    (lines : List SaleLineInput) (ns : List NormalizedSaleLine)
    → normalize_sale_lines items prices charge_tax lines ≡ ok ns
    → (map (λ n. n.line) ns ≡ lines) × All (IsPriced items prices charge_tax) ns
unfolding normalize_sale_lines
normalize_sale_lines-IsPriced items prices charge_tax [] ns h =
    subst (λ ms. (map (λ n. n.line) ms ≡ []) × All (IsPriced items prices charge_tax) ms)
      (ok_injective [] ns h) (refl, tt)
normalize_sale_lines-IsPriced items prices charge_tax (line ∷ lines) ns h =
    let (n, first, h1) = >>=-ok (normalize_sale_line items prices charge_tax line) _ h in
    let (rest, others, h2) = >>=-ok (normalize_sale_lines items prices charge_tax lines) _ h1 in
    let (same, priced) = normalize_sale_line-IsPriced items prices charge_tax line n first in
    let (all_same, all_priced) =
      normalize_sale_lines-IsPriced items prices charge_tax lines rest others in
    subst (λ ms. (map (λ n. n.line) ms ≡ line ∷ lines) × All (IsPriced items prices charge_tax) ms)
      (ok_injective (n ∷ rest) ns h2)
      (
        ap (λ l. l ∷ map (λ (m : NormalizedSaleLine). m.line) rest) same
            ∙ ap (λ ls. line ∷ ls) all_same,
        (priced, all_priced),
      )
