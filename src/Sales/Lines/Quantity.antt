-- ===== src/Sales/Lines/Quantity.antt =====
-- The quantities of `normalizeSaleLines`.
use pointofsale.Base.{
  ℕ, suc, ◌*◌, leb, ==_iff, length, ◌≡◌, refl, ap, subst, Bool, not, ◌&&◌, Option, none, some, List,
  [], ◌∷◌, ◌==◌, if◌then◌else◌, filter, sum_by, ok, >>=-ok, guard->>=, ok_injective, found,
  Bool-cases, inl, inr,
}
use pointofsale.Shop.{find}
use pointofsale.Sales.Lines.{
  SaleItem, SaleUom, BranchPrice, SaleLineInput, LineUnit, base_unit, variant_unit, unit_in,
  LinePricing, resolve_line_pricing, NormalizedSaleLine, normalize_sale_line, normalize_sale_lines,
  with_branch_prices, same_tax_mode, tax_changed, item_not_found, not_for_sale,
  assert_qty_respects_least_count, not_sold_in_unit, incomplete_unit, unit_size_changed,
  quantity_mismatch, is_unset_or, above_list_price, above_mrp, is_none_problem,
}
use pointofsale.Money.{round_div}
use pointofsale.Pricing.Tax.{mrp_problem}

variant_unit-qty :
    (line : SaleLineInput) (v : SaleUom) (unit : LineUnit)
    → variant_unit line v ≡ ok unit
    → unit.qty ≡ line.qty
unfolding variant_unit
variant_unit-qty line v unit h =
    let (sale_qty, e, h1) = >>=-ok (found line.sale_uom_qty incomplete_unit) _ h in
    let (same_size, h2) =
      guard->>= (is_unset_or v.conversion_qty line.sale_uom_conversion_qty) unit_size_changed _
        h1 in
    let qty = round_div (sale_qty * v.conversion_qty) 1000 in
    let (same, h3) = guard->>= (qty == line.qty) quantity_mismatch _ h2 in
    subst (λ (u : LineUnit). u.qty ≡ line.qty) (ok_injective _ _ h3) ((==_iff qty line.qty).0 same)

unit_in-qty :
    (item : SaleItem) (line : SaleLineInput) (uom : Option ℕ) (unit : LineUnit)
    → unit_in item line uom ≡ ok unit
    → unit.qty ≡ line.qty
unfolding unit_in
unit_in-qty item line none unit h =
    subst (λ (u : LineUnit). u.qty ≡ line.qty) (ok_injective _ _ h) refl
unit_in-qty item line (some uom) unit h = elim (Bool-cases (uom == item.uom)) [
  | inl own ↦
      subst (λ (u : LineUnit). u.qty ≡ line.qty)
        (ok_injective (base_unit item line) unit (rw own at h)) refl
  | inr other ↦
      let (v, e, h1) =
        >>=-ok
          (found (find (λ v. not v.is_default && (v.uom == uom)) item.sale_uoms) not_sold_in_unit) _
          (rw other at h) in
      variant_unit-qty line v unit h1
]

resolve_line_pricing-qty :
    (item : SaleItem) (line : SaleLineInput) (charge_tax : Bool) (p : LinePricing)
    → resolve_line_pricing item line charge_tax ≡ ok p
    → p.unit.qty ≡ line.qty
unfolding resolve_line_pricing
resolve_line_pricing-qty item line charge_tax p h =
    let (same_tax, h1) =
      guard->>= ((line.tax_rate == item.tax_rate) && same_tax_mode item.tax_mode line.tax_mode)
        tax_changed _ h in
    let (unit, e, h2) = >>=-ok (unit_in item line line.sale_uom) _ h1 in
    let (below, h3) = guard->>= (leb line.rate unit.list_rate) above_list_price _ h2 in
    let (in_mrp, h4) =
      guard->>=
        (is_none_problem
          (mrp_problem line.rate unit.mrp (some item.tax_mode) item.tax_rate charge_tax))
        above_mrp _ h3 in
    subst (λ (q : LinePricing). q.unit.qty ≡ line.qty) (ok_injective _ _ h4)
      (unit_in-qty item line line.sale_uom unit e)

normalize_sale_line-qty :
    (items : List SaleItem) (prices : List BranchPrice) (charge_tax : Bool) (line : SaleLineInput)
    (n : NormalizedSaleLine)
    → normalize_sale_line items prices charge_tax line ≡ ok n
    → (n.line ≡ line) × (n.pricing.unit.qty ≡ line.qty)
unfolding normalize_sale_line
normalize_sale_line-qty items prices charge_tax line n h =
    let (item, e, h1) =
      >>=-ok (found (find (λ i. i.id == line.item_id) items) item_not_found) _ h in
    let (active, h2) = guard->>= item.is_active not_for_sale _ h1 in
    let own = with_branch_prices item (filter (λ p. p.item_id == line.item_id) prices) in
    let (p, e3, h3) = >>=-ok (resolve_line_pricing own line charge_tax) _ h2 in
    let (u, e4, h4) = >>=-ok (assert_qty_respects_least_count p.unit.qty item.least_count) _ h3 in
    subst (λ (m : NormalizedSaleLine). (m.line ≡ line) × (m.pricing.unit.qty ≡ line.qty))
      (ok_injective _ _ h4) (refl, resolve_line_pricing-qty own line charge_tax p e3)

-- What a request orders of an item, and what the lines come to.
abbrev pub ordered : ℕ → List SaleLineInput → ℕ
ordered item = sum_by (λ l. if l.item_id == item then l.qty else 0)

abbrev pub sold_of : ℕ → List NormalizedSaleLine → ℕ
sold_of item = sum_by (λ n. if n.line.item_id == item then n.pricing.unit.qty else 0)

-- The lines sell what the request orders.
pub normalize_sale_lines-qty :
    (items : List SaleItem) (prices : List BranchPrice) (charge_tax : Bool)
    (lines : List SaleLineInput) (ns : List NormalizedSaleLine) (item : ℕ)
    → normalize_sale_lines items prices charge_tax lines ≡ ok ns
    → (sold_of item ns ≡ ordered item lines) × (length ns ≡ length lines)
unfolding normalize_sale_lines
normalize_sale_lines-qty items prices charge_tax [] ns item h =
    subst (λ ms. (sold_of item ms ≡ 0) × (length ms ≡ 0)) (ok_injective [] ns h) (refl, refl)
normalize_sale_lines-qty items prices charge_tax (line ∷ lines) ns item h =
    let (n, first, h1) = >>=-ok (normalize_sale_line items prices charge_tax line) _ h in
    let (rest, others, h2) = >>=-ok (normalize_sale_lines items prices charge_tax lines) _ h1 in
    let (same, qty) = normalize_sale_line-qty items prices charge_tax line n first in
    let (sums, lengths) = normalize_sale_lines-qty items prices charge_tax lines rest item others in
    subst
      (λ ms. (sold_of item ms ≡ ordered item (line ∷ lines)) × (length ms ≡ length (line ∷ lines)))
      (ok_injective (n ∷ rest) ns h2) (rw (same, qty, sums) refl, ap suc lengths)
