-- ===== src/Sales/Cancel/Shares.antt =====
-- What `sharesOfLines` answers, against the ledger.
use pointofsale.Base.{
  ℕ, ◌+◌, ◌≡◌, refl, sym, ap, Bool, true, false, ◌&&◌, Option, none, List, [], ◌∷◌, if◌then◌else◌,
  filter, sum_by, sort, sum_by-sort, Any, Bool-cases, inl, inr, arith, ◌∙◌,
}
use pointofsale.Stock.Batches.{BatchShare}
use pointofsale.Stock.Ledger.{stock_out, StockEntry, ItemBatch}
use pointofsale.Stock.Counts.{whole, shares_or}
use pointofsale.Stock.Lines.{
  batch_of, taken_order, is_line, is_of_lines, shares_of, some_shares, shares_of_lines,
}

-- What a line sent out, of the batches that count.
abbrev pub out_of_line : (Option ℕ → Bool) → ℕ → List StockEntry → ℕ
out_of_line p line = sum_by (λ e. if is_line line e.line_id && p e.batch_id then e.qty_out else 0)

abbrev pub counted_qty : (Option ℕ → Bool) → List BatchShare → ℕ
counted_qty p = sum_by (λ x. if p x.batch_id then x.qty else 0)

shares_of-counted_qty :
    (p : Option ℕ → Bool) (line : ℕ) (es : List StockEntry)
    → counted_qty p (shares_of stock_out line es) ≡ out_of_line p line es
unfolding shares_of
shares_of-counted_qty p line [] = refl
shares_of-counted_qty p line (e ∷ es) = ground (arith, shares_of-counted_qty p line es)

pub is_line_of :
    (line : ℕ) (ids : List ℕ) (e : StockEntry)
    → Any (λ y. line ≡ y) ids
    → is_line line e.line_id ≡ true
    → is_of_lines ids e ≡ true
is_line_of line [] e m h = absurd m
is_line_of line (id ∷ ids) e (inl same) h = rw (sym same, h) refl
is_line_of line (id ∷ ids) e (inr m) h = ground (arith, is_line_of line ids e m h)

filter-out_of_line :
    (p : Option ℕ → Bool) (line : ℕ) (ids : List ℕ) (es : List StockEntry)
    → Any (λ y. line ≡ y) ids
    → out_of_line p line (filter (is_of_lines ids) es) ≡ out_of_line p line es
filter-out_of_line p line ids [] m = refl
filter-out_of_line p line ids (e ∷ es) m =
    let ih = filter-out_of_line p line ids es m in
    elim (Bool-cases (is_line line e.line_id)) [
      | inl its ↦
          rw (is_line_of line ids e m its)
            (ap (λ n. (if is_line line e.line_id && p e.batch_id then e.qty_out else 0) + n) ih)
      | inr other ↦ elim (Bool-cases (is_of_lines ids e)) [
        | inl kept ↦ rw (kept, other) (omega (arith, ih))
        | inr dropped ↦ rw (dropped, other) (omega (arith, ih))
      ]
    ]

some_shares-counted_qty :
    (p : Option ℕ → Bool) (xs : List BatchShare) (qty : ℕ)
    → p none ≡ false
    → counted_qty p (shares_or (some_shares xs) (whole none qty)) ≡ counted_qty p xs
some_shares-counted_qty p [] qty h = rw h (omega arith)
some_shares-counted_qty p (x ∷ xs) qty h = refl

some_shares_all :
    (xs : List BatchShare) (qty : ℕ)
    → counted_qty (λ b. true) xs ≡ qty
    → counted_qty (λ b. true) (shares_or (some_shares xs) (whole none qty)) ≡ qty
some_shares_all [] qty h = omega arith
some_shares_all (x ∷ xs) qty h = h

module _ (batches : List ItemBatch) (ledger : List StockEntry) (ids : List ℕ) (line : ℕ) where
  rows-counted_qty :
      (p : Option ℕ → Bool)
      → Any (λ y. line ≡ y) ids
      → counted_qty p (
          shares_of stock_out line (
            sort
              (λ a b. taken_order (batch_of batches a.batch_id) (batch_of batches b.batch_id))
              (filter (is_of_lines ids) ledger)))
        ≡ out_of_line p line ledger
  rows-counted_qty p m =
      let rows = filter (is_of_lines ids) ledger in
      shares_of-counted_qty p line
        (sort (λ a b. taken_order (batch_of batches a.batch_id) (batch_of batches b.batch_id)) rows)
      ∙ (sum_by-sort
            (λ a b. taken_order (batch_of batches a.batch_id) (batch_of batches b.batch_id))
            (λ e. if is_line line e.line_id && p e.batch_id then e.qty_out else 0) rows
          ∙ filter-out_of_line p line ids ledger m)

  -- The shares of a line are what it sent out, batch by batch.
  pub shares_of_lines-counted_qty :
      (p : Option ℕ → Bool) (qty : ℕ)
      → Any (λ y. line ≡ y) ids
      → p none ≡ false
      → counted_qty p
          (shares_or (shares_of_lines batches ledger ids stock_out line) (whole none qty))
        ≡ out_of_line p line ledger
  unfolding shares_of_lines
  shares_of_lines-counted_qty p qty m h = some_shares-counted_qty p _ qty h ∙ rows-counted_qty p m

  pub shares_of_lines_all :
      (qty : ℕ)
      → Any (λ y. line ≡ y) ids
      → out_of_line (λ b. true) line ledger ≡ qty
      → counted_qty
          (λ b. true)
          (shares_or (shares_of_lines batches ledger ids stock_out line) (whole none qty))
        ≡ qty
  unfolding shares_of_lines
  shares_of_lines_all qty m h = some_shares_all _ qty (rows-counted_qty (λ b. true) m ∙ h)
