-- ===== src/Sales/Cancel/Undone.antt =====
-- What the movements of a new bill say of its lines.
use pointofsale.Base.{
  ℕ, ◌+◌, ◌≡◌, refl, sym, ap, Bool, true, false, ◌&&◌, Option, List, [], ◌∷◌, ◌++◌, map, ◌==◌,
  if◌then◌else◌, sum_by, sum_by-append, All, Pairwise, Any, Bool-cases, inl, inr, arith, ◌∙◌,
}
use pointofsale.Stock.Batches.{BatchShare}
use pointofsale.Stock.Batches.Split.{AddUp}
use pointofsale.Stock.Ledger.{stock_out, StockEntry, batch_key}
use pointofsale.Stock.Ledger.Sums.{is_keyed, of_key, batch_sum, entries_sum-append}
use pointofsale.Stock.Ledger.Signed.{signed, signed_zero, signed_add, moved_out, entries_sum-signed}
use pointofsale.Stock.Lines.{is_line, is_of_lines}
use pointofsale.Sales.Lines.{NormalizedSaleLine}
use pointofsale.Sales.Bills.{BillLine, bill_lines, document_line, sale_entry, sale_entries}
use pointofsale.Sales.Cancel.Shares.{out_of_line, counted_qty, is_line_of}

-- The ids differ.
abbrev pub IsUnique : List ℕ → Type 0
IsUnique = Pairwise (λ a b. (b == a) ≡ false)

abbrev pub IsUniqueLines : List BillLine → Type 0
IsUniqueLines = Pairwise (λ l m. (m.id == l.id) ≡ false)

bill_lines-All :
    (id : ℕ) (ids : List ℕ) (ns : List NormalizedSaleLine)
    → All (λ b. (b == id) ≡ false) ids
    → All (λ m. (m.id == id) ≡ false) (bill_lines ids ns)
bill_lines-All id [] ns h = tt
bill_lines-All id (x ∷ ids) [] h = tt
bill_lines-All id (x ∷ ids) (n ∷ ns) h = (h.0, bill_lines-All id ids ns h.1)

pub bill_lines-IsUniqueLines :
    (ids : List ℕ) (ns : List NormalizedSaleLine) → IsUnique ids → IsUniqueLines (bill_lines ids ns)
bill_lines-IsUniqueLines [] ns h = tt
bill_lines-IsUniqueLines (id ∷ ids) [] h = tt
bill_lines-IsUniqueLines (id ∷ ids) (n ∷ ns) h =
    (bill_lines-All id ids ns h.0, bill_lines-IsUniqueLines ids ns h.1)

-- No movement of the ledger is of one of the lines.
abbrev pub IsUnused : List ℕ → List StockEntry → Type 0
IsUnused ids = All (λ e. is_of_lines ids e ≡ false)

module _ (p : Option ℕ → Bool) where
  pub out_unused :
      (line : ℕ) (ids : List ℕ) (es : List StockEntry)
      → Any (λ y. line ≡ y) ids
      → IsUnused ids es
      → out_of_line p line es ≡ 0
  out_unused line ids [] m h = refl
  out_unused line ids (e ∷ es) m h =
      let ih = out_unused line ids es m h.1 in
      elim (Bool-cases (is_line line e.line_id)) [
        | inl its ↦ ground (arith, h.0, is_line_of line ids e m its)
        | inr other ↦ rw other (omega (arith, ih))
      ]

  out_own :
      (branch invoice : ℕ) (l : BillLine) (xs : List BatchShare)
      → out_of_line p l.id (map (sale_entry branch invoice l) xs) ≡ counted_qty p xs
  out_own branch invoice l [] = refl
  out_own branch invoice l (x ∷ xs) =
      let same : (l.id == l.id) ≡ true = ground arith in
      rw same (ap (λ n. (if p x.batch_id then x.qty else 0) + n) (out_own branch invoice l xs))

  out_other :
      (branch invoice line : ℕ) (l : BillLine) (xs : List BatchShare)
      → (l.id == line) ≡ false
      → out_of_line p line (map (sale_entry branch invoice l) xs) ≡ 0
  out_other branch invoice line l [] h = refl
  out_other branch invoice line l (x ∷ xs) h =
      rw h (omega (arith, out_other branch invoice line l xs h))

  out_others :
      (branch invoice line : ℕ) (ls : List BillLine) (parts : List (List BatchShare))
      → All (λ m. (m.id == line) ≡ false) ls
      → out_of_line p line (sale_entries branch invoice ls parts) ≡ 0
  unfolding sale_entries
  out_others branch invoice line [] parts h = refl
  out_others branch invoice line (l ∷ ls) [] h = refl
  out_others branch invoice line (l ∷ ls) (x ∷ xs) h = omega (
    arith,
    sum_by-append
        (λ (e : StockEntry). if is_line line e.line_id && p e.batch_id then e.qty_out else 0)
        (map (sale_entry branch invoice l) x) (sale_entries branch invoice ls xs),
    out_other branch invoice line l x h.0,
    out_others branch invoice line ls xs h.1,
  )

  -- The ledger has of each line what its parts come to.
  abbrev pub OutMatches : List StockEntry → List BillLine → List (List BatchShare) → Type 0
  OutMatches es [] parts = Unit {0}
  OutMatches es (l ∷ ls) [] = Unit {0}
  OutMatches es (l ∷ ls) (x ∷ xs) = (out_of_line p l.id es ≡ counted_qty p x) × OutMatches es ls xs

  pub OutMatches-prefix :
      (pre es : List StockEntry) (ls : List BillLine) (parts : List (List BatchShare))
      → All (λ l. out_of_line p l.id pre ≡ 0) ls
      → OutMatches es ls parts
      → OutMatches (pre ++ es) ls parts
  OutMatches-prefix pre es [] parts h m = tt
  OutMatches-prefix pre es (l ∷ ls) [] h m = tt
  OutMatches-prefix pre es (l ∷ ls) (x ∷ xs) h m = (
    omega (
      arith,
      sum_by-append
          (λ (e : StockEntry). if is_line l.id e.line_id && p e.batch_id then e.qty_out else 0) pre
          es,
      h.0,
      m.0,
    ),
    OutMatches-prefix pre es ls xs h.1 m.1,
  )

  others_out :
      (branch invoice : ℕ) (l : BillLine) (x : List BatchShare) (ls : List BillLine)
      → All (λ m. (m.id == l.id) ≡ false) ls
      → All (λ m. out_of_line p m.id (map (sale_entry branch invoice l) x) ≡ 0) ls
  others_out branch invoice l x [] h = tt
  others_out branch invoice l x (m ∷ ls) h =
      let other : (l.id == m.id) ≡ false = ground (arith, h.0) in
      (out_other branch invoice m.id l x other, others_out branch invoice l x ls h.1)

  pub sale_entries-OutMatches :
      (branch invoice : ℕ) (ls : List BillLine) (parts : List (List BatchShare))
      → IsUniqueLines ls
      → OutMatches (sale_entries branch invoice ls parts) ls parts
  unfolding sale_entries
  sale_entries-OutMatches branch invoice [] parts u = tt
  sale_entries-OutMatches branch invoice (l ∷ ls) [] u = tt
  sale_entries-OutMatches branch invoice (l ∷ ls) (x ∷ xs) u =
      let first = map (sale_entry branch invoice l) x in
      let rest = sale_entries branch invoice ls xs in
      (
        omega (
          arith,
          sum_by-append
              (λ (e : StockEntry). if is_line l.id e.line_id && p e.batch_id then e.qty_out else 0)
              first rest,
          out_own branch invoice l x,
          out_others branch invoice l.id ls xs u.0,
        ),
        OutMatches-prefix first rest ls xs (others_out branch invoice l x ls u.0)
            (sale_entries-OutMatches branch invoice ls xs u.1),
      )

  -- What the parts of all lines come to.
  abbrev pub parts_total : List BillLine → List (List BatchShare) → ℕ
  parts_total [] parts = 0
  parts_total (l ∷ ls) [] = 0
  parts_total (l ∷ ls) (x ∷ xs) = counted_qty p x + parts_total ls xs

  pub OutMatches-sum :
      (es : List StockEntry) (ls : List BillLine) (parts : List (List BatchShare))
      → AddUp (map document_line ls) parts
      → OutMatches es ls parts
      → sum_by (λ l. out_of_line p l.id es) ls ≡ parts_total ls parts
  OutMatches-sum es [] parts a m = refl
  OutMatches-sum es (l ∷ ls) [] a m = absurd a
  OutMatches-sum es (l ∷ ls) (x ∷ xs) a m = omega (arith, m.0, OutMatches-sum es ls xs a.1 m.1)

-- The movements of a bill, of a batch.
pub sale_entries-batch :
    (branch invoice : ℕ) (ls : List BillLine) (parts : List (List BatchShare)) (b k : ℕ)
    → batch_sum (sale_entries branch invoice ls parts) b k
      ≡ signed stock_out (parts_total (is_keyed b k branch) ls parts)
unfolding sale_entries batch_sum
sale_entries-batch branch invoice [] parts b k = sym (signed_zero stock_out)
sale_entries-batch branch invoice (l ∷ ls) [] b k = sym (signed_zero stock_out)
sale_entries-batch branch invoice (l ∷ ls) (x ∷ xs) b k =
    let p = is_keyed b k branch in
    entries_sum-append (of_key batch_key b k) (map (sale_entry branch invoice l) x)
      (sale_entries branch invoice ls xs)
    ∙ rw
        (
          entries_sum-signed (sale_entry branch invoice l) stock_out (λ y. moved_out y.qty)
              (of_key batch_key b k) x,
          sale_entries-batch branch invoice ls xs b k,
        )
        (signed_add stock_out (counted_qty p x) (parts_total p ls xs))

-- Lines whose parts add up are whole in the ledger.
pub OutMatches-whole :
    (es : List StockEntry) (ls : List BillLine) (parts : List (List BatchShare))
    → AddUp (map document_line ls) parts
    → OutMatches (λ b. true) es ls parts
    → All (λ l. out_of_line (λ b. true) l.id es ≡ l.qty) ls
OutMatches-whole es [] parts a m = tt
OutMatches-whole es (l ∷ ls) [] a m = absurd a
OutMatches-whole es (l ∷ ls) (x ∷ xs) a m = (m.0 ∙ a.0, OutMatches-whole es ls xs a.1 m.1)
