-- ===== src/Sales/Numbers.antt =====
-- apps/api/src/sales/sales.service.ts and `nextDocumentNumber` of
-- apps/api/src/sequences/sequences.service.ts: the numbers of bills, over sales, checkouts and cancellations.
pub mod Reached
use pointofsale.Base.{
  ℕ, ◌+◌, ◌≤◌, ◌≡◌, refl, sym, ap, subst, Bool, true, false, not, ◌&&◌, ◌||◌, Option, none, some,
  List, [], ◌∷◌, map, ◌==◌, ltb, if◌then◌else◌, All, All-map, map-All, Pairwise, put, ok, >>=-ok,
  guard->>=, ok_injective, guard, Result, map_err, Bool-cases, Option-cases, inl, inr, arith,
  ==_iff, ◌∙◌,
}
use pointofsale.Shop.{find, SessionUser, Invoice, PosEnv, is_fallback, Tables}
use pointofsale.Stock.Ledger.{StockTables}
use pointofsale.Sales.Settlement.{PaymentInput, pay_total, settle_sale_in_tx}
use pointofsale.Sales.Bills.{
  SaleRefusal, of_shop, offline_payment, SaleRows, SaleState, Bill, CheckedOut, has_key,
  CreateSaleInput, SaleRun, next_document_number, write_bill,
}
use pointofsale.Sales.Checkout.{
  new_bill, no_payments, pays_by_wallet, create_sale_in_tx, written, check_unpaid, paid_part,
  checkout_new, checkout_sale,
}
use pointofsale.Sales.Checkout.Sold.{create_sale_in_tx-ok}
use pointofsale.Sales.Checkout.Replay.{replayed-state}
use pointofsale.Sales.Cancel.{mark_cancelled, cancelled_state, cancel_sale}
use pointofsale.Sales.Cancel.PutBack.{cancel_sale-ok}

abbrev pub same_number : Bill → Bill → Bool
same_number b c = (b.series == c.series) && ((b.fiscal_year == c.fiscal_year) && (b.seq == c.seq))

-- Counted from 1 up to the series' count, and no number twice.
abbrev pub HasNumbers : SaleState → Type 0
HasNumbers st =
    All (λ b. (1 ≤ b.seq) × (b.seq ≤ st.document_seq b.series b.fiscal_year)) st.bills
    × Pairwise (λ b c. same_number b c ≡ false) st.bills

-- The count of every series goes up, or stays.
put_grows :
    (seqs : ℕ → ℕ → ℕ) (counter year series fiscal_year : ℕ)
    → seqs series fiscal_year
      ≤ put seqs counter (put (seqs counter) year (seqs counter year + 1)) series fiscal_year
put_grows seqs counter year s f = elim (Bool-cases (s == counter)) [
  | inr other ↦ rw other (omega arith)
  | inl same ↦
      let is_counter : s ≡ counter = (==_iff s counter).0 same in
      elim (Bool-cases (f == year)) [
        | inr other ↦ rw (same, other, is_counter) (omega arith)
        | inl this ↦
            let is_year : f ≡ year = (==_iff f year).0 this in
            rw (same, this, is_counter, is_year) (omega arith)
      ]
]

same_number_parts :
    (b c : Bill)
    → same_number b c ≡ true
    → (b.series ≡ c.series) × (b.fiscal_year ≡ c.fiscal_year) × (b.seq ≡ c.seq)
same_number_parts b c h = ground arith

-- The next number of a series is on no bill.
new_number :
    (seqs : ℕ → ℕ → ℕ) (new b : Bill)
    → new.seq ≡ seqs new.series new.fiscal_year + 1
    → b.seq ≤ seqs b.series b.fiscal_year
    → same_number new b ≡ false
new_number seqs new b e h = elim (Bool-cases (same_number new b)) [
  | inr other ↦ other
  | inl same ↦
      let (series, year, seq) = same_number_parts new b same in
      let below : b.seq ≤ seqs new.series new.fiscal_year = rw (series, year) h in
      absurd (omega (arith, e, below, seq))
]

marked_number :
    (invoice user : ℕ) (b c : Bill)
    → same_number b c ≡ false
    → same_number (mark_cancelled invoice user b) (mark_cancelled invoice user c) ≡ false
marked_number invoice user b c h = ground arith

-- A new bill keeps the numbers.
pub create_sale_in_tx-HasNumbers :
    (rows : SaleRows) (is_admin : Bool) (st : SaleState) (session : SessionUser) (run : SaleRun)
    (input : CreateSaleInput) (r : SaleState × Invoice)
    → create_sale_in_tx rows is_admin st session run input ≡ ok r
    → HasNumbers st
    → HasNumbers r.0
unfolding write_bill next_document_number
create_sale_in_tx-HasNumbers rows is_admin st session run input r h (counts, unique) =
    let (place, user, lines, shares, counter, normalized, taken, made) =
      create_sale_in_tx-ok rows is_admin st session run input r h in
    let year = run.fiscal_year in
    let seqs = st.document_seq in
    let bill =
      new_bill rows is_admin session run input counter (seqs counter year + 1) place lines in
    let self_counter : (counter == counter) ≡ true = ground arith in
    let self_year : (year == year) ≡ true = ground arith in
    subst (λ (x : SaleState × Invoice). HasNumbers x.0) made
      (
        (
          (omega arith, rw (self_counter, self_year) (omega arith)),
          All-map _ _ st.bills
              (λ b (low, high).
                (low, omega (arith, high, put_grows seqs counter year b.series b.fiscal_year)))
              counts,
        ),
        (All-map _ _ st.bills (λ b bounds. new_number seqs bill b refl bounds.1) counts, unique),
      )

map-Pairwise_marked :
    (invoice user : ℕ) (bs : List Bill)
    → Pairwise (λ b c. same_number b c ≡ false) bs
    → Pairwise (λ b c. same_number b c ≡ false) (map (mark_cancelled invoice user) bs)
map-Pairwise_marked invoice user [] h = tt
map-Pairwise_marked invoice user (b ∷ bs) h = (
  map-All _ (mark_cancelled invoice user) bs
      (All-map _ _ bs (λ c e. marked_number invoice user b c e) h.0),
  map-Pairwise_marked invoice user bs h.1,
)

marked_counts :
    (invoice user : ℕ) (seqs : ℕ → ℕ → ℕ) (b : Bill)
    → (1 ≤ b.seq) × (b.seq ≤ seqs b.series b.fiscal_year)
    → let m = mark_cancelled invoice user b in (1 ≤ m.seq) × (m.seq ≤ seqs m.series m.fiscal_year)
marked_counts invoice user seqs b h = elim (Bool-cases (b.invoice_id == invoice)) [
  | inl its ↦ rw its h
  | inr other ↦ rw other h
]

pub cancel_sale-HasNumbers :
    (rows : SaleRows) (st st' : SaleState) (session : SessionUser)
    (branch today invoice_id reason_length : ℕ)
    → cancel_sale rows st session branch today invoice_id reason_length ≡ ok st'
    → HasNumbers st
    → HasNumbers st'
unfolding cancelled_state
cancel_sale-HasNumbers rows st st' session branch today invoice_id reason_length h
      (counts, unique) =
    let (inv, bill, inv_row, bill_row, here, unpaid, same_day, done) =
      cancel_sale-ok rows st st' session branch today invoice_id reason_length h in
    let mark = mark_cancelled inv.id session.user_id in
    subst HasNumbers done (
      map-All _ mark st.bills (
          All-map _ _ st.bills
            (λ b bounds. marked_counts inv.id session.user_id st.document_seq b bounds) counts),
      map-Pairwise_marked inv.id session.user_id st.bills unique,
    )
