-- ===== src/Suppliers/Ledger/Bills.antt =====
-- The open bills of `supplierLedger`, against its credit.
use Prim.Native.Nat.{min}
use pointofsale.Base.{
  ℕ, ◌+◌, ◌-◌, ◌≤◌, ◌≡◌, refl, ap, ◌∙◌, Bool, ◌&&◌, not, List, [], ◌∷◌, filter, length, ltb, ◌==◌,
  ==_iff, if◌then◌else◌, sum_by, sum_by-sort, sort, Bool-cases, inl, inr, arith,
}
use pointofsale.Suppliers.Ledger.{
  LedgerPurchase, LedgerReturn, LedgerInput, add_returned, is_settled_id, Bill, OpenBill,
  open_bills, bills_of, returned_of, counted, first_credit, returned_by_purchase, by_bill_date,
  supplier_ledger,
}

abbrev pub outstanding_of : List OpenBill → ℕ
outstanding_of = sum_by (λ b. b.outstanding)

open_bills-sum :
    (today : ℕ) (bs : List Bill) (credit : ℕ)
    → outstanding_of (open_bills today bs credit) ≡ sum_by (λ b. b.owed) bs - credit
unfolding open_bills
open_bills-sum today [] credit = omega arith
open_bills-sum today (b ∷ bs) credit =
    ground (arith, open_bills-sum today bs (credit - min credit b.owed))

bills_of-sum :
    (m : List (ℕ × ℕ)) (ps : List LedgerPurchase) (credit : ℕ)
    → let (bills, rest) = bills_of m ps credit in
      (sum_by (λ b. b.owed) bills ≡ sum_by (λ p. p.grand_total - returned_of p.id m) ps)
      × (rest ≡ credit + sum_by (λ p. returned_of p.id m - p.grand_total) ps)
unfolding bills_of
bills_of-sum m [] credit = (refl, omega arith)
bills_of-sum m (p ∷ ps) credit =
    let (owed, rest) = bills_of-sum m ps (credit + (returned_of p.id m - p.grand_total)) in
    (omega (arith, owed), omega (arith, rest))

overdue_le : (bs : List OpenBill) → outstanding_of (filter (λ b. b.overdue) bs) ≤ outstanding_of bs
overdue_le [] = omega arith
overdue_le (b ∷ bs) = ground (arith, overdue_le bs)

-- What was returned of a purchase.
abbrev pub sent_back : LedgerInput → LedgerPurchase → ℕ
sent_back i p = sum_by (λ r. r.total_amount) (filter (λ r. r.purchase_id == p.id) i.returns)

-- A purchase of this id counts as paid.
abbrev pub counts_as_paid : List LedgerPurchase → ℕ → Bool
counts_as_paid ps id = ltb 0 (length (filter (λ p. p.settled_before_accounts && (p.id == id)) ps))

-- Payments, and returns of purchases that count as paid.
abbrev pub paid_in : LedgerInput → ℕ
paid_in i =
    sum_by (λ p. p.amount) i.payments
    + sum_by (λ r. r.total_amount)
        (filter (λ r. counts_as_paid i.purchases r.purchase_id) i.returns)

returned_of-add_returned :
    (id k amount : ℕ) (m : List (ℕ × ℕ))
    → returned_of id (add_returned k amount m) ≡ returned_of id m + (if k == id then amount else 0)
returned_of-add_returned id k amount [] = ground arith
returned_of-add_returned id k amount (e ∷ es) =
    ground (arith, returned_of-add_returned id k amount es)

returned_of-returned_by_purchase :
    (id : ℕ) (m : List (ℕ × ℕ)) (rs : List LedgerReturn)
    → returned_of id (returned_by_purchase m rs)
      ≡ returned_of id m + sum_by (λ r. r.total_amount) (filter (λ r. r.purchase_id == id) rs)
unfolding returned_by_purchase
returned_of-returned_by_purchase id m [] = omega arith
returned_of-returned_by_purchase id m (r ∷ rs) =
    let added = add_returned r.purchase_id r.total_amount m in
    ground (
      arith,
      returned_of-returned_by_purchase id added rs,
      returned_of-add_returned id r.purchase_id r.total_amount m,
    )

abbrev kept_sum : (ℕ → Bool) → List (ℕ × ℕ) → ℕ
kept_sum p m = sum_by (λ e. e.1) (filter (λ e. p e.0) m)

kept_sum-add_returned :
    (p : ℕ → Bool) (k amount : ℕ) (m : List (ℕ × ℕ))
    → kept_sum p (add_returned k amount m) ≡ kept_sum p m + (if p k then amount else 0)
kept_sum-add_returned p k amount [] = ground arith
kept_sum-add_returned p k amount (e ∷ es) = elim (Bool-cases (e.0 == k)) [
  | inl same ↦ let is : e.0 ≡ k = (==_iff e.0 k).0 same in rw same (ground (arith, ap p is))
  | inr other ↦ rw other (ground (arith, kept_sum-add_returned p k amount es))
]

kept_sum-returned_by_purchase :
    (p : ℕ → Bool) (m : List (ℕ × ℕ)) (rs : List LedgerReturn)
    → kept_sum p (returned_by_purchase m rs)
      ≡ kept_sum p m + sum_by (λ r. r.total_amount) (filter (λ r. p r.purchase_id) rs)
unfolding returned_by_purchase
kept_sum-returned_by_purchase p m [] = omega arith
kept_sum-returned_by_purchase p m (r ∷ rs) =
    let added = add_returned r.purchase_id r.total_amount m in
    ground (
      arith,
      kept_sum-returned_by_purchase p added rs,
      kept_sum-add_returned p r.purchase_id r.total_amount m,
    )

is_settled_id-counts_as_paid :
    (id : ℕ) (ps : List LedgerPurchase) → is_settled_id id ps ≡ counts_as_paid ps id
is_settled_id-counts_as_paid id [] = refl
is_settled_id-counts_as_paid id (p ∷ ps) = ground (arith, is_settled_id-counts_as_paid id ps)

abbrev returns_of : LedgerInput → (ℕ → Bool) → ℕ
returns_of i p = sum_by (λ r. r.total_amount) (filter (λ r. p r.purchase_id) i.returns)

first_credit-paid_in : (i : LedgerInput) → first_credit i ≡ paid_in i
unfolding first_credit
first_credit-paid_in i = omega (
  arith,
  kept_sum-returned_by_purchase (λ id. is_settled_id id i.purchases) [] i.returns,
  ap (returns_of i) (λ j id. is_settled_id-counts_as_paid id i.purchases j),
)

abbrev paid_map : LedgerInput → List (ℕ × ℕ)
paid_map i = returned_by_purchase [] i.returns

paid_map-sent_back :
    (i : LedgerInput) (p : LedgerPurchase) → returned_of p.id (paid_map i) ≡ sent_back i p
paid_map-sent_back i p = omega (arith, returned_of-returned_by_purchase p.id [] i.returns)

-- What purchases still owe after their own returns, and what was sent back beyond their totals.
abbrev pub owed_by : (LedgerPurchase → ℕ) → List LedgerPurchase → ℕ
owed_by back = sum_by (λ p. p.grand_total - back p)

abbrev pub beyond : (LedgerPurchase → ℕ) → List LedgerPurchase → ℕ
beyond back = sum_by (λ p. back p - p.grand_total)

outstanding_of-paid_map :
    (i : LedgerInput)
    → let back = λ (p : LedgerPurchase). returned_of p.id (paid_map i) in
      (outstanding_of (supplier_ledger i).bills
        ≡ owed_by back (counted i) - (first_credit i + beyond back (counted i)))
      × ((supplier_ledger i).overdue ≤ outstanding_of (supplier_ledger i).bills)
unfolding supplier_ledger
outstanding_of-paid_map i =
    let m = paid_map i in
    let ps = sort by_bill_date (counted i) in
    let (owed, rest) = bills_of-sum m ps (first_credit i) in
    let owed_sorted =
      sum_by-sort by_bill_date (λ p. p.grand_total - returned_of p.id m) (counted i) in
    let over_sorted =
      sum_by-sort by_bill_date (λ p. returned_of p.id m - p.grand_total) (counted i) in
    let made = bills_of m ps (first_credit i) in
    (
      omega (arith, open_bills-sum i.today made.0 made.1, owed, rest, owed_sorted, over_sorted),
      overdue_le (open_bills i.today made.0 made.1),
    )

-- What the open bills owe together is what the purchases that do not count as paid still owe after
-- their own returns, less the payments, the returns of purchases that count as paid, and what was
-- returned beyond a purchase's total, and 0 if these are more; what is overdue is no more than that.
pub supplier_ledger-outstanding :
    (i : LedgerInput)
    → let unpaid = filter (λ p. not p.settled_before_accounts) i.purchases in
      (outstanding_of (supplier_ledger i).bills
        ≡ owed_by (sent_back i) unpaid - (paid_in i + beyond (sent_back i) unpaid))
      × ((supplier_ledger i).overdue ≤ outstanding_of (supplier_ledger i).bills)
unfolding counted
supplier_ledger-outstanding i =
    let unpaid = filter (λ (p : LedgerPurchase). not p.settled_before_accounts) i.purchases in
    let (owes, overdue) = outstanding_of-paid_map i in
    (
      owes
          ∙ ap (λ back. owed_by back unpaid - (first_credit i + beyond back unpaid))
              (λ j p. paid_map-sent_back i p j)
          ∙ ap (λ credit. owed_by (sent_back i) unpaid - (credit + beyond (sent_back i) unpaid))
              (first_credit-paid_in i),
      overdue,
    )
