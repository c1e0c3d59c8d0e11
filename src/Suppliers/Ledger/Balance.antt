-- ===== src/Suppliers/Ledger/Balance.antt =====
-- The balance of `supplierLedger`.
use pointofsale.Base.{
  ℕ, ◌+◌, ◌≡◌, refl, List, [], ◌∷◌, ◌++◌, map, sum_by, sum_by-append, sum_by-sort, sum_by-map, ℤ,
  pos, ◌+ℤ◌, sub_ℕ, pos_part, neg_part, arith, +ℤ_parts, eq_of_parts,
}
use pointofsale.Suppliers.Ledger.{
  LedgerPurchase, LedgerReturn, LedgerPayment, LedgerInput, Movement, purchase_movement,
  return_movement, payment_movement, counted, by_time, movements, run_balance, supplier_ledger,
}

run_balance-sum :
    (b : ℤ) (ms : List Movement)
    → pos_part (run_balance b ms).1 + neg_part b + sum_by (λ m. neg_part m.change) ms
      ≡ neg_part (run_balance b ms).1 + pos_part b + sum_by (λ m. pos_part m.change) ms
unfolding run_balance
run_balance-sum b [] = omega arith
run_balance-sum b (m ∷ ms) = omega (arith, +ℤ_parts b m.change, run_balance-sum (b +ℤ m.change) ms)

sub_zero_parts : (n : ℕ) → (pos_part (sub_ℕ 0 n) ≡ 0) × (neg_part (sub_ℕ 0 n) ≡ n)
sub_zero_parts n = (ground arith, ground arith)

returns_parts :
    (rs : List LedgerReturn)
    → (sum_by (λ r. pos_part (sub_ℕ 0 r.total_amount)) rs ≡ 0)
      × (sum_by (λ r. neg_part (sub_ℕ 0 r.total_amount)) rs ≡ sum_by (λ r. r.total_amount) rs)
returns_parts [] = (refl, refl)
returns_parts (r ∷ rs) = (ground (arith, returns_parts rs), ground (arith, returns_parts rs))

payments_parts :
    (ps : List LedgerPayment)
    → (sum_by (λ p. pos_part (sub_ℕ 0 p.amount)) ps ≡ 0)
      × (sum_by (λ p. neg_part (sub_ℕ 0 p.amount)) ps ≡ sum_by (λ p. p.amount) ps)
payments_parts [] = (refl, refl)
payments_parts (p ∷ ps) = (ground (arith, payments_parts ps), ground (arith, payments_parts ps))

purchases_parts : (ps : List LedgerPurchase) → sum_by (λ p. 0) ps ≡ 0
purchases_parts [] = refl
purchases_parts (p ∷ ps) = omega (arith, purchases_parts ps)

-- A measure of the movements, by the rows that they come from.
movements-sum :
    (f : Movement → ℕ) (i : LedgerInput)
    → sum_by f (movements i)
      ≡ sum_by (λ p. f (purchase_movement p)) (counted i)
        + (sum_by (λ r. f (return_movement r)) i.returns
            + sum_by (λ p. f (payment_movement p)) i.payments)
unfolding movements
movements-sum f i =
    let ps = map purchase_movement (counted i) in
    let rs = map return_movement i.returns in
    let qs = map payment_movement i.payments in
    omega (
      arith,
      sum_by-sort by_time f (ps ++ (rs ++ qs)),
      sum_by-append f ps (rs ++ qs),
      sum_by-append f rs qs,
      sum_by-map f purchase_movement (counted i),
      sum_by-map f return_movement i.returns,
      sum_by-map f payment_movement i.payments,
    )

-- The balance is the total of the counted purchases less the returns and the payments.
pub supplier_ledger-balance :
    (i : LedgerInput)
    → (supplier_ledger i).balance
      ≡ sub_ℕ
          (sum_by (λ p. p.grand_total) (counted i))
          (sum_by (λ r. r.total_amount) i.returns + sum_by (λ p. p.amount) i.payments)
unfolding supplier_ledger
supplier_ledger-balance i =
    let total = run_balance-sum (pos 0) (movements i) in
    let into = movements-sum (λ m. pos_part m.change) i in
    let out = movements-sum (λ m. neg_part m.change) i in
    let (r1, r2) = returns_parts i.returns in
    let (p1, p2) = payments_parts i.payments in
    eq_of_parts _ _ (ground (arith, total, into, out, r1, r2, p1, p2, purchases_parts (counted i)))
