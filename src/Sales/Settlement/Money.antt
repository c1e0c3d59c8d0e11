-- ===== src/Sales/Settlement/Money.antt =====
-- The money and the status in `settleSaleInTx`.
use Prim.Native.Nat.{min}
use pointofsale.Base.{
  ℕ, ◌+◌, ◌-◌, ◌≤◌, ◌≡◌, ◌↔◌, true, Option, none, some, List, ◌==◌, ok, >>=-ok, guard->>=, arith,
}
use pointofsale.Shop.{
  SessionUser, Invoice, Tables, PosEnv, require_session_branch_id, branch_mismatch,
}
use pointofsale.Sales.Settlement.{
  invoice_due, PaymentInput, pay_total, wallet_total, paid_invoice, Settled, check_payments,
  receipt_of_key, replay_or_settle, settle_sale_in_tx, is_settled,
}
use pointofsale.Sales.Settlement.Laws.{balance_of, settle_invoice-ok}

module _ (fingerprint : List PaymentInput → ℕ) (env : PosEnv) where
  -- What is settled is the invoice that was found.
  pub settle_sale_in_tx_found :
      (t : Tables) (s : SessionUser) (id : ℕ) (ps : List PaymentInput) (key : Option ℕ)
      (inv : Invoice) (done : Settled)
      → t.invoices id ≡ some inv
      → settle_sale_in_tx fingerprint env t s id ps key ≡ ok done
      → replay_or_settle fingerprint env t s inv ps key (receipt_of_key t key) ≡ ok done
  unfolding settle_sale_in_tx
  settle_sale_in_tx_found t s id ps key inv done row h =
      let (branch, has_branch, h1) = >>=-ok (require_session_branch_id s) _ h in
      let (u, checked, h2) = >>=-ok (check_payments ps) _ h1 in
      let h3 = rw row at h2 in (guard->>= (inv.branch_id == branch) branch_mismatch _ h3).1

  paid_invoice-due :
      (inv : Invoice) (paid : ℕ)
      → inv.paid_total + inv.credited_total ≤ inv.grand_total
      → let inv' = paid_invoice inv (min paid (invoice_due inv)) in
        (inv'.paid_total ≡ inv.paid_total + min paid (invoice_due inv))
        × (inv'.paid_total + inv.credited_total ≤ inv.grand_total)
        × (invoice_due inv' ≡ invoice_due inv - paid)
        × ((is_settled inv'.status ≡ true) ↔ (invoice_due inv' ≡ 0))
  unfolding paid_invoice invoice_due
  paid_invoice-due inv paid h = (ground arith, ground arith, ground arith, ground arith)

  -- A new settlement of a bill on which no more has been paid and credited than it comes to: the bill
  -- and the customer's wallet together go up by what was paid in other ways than from the wallet; the
  -- bill is still not overpaid; what is due goes down by what was paid, to 0 at the least; and the bill
  -- is settled just when nothing is due.
  pub settle_sale_in_tx-money :
      (t : Tables) (s : SessionUser) (id : ℕ) (ps : List PaymentInput) (key : Option ℕ)
      (inv : Invoice) (done : Settled)
      → t.invoices id ≡ some inv
      → receipt_of_key t key ≡ none
      → inv.paid_total + inv.credited_total ≤ inv.grand_total
      → settle_sale_in_tx fingerprint env t s id ps key ≡ ok done
      → (done.invoice.paid_total + balance_of done.tables inv.customer_id + wallet_total ps
          ≡ inv.paid_total + balance_of t inv.customer_id + pay_total ps)
        × (done.invoice.paid_total + inv.credited_total ≤ inv.grand_total)
        × (invoice_due done.invoice ≡ invoice_due inv - pay_total ps)
        × ((is_settled done.invoice.status ≡ true) ↔ (invoice_due done.invoice ≡ 0))
  unfolding replay_or_settle
  settle_sale_in_tx-money t s id ps key inv done row new bound h =
      let steps = settle_sale_in_tx_found t s id ps key inv done row h in
      let settled_now = rw new at steps in
      let (balance, from_wallet, made, rows, receipts) =
        settle_invoice-ok fingerprint env t s inv ps key done settled_now in
      let (paid, not_over, due, status) = paid_invoice-due inv (pay_total ps) bound in
      rw made (omega (arith, paid, balance, from_wallet), not_over, due, status)
