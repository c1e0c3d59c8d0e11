-- ===== src/Registers/Takings.antt =====
-- `registerCash` before and after a settlement.
use pointofsale.Base.{
  ℕ, ◌+◌, ◌≡◌, ap, ◌∙◌, ◌&&◌, Option, none, some, List, [], ◌∷◌, ◌++◌, map, if◌then◌else◌, filter,
  sum_by, ok, pos, ◌+ℤ◌, arith,
}
use pointofsale.Shop.{
  PaymentMode, SessionUser, Invoice, Payment, WalletTxn, Tables, PosEnv, next_receipt-frame,
}
use pointofsale.Sales.Settlement.{
  PaymentInput, payment_row, Settled, debit_wallet, credit_excess, record_payments, settle_invoice,
  settle_sale_in_tx, receipt_of_key, replay_or_settle, wallet_total,
}
use pointofsale.Sales.Settlement.Laws.{settle_invoice-Steps}
use pointofsale.Sales.Settlement.Money.{settle_sale_in_tx_found}
use pointofsale.Drawer.{
  DrawerRows, is_of, same_mode, is_topup, is_mode, taken_by_mode, topups, taken, register_cash,
}

-- What is paid in a mode.
unfoldable pub mode_total : PaymentMode → List PaymentInput → ℕ
mode_total mode ps = sum_by (λ p. p.amount) (filter (λ p. same_mode mode p.mode) ps)

-- What of it is paid on a register.
unfoldable pub paid_on : ℕ → SessionUser → PaymentMode → List PaymentInput → ℕ
paid_on register s mode ps = if is_of register s.register_id then mode_total mode ps else 0

rows-sum :
    (register : ℕ) (mode : PaymentMode) (s : SessionUser) (inv : Invoice) (ps : List PaymentInput)
    (rest : List Payment)
    → sum_by
        (λ (p : Payment). p.amount)
        (filter
          (λ (p : Payment). is_of register p.register_session_id && same_mode mode p.mode)
          (map (payment_row s inv) ps ++ rest))
      ≡ paid_on register s mode ps
        + sum_by
            (λ (p : Payment). p.amount)
            (filter
              (λ (p : Payment). is_of register p.register_session_id && same_mode mode p.mode)
              rest)
unfolding paid_on mode_total
rows-sum register mode s inv [] rest = ground arith
rows-sum register mode s inv (p ∷ ps) rest = ground (arith, rows-sum register mode s inv ps rest)

debit_wallet-frame :
    (t t' : Tables) (s : SessionUser) (inv : Invoice) (amount register : ℕ) (mode : PaymentMode)
    → debit_wallet t s inv amount ≡ ok t'
    → (t'.payments ≡ t.payments) × (topups t' register mode ≡ topups t register mode)
unfolding debit_wallet topups
debit_wallet-frame t t' s inv amount register mode h = ground arith

credit_excess-frame :
    (t t' : Tables) (s : SessionUser) (inv : Invoice) (amount register : ℕ) (mode : PaymentMode)
    → credit_excess t s inv amount ≡ ok t'
    → (t'.payments ≡ t.payments) × (topups t' register mode ≡ topups t register mode)
unfolding credit_excess topups
credit_excess-frame t t' s inv amount register mode h = ground arith

module _ (fingerprint : List PaymentInput → ℕ) (env : PosEnv) where
  record_payments-taken :
      (t : Tables) (s : SessionUser) (inv : Invoice) (ps : List PaymentInput) (key : Option ℕ)
      (register : ℕ) (mode : PaymentMode)
      → let t' = (record_payments fingerprint env t s inv ps key).tables in
        (taken_by_mode t' register mode
          ≡ paid_on register s mode ps + taken_by_mode t register mode)
        × (topups t' register mode ≡ topups t register mode)
  unfolding record_payments taken_by_mode topups
  record_payments-taken t s inv ps key register mode =
      let (w, k, r, i, p, x) = next_receipt-frame env _ inv.branch_id in
      (
        ap
              (λ rows.
                sum_by (λ (q : Payment). q.amount)
                  (filter
                    (λ (q : Payment). is_of register q.register_session_id && same_mode mode q.mode)
                    rows))
              p
            ∙ rows-sum register mode s inv ps t.payments,
        ap
            (λ rows.
              sum_by (λ (q : WalletTxn). q.amount)
                (filter
                  (λ (q : WalletTxn).
                    is_of register q.register_session_id
                    && (is_topup q.kind && is_mode mode q.payment_mode))
                  rows))
            x,
      )

  settle_invoice-taken :
      (t : Tables) (s : SessionUser) (inv : Invoice) (ps : List PaymentInput) (key : Option ℕ)
      (done : Settled) (register : ℕ) (mode : PaymentMode)
      → settle_invoice fingerprint env t s inv ps key ≡ ok done
      → (taken_by_mode done.tables register mode
          ≡ paid_on register s mode ps + taken_by_mode t register mode)
        × (topups done.tables register mode ≡ topups t register mode)
  unfolding taken_by_mode
  settle_invoice-taken t s inv ps key done register mode h =
      let (t1, t2, u, checked, debited, credited, e) =
        settle_invoice-Steps fingerprint env t s inv ps key done h in
      let rows = ap (λ (x : Settled). x.tables) e in
      let (p1, x1) = debit_wallet-frame t t1 s inv (wallet_total ps) register mode debited in
      let (p2, x2) = credit_excess-frame _ t2 s inv _ register mode credited in
      let (p3, x3) = record_payments-taken t1 s inv ps key register mode in
      let sum_rows : List Payment → ℕ = λ rows.
        sum_by (λ (q : Payment). q.amount)
          (filter (λ (q : Payment). is_of register q.register_session_id && same_mode mode q.mode)
            rows) in
      (
        ap (λ (x : Tables). sum_rows x.payments) rows
            ∙ ap sum_rows p2
            ∙ p3
            ∙ ap (λ x. paid_on register s mode ps + sum_rows x) p1,
        ap (λ x. topups x register mode) rows ∙ x2 ∙ x3 ∙ x1,
      )

  -- A new settlement adds to what its register has taken: its cash to the cash sales and to the cash
  -- that is expected, its card and UPI payments to those takings, and what comes from a wallet or goes
  -- to one to none of them. The other sums, and other registers, stay as they are.
  pub settle_sale_in_tx-register_cash :
      (t : Tables) (s : SessionUser) (id : ℕ) (ps : List PaymentInput) (key : Option ℕ)
      (inv : Invoice) (done : Settled) (d : DrawerRows) (register opening : ℕ)
      → t.invoices id ≡ some inv
      → receipt_of_key t key ≡ none
      → settle_sale_in_tx fingerprint env t s id ps key ≡ ok done
      → let before = register_cash env t d register opening in
        let after = register_cash env done.tables d register opening in
        (after.expected_cash ≡ before.expected_cash +ℤ pos (paid_on register s PaymentMode.cash ps))
        × (after.cash_sales ≡ before.cash_sales + paid_on register s PaymentMode.cash ps)
        × (after.card_sales ≡ before.card_sales + paid_on register s PaymentMode.card ps)
        × (after.upi_sales ≡ before.upi_sales + paid_on register s PaymentMode.upi ps)
        × (after.cash_topups ≡ before.cash_topups)
  unfolding replay_or_settle register_cash taken ◌+ℤ◌
  settle_sale_in_tx-register_cash t s id ps key inv done d register opening row new h =
      let steps = settle_sale_in_tx_found fingerprint env t s id ps key inv done row h in
      let now = rw new at steps in
      let (cash_taken, cash_up) =
        settle_invoice-taken t s inv ps key done register PaymentMode.cash now in
      let (card_taken, card_up) =
        settle_invoice-taken t s inv ps key done register PaymentMode.card now in
      let (upi_taken, upi_up) =
        settle_invoice-taken t s inv ps key done register PaymentMode.upi now in
      (ground arith, omega arith, omega arith, omega arith, omega arith)
