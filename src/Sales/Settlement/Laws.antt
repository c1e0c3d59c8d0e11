-- ===== src/Sales/Settlement/Laws.antt =====
-- The steps of `settleSaleInTx`, and what each changes.
use Prim.Native.Nat.{min}
use pointofsale.Base.{
  ℕ, ◌+◌, ◌-◌, ◌≤◌, ◌≡◌, refl, ◌∙◌, sym, ap, subst, Option, none, some, List, ◌∷◌, if◌then◌else◌,
  ok, >>=-ok, ok_injective, put, arith,
}
use pointofsale.Shop.{
  SessionUser, Invoice, Receipt, Tables, PosEnv, assert_register_open, next_receipt-frame,
}
use pointofsale.Sales.Settlement.{
  invoice_due, PaymentInput, pay_total, wallet_total, debit_wallet, credit_excess, paid_invoice,
  Settled, check_amounts, record_payments, settle_invoice,
}

-- The balance of a customer's wallet; without a wallet, 0.
unfoldable pub balance_of : Tables → ℕ → ℕ
balance_of t customer = elim (t.wallets customer) [ none ↦ 0 | some b ↦ b ]

debit_wallet-ok :
    (t t' : Tables) (s : SessionUser) (inv : Invoice) (amount : ℕ)
    → debit_wallet t s inv amount ≡ ok t'
    → (balance_of t' inv.customer_id + amount ≡ balance_of t inv.customer_id)
      × (t'.is_walk_in ≡ t.is_walk_in)
      × (t'.receipts ≡ t.receipts)
      × (t'.invoices ≡ t.invoices)
unfolding debit_wallet balance_of
debit_wallet-ok t t' s inv amount h = ground arith

credit_excess-ok :
    (t t' : Tables) (s : SessionUser) (inv : Invoice) (excess : ℕ)
    → credit_excess t s inv excess ≡ ok t'
    → (balance_of t' inv.customer_id
        ≡ balance_of t inv.customer_id + (if t.is_walk_in inv.customer_id then 0 else excess))
      × (t'.receipts ≡ t.receipts)
      × (t'.invoices ≡ t.invoices)
unfolding credit_excess balance_of
credit_excess-ok t t' s inv excess h = ground arith

module _ (fingerprint : List PaymentInput → ℕ) (env : PosEnv) where
  check_amounts-ok :
      (t : Tables) (inv : Invoice) (ps : List PaymentInput) {u : Unit {0}}
      → check_amounts fingerprint env t inv ps ≡ ok u
      → (wallet_total ps ≤ invoice_due inv)
        × ((if t.is_walk_in inv.customer_id then pay_total ps - invoice_due inv else 0) ≡ 0)
  unfolding check_amounts
  check_amounts-ok t inv ps h = ground arith

  -- What a settlement changes.
  abbrev pub IsSettlement : Tables → Invoice → List PaymentInput → Settled → Type 0
  IsSettlement t inv ps done =
      (balance_of done.tables inv.customer_id + wallet_total ps
        ≡ balance_of t inv.customer_id + (pay_total ps - invoice_due inv))
      × (wallet_total ps ≤ invoice_due inv)
      × (done.invoice ≡ paid_invoice inv (min (pay_total ps) (invoice_due inv)))
      × (done.tables.invoices ≡ put t.invoices inv.id (some done.invoice))
      × (done.tables.receipts ≡ done.receipt ∷ t.receipts)

  record_payments-frame :
      (t : Tables) (s : SessionUser) (inv : Invoice) (ps : List PaymentInput) (key : Option ℕ)
      → let done = record_payments fingerprint env t s inv ps key in
        (done.tables.wallets ≡ t.wallets)
        × (done.tables.is_walk_in ≡ t.is_walk_in)
        × (done.invoice ≡ paid_invoice inv (min (pay_total ps) (invoice_due inv)))
        × (done.tables.invoices ≡ put t.invoices inv.id (some done.invoice))
        × (done.tables.receipts ≡ done.receipt ∷ t.receipts)
  unfolding record_payments
  record_payments-frame t s inv ps key =
      let (w, k, r, i, p, x) = next_receipt-frame env _ inv.branch_id in
      (
        w,
        k,
        refl,
        i,
        ap (λ rows. (record_payments fingerprint env t s inv ps key).receipt ∷ rows) r,
      )

  -- A settlement that succeeds went through each of its steps.
  abbrev pub Steps :
      Tables → SessionUser → Invoice → List PaymentInput → Option ℕ → Settled → Type 0
  Steps t s inv ps key done =
      (t1 : Tables) × (t2 : Tables) × (u : Unit {0}) × (check_amounts fingerprint env t inv ps
        ≡ ok u)
      × (debit_wallet t s inv (wallet_total ps) ≡ ok t1)
      × (credit_excess (record_payments fingerprint env t1 s inv ps key).tables s inv
            (pay_total ps - invoice_due inv)
          ≡ ok t2)
      × (done ≡ record (record_payments fingerprint env t1 s inv ps key) { tables = t2 })

  pub settle_invoice-Steps :
      (t : Tables) (s : SessionUser) (inv : Invoice) (ps : List PaymentInput) (key : Option ℕ)
      (done : Settled)
      → settle_invoice fingerprint env t s inv ps key ≡ ok done
      → Steps t s inv ps key done
  unfolding settle_invoice
  settle_invoice-Steps t s inv ps key done h =
      let (u, checked, h1) = >>=-ok (check_amounts fingerprint env t inv ps) _ h in
      let (t1, debited, h2) = >>=-ok (debit_wallet t s inv (wallet_total ps)) _ h1 in
      let (counter, opened, h3) = >>=-ok (assert_register_open t1 s) _ h2 in
      let (t2, credited, h4) =
        >>=-ok (credit_excess (record_payments fingerprint env t1 s inv ps key).tables s inv _) _
          h3 in
      (t1, t2, u, checked, debited, credited, sym (ok_injective _ done h4))

  settle_steps :
      (t t1 t2 : Tables) (s : SessionUser) (inv : Invoice) (ps : List PaymentInput) (key : Option ℕ)
      {u : Unit {0}}
      → check_amounts fingerprint env t inv ps ≡ ok u
      → debit_wallet t s inv (wallet_total ps) ≡ ok t1
      → credit_excess
          (record_payments fingerprint env t1 s inv ps key).tables
          s
          inv
          (pay_total ps - invoice_due inv)
        ≡ ok t2
      → IsSettlement t inv ps
          (record (record_payments fingerprint env t1 s inv ps key) { tables = t2 })
  unfolding balance_of
  settle_steps t t1 t2 s inv ps key checked debited credited =
      let (bound, walk_in) = check_amounts-ok t inv ps checked in
      let (debit, w1, r1, i1) = debit_wallet-ok t t1 s inv (wallet_total ps) debited in
      let (credit, r2, i2) = credit_excess-ok _ t2 s inv _ credited in
      let (w, k, p, i, r) = record_payments-frame t1 s inv ps key in
      let made = record_payments fingerprint env t1 s inv ps key in
      (
        ground arith,
        bound,
        p,
        i2 ∙ i ∙ ap (λ m. put m inv.id (some made.invoice)) i1,
        r2 ∙ r ∙ ap (λ rows. made.receipt ∷ rows) r1,
      )

  pub settle_invoice-ok :
      (t : Tables) (s : SessionUser) (inv : Invoice) (ps : List PaymentInput) (key : Option ℕ)
      (done : Settled)
      → settle_invoice fingerprint env t s inv ps key ≡ ok done
      → IsSettlement t inv ps done
  settle_invoice-ok t s inv ps key done h =
      let (t1, t2, u, checked, debited, credited, e) = settle_invoice-Steps t s inv ps key done h in
      subst (IsSettlement t inv ps) (sym e)
        (settle_steps t t1 t2 s inv ps key checked debited credited)

  record_payments-receipt :
      (t : Tables) (s : SessionUser) (inv : Invoice) (ps : List PaymentInput) (key : ℕ)
      → let r = (record_payments fingerprint env t s inv ps (some key)).receipt in
        (r.invoice_id ≡ inv.id)
        × (r.amount ≡ pay_total ps)
        × (r.idempotency_key ≡ some key)
        × (r.request_fingerprint ≡ some (fingerprint ps))
        × (r.settlement_user_id ≡ some s.user_id)
  unfolding record_payments
  record_payments-receipt t s inv ps key = (refl, refl, refl, refl, refl)

  -- With a key the receipt says which request it answers.
  pub settle_invoice-receipt :
      (t : Tables) (s : SessionUser) (inv : Invoice) (ps : List PaymentInput) (key : ℕ)
      (done : Settled)
      → settle_invoice fingerprint env t s inv ps (some key) ≡ ok done
      → (done.receipt.invoice_id ≡ inv.id)
        × (done.receipt.amount ≡ pay_total ps)
        × (done.receipt.idempotency_key ≡ some key)
        × (done.receipt.request_fingerprint ≡ some (fingerprint ps))
        × (done.receipt.settlement_user_id ≡ some s.user_id)
  settle_invoice-receipt t s inv ps key done h =
      let (t1, t2, u, checked, debited, credited, e) =
        settle_invoice-Steps t s inv ps (some key) done h in
      let (a, b, c, d, f) = record_payments-receipt t1 s inv ps key in
      let same = ap (λ (x : Settled). x.receipt) e in
      (
        ap (λ (r : Receipt). r.invoice_id) same ∙ a,
        ap (λ (r : Receipt). r.amount) same ∙ b,
        ap (λ (r : Receipt). r.idempotency_key) same ∙ c,
        ap (λ (r : Receipt). r.request_fingerprint) same ∙ d,
        ap (λ (r : Receipt). r.settlement_user_id) same ∙ f,
      )
