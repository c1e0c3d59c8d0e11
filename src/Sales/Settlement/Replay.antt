-- ===== src/Sales/Settlement/Replay.antt =====
-- `settleSaleInTx` called again with the key of an earlier request.
use pointofsale.Base.{
  ℕ, ◌≡◌, refl, ◌∙◌, sym, ap, subst, true, ◌&&◌, some, List, ◌∷◌, ◌==◌, ok, >>=-ok, guard->>=,
  put_self, arith, Option-cases, inl, inr,
}
use pointofsale.Shop.{
  SessionUser, Invoice, Receipt, Tables, PosEnv, require_session_branch_id, branch_mismatch,
}
use pointofsale.Sales.Settlement.{
  PaymentInput, Settled, check_payments, receipt_of_key, replay_or_settle, settle_sale_in_tx,
  settle_invoice, is_value, paid_invoice,
}
use pointofsale.Sales.Settlement.Laws.{settle_invoice-ok, settle_invoice-receipt}

module _ (fingerprint : List PaymentInput → ℕ) (env : PosEnv) where
  -- The receipt of a request: found by its key, and for the same invoice, user and payments.
  abbrev IsAnswered : Tables → SessionUser → Invoice → List PaymentInput → ℕ → Receipt → Type 0
  IsAnswered t s inv ps key r =
      (receipt_of_key t (some key) ≡ some r)
      × (r.invoice_id ≡ inv.id)
      × (is_value r.settlement_user_id s.user_id ≡ true)
      × (is_value r.request_fingerprint (fingerprint ps) ≡ true)

  found_first :
      (t : Tables) (key : ℕ) (r : Receipt) (rest : List Receipt)
      → t.receipts ≡ r ∷ rest
      → r.idempotency_key ≡ some key
      → receipt_of_key t (some key) ≡ some r
  found_first t key r rest rows is_key = rw rows (simp is_key (ground arith))

  new-IsAnswered :
      (t : Tables) (s : SessionUser) (inv : Invoice) (ps : List PaymentInput) (key : ℕ)
      (done : Settled)
      → settle_invoice fingerprint env t s inv ps (some key) ≡ ok done
      → IsAnswered done.tables s inv ps key done.receipt
  new-IsAnswered t s inv ps key done h =
      let (balance, from_wallet, made, rows, receipts) =
        settle_invoice-ok fingerprint env t s inv ps (some key) done h in
      let (i, a, k, f, u) = settle_invoice-receipt fingerprint env t s inv ps key done h in
      (
        found_first done.tables key done.receipt t.receipts receipts k,
        i,
        simp u (ground arith),
        simp f (ground arith),
      )

  -- What the first request leaves for a second to find.
  abbrev IsLeft : Settled → SessionUser → ℕ → Invoice → List PaymentInput → ℕ → Type 0
  IsLeft done s id inv ps key =
      IsAnswered done.tables s done.invoice ps key done.receipt
      × (done.tables.invoices id ≡ some done.invoice)
      × (done.invoice.branch_id ≡ inv.branch_id)

  new-IsLeft :
      (t : Tables) (s : SessionUser) (inv : Invoice) (ps : List PaymentInput) (key : ℕ)
      (done : Settled)
      → settle_invoice fingerprint env t s inv ps (some key) ≡ ok done
      → IsLeft done s inv.id inv ps key
  unfolding paid_invoice
  new-IsLeft t s inv ps key done h =
      let (balance, from_wallet, made, rows, receipts) =
        settle_invoice-ok fingerprint env t s inv ps (some key) done h in
      let (k, i, u, f) = new-IsAnswered t s inv ps key done h in
      (
        (k, i ∙ sym (ap (λ (v : Invoice). v.id) made), u, f),
        ap (λ m. m inv.id) rows ∙ put_self t.invoices inv.id (some done.invoice),
        ap (λ (v : Invoice). v.branch_id) made,
      )

  replay-IsLeft :
      (t : Tables) (s : SessionUser) (id : ℕ) (inv : Invoice) (ps : List PaymentInput) (key : ℕ)
      (r : Receipt) (done : Settled)
      → t.invoices id ≡ some inv
      → receipt_of_key t (some key) ≡ some r
      → replay_or_settle fingerprint env t s inv ps (some key) (some r) ≡ ok done
      → IsLeft done s id inv ps key
  unfolding replay_or_settle
  replay-IsLeft t s id inv ps key r done row is_key h =
      let same : done ≡ record { tables = t; invoice = inv; receipt = r } = ground arith in
      let checks : (r.invoice_id == inv.id)
            && (is_value r.settlement_user_id s.user_id
                && is_value r.request_fingerprint (fingerprint ps))
          ≡ true =
        ground arith in
      subst (λ d. IsLeft d s id inv ps key) (sym same)
        ((is_key, ground arith, ground arith, ground arith), row, refl)

  first-IsLeft :
      (t : Tables) (s : SessionUser) (inv : Invoice) (ps : List PaymentInput) (key : ℕ)
      (done : Settled)
      → t.invoices inv.id ≡ some inv
      → replay_or_settle fingerprint env t s inv ps (some key) (receipt_of_key t (some key))
        ≡ ok done
      → IsLeft done s inv.id inv ps key
  unfolding replay_or_settle
  first-IsLeft t s inv ps key done row h = elim (Option-cases (receipt_of_key t (some key))) [
    | inl new ↦ new-IsLeft t s inv ps key done (rw new at h)
    | inr (r, e) ↦ replay-IsLeft t s inv.id inv ps key r done row e (rw e at h)
  ]

  replay_or_settle_again :
      (t : Tables) (s : SessionUser) (inv : Invoice) (ps : List PaymentInput) (key : ℕ)
      (r : Receipt)
      → IsAnswered t s inv ps key r
      → replay_or_settle fingerprint env t s inv ps (some key) (receipt_of_key t (some key))
        ≡ ok (record { tables = t; invoice = inv; receipt = r })
  unfolding replay_or_settle
  replay_or_settle_again t s inv ps key r (found_it, i, u, f) = rw found_it (ground arith)

  -- A request with a key that was settled, sent again by the same user with the same payments, answers
  -- with the same invoice and receipt and leaves the tables as they are.
  pub settle_sale_in_tx-replay :
      (t : Tables) (s : SessionUser) (inv : Invoice) (ps : List PaymentInput) (key : ℕ)
      (done : Settled)
      → t.invoices inv.id ≡ some inv
      → settle_sale_in_tx fingerprint env t s inv.id ps (some key) ≡ ok done
      → settle_sale_in_tx fingerprint env done.tables s inv.id ps (some key) ≡ ok done
  unfolding settle_sale_in_tx
  settle_sale_in_tx-replay t s inv ps key done row h =
      let (branch, has_branch, h1) = >>=-ok (require_session_branch_id s) _ h in
      let (u, checked, h2) = >>=-ok (check_payments ps) _ h1 in
      let h3 = rw row at h2 in
      let (same_branch, h4) = guard->>= (inv.branch_id == branch) branch_mismatch _ h3 in
      let (answered, row', branch') = first-IsLeft t s inv ps key done row h4 in
      let again = replay_or_settle_again done.tables s done.invoice ps key done.receipt answered in
      let same = ap (λ b. b == branch) branch' ∙ same_branch in
      rw has_branch (rw checked (rw row' (rw same again)))
