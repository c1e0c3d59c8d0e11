-- ===== src/Sales/Checkout/Replay.antt =====
-- A checkout that is sent again.
use pointofsale.Base.{
  ℕ, ◌+◌, ◌≡◌, refl, sym, ap, subst, Bool, true, false, not, ◌&&◌, ◌||◌, Option, none, some, List,
  ◌==◌, ltb, if◌then◌else◌, ok, >>=-ok, guard->>=, ok_injective, found-ok, map_err, map_err-ok,
  put_self, Bool-cases, Option-cases, inl, inr, arith, ◌∙◌,
}
use pointofsale.Shop.{
  find, SessionUser, Invoice, Receipt, Tables, PosEnv, is_fallback, require_session_branch_id,
  branch_mismatch, branch_not_selected,
}
use pointofsale.Sales.Settlement.{
  PaymentInput, Settled, pay_total, settle_sale_in_tx, check_payments, paid_invoice,
  replay_or_settle, settle_invoice, record_payments,
}
use pointofsale.Sales.Settlement.Laws.{settle_invoice-ok, settle_invoice-Steps}
use pointofsale.Sales.Bills.{
  of_shop, offline_payment, SaleRows, SaleState, Bill, CheckedOut, has_key, CreateSaleInput,
  SaleRun, draft_invoice, next_document_number, write_bill,
}
use pointofsale.Sales.Checkout.{
  create_sale_in_tx, sale_totals, new_bill, no_payments, pays_by_wallet, check_unpaid, paid_part,
  replayed, checkout_new, checkout_found, checkout_sale,
}
use pointofsale.Sales.Checkout.Sold.{create_sale_in_tx-ok}

abbrev is_at : Option ℕ → ℕ → Bool
is_at session_branch branch = elim session_branch [ none ↦ false | some br ↦ branch == br ]

is_at-some :
    (o : Option ℕ) (branch b : ℕ) → o ≡ some b → (b == branch) ≡ true → is_at o branch ≡ true
is_at-some o branch b e h = rw e (ground (arith, h))

abbrev of_invoice : ℕ → Receipt → Bool
of_invoice id r = r.invoice_id == id

module _ (rows : SaleRows) (is_admin : Bool) where
  create_sale_in_tx-branch :
      (st : SaleState) (session : SessionUser) (run : SaleRun) (input : CreateSaleInput)
      (r : SaleState × Invoice)
      → create_sale_in_tx rows is_admin st session run input ≡ ok r
      → is_at session.branch_id input.branch_id ≡ true
  unfolding create_sale_in_tx
  create_sale_in_tx-branch st session run input r h =
      let (branch, e1, h1) = >>=-ok (map_err of_shop (require_session_branch_id session)) _ h in
      let (same, h2) = guard->>= (branch == input.branch_id) (of_shop branch_mismatch) _ h1 in
      let has = map_err-ok of_shop (require_session_branch_id session) e1 in
      is_at-some session.branch_id input.branch_id branch
        (found-ok session.branch_id branch_not_selected has) same

  module _ (fingerprint : List PaymentInput → ℕ) (env : PosEnv) where
    -- A checkout whose bill, invoice and receipt are in its state.
    abbrev HasLanded : SessionUser → ℕ → CheckedOut → Type 0
    HasLanded session key done =
        (b : Bill) × (find (has_key key) done.state.bills ≡ some b)
        × (done.state.tables.invoices b.invoice_id ≡ some done.invoice)
        × (b.invoice_id ≡ done.invoice.id)
        × ((b.created_by == session.user_id) ≡ true)
        × (is_at session.branch_id done.invoice.branch_id ≡ true)
        × (find (of_invoice done.invoice.id) done.state.tables.receipts ≡ done.receipt)

    landed-replay :
        (session : SessionUser) (run : SaleRun) (input : CreateSaleInput) (key : ℕ)
        (payments : List PaymentInput) (done : CheckedOut)
        → HasLanded session key done
        → checkout_sale rows is_admin fingerprint env done.state session run input key payments
          ≡ ok done
    unfolding checkout_sale
    landed-replay session run input key payments done (b, bill, inv, its, mine, here, receipt) =
        rw (bill, inv, mine, here, receipt) refl

    -- What a new checkout makes, before and after its payments.
    unpaid-HasLanded :
        (st : SaleState) (session : SessionUser) (run : SaleRun) (input : CreateSaleInput) (key : ℕ)
        (made : SaleState × Invoice)
        → find (of_invoice run.invoice_id) st.tables.receipts ≡ none
        → create_sale_in_tx rows is_admin st session run
            (record input { idempotency_key = some key })
          ≡ ok made
        → HasLanded session key (record { state = made.0; invoice = made.1; receipt = none })
    unfolding write_bill next_document_number
    unpaid-HasLanded st session run input key made fresh h =
        let keyed = record input { idempotency_key = some key } in
        let (place, user, lines, shares, counter, normalized, taken, is_made) =
          create_sale_in_tx-ok rows is_admin st session run keyed made h in
        let here = create_sale_in_tx-branch st session run keyed made h in
        let bill =
          new_bill rows is_admin session run keyed counter
            (st.document_seq counter run.fiscal_year + 1) place lines in
        let inv = draft_invoice keyed run (sale_totals rows is_admin keyed place lines) in
        let same_key : (key == key) ≡ true = ground arith in
        let same_user : (session.user_id == session.user_id) ≡ true = ground arith in
        subst
          (λ (x : SaleState × Invoice).
            HasLanded session key (record { state = x.0; invoice = x.1; receipt = none }))
          is_made
          (
            bill,
            rw same_key refl,
            put_self st.tables.invoices run.invoice_id (some inv),
            refl,
            same_user,
            here,
            fresh,
          )

    settle_unkeyed :
        (t : Tables) (session : SessionUser) (inv : Invoice) (id : ℕ) (payments : List PaymentInput)
        (d : Settled)
        → t.invoices id ≡ some inv
        → settle_sale_in_tx fingerprint env t session id payments none ≡ ok d
        → settle_invoice fingerprint env t session inv payments none ≡ ok d
    unfolding settle_sale_in_tx replay_or_settle
    settle_unkeyed t session inv id payments d row h =
        let (branch, e1, h1) = >>=-ok (require_session_branch_id session) _ h in
        let (u, e2, h2) = >>=-ok (check_payments payments) _ h1 in
        let h3 = rw row at h2 in
        let (same, h4) = guard->>= (inv.branch_id == branch) branch_mismatch _ h3 in h4

    settled_receipt :
        (t : Tables) (session : SessionUser) (inv : Invoice) (payments : List PaymentInput)
        (d : Settled)
        → settle_invoice fingerprint env t session inv payments none ≡ ok d
        → d.receipt.invoice_id ≡ inv.id
    unfolding record_payments
    settled_receipt t session inv payments d h =
        let (t1, t2, u, checked, debited, credited, e) =
          settle_invoice-Steps fingerprint env t session inv payments none d h in
        ap (λ (x : Settled). x.receipt.invoice_id) e

    paid_keeps :
        (inv : Invoice) (n : ℕ)
        → ((paid_invoice inv n).id ≡ inv.id) × ((paid_invoice inv n).branch_id ≡ inv.branch_id)
    unfolding paid_invoice
    paid_keeps inv n = (refl, refl)

    paid-HasLanded :
        (session : SessionUser) (key : ℕ) (made : SaleState × Invoice)
        (payments : List PaymentInput) (done : CheckedOut)
        → HasLanded session key (record { state = made.0; invoice = made.1; receipt = none })
        → paid_part rows is_admin fingerprint env made.0 session made.1 payments ≡ ok done
        → HasLanded session key done
    paid-HasLanded session key made payments done (b, bill, row, its, mine, here, receipt) h =
        let t = made.0.tables in
        let inv = made.1 in
        let settle = settle_sale_in_tx fingerprint env t session inv.id payments none in
        let (d, e, h1) = >>=-ok (map_err of_shop settle) _ h in
        let settled =
          settle_unkeyed t session inv inv.id payments d (rw its at row)
            (map_err-ok of_shop settle e) in
        let (wallet, bound, paid, invoices, receipts) =
          settle_invoice-ok fingerprint env t session inv payments none d settled in
        let (same_id, same_branch) = paid_keeps inv _ in
        let id : d.invoice.id ≡ inv.id = ap (λ (x : Invoice). x.id) paid ∙ same_id in
        let branch : d.invoice.branch_id ≡ inv.branch_id =
          ap (λ (x : Invoice). x.branch_id) paid ∙ same_branch in
        let of_it = settled_receipt t session inv payments d settled in
        let first : of_invoice d.invoice.id d.receipt ≡ true = rw (of_it, id) (ground arith) in
        subst (λ (x : CheckedOut). HasLanded session key x) (ok_injective _ _ h1)
          (
            b,
            bill,
            rw (invoices, its) (put_self t.invoices inv.id (some d.invoice)),
            its ∙ sym id,
            mine,
            rw branch here,
            rw (receipts, first) refl,
          )

    new-HasLanded :
        (st : SaleState) (session : SessionUser) (run : SaleRun) (input : CreateSaleInput) (key : ℕ)
        (payments : List PaymentInput) (done : CheckedOut)
        → find (of_invoice run.invoice_id) st.tables.receipts ≡ none
        → checkout_new rows is_admin fingerprint env st session run
            (record input { idempotency_key = some key })
            payments
          ≡ ok done
        → HasLanded session key done
    unfolding checkout_new
    new-HasLanded st session run input key payments done fresh h =
        let keyed = record input { idempotency_key = some key } in
        let (made, e1, h1) = >>=-ok (create_sale_in_tx rows is_admin st session run keyed) _ h in
        let unpaid : CheckedOut = record { state = made.0; invoice = made.1; receipt = none } in
        let landed = unpaid-HasLanded st session run input key made fresh e1 in
        let (paid, e2, h2) =
          >>=-ok
            (if no_payments payments
              then ok unpaid
              else paid_part rows is_admin fingerprint env made.0 session made.1 payments)
            _ h1 in
        let (online, h3) =
          guard->>=
            (not (
              is_fallback env
              && (pays_by_wallet payments || ltb paid.invoice.grand_total (pay_total payments))))
            offline_payment _ h2 in
        let (u, e4, h4) =
          >>=-ok (check_unpaid rows is_admin paid.state keyed.customer_id paid.invoice) _ h3 in
        subst (λ (x : CheckedOut). HasLanded session key x) (ok_injective _ _ h4)
          (elim (Bool-cases (no_payments payments)) [
            | inl nothing ↦
                subst (λ (x : CheckedOut). HasLanded session key x)
                  (ok_injective unpaid paid (rw nothing at e2)) landed
            | inr some_paid ↦
                paid-HasLanded session key made payments paid landed (rw some_paid at e2)
          ])

    pub replayed-state :
        (st : SaleState) (session : SessionUser) (b : Bill) (o : Option Invoice) (done : CheckedOut)
        → replayed rows is_admin fingerprint env st session b o ≡ ok done
        → done.state ≡ st
    replayed-state st session b none done h = ground arith
    replayed-state st session b (some inv) done h =
        elim (Bool-cases
          ((b.created_by == session.user_id) && is_at session.branch_id inv.branch_id)) [
            | inl mine ↦
                subst (λ (x : CheckedOut). x.state ≡ st) (ok_injective _ _ (rw mine at h)) refl
            | inr other ↦ ground (arith, rw other at h)
          ]

    -- A checkout that is sent again with its key, by the same user at the same branch, answers with the
    -- same bill and receipt and changes nothing, whatever else the request says, when the first one's
    -- invoice id had no receipt before.
    pub checkout_sale-replay :
        (st : SaleState) (session : SessionUser) (run run' : SaleRun)
        (input input' : CreateSaleInput) (key : ℕ) (payments payments' : List PaymentInput)
        (done : CheckedOut)
        → find (of_invoice run.invoice_id) st.tables.receipts ≡ none
        → checkout_sale rows is_admin fingerprint env st session run input key payments ≡ ok done
        → checkout_sale rows is_admin fingerprint env done.state session run' input' key payments'
          ≡ ok done
    unfolding checkout_sale
    checkout_sale-replay st session run run' input input' key payments payments' done fresh h =
        elim (Option-cases (find (has_key key) st.bills)) [
          | inl new ↦
              landed-replay session run' input' key payments' done
                (new-HasLanded st session run input key payments done fresh (rw new at h))
          | inr (b, before) ↦
              let again = rw before at h in
              let same = replayed-state st session b (st.tables.invoices b.invoice_id) done again in
              subst
                (λ (x : SaleState).
                  checkout_found rows is_admin fingerprint env x session run'
                    (record input' { idempotency_key = some key }) payments'
                    (find (has_key key) x.bills)
                  ≡ ok done)
                (sym same) (rw before again)
        ]
