-- ===== src/Sales/Numbers/Reached.antt =====
-- The bills that a shop can come to, by sales, checkouts and cancellations.
use pointofsale.Base.{
  ℕ, ◌≡◌, subst, Bool, not, ◌&&◌, ◌||◌, none, some, List, [], ltb, if◌then◌else◌, ok, >>=-ok,
  guard->>=, ok_injective, map_err, Bool-cases, Option-cases, inl, inr,
}
use pointofsale.Shop.{find, SessionUser, Invoice, PosEnv, is_fallback, Tables}
use pointofsale.Stock.Ledger.{StockTables}
use pointofsale.Sales.Settlement.{PaymentInput, pay_total, settle_sale_in_tx}
use pointofsale.Sales.Bills.{
  of_shop, offline_payment, SaleRows, SaleState, CheckedOut, has_key, CreateSaleInput, SaleRun,
}
use pointofsale.Sales.Checkout.{
  no_payments, pays_by_wallet, create_sale_in_tx, check_unpaid, paid_part, checkout_new,
  checkout_sale,
}
use pointofsale.Sales.Checkout.Replay.{replayed-state}
use pointofsale.Sales.Cancel.{cancel_sale}
use pointofsale.Sales.Numbers.{HasNumbers, create_sale_in_tx-HasNumbers, cancel_sale-HasNumbers}

module _ (rows : SaleRows) (is_admin : Bool) (fingerprint : List PaymentInput → ℕ)
    (env : PosEnv) where
  paid_part-HasNumbers :
      (st : SaleState) (session : SessionUser) (inv : Invoice) (payments : List PaymentInput)
      (done : CheckedOut)
      → paid_part rows is_admin fingerprint env st session inv payments ≡ ok done
      → HasNumbers st
      → HasNumbers done.state
  paid_part-HasNumbers st session inv payments done h wf =
      let settle = settle_sale_in_tx fingerprint env st.tables session inv.id payments none in
      let (d, e, h1) = >>=-ok (map_err of_shop settle) _ h in
      subst (λ (x : CheckedOut). HasNumbers x.state) (ok_injective _ _ h1) wf

  checkout_new-HasNumbers :
      (st : SaleState) (session : SessionUser) (run : SaleRun) (input : CreateSaleInput)
      (payments : List PaymentInput) (done : CheckedOut)
      → checkout_new rows is_admin fingerprint env st session run input payments ≡ ok done
      → HasNumbers st
      → HasNumbers done.state
  unfolding checkout_new
  checkout_new-HasNumbers st session run input payments done h wf =
      let (made, e1, h1) = >>=-ok (create_sale_in_tx rows is_admin st session run input) _ h in
      let unpaid : CheckedOut = record { state = made.0; invoice = made.1; receipt = none } in
      let made_numbers =
        create_sale_in_tx-HasNumbers rows is_admin st session run input made e1 wf in
      let (paid, e2, h2) =
        >>=-ok
          (if no_payments payments
            then ok unpaid
            else paid_part rows is_admin fingerprint env made.0 session made.1 payments)
          _ h1 in
      let (online, h3) =
        guard->>=
          (not (
            is_fallback env
            && (pays_by_wallet payments || ltb paid.invoice.grand_total (pay_total payments))))
          offline_payment _ h2 in
      let (u, e4, h4) =
        >>=-ok (check_unpaid rows is_admin paid.state input.customer_id paid.invoice) _ h3 in
      subst (λ (x : CheckedOut). HasNumbers x.state) (ok_injective _ _ h4)
        (elim (Bool-cases (no_payments payments)) [
          | inl nothing ↦
              subst (λ (x : CheckedOut). HasNumbers x.state)
                (ok_injective unpaid paid (rw nothing at e2)) made_numbers
          | inr some_paid ↦
              paid_part-HasNumbers made.0 session made.1 payments paid (rw some_paid at e2)
                made_numbers
        ])

  checkout_sale-HasNumbers :
      (st : SaleState) (session : SessionUser) (run : SaleRun) (input : CreateSaleInput) (key : ℕ)
      (payments : List PaymentInput) (done : CheckedOut)
      → checkout_sale rows is_admin fingerprint env st session run input key payments ≡ ok done
      → HasNumbers st
      → HasNumbers done.state
  unfolding checkout_sale
  checkout_sale-HasNumbers st session run input key payments done h wf =
      elim (Option-cases (find (has_key key) st.bills)) [
        | inl new ↦
            checkout_new-HasNumbers st session run (record input { idempotency_key = some key })
              payments done (rw new at h) wf
        | inr (b, before) ↦
            rw
              (replayed-state rows is_admin fingerprint env st session b
                (st.tables.invoices b.invoice_id) done (rw before at h))
              wf
      ]

-- What a shop does with bills; other services change its tables and its stock.
pub data BillStep : SaleState → SaleState → Type 0 where
  billed :
      {st : SaleState} (rows : SaleRows) (is_admin : Bool) (session : SessionUser) (run : SaleRun)
      (input : CreateSaleInput) (r : SaleState × Invoice)
      → create_sale_in_tx rows is_admin st session run input ≡ ok r
      → BillStep st r.0
  checked_out :
      {st : SaleState} (rows : SaleRows) (is_admin : Bool) (fingerprint : List PaymentInput → ℕ)
      (env : PosEnv) (session : SessionUser) (run : SaleRun) (input : CreateSaleInput) (key : ℕ)
      (payments : List PaymentInput) (done : CheckedOut)
      → checkout_sale rows is_admin fingerprint env st session run input key payments ≡ ok done
      → BillStep st done.state
  cancelled :
      {st st' : SaleState} (rows : SaleRows) (session : SessionUser)
      (branch today invoice_id reason_length : ℕ)
      → cancel_sale rows st session branch today invoice_id reason_length ≡ ok st'
      → BillStep st st'
  elsewhere :
      {st : SaleState} (tables : Tables) (stock : StockTables)
      → BillStep st (record st { tables = tables; stock = stock })

pub data BillsReached : SaleState → Type 0 where
  no_bills : (st : SaleState) → st.bills ≡ [] → BillsReached st
  next_bill : {st st' : SaleState} → BillsReached st → BillStep st st' → BillsReached st'

BillStep-HasNumbers : (st st' : SaleState) → BillStep st st' → HasNumbers st → HasNumbers st'
BillStep-HasNumbers st _ (billed rows is_admin session run input r h) wf =
    create_sale_in_tx-HasNumbers rows is_admin st session run input r h wf
BillStep-HasNumbers st _ (checked_out rows is_admin fp env session run input key ps done h) wf =
    checkout_sale-HasNumbers rows is_admin fp env st session run input key ps done h wf
BillStep-HasNumbers st st' (cancelled rows session branch today id reason h) wf =
    cancel_sale-HasNumbers rows st st' session branch today id reason h wf
BillStep-HasNumbers st _ (elsewhere tables stock) wf = wf

-- Whatever bills are made, checked out and cancelled, each has a number from 1 up to its series' count
-- of the financial year, and no two bills of a series and a financial year have the same one.
pub BillsReached-HasNumbers : (st : SaleState) → BillsReached st → HasNumbers st
BillsReached-HasNumbers st (no_bills _ none_made) = rw none_made (tt, tt)
BillsReached-HasNumbers st' (next_bill {st = st} reached step) =
    BillStep-HasNumbers st st' step (BillsReached-HasNumbers st reached)
