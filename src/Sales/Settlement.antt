-- ===== src/Sales/Settlement.antt =====
-- apps/api/src/sales/sale-settlement.service.ts, and `invoiceDue` of
-- packages/contracts/src/receiptDocuments.ts. An idempotency key, a reference and a fingerprint are
-- numbers; the fingerprint is a parameter (SHA-256 of the payments).
pub mod Laws
pub mod Money
pub mod Replay
use Prim.Native.Nat.{min}
use pointofsale.Base.{
  ℕ, ◌+◌, ◌-◌, Bool, true, false, not, ◌&&◌, ◌||◌, Option, none, some, List, [], ◌∷◌, ◌++◌, map,
  ltb, leb, ◌==◌, if◌then◌else◌, filter, sum_by, Result, ok, err, ◌>>=◌, ◌>>◌, found, guard, put,
}
use pointofsale.Shop.{
  Refusal, branch_mismatch, payment_not_positive, tendered_too_little, invoice_not_found,
  payment_key_used, already_paid, is_cancelled, payment_exceeds_due, walk_in_has_no_wallet,
  wallet_exceeds_due, offline_wallet, wallet_not_found, insufficient_balance, user_not_found,
  PaymentMode, is_cash, is_wallet, InvoiceStatus, draft, settled, partially_settled, cancelled,
  topup, debit_sale, SessionUser, Invoice, Payment, WalletTxn, Receipt, Tables, PosEnv, is_fallback,
  require_session_branch_id, find, assert_register_open, next_receipt,
}

-- What is still owed on a bill.
unfoldable pub invoice_due : Invoice → ℕ
invoice_due i = i.grand_total - i.paid_total - i.credited_total

pub record PaymentInput : Type 0 where
  pub mode : PaymentMode
  pub amount : ℕ
  pub tendered : Option ℕ
  pub reference : Option ℕ

abbrev pub is_positive : PaymentInput → Bool
is_positive p = ltb 0 p.amount

-- Cash tendered is for cash payments, and at least the amount paid.
abbrev pub is_tendered : PaymentInput → Bool
is_tendered p = elim p.tendered [ none ↦ true | some t ↦ is_cash p.mode && leb p.amount t ]

-- `Array.prototype.every`; a test that no element fails is `!some(!…)`.
abbrev pub every : (PaymentInput → Bool) → List PaymentInput → Bool
every p [] = true
every p (x ∷ xs) = p x && every p xs

abbrev pub is_empty : List PaymentInput → Bool
is_empty [] = true
is_empty (p ∷ ps) = false

unfoldable pub check_payments : List PaymentInput → Result Refusal (Unit {0})
check_payments ps = do
  guard (not (is_empty ps) && every is_positive ps) payment_not_positive
  guard (every is_tendered ps) tendered_too_little

-- `tendered` is kept when there is change to give.
abbrev pub change_tendered : PaymentInput → Option ℕ
change_tendered p = elim p.tendered [
  | none ↦ none
  | some t ↦ if ltb p.amount t then some t else none
]

abbrev pub payment_row : SessionUser → Invoice → PaymentInput → Payment
payment_row s inv p = record {
  invoice_id = inv.id;
  mode = p.mode;
  amount = p.amount;
  tendered = change_tendered p;
  reference = p.reference;
  register_session_id = s.register_id;
}

unfoldable pub pay_total : List PaymentInput → ℕ
pay_total = sum_by (λ p. p.amount)

unfoldable pub wallet_total : List PaymentInput → ℕ
wallet_total ps = sum_by (λ p. p.amount) (filter (λ p. is_wallet p.mode) ps)

-- `walletTxnAuthor`
abbrev pub wallet_txn_author : Tables → SessionUser → Result Refusal ℕ
wallet_txn_author t s = if t.users s.user_id then ok s.user_id else err user_not_found

abbrev pub wallet_txn : Invoice → ℕ → Bool → ℕ → WalletTxn
wallet_txn inv amount is_debit author = record {
  customer_id = inv.customer_id;
  kind = if is_debit then debit_sale else topup;
  amount = amount;
  reference_id = inv.id;
  created_by = author;
  register_session_id = none;
  payment_mode = none;
}

-- The wallet pays, if its balance covers it.
unfoldable pub debit_wallet : Tables → SessionUser → Invoice → ℕ → Result Refusal Tables
debit_wallet t s inv amount =
    if ltb 0 amount
    then (do
      balance ← found (t.wallets inv.customer_id) wallet_not_found
      guard (leb amount balance) insufficient_balance
      author ← wallet_txn_author t s
      ok (record t {
        wallets = put t.wallets inv.customer_id (some (balance - amount));
        wallet_txns = wallet_txn inv amount true author ∷ t.wallet_txns;
      }))
    else ok t

-- What is paid beyond the amount due goes to the customer's wallet.
unfoldable pub credit_excess : Tables → SessionUser → Invoice → ℕ → Result Refusal Tables
credit_excess t s inv excess =
    if ltb 0 excess && not (t.is_walk_in inv.customer_id)
    then (do
      balance ← found (t.wallets inv.customer_id) wallet_not_found
      author ← wallet_txn_author t s
      ok (record t {
        wallets = put t.wallets inv.customer_id (some (balance + excess));
        wallet_txns = wallet_txn inv excess false author ∷ t.wallet_txns;
      }))
    else ok t

-- The invoice with its payments.
unfoldable pub paid_invoice : Invoice → ℕ → Invoice
paid_invoice inv applied =
    let updated_paid = inv.paid_total + applied in
    record inv {
      paid_total = updated_paid;
      status =
          if leb inv.grand_total (updated_paid + inv.credited_total)
          then settled
          else partially_settled;
    }

abbrev pub is_settled : InvoiceStatus → Bool
is_settled settled = true
is_settled draft = false
is_settled partially_settled = false
is_settled cancelled = false

abbrev pub is_cancelled_status : InvoiceStatus → Bool
is_cancelled_status cancelled = true
is_cancelled_status draft = false
is_cancelled_status settled = false
is_cancelled_status partially_settled = false

pub record Settled : Type 0 where
  pub tables : Tables
  pub invoice : Invoice
  pub receipt : Receipt

-- The receipt of a key, if the request has one.
abbrev pub receipt_of_key : Tables → Option ℕ → Option Receipt
receipt_of_key t none = none
receipt_of_key t (some key) =
    find (λ r. elim r.idempotency_key [ none ↦ false | some k ↦ k == key ]) t.receipts

abbrev pub is_value : Option ℕ → ℕ → Bool
is_value none n = false
is_value (some m) n = m == n

module _ (fingerprint : List PaymentInput → ℕ) (env : PosEnv) where
  -- A key marks the receipt with the request it stands for.
  abbrev pub receipt_row :
      SessionUser → Invoice → List PaymentInput → Option ℕ → Tables → Tables × Receipt
  receipt_row s inv payments key t =
      let (t', series, seq) = next_receipt env t inv.branch_id in
      let row : Receipt = record {
        series = series;
        seq = seq;
        invoice_id = inv.id;
        amount = pay_total payments;
        idempotency_key = key;
        request_fingerprint = elim key [ none ↦ none | some _ ↦ some (fingerprint payments) ];
        settlement_user_id = elim key [ none ↦ none | some _ ↦ some s.user_id ];
      } in
      (record t' { receipts = row ∷ t'.receipts }, row)

  -- The conditions under which an invoice that is not paid is refused.
  unfoldable pub check_amounts : Tables → Invoice → List PaymentInput → Result Refusal (Unit {0})
  check_amounts t inv payments =
      let pending = invoice_due inv in
      let excess = pay_total payments - pending in
      let from_wallet = wallet_total payments in
      let walk_in = t.is_walk_in inv.customer_id in
      do
        guard (not (is_settled inv.status)) already_paid
        guard (not (is_cancelled_status inv.status)) is_cancelled
        guard (not (ltb pending (pay_total payments) && walk_in)) payment_exceeds_due
        guard (not (ltb 0 from_wallet && walk_in)) walk_in_has_no_wallet
        guard (leb from_wallet pending) wallet_exceeds_due
        guard (not (is_fallback env && (ltb 0 from_wallet || ltb 0 excess))) offline_wallet

  -- The payments, the invoice and the receipt.
  unfoldable pub record_payments :
      Tables → SessionUser → Invoice → List PaymentInput → Option ℕ → Settled
  record_payments t s inv payments key =
      let updated = paid_invoice inv (min (pay_total payments) (invoice_due inv)) in
      let paid = record t {
        payments = map (payment_row s inv) payments ++ t.payments;
        invoices = put t.invoices inv.id (some updated);
      } in
      let (t', receipt) = receipt_row s inv payments key paid in
      record { tables = t'; invoice = updated; receipt = receipt }

  unfoldable pub settle_invoice :
      Tables → SessionUser → Invoice → List PaymentInput → Option ℕ → Result Refusal Settled
  settle_invoice t s inv payments key = do
    check_amounts t inv payments
    t1 ← debit_wallet t s inv (wallet_total payments)
    counter ← assert_register_open t1 s
    let done = record_payments t1 s inv payments key
    t2 ← credit_excess done.tables s inv (pay_total payments - invoice_due inv)
    ok (record done { tables = t2 })

  -- A replay answers with the receipt; another request with the same key is refused.
  unfoldable pub replay_or_settle :
      Tables
      → SessionUser
      → Invoice
      → List PaymentInput
      → Option ℕ
      → Option Receipt
      → Result Refusal Settled
  replay_or_settle t s inv payments key none = settle_invoice t s inv payments key
  replay_or_settle t s inv payments key (some r) =
      if (r.invoice_id == inv.id)
        && (is_value r.settlement_user_id s.user_id
            && is_value r.request_fingerprint (fingerprint payments))
      then ok (record { tables = t; invoice = inv; receipt = r })
      else err payment_key_used

  -- `settleSaleInTx`
  unfoldable pub settle_sale_in_tx :
      Tables → SessionUser → ℕ → List PaymentInput → Option ℕ → Result Refusal Settled
  settle_sale_in_tx t s invoice_id payments key = do
    branch ← require_session_branch_id s
    check_payments payments
    inv ← found (t.invoices invoice_id) invoice_not_found
    guard (inv.branch_id == branch) branch_mismatch
    replay_or_settle t s inv payments key (receipt_of_key t key)
