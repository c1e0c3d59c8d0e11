-- ===== src/Shop.antt =====
-- The rows that the services of apps/api/src read and write (the tables of the Prisma schema, the
-- columns that are used here), the session of a user, and the numbering of receipts. Money is paise;
-- a transaction takes the tables and gives them back changed, or a refusal that leaves them.
use Prim.Native.Nat.{◌+◌}
use pointofsale.Base.{
  ℕ, Bool, true, false, ◌&&◌, Option, none, some, List, [], ◌∷◌, ◌==◌, if◌then◌else◌, Result, ok,
  err, ◌>>=◌, found, put, ℤ, ◌≡◌, refl, inl, inr, Bool-cases, All, ap, ◌∙◌, sym, some_injective,
  arith,
}

-- `BadRequestException` and its kin, one for each message.
pub data Refusal : Type 0 where
  branch_not_selected register_not_open register_closed user_not_found payment_not_positive :
      Refusal
  tendered_too_little invoice_not_found branch_mismatch payment_key_used already_paid : Refusal
  is_cancelled payment_exceeds_due walk_in_has_no_wallet wallet_exceeds_due : Refusal
  offline_wallet wallet_not_found insufficient_balance : Refusal
  not_a_topup_mode branch_not_found no_branch_access admin_required : Refusal
  negative_balance counter_not_found counter_inactive no_active_counter choose_counter : Refusal
  fallback_counter_elsewhere already_open_by_you counter_taken open_register_not_found : Refusal

pub data PaymentMode : Type 0 where
  cash card upi wallet : PaymentMode

abbrev pub is_cash : PaymentMode → Bool
is_cash cash = true
is_cash card = false
is_cash upi = false
is_cash wallet = false

abbrev pub is_wallet : PaymentMode → Bool
is_wallet cash = false
is_wallet card = false
is_wallet upi = false
is_wallet wallet = true

pub data InvoiceStatus : Type 0 where
  draft settled partially_settled cancelled : InvoiceStatus

pub data WalletTxnType : Type 0 where
  topup debit_sale refund_return adjustment : WalletTxnType

pub record SessionUser : Type 0 where
  pub user_id : ℕ
  pub branch_id : Option ℕ
  pub register_id : Option ℕ

pub record Invoice : Type 0 where
  pub id : ℕ
  pub branch_id : ℕ
  pub customer_id : ℕ
  pub status : InvoiceStatus
  pub grand_total : ℕ
  pub paid_total : ℕ
  pub credited_total : ℕ

pub record Payment : Type 0 where
  pub invoice_id : ℕ
  pub mode : PaymentMode
  pub amount : ℕ
  pub tendered : Option ℕ
  pub reference : Option ℕ
  pub register_session_id : Option ℕ

pub record WalletTxn : Type 0 where
  pub customer_id : ℕ
  pub kind : WalletTxnType
  pub amount : ℕ
  pub reference_id : ℕ
  pub created_by : ℕ
  pub register_session_id : Option ℕ
  pub payment_mode : Option PaymentMode

-- The number of a receipt: whose series it is in, and its place there.
pub data ReceiptSeries : Type 0 where
  of_branch of_fallback_counter : ℕ → ReceiptSeries

pub record Receipt : Type 0 where
  pub series : ReceiptSeries
  pub seq : ℕ
  pub invoice_id : ℕ
  pub amount : ℕ
  pub idempotency_key : Option ℕ
  pub request_fingerprint : Option ℕ
  pub settlement_user_id : Option ℕ

pub record RegisterSession : Type 0 where
  pub id : ℕ
  pub user_id : ℕ
  pub branch_id : ℕ
  pub counter_id : ℕ
  pub opening_balance : ℕ
  pub closing_balance : Option ℕ
  pub expected_cash : Option ℤ
  pub cash_difference : Option ℤ
  pub closed_at : Option ℕ

pub record Tables : Type 0 where
  pub invoices : ℕ → Option Invoice
  pub is_walk_in : ℕ → Bool
  pub wallets : ℕ → Option ℕ
  pub users : ℕ → Bool
  pub wallet_txns : List WalletTxn
  pub payments : List Payment
  pub receipts : List Receipt
  pub receipt_seq : ℕ → ℕ
  pub fallback_receipt_seq : ℕ → ℕ
  pub registers : List RegisterSession

-- Where the server runs: online, offline, or as a branch's fallback counter.
pub record PosEnv : Type 0 where
  pub is_offline : Bool
  pub pos_fallback : Bool
  pub fallback_counter_id : Option ℕ

abbrev pub is_fallback : PosEnv → Bool
is_fallback env = env.is_offline && env.pos_fallback

abbrev pub require_session_branch_id : SessionUser → Result Refusal ℕ
require_session_branch_id s = found s.branch_id branch_not_selected

abbrev pub require_session_register_id : SessionUser → Result Refusal ℕ
require_session_register_id s = found s.register_id register_not_open

-- `find` of an array, or the first row of a table.
abbrev pub find {ℓ} : {A : Type ℓ} → (A → Bool) → List A → Option A
find p [] = none
find p (x ∷ xs) = if p x then some x else find p xs

-- What is found passes the test, and every test that all elements pass.
pub find-All :
    {A : Type 0} (q p : A → Bool) (xs : List A) (a : A)
    → find p xs ≡ some a
    → All (λ x. q x ≡ true) xs
    → (p a ≡ true) × (q a ≡ true)
find-All q p [] a h all = ground arith
find-All q p (x ∷ xs) a h all = elim (Bool-cases (p x)) [
  | inl here ↦
      let is_a : x ≡ a = some_injective x a (rw here at h) in
      (ap p (sym is_a) ∙ here, ap q (sym is_a) ∙ all.0)
  | inr there ↦ find-All q p xs a (rw there at h) all.1
]

abbrev pub is_open : RegisterSession → Bool
is_open r = elim r.closed_at [ none ↦ true | some _ ↦ false ]

-- The counter of an open register.
abbrev pub open_counter : Option RegisterSession → Result Refusal ℕ
open_counter none = err register_closed
open_counter (some r) = if is_open r then ok r.counter_id else err register_closed

unfoldable pub assert_register_open : Tables → SessionUser → Result Refusal ℕ
assert_register_open t s = do
  id ← require_session_register_id s
  open_counter (find (λ r. r.id == id) t.registers)

abbrev branch_receipt : Tables → ℕ → Tables × ReceiptSeries × ℕ
branch_receipt t branch =
    let seq = t.receipt_seq branch + 1 in
    (record t { receipt_seq = put t.receipt_seq branch seq }, of_branch branch, seq)

abbrev fallback_receipt : Tables → ℕ → Tables × ReceiptSeries × ℕ
fallback_receipt t counter =
    let seq = t.fallback_receipt_seq counter + 1 in
    (
      record t { fallback_receipt_seq = put t.fallback_receipt_seq counter seq },
      of_fallback_counter counter,
      seq,
    )

unfoldable pub receipt_for : PosEnv → Tables → ℕ → Option ℕ → Tables × ReceiptSeries × ℕ
receipt_for env t branch none = branch_receipt t branch
receipt_for env t branch (some counter) =
    if is_fallback env then fallback_receipt t counter else branch_receipt t branch

-- `nextSequence(branchId, 'receipt')`: a fallback counter has a series of its own.
unfoldable pub next_receipt : PosEnv → Tables → ℕ → Tables × ReceiptSeries × ℕ
next_receipt env t branch = receipt_for env t branch env.fallback_counter_id

-- Numbering changes the counts and nothing else that a settlement reads.
abbrev SameRows : Tables → Tables → Type 0
SameRows t t' =
    (t'.wallets ≡ t.wallets)
    × (t'.is_walk_in ≡ t.is_walk_in)
    × (t'.receipts ≡ t.receipts)
    × (t'.invoices ≡ t.invoices)
    × (t'.payments ≡ t.payments)
    × (t'.wallet_txns ≡ t.wallet_txns)

receipt_for-frame :
    (env : PosEnv) (t : Tables) (branch : ℕ) (counter : Option ℕ)
    → SameRows t (receipt_for env t branch counter).0
unfolding receipt_for
receipt_for-frame env t branch none = (refl, refl, refl, refl, refl, refl)
receipt_for-frame env t branch (some counter) = elim (Bool-cases (is_fallback env)) [
  | inl f ↦ rw f (refl, refl, refl, refl, refl, refl)
  | inr f ↦ rw f (refl, refl, refl, refl, refl, refl)
]

pub next_receipt-frame :
    (env : PosEnv) (t : Tables) (branch : ℕ) → SameRows t (next_receipt env t branch).0
unfolding next_receipt
next_receipt-frame env t branch = receipt_for-frame env t branch env.fallback_counter_id
