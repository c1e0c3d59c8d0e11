-- ===== src/Drawer.antt =====
-- apps/api/src/registers/registers.service.ts: `registerCash`, the cash that should be in a counter's
-- drawer. The rows that only this service reads stand in a record of their own, `DrawerRows`.
use pointofsale.Base.{
  ℕ, ◌+◌, Bool, true, false, not, ◌&&◌, Option, none, some, List, ◌==◌, if◌then◌else◌, filter,
  sum_by, ℤ, sub_ℕ,
}
use pointofsale.Shop.{
  PaymentMode, is_cash, WalletTxnType, topup, debit_sale, refund_return, adjustment, Tables, PosEnv,
  is_fallback,
}

pub data CashMovementType : Type 0 where
  cash_in cash_out : CashMovementType

abbrev pub is_cash_in : CashMovementType → Bool
is_cash_in cash_in = true
is_cash_in cash_out = false

-- A refund of a return, from a register.
pub record Refund : Type 0 where
  pub id : ℕ
  pub register_session_id : Option ℕ
  pub refund_mode : PaymentMode
  pub refund_amount : ℕ

-- A payment to a supplier, or an expense.
pub record PaidOut : Type 0 where
  pub register_session_id : Option ℕ
  pub amount : ℕ

pub record CashMovement : Type 0 where
  pub register_session_id : ℕ
  pub kind : CashMovementType
  pub amount : ℕ

-- What a register had taken and given when its fallback copy was made.
pub record FallbackRegisterBalance : Type 0 where
  pub cash_sales : ℕ
  pub cash_topups : ℕ
  pub cash_refunds : ℕ
  pub cash_paid_out : ℕ
  pub cash_in : ℕ
  pub cash_out : ℕ
  pub cash_expenses : ℕ
  pub card_sales : ℕ
  pub upi_sales : ℕ

pub record DrawerRows : Type 0 where
  pub refunds : List Refund
  pub supplier_payments : List PaidOut
  pub cash_movements : List CashMovement
  pub expenses : List PaidOut
  pub balances : ℕ → Option FallbackRegisterBalance
  pub is_copied : ℕ → Bool

abbrev pub no_balance : FallbackRegisterBalance
no_balance = record {
  cash_sales = 0;
  cash_topups = 0;
  cash_refunds = 0;
  cash_paid_out = 0;
  cash_in = 0;
  cash_out = 0;
  cash_expenses = 0;
  card_sales = 0;
  upi_sales = 0;
}

abbrev pub is_of : ℕ → Option ℕ → Bool
is_of register none = false
is_of register (some r) = r == register

abbrev pub same_mode : PaymentMode → PaymentMode → Bool
same_mode PaymentMode.cash m = is_cash m
same_mode PaymentMode.card m = elim m [ PaymentMode.card ↦ true | _ ↦ false ]
same_mode PaymentMode.upi m = elim m [ PaymentMode.upi ↦ true | _ ↦ false ]
same_mode PaymentMode.wallet m = elim m [ PaymentMode.wallet ↦ true | _ ↦ false ]

abbrev pub is_mode : PaymentMode → Option PaymentMode → Bool
is_mode mode none = false
is_mode mode (some m) = same_mode mode m

abbrev pub is_topup : WalletTxnType → Bool
is_topup topup = true
is_topup debit_sale = false
is_topup refund_return = false
is_topup adjustment = false

-- Payments taken on a register in a mode.
unfoldable pub taken_by_mode : Tables → ℕ → PaymentMode → ℕ
taken_by_mode t register mode =
    sum_by (λ p. p.amount)
      (filter (λ p. is_of register p.register_session_id && same_mode mode p.mode) t.payments)

unfoldable pub topups : Tables → ℕ → PaymentMode → ℕ
topups t register mode =
    sum_by (λ w. w.amount)
      (filter
        (λ w.
          is_of register w.register_session_id && (is_topup w.kind && is_mode mode w.payment_mode))
        t.wallet_txns)

unfoldable pub taken : Tables → ℕ → PaymentMode → ℕ
taken t register mode =
    taken_by_mode t register mode + (if is_cash mode then 0 else topups t register mode)

-- A fallback copy's refunds that came with it are in its balance already.
unfoldable pub cash_refunded : PosEnv → DrawerRows → ℕ → ℕ
cash_refunded env d register =
    sum_by (λ r. r.refund_amount)
      (filter
        (λ r.
          is_of register r.register_session_id
          && (is_cash r.refund_mode && not (is_fallback env && d.is_copied r.id)))
        d.refunds)

unfoldable pub paid_out : List PaidOut → ℕ → ℕ
paid_out rows register =
    sum_by (λ p. p.amount) (filter (λ p. is_of register p.register_session_id) rows)

unfoldable pub moved : DrawerRows → ℕ → Bool → ℕ
moved d register into =
    sum_by (λ m. m.amount)
      (filter
        (λ m.
          (m.register_session_id == register)
          && (if into then is_cash_in m.kind else not (is_cash_in m.kind)))
        d.cash_movements)

abbrev pub balance_row : Option FallbackRegisterBalance → FallbackRegisterBalance
balance_row none = no_balance
balance_row (some b) = b

unfoldable pub baseline : PosEnv → DrawerRows → ℕ → FallbackRegisterBalance
baseline env d register = if is_fallback env then balance_row (d.balances register) else no_balance

pub record RegisterCash : Type 0 where
  pub cash_sales : ℕ
  pub cash_topups : ℕ
  pub cash_refunds : ℕ
  pub cash_paid_out : ℕ
  pub cash_in : ℕ
  pub cash_out : ℕ
  pub cash_expenses : ℕ
  pub expected_cash : ℤ
  pub card_sales : ℕ
  pub upi_sales : ℕ

-- The sums of `registerCash`, with the cash that is expected from them.
abbrev pub with_expected : ℕ → FallbackRegisterBalance → FallbackRegisterBalance → RegisterCash
with_expected opening sums b =
    let into =
      opening
      + (sums.cash_sales + b.cash_sales)
      + (sums.cash_topups + b.cash_topups)
      + (sums.cash_in + b.cash_in) in
    let out =
      (sums.cash_refunds + b.cash_refunds)
      + (sums.cash_paid_out + b.cash_paid_out)
      + (sums.cash_out + b.cash_out)
      + (sums.cash_expenses + b.cash_expenses) in
    record {
      cash_sales = sums.cash_sales + b.cash_sales;
      cash_topups = sums.cash_topups + b.cash_topups;
      cash_refunds = sums.cash_refunds + b.cash_refunds;
      cash_paid_out = sums.cash_paid_out + b.cash_paid_out;
      cash_in = sums.cash_in + b.cash_in;
      cash_out = sums.cash_out + b.cash_out;
      cash_expenses = sums.cash_expenses + b.cash_expenses;
      expected_cash = sub_ℕ into out;
      card_sales = sums.card_sales + b.card_sales;
      upi_sales = sums.upi_sales + b.upi_sales;
    }

unfoldable pub register_cash : PosEnv → Tables → DrawerRows → ℕ → ℕ → RegisterCash
register_cash env t d register opening =
    with_expected opening
      (record {
        cash_sales = taken t register PaymentMode.cash;
        cash_topups = topups t register PaymentMode.cash;
        cash_refunds = cash_refunded env d register;
        cash_paid_out = paid_out d.supplier_payments register;
        cash_in = moved d register true;
        cash_out = moved d register false;
        cash_expenses = paid_out d.expenses register;
        card_sales = taken t register PaymentMode.card;
        upi_sales = taken t register PaymentMode.upi;
      })
      (baseline env d register)
