-- ===== src/Tests/RegisterTests.antt =====
-- apps/api/src/registers at concrete inputs; money in paise.
use pointofsale.Base.{◌≡◌, refl, true, false, none, some, [], ◌∷◌, ok, err, pos, ◌+ℤ◌}
use pointofsale.Shop.{
  PaymentMode, register_closed, already_open_by_you, Tables, RegisterSession, assert_register_open,
  SessionUser,
}
use pointofsale.Registers.{
  BranchRows, ClosingWhere, close_open_register, open_register, pick_counter, is_elsewhere,
  claim_counter, closed_row,
}
use pointofsale.Drawer.{
  DrawerRows, cash_in, RegisterCash, register_cash, taken, taken_by_mode, topups, cash_refunded,
  paid_out, moved, baseline,
}
use pointofsale.Registers.Invariant.{HasNoClash, opened, here, after, Reaches-HasNoClash}
use pointofsale.Registers.Closing.{close_open_register-refused}
use pointofsale.Registers.Takings.{paid_on, settle_sale_in_tx-register_cash}
use pointofsale.Customers.{WalletCustomer, shared, topup_row, topup_wallet, find_usable_wallet}
use pointofsale.Customers.Wallets.{IsToppedUp, topup_wallet-IsToppedUp}
use pointofsale.Base.Results.{put}
use pointofsale.Tests.SaleSamples.{
  online, cashier, sample_bill, sample_tables, sample_payments, sample_fingerprint, sample_settled,
}
use pointofsale.Tests.SalesTests.{settle_run}

abbrev sample_branch : BranchRows
sample_branch = record {
  is_branch = λ b. true;
  has_access = λ user b. true;
  counters =
      record { id = 2; branch_id = 1; is_active = true; fallback_device_id = none }
      ∷ record { id = 3; branch_id = 1; is_active = true; fallback_device_id = none }
      ∷ [];
}

abbrev sample_drawer : DrawerRows
sample_drawer = record {
  refunds =
      record {
        id = 1;
        register_session_id = some 4;
        refund_mode = PaymentMode.cash;
        refund_amount = 1500;
      }
      ∷ [];
  supplier_payments = record { register_session_id = some 4; amount = 2000 } ∷ [];
  cash_movements = record { register_session_id = 4; kind = cash_in; amount = 500 } ∷ [];
  expenses = [];
  balances = λ register. none;
  is_copied = λ id. false;
}

abbrev cash_of_4 : RegisterCash
cash_of_4 = register_cash online sample_settled.tables sample_drawer 4 50_000

cash_run : cash_of_4.expected_cash ≡ pos 53_000
unfolding register_cash taken taken_by_mode topups cash_refunded paid_out moved baseline
cash_run = refl

settle_sale_in_tx-register_cash_example :
    cash_of_4.expected_cash
    ≡ (register_cash online sample_tables sample_drawer 4 50_000).expected_cash
      +ℤ pos (paid_on 4 cashier PaymentMode.cash sample_payments)
settle_sale_in_tx-register_cash_example =
    (settle_sale_in_tx-register_cash sample_fingerprint online sample_tables cashier 77
      sample_payments (some 3) sample_bill sample_settled sample_drawer 4 50_000 refl refl
      settle_run).0

-- A second user opens the other counter of the branch.
abbrev second : SessionUser
second = record { user_id = 8; branch_id = none; register_id = none }

abbrev row_5 : RegisterSession
row_5 = record {
  id = 5;
  user_id = 8;
  branch_id = 1;
  counter_id = 3;
  opening_balance = 1000;
  closing_balance = none;
  expected_cash = none;
  cash_difference = none;
  closed_at = none;
}

abbrev two_open : Tables
two_open = record sample_tables { registers = row_5 ∷ sample_tables.registers }

open_run :
    open_register online sample_branch sample_tables 5 second 1 (pos 1000) (some 3) none
    ≡ ok (two_open, row_5)
unfolding open_register pick_counter is_elsewhere claim_counter
open_run = refl

open_run_again :
    open_register online sample_branch two_open 6 second 1 (pos 1000) (some 3) none
    ≡ err already_open_by_you
unfolding open_register pick_counter is_elsewhere claim_counter
open_run_again = refl

Reaches-HasNoClash_example : HasNoClash two_open.registers
Reaches-HasNoClash_example =
    Reaches-HasNoClash sample_tables two_open (tt, tt)
      (after sample_tables sample_tables two_open (here sample_tables) (
        opened online sample_branch sample_tables two_open 5 second 1 (pos 1000) (some 3) none row_5
          open_run))

abbrev where_5 : ClosingWhere
where_5 = record { id = 5; user_id = some 8; branch_id = some 1 }

abbrev closing_cash : RegisterCash
closing_cash = register_cash online two_open sample_drawer 5 1000

abbrev closed_5 : RegisterSession
closed_5 = closed_row closing_cash (some (pos 900)) 7 row_5

abbrev closed_tables : Tables
closed_tables = record sample_tables { registers = closed_5 ∷ sample_tables.registers }

close_run :
    close_open_register online two_open sample_drawer where_5 (some (pos 900)) 7
    ≡ ok (closed_tables, closed_5, closing_cash)
unfolding close_open_register
close_run = refl

abbrev on_5 : SessionUser
on_5 = record { user_id = 8; branch_id = some 1; register_id = some 5 }

close_open_register-refused_example : assert_register_open closed_tables on_5 ≡ err register_closed
close_open_register-refused_example =
    (close_open_register-refused online two_open sample_drawer where_5 where_5 (some (pos 900)) none
      7 8 on_5 (closed_tables, closed_5, closing_cash) close_run refl refl).0

abbrev sample_customer : WalletCustomer
sample_customer = record { customer_id = 5; branch_id = 1 }

abbrev topped_up_tables : Tables
topped_up_tables = record sample_tables {
  wallets = put sample_tables.wallets 5 (some 5500);
  wallet_txns = topup_row cashier sample_customer 1500 PaymentMode.cash ∷ [];
}

topup_run :
    topup_wallet online sample_tables shared cashier 1 sample_customer 1500 PaymentMode.cash
    ≡ ok topped_up_tables
unfolding topup_wallet find_usable_wallet assert_register_open
topup_run = refl

topup_wallet-IsToppedUp_example :
    IsToppedUp online sample_tables topped_up_tables sample_drawer sample_customer 1500
      PaymentMode.cash 4 50_000
topup_wallet-IsToppedUp_example =
    topup_wallet-IsToppedUp online sample_tables topped_up_tables sample_drawer shared cashier 1
      1500 4 50_000 sample_customer PaymentMode.cash refl topup_run
