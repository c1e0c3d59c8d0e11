-- ===== src/Tests/SaleSamples.antt =====
-- A bill, its branch's tables and payments, for the tests of sales and registers.
use pointofsale.Base.{
  ℕ, false, none, some, List, [], ◌∷◌, map, put, true, if◌then◌else◌, ◌==◌, sum_by,
}
use pointofsale.Shop.{
  of_branch, Receipt, cash, wallet, partially_settled, SessionUser, Invoice, Tables, PosEnv,
}
use pointofsale.Sales.Settlement.{PaymentInput, Settled, paid_invoice, payment_row, wallet_txn}

abbrev pub online : PosEnv
online = record { is_offline = false; pos_fallback = false; fallback_counter_id = none }

abbrev pub cashier : SessionUser
cashier = record { user_id = 9; branch_id = some 1; register_id = some 4 }

-- 100.00, of which 20.00 is paid.
abbrev pub sample_bill : Invoice
sample_bill = record {
  id = 77;
  branch_id = 1;
  customer_id = 5;
  status = partially_settled;
  grand_total = 10_000;
  paid_total = 2000;
  credited_total = 0;
}

abbrev pub sample_tables : Tables
sample_tables = record {
  invoices = λ id. if id == 77 then some sample_bill else none;
  is_walk_in = λ customer. customer == 1;
  wallets = λ customer. if customer == 5 then some 4000 else none;
  users = λ user. user == 9;
  wallet_txns = [];
  payments = [];
  receipts = [];
  receipt_seq = λ branch. 12;
  fallback_receipt_seq = λ counter. 0;
  registers =
      record {
        id = 4;
        user_id = 9;
        branch_id = 1;
        counter_id = 2;
        opening_balance = 50_000;
        closing_balance = none;
        expected_cash = none;
        cash_difference = none;
        closed_at = none;
      }
      ∷ [];
}

-- 30.00 from the wallet and 60.00 in cash, of which 10.00 goes to the wallet.
abbrev pub sample_payments : List PaymentInput
sample_payments =
    record { mode = wallet; amount = 3000; tendered = none; reference = none }
    ∷ record { mode = cash; amount = 6000; tendered = some 10_000; reference = none }
    ∷ []

-- A digest for the tests.
abbrev pub sample_fingerprint : List PaymentInput → ℕ
sample_fingerprint = sum_by (λ p. p.amount)

abbrev pub sample_receipt : Receipt
sample_receipt = record {
  series = of_branch 1;
  seq = 13;
  invoice_id = 77;
  amount = 9000;
  idempotency_key = some 3;
  request_fingerprint = some 9000;
  settlement_user_id = some 9;
}

abbrev pub sample_settled : Settled
sample_settled = record {
  tables = record sample_tables {
    invoices = put sample_tables.invoices 77 (some (paid_invoice sample_bill 8000));
    wallets = put (put sample_tables.wallets 5 (some 1000)) 5 (some 2000);
    wallet_txns = wallet_txn sample_bill 1000 false 9 ∷ wallet_txn sample_bill 3000 true 9 ∷ [];
    payments = map (payment_row cashier sample_bill) sample_payments;
    receipts = sample_receipt ∷ [];
    receipt_seq = put sample_tables.receipt_seq 1 13;
  };
  invoice = paid_invoice sample_bill 8000;
  receipt = sample_receipt;
}
