-- ===== src/Tests/LedgerTests.antt =====
-- apps/api/src/suppliers at concrete inputs; money in paise.
use pointofsale.Base.{
  ◌+◌, ◌-◌, ◌≡◌, refl, true, false, none, some, [], ◌∷◌, sum_by, sub_ℕ, sort, insert,
}
use pointofsale.Suppliers.Ledger.{
  LedgerInput, supplier_ledger, counted, movements, run_balance, by_time, returned_by_purchase,
  first_credit, by_bill_date, bills_of, open_bills,
}
use pointofsale.Suppliers.Ledger.Bills.{
  outstanding_of, sent_back, paid_in, owed_by, beyond, supplier_ledger-outstanding,
}
use pointofsale.Suppliers.Ledger.Balance.{supplier_ledger-balance}

-- Three bills, the first of which counts as paid; more of the second is sent back than it comes to.
abbrev sample_account : LedgerInput
sample_account = record {
  purchases =
      record {
        id = 1;
        date = 20_260_401;
        due_date = none;
        grand_total = 9000;
        created_at = 1;
        settled_before_accounts = true;
      }
      ∷ record {
        id = 3;
        date = 20_260_601;
        due_date = some 20_260_701;
        grand_total = 7000;
        created_at = 6;
        settled_before_accounts = false;
      }
      ∷ record {
        id = 2;
        date = 20_260_501;
        due_date = some 20_260_601;
        grand_total = 5000;
        created_at = 5;
        settled_before_accounts = false;
      }
      ∷ [];
  returns =
      record { id = 11; purchase_id = 2; total_amount = 5500; created_at = 8 }
      ∷ record { id = 12; purchase_id = 1; total_amount = 300; created_at = 9 }
      ∷ [];
  payments = record { id = 21; amount = 1200; created_at = 7 } ∷ [];
  today = 20_261_126;
}

account_run : outstanding_of (supplier_ledger sample_account).bills ≡ 5000
unfolding supplier_ledger counted movements run_balance by_time returned_by_purchase first_credit
    by_bill_date bills_of open_bills sort insert
account_run = refl

supplier_ledger-outstanding_example :
    outstanding_of (supplier_ledger sample_account).bills
    ≡ owed_by (sent_back sample_account) (counted sample_account)
      - (paid_in sample_account + beyond (sent_back sample_account) (counted sample_account))
unfolding counted
supplier_ledger-outstanding_example = (supplier_ledger-outstanding sample_account).0

supplier_ledger-balance_example :
    (supplier_ledger sample_account).balance
    ≡ sub_ℕ (sum_by (λ p. p.grand_total) (counted sample_account)) (5500 + (300 + 0) + (1200 + 0))
supplier_ledger-balance_example = supplier_ledger-balance sample_account
