-- ===== src/Tests/SalesTests.antt =====
-- apps/api/src/sales at concrete inputs; money in paise.
use pointofsale.Base.{◌+◌, ◌≡◌, refl, some, ok, arith}
use pointofsale.Shop.{next_receipt, assert_register_open, receipt_for}
use pointofsale.Sales.Settlement.{
  settle_sale_in_tx, invoice_due, paid_invoice, check_payments, pay_total, wallet_total,
  debit_wallet, credit_excess, check_amounts, record_payments, settle_invoice, replay_or_settle,
}
use pointofsale.Sales.Settlement.Laws.{balance_of}
use pointofsale.Sales.Settlement.Money.{settle_sale_in_tx-money}
use pointofsale.Sales.Settlement.Replay.{settle_sale_in_tx-replay}
use pointofsale.Tests.SaleSamples.{
  online, cashier, sample_bill, sample_tables, sample_payments, sample_fingerprint, sample_settled,
}

pub settle_run :
    settle_sale_in_tx sample_fingerprint online sample_tables cashier 77 sample_payments (some 3)
    ≡ ok sample_settled
unfolding settle_sale_in_tx invoice_due paid_invoice check_payments pay_total wallet_total
    debit_wallet credit_excess check_amounts record_payments settle_invoice replay_or_settle
    next_receipt receipt_for assert_register_open
settle_run = refl

settle_sale_in_tx-replay_example :
    settle_sale_in_tx sample_fingerprint online sample_settled.tables cashier 77 sample_payments
      (some 3)
    ≡ ok sample_settled
settle_sale_in_tx-replay_example =
    settle_sale_in_tx-replay sample_fingerprint online sample_tables cashier sample_bill
      sample_payments 3 sample_settled refl settle_run

settle_sale_in_tx-money_example :
    sample_settled.invoice.paid_total
      + balance_of sample_settled.tables 5
      + wallet_total sample_payments
    ≡ 2000 + balance_of sample_tables 5 + pay_total sample_payments
settle_sale_in_tx-money_example =
    (settle_sale_in_tx-money sample_fingerprint online sample_tables cashier 77 sample_payments
      (some 3) sample_bill sample_settled refl refl (omega arith) settle_run).0
