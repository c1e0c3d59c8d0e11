-- ===== src/Customers.antt =====
-- apps/api/src/customers/customers.service.ts: topping up a customer's wallet. The
-- text of the reference is left out.
pub mod Wallets
use pointofsale.Base.{
  ℕ, ◌+◌, ◌-◌, Bool, true, false, not, ◌&&◌, ◌||◌, Option, none, some, List, [], ◌∷◌, leb, ◌==◌,
  if◌then◌else◌, Result, ok, err, ◌>>=◌, ◌>>◌, found, guard, put, ℤ, pos_part, neg_part,
}
use pointofsale.Shop.{
  Refusal, offline_wallet, wallet_not_found, walk_in_has_no_wallet, user_not_found,
  not_a_topup_mode, PaymentMode, is_wallet, topup, SessionUser, WalletTxn, Tables, PosEnv,
  is_fallback, assert_register_open,
}

-- Whose customers a branch may use.
pub data CustomerScope : Type 0 where
  shared per_branch : CustomerScope

pub record WalletCustomer : Type 0 where
  pub customer_id : ℕ
  pub branch_id : ℕ

-- `customerUsableAt`: a walk-in customer is its branch's own.
abbrev pub customer_usable_at : Bool → WalletCustomer → ℕ → CustomerScope → Bool
customer_usable_at is_walk_in c branch shared = not is_walk_in || (c.branch_id == branch)
customer_usable_at is_walk_in c branch per_branch = c.branch_id == branch

-- The balance of the customer's wallet, if this branch may use the customer.
unfoldable pub find_usable_wallet : Tables → CustomerScope → WalletCustomer → ℕ → Result Refusal ℕ
find_usable_wallet t scope c branch = do
  balance ← found (t.wallets c.customer_id) wallet_not_found
  guard (customer_usable_at (t.is_walk_in c.customer_id) c branch scope) wallet_not_found
  guard (not (t.is_walk_in c.customer_id)) walk_in_has_no_wallet
  ok balance

abbrev pub topup_row : SessionUser → WalletCustomer → ℕ → PaymentMode → WalletTxn
topup_row s c amount mode = record {
  customer_id = c.customer_id;
  kind = topup;
  amount = amount;
  reference_id = 0;
  created_by = s.user_id;
  register_session_id = s.register_id;
  payment_mode = some mode;
}

unfoldable pub topup_wallet :
    PosEnv
    → Tables
    → CustomerScope
    → SessionUser
    → ℕ
    → WalletCustomer
    → ℕ
    → PaymentMode
    → Result Refusal Tables
topup_wallet env t scope s branch c amount mode = do
  guard (not (is_fallback env)) offline_wallet
  guard (not (is_wallet mode)) not_a_topup_mode
  counter ← assert_register_open t s
  balance ← find_usable_wallet t scope c branch
  guard (t.users s.user_id) user_not_found
  ok (record t {
    wallets = put t.wallets c.customer_id (some (balance + amount));
    wallet_txns = topup_row s c amount mode ∷ t.wallet_txns;
  })
