-- ===== src/Customers/Wallets.antt =====
-- A wallet and `registerCash` before and after a top-up.
use pointofsale.Base.{
  ℕ, ◌+◌, ◌≡◌, refl, subst, not, some, ◌∷◌, if◌then◌else◌, ok, >>=-ok, guard, ok_injective, put,
  pos, ◌+ℤ◌, arith, Bool-cases, inl, inr,
}
use pointofsale.Shop.{
  offline_wallet, user_not_found, not_a_topup_mode, PaymentMode, is_cash, is_wallet, SessionUser,
  Tables, PosEnv, is_fallback, assert_register_open,
}
use pointofsale.Drawer.{DrawerRows, register_cash, taken, taken_by_mode, topups, same_mode}
use pointofsale.Sales.Settlement.Laws.{balance_of}
use pointofsale.Customers.{
  CustomerScope, WalletCustomer, find_usable_wallet, topup_row, topup_wallet,
}

find_usable_wallet-ok :
    (t : Tables) (scope : CustomerScope) (c : WalletCustomer) (branch balance : ℕ)
    → find_usable_wallet t scope c branch ≡ ok balance
    → balance_of t c.customer_id ≡ balance
unfolding find_usable_wallet balance_of
find_usable_wallet-ok t scope c branch balance h = ground arith

-- The tables of a top-up that is not refused.
abbrev topped_up : Tables → SessionUser → WalletCustomer → ℕ → PaymentMode → ℕ → Tables
topped_up t s c amount mode balance = record t {
  wallets = put t.wallets c.customer_id (some (balance + amount));
  wallet_txns = topup_row s c amount mode ∷ t.wallet_txns;
}

-- What a top-up does to a wallet and to the cash of the register it is taken on.
abbrev pub IsToppedUp :
    PosEnv → Tables → Tables → DrawerRows → WalletCustomer → ℕ → PaymentMode → ℕ → ℕ → Type 0
IsToppedUp env t t' d c amount mode register opening =
    let before = register_cash env t d register opening in
    let after = register_cash env t' d register opening in
    (balance_of t' c.customer_id ≡ balance_of t c.customer_id + amount)
    × (after.expected_cash ≡ before.expected_cash +ℤ pos (if is_cash mode then amount else 0))
    × (after.cash_sales ≡ before.cash_sales)
    × (after.card_sales
        ≡ before.card_sales + (if same_mode PaymentMode.card mode then amount else 0))
    × (after.upi_sales ≡ before.upi_sales + (if same_mode PaymentMode.upi mode then amount else 0))

topups-new :
    (t : Tables) (s : SessionUser) (c : WalletCustomer) (amount balance register : ℕ)
    (mode m : PaymentMode)
    → s.register_id ≡ some register
    → topups (topped_up t s c amount mode balance) register m
      ≡ (if same_mode m mode then amount else 0) + topups t register m
unfolding topups
topups-new t s c amount balance register mode m on = elim (Bool-cases (same_mode m mode)) [
  | inl e ↦ simp on (ground (arith, e))
  | inr e ↦ simp on (ground (arith, e))
]

topped_up-IsToppedUp :
    (env : PosEnv) (t : Tables) (d : DrawerRows) (s : SessionUser) (c : WalletCustomer)
    (amount balance register opening : ℕ) (mode : PaymentMode)
    → s.register_id ≡ some register
    → balance_of t c.customer_id ≡ balance
    → IsToppedUp env t (topped_up t s c amount mode balance) d c amount mode register opening
unfolding register_cash taken taken_by_mode balance_of ◌+ℤ◌
topped_up-IsToppedUp env t d s c amount balance register opening mode on had =
    let cash_up = topups-new t s c amount balance register mode PaymentMode.cash on in
    let card_up = topups-new t s c amount balance register mode PaymentMode.card on in
    let upi_up = topups-new t s c amount balance register mode PaymentMode.upi on in
    (
      ground (arith, had),
      ground (arith, cash_up),
      refl,
      omega (arith, card_up),
      omega (arith, upi_up),
    )

-- A top-up that is not refused adds its amount to the customer's wallet, and to what its register has
-- taken: in cash to the cash that is expected, by card or UPI to those takings; sales in cash stay.
pub topup_wallet-IsToppedUp :
    (env : PosEnv) (t t' : Tables) (d : DrawerRows) (scope : CustomerScope) (s : SessionUser)
    (branch amount register opening : ℕ) (c : WalletCustomer) (mode : PaymentMode)
    → s.register_id ≡ some register
    → topup_wallet env t scope s branch c amount mode ≡ ok t'
    → IsToppedUp env t t' d c amount mode register opening
unfolding topup_wallet
topup_wallet-IsToppedUp env t t' d scope s branch amount register opening c mode on h =
    let (u1, e1, h1) = >>=-ok (guard (not (is_fallback env)) offline_wallet) _ h in
    let (u2, e2, h2) = >>=-ok (guard (not (is_wallet mode)) not_a_topup_mode) _ h1 in
    let (counter, e3, h3) = >>=-ok (assert_register_open t s) _ h2 in
    let (balance, e4, h4) = >>=-ok (find_usable_wallet t scope c branch) _ h3 in
    let (u5, e5, h5) = >>=-ok (guard (t.users s.user_id) user_not_found) _ h4 in
    let made : topped_up t s c amount mode balance ≡ t' = ok_injective _ t' h5 in
    subst (λ x. IsToppedUp env t x d c amount mode register opening) made
      (topped_up-IsToppedUp env t d s c amount balance register opening mode on
        (find_usable_wallet-ok t scope c branch balance e4))
