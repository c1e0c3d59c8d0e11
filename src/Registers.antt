-- ===== src/Registers.antt =====
-- apps/api/src/registers/registers.service.ts: opening and closing a counter's register.
-- What a user enters is a signed number of paise. The rows of counters stand in a record of their own,
-- `BranchRows`.
pub mod Invariant
pub mod Closing
pub mod Takings
use pointofsale.Drawer.{
  CashMovementType, is_cash_in, Refund, PaidOut, CashMovement, FallbackRegisterBalance, DrawerRows,
  no_balance, is_of, same_mode, is_mode, is_topup, taken_by_mode, topups, taken, cash_refunded,
  paid_out, moved, balance_row, baseline, RegisterCash, with_expected, register_cash, cash_in,
  cash_out,
}
use pointofsale.Base.{
  ℕ, ◌+◌, ◌-◌, Bool, true, false, not, ◌&&◌, ◌||◌, Option, none, some, List, [], ◌∷◌, map, ltb, leb,
  ◌==◌, if◌then◌else◌, filter, sum_by, Result, ok, err, ◌>>=◌, ◌>>◌, found, guard, ℤ, pos, pos_part,
  sub_ℕ, ◌-ℤ◌, leb_ℤ,
}
use pointofsale.Shop.{
  Refusal, branch_not_found, no_branch_access, admin_required, negative_balance, counter_not_found,
  counter_inactive, no_active_counter, choose_counter, fallback_counter_elsewhere,
  already_open_by_you, counter_taken, open_register_not_found, PaymentMode, is_cash, WalletTxnType,
  topup, debit_sale, refund_return, adjustment, SessionUser, Payment, WalletTxn, RegisterSession,
  Tables, PosEnv, is_fallback, require_session_branch_id, require_session_register_id, find,
  is_open,
}

pub record Counter : Type 0 where
  pub id : ℕ
  pub branch_id : ℕ
  pub is_active : Bool
  pub fallback_device_id : Option ℕ

pub record BranchRows : Type 0 where
  pub is_branch : ℕ → Bool
  pub has_access : ℕ → ℕ → Bool
  pub counters : List Counter

-- Without a counter the choice must be unambiguous.
abbrev pub only_counter : List Counter → Result Refusal Counter
only_counter [] = err no_active_counter
only_counter (c ∷ []) = ok c
only_counter (c ∷ d ∷ cs) = err choose_counter

abbrev pub active_counter : Counter → Result Refusal Counter
active_counter c = if c.is_active then ok c else err counter_inactive

unfoldable pub pick_counter : BranchRows → ℕ → Option ℕ → Result Refusal Counter
pick_counter b branch none =
    only_counter (filter (λ c. (c.branch_id == branch) && c.is_active) b.counters)
pick_counter b branch (some id) =
    found (find (λ c. (c.id == id) && (c.branch_id == branch)) b.counters) counter_not_found
    >>= active_counter

-- A fallback counter opens only on its own computer (but means nothing in an offline install).
unfoldable pub is_elsewhere : PosEnv → Counter → Option ℕ → Bool
is_elsewhere env c device = elim c.fallback_device_id [
  | none ↦ false
  | some d ↦ not (is_of d device) && (not env.is_offline || is_fallback env)
]

abbrev pub is_mine : ℕ → ℕ → RegisterSession → Bool
is_mine branch user r = (r.branch_id == branch) && ((r.user_id == user) && is_open r)

abbrev pub is_on : ℕ → RegisterSession → Bool
is_on counter r = (r.counter_id == counter) && is_open r

abbrev pub is_none {ℓ} : {A : Type ℓ} → Option A → Bool
is_none none = true
is_none (some a) = false

abbrev pub new_register : ℕ → SessionUser → ℕ → Counter → ℕ → RegisterSession
new_register id s branch counter opening = record {
  id = id;
  user_id = s.user_id;
  branch_id = branch;
  counter_id = counter.id;
  opening_balance = opening;
  closing_balance = none;
  expected_cash = none;
  cash_difference = none;
  closed_at = none;
}

-- The user runs no other counter of the branch, and the counter is free: the new row is added.
unfoldable pub claim_counter :
    Tables → ℕ → SessionUser → ℕ → Counter → ℕ → Result Refusal (Tables × RegisterSession)
claim_counter t id s branch counter opening = do
  guard (is_none (find (is_mine branch s.user_id) t.registers)) already_open_by_you
  guard (is_none (find (is_on counter.id) t.registers)) counter_taken
  let row = new_register id s branch counter opening
  ok (record t { registers = row ∷ t.registers }, row)

-- `id` is the one that the database gives the new row.
unfoldable pub open_register :
    PosEnv
    → BranchRows
    → Tables
    → ℕ
    → SessionUser
    → ℕ
    → ℤ
    → Option ℕ
    → Option ℕ
    → Result Refusal (Tables × RegisterSession)
open_register env b t id s branch opening counter_id device = do
  guard (leb_ℤ (pos 0) opening) negative_balance
  guard (b.is_branch branch) branch_not_found
  guard (b.has_access s.user_id branch) no_branch_access
  counter ← pick_counter b branch counter_id
  guard (not (is_elsewhere env counter device)) fallback_counter_elsewhere
  claim_counter t id s branch counter (pos_part opening)

-- Which register to close: its id, and for one's own also the user and the branch.
pub record ClosingWhere : Type 0 where
  pub id : ℕ
  pub user_id : Option ℕ
  pub branch_id : Option ℕ

abbrev pub matches : Option ℕ → ℕ → Bool
matches none n = true
matches (some m) n = m == n

abbrev pub is_closing : ClosingWhere → RegisterSession → Bool
is_closing w r =
    (r.id == w.id)
    && (matches w.user_id r.user_id && (matches w.branch_id r.branch_id && is_open r))

-- The row as it is closed.
abbrev pub closed_row : RegisterCash → Option ℤ → ℕ → RegisterSession → RegisterSession
closed_row cash closing now r = record r {
  closing_balance = elim closing [ none ↦ none | some c ↦ some (pos_part c) ];
  expected_cash = some cash.expected_cash;
  cash_difference = elim closing [ none ↦ none | some c ↦ some (c -ℤ cash.expected_cash) ];
  closed_at = some now;
}

-- `update` of the row with an id.
abbrev pub update_row : ℕ → (RegisterSession → RegisterSession) → RegisterSession → RegisterSession
update_row id f r = if r.id == id then f r else r

unfoldable pub close_open_register :
    PosEnv
    → Tables
    → DrawerRows
    → ClosingWhere
    → Option ℤ
    → ℕ
    → Result Refusal (Tables × RegisterSession × RegisterCash)
close_open_register env t d w closing now = do
  register ← found (find (is_closing w) t.registers) open_register_not_found
  let cash = register_cash env t d register.id register.opening_balance
  let close = closed_row cash closing now
  ok (record t { registers = map (update_row register.id close) t.registers }, close register, cash)

unfoldable pub close_register :
    PosEnv
    → Tables
    → DrawerRows
    → SessionUser
    → ℤ
    → ℕ
    → Result Refusal (Tables × RegisterSession × RegisterCash)
close_register env t d s closing now = do
  guard (leb_ℤ (pos 0) closing) negative_balance
  register ← require_session_register_id s
  branch ← require_session_branch_id s
  close_open_register env t d
      (record { id = register; user_id = some s.user_id; branch_id = some branch }) (some closing)
      now

abbrev pub is_counted : Option ℤ → Bool
is_counted none = true
is_counted (some c) = leb_ℤ (pos 0) c

-- An admin closes a register that someone else left open; `is_admin` is the role of the session.
unfoldable pub close_register_for :
    PosEnv
    → BranchRows
    → Tables
    → DrawerRows
    → Bool
    → SessionUser
    → ℕ
    → Option ℤ
    → ℕ
    → Result Refusal (Tables × RegisterSession × RegisterCash)
close_register_for env b t d is_admin s register closing now = do
  guard is_admin admin_required
  guard (is_counted closing) negative_balance
  row ← found (find (λ r. r.id == register) t.registers) open_register_not_found
  guard (b.has_access s.user_id row.branch_id) no_branch_access
  close_open_register env t d (record { id = register; user_id = none; branch_id = none }) closing
      now

-- `getCurrentRegister`: the session's register, while it is open.
unfoldable pub get_current_register :
    PosEnv → Tables → DrawerRows → SessionUser → Option (RegisterSession × RegisterCash)
get_current_register env t d s = elim s.register_id [
  | none ↦ none
  | some id ↦
      elim (find (is_closing (record { id = id; user_id = some s.user_id; branch_id = none }))
        t.registers) [
          | none ↦ none
          | some r ↦ some (r, register_cash env t d r.id r.opening_balance)
        ]
]
