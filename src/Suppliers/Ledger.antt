-- ===== src/Suppliers/Ledger.antt =====
-- apps/api/src/suppliers/supplier-ledger.ts: `supplierLedger`. Money is paise, a date a number
-- yyyymmdd, and an id a number in the order of `localeCompare`; the texts that only name a row for a
-- reader are left out.
pub mod Bills
pub mod Balance
use Prim.Native.Nat.{min}
use pointofsale.Base.{
  ℕ, ◌+◌, ◌-◌, Bool, true, false, not, ◌&&◌, ◌||◌, Option, none, some, List, [], ◌∷◌, ◌++◌, map,
  ltb, leb, ◌==◌, if◌then◌else◌, filter, sum_by, sort, ℤ, pos, ◌+ℤ◌, sub_ℕ, pos_part, neg_part,
}

pub record LedgerPurchase : Type 0 where
  pub id : ℕ
  pub date : ℕ
  pub due_date : Option ℕ
  pub grand_total : ℕ
  pub created_at : ℕ
  pub settled_before_accounts : Bool

pub record LedgerReturn : Type 0 where
  pub id : ℕ
  pub purchase_id : ℕ
  pub total_amount : ℕ
  pub created_at : ℕ

pub record LedgerPayment : Type 0 where
  pub id : ℕ
  pub amount : ℕ
  pub created_at : ℕ

pub record LedgerInput : Type 0 where
  pub purchases : List LedgerPurchase
  pub returns : List LedgerReturn
  pub payments : List LedgerPayment
  pub today : ℕ

unfoldable pub counted : LedgerInput → List LedgerPurchase
counted i = filter (λ p. not p.settled_before_accounts) i.purchases

pub data MovementKind : Type 0 where
  purchase return_goods payment : MovementKind

pub record Movement : Type 0 where
  pub kind : MovementKind
  pub id : ℕ
  pub at : ℕ
  pub change : ℤ

abbrev pub purchase_movement : LedgerPurchase → Movement
purchase_movement p = record {
  kind = purchase;
  id = p.id;
  at = p.created_at;
  change = pos p.grand_total;
}

abbrev pub return_movement : LedgerReturn → Movement
return_movement r = record {
  kind = return_goods;
  id = r.id;
  at = r.created_at;
  change = sub_ℕ 0 r.total_amount;
}

abbrev pub payment_movement : LedgerPayment → Movement
payment_movement p = record {
  kind = payment;
  id = p.id;
  at = p.created_at;
  change = sub_ℕ 0 p.amount;
}

-- By time, then by id.
unfoldable pub by_time : Movement → Movement → Bool
by_time a b = ltb a.at b.at || ((a.at == b.at) && leb a.id b.id)

unfoldable pub movements : LedgerInput → List Movement
movements i = sort by_time (
    map purchase_movement (counted i)
    ++ (map return_movement i.returns ++ map payment_movement i.payments))

pub record LedgerEntry : Type 0 where
  pub kind : MovementKind
  pub id : ℕ
  pub amount : ℕ
  pub balance : ℤ

-- The entries with their running balance, and the balance at the end.
unfoldable pub run_balance : ℤ → List Movement → List LedgerEntry × ℤ
run_balance balance [] = ([], balance)
run_balance balance (m ∷ ms) =
    let next = balance +ℤ m.change in
    let rest = run_balance next ms in
    let entry : LedgerEntry = record {
      kind = m.kind;
      id = m.id;
      amount = pos_part m.change + neg_part m.change;
      balance = next;
    } in
    (entry ∷ rest.0, rest.1)

-- The `Map` of what was returned of each purchase, in the order the purchases were first met.
abbrev pub add_returned : ℕ → ℕ → List (ℕ × ℕ) → List (ℕ × ℕ)
add_returned id amount [] = (id, amount) ∷ []
add_returned id amount (e ∷ es) =
    let rest = add_returned id amount es in if e.0 == id then (id, e.1 + amount) ∷ es else e ∷ rest

unfoldable pub returned_by_purchase : List (ℕ × ℕ) → List LedgerReturn → List (ℕ × ℕ)
returned_by_purchase m [] = m
returned_by_purchase m (r ∷ rs) =
    returned_by_purchase (add_returned r.purchase_id r.total_amount m) rs

abbrev pub returned_of : ℕ → List (ℕ × ℕ) → ℕ
returned_of id [] = 0
returned_of id (e ∷ es) = if e.0 == id then e.1 else returned_of id es

abbrev pub is_settled_id : ℕ → List LedgerPurchase → Bool
is_settled_id id [] = false
is_settled_id id (p ∷ ps) = (p.settled_before_accounts && (p.id == id)) || is_settled_id id ps

-- The payments, and the returns of purchases that count as paid.
unfoldable pub first_credit : LedgerInput → ℕ
first_credit i =
    sum_by (λ p. p.amount) i.payments
    + sum_by (λ e. e.1)
        (filter (λ e. is_settled_id e.0 i.purchases) (returned_by_purchase [] i.returns))

-- By the bill's date, then by when it was recorded.
unfoldable pub by_bill_date : LedgerPurchase → LedgerPurchase → Bool
by_bill_date a b = ltb a.date b.date || ((a.date == b.date) && leb a.created_at b.created_at)

pub record Bill : Type 0 where
  pub purchase : LedgerPurchase
  pub owed : ℕ

abbrev pub bill_of : List (ℕ × ℕ) → LedgerPurchase → Bill
bill_of m p = record { purchase = p; owed = p.grand_total - returned_of p.id m }

-- What each bill still owes after its own returns; what was returned beyond that is credit.
unfoldable pub bills_of : List (ℕ × ℕ) → List LedgerPurchase → ℕ → List Bill × ℕ
bills_of m [] credit = ([], credit)
bills_of m (p ∷ ps) credit =
    let rest = bills_of m ps (credit + (returned_of p.id m - p.grand_total)) in
    (bill_of m p ∷ rest.0, rest.1)

pub record OpenBill : Type 0 where
  pub purchase_id : ℕ
  pub total : ℕ
  pub outstanding : ℕ
  pub overdue : Bool

abbrev pub is_overdue : Option ℕ → ℕ → Bool
is_overdue none today = false
is_overdue (some due) today = ltb due today

abbrev pub open_bill : ℕ → Bill → ℕ → OpenBill
open_bill today b outstanding = record {
  purchase_id = b.purchase.id;
  total = b.purchase.grand_total;
  outstanding = outstanding;
  overdue = is_overdue b.purchase.due_date today;
}

-- The loop over the bills: what credit is left pays the next bill.
unfoldable pub open_bills : ℕ → List Bill → ℕ → List OpenBill
open_bills today [] credit = []
open_bills today (b ∷ bs) credit =
    let paid = min credit b.owed in
    let rest = open_bills today bs (credit - paid) in
    let outstanding = b.owed - paid in
    if outstanding == 0 then rest else open_bill today b outstanding ∷ rest

pub record SupplierLedger : Type 0 where
  pub balance : ℤ
  pub overdue : ℕ
  pub bills : List OpenBill
  pub entries : List LedgerEntry

unfoldable pub supplier_ledger : LedgerInput → SupplierLedger
supplier_ledger i =
    let (entries, balance) = run_balance (pos 0) (movements i) in
    let (bills, credit) =
      bills_of (returned_by_purchase [] i.returns) (sort by_bill_date (counted i))
        (first_credit i) in
    let unpaid = open_bills i.today bills credit in
    record {
      balance = balance;
      overdue = sum_by (λ b. b.outstanding) (filter (λ b. b.overdue) unpaid);
      bills = unpaid;
      entries = entries;
    }
