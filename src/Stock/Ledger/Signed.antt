-- ===== src/Stock/Ledger/Signed.antt =====
-- Sums of entries that all come in, or all go out.
use pointofsale.Base.{
  ℕ, ◌+◌, ◌≡◌, refl, sym, ap, Bool, true, false, List, [], ◌∷◌, map, if◌then◌else◌, sum_by, ℤ, pos,
  ◌+ℤ◌, ◌-ℤ◌, +ℤ_parts, -ℤ_parts, eq_of_parts, zero_+ℤ, arith, ◌∙◌,
}
use pointofsale.Stock.Batches.{BatchShare, total_qty}
use pointofsale.Stock.Ledger.{StockDirection, stock_in, stock_out, StockEntry, is_key, item_key}
use pointofsale.Stock.Ledger.Sums.{net_moved, entries_sum, of_key, item_sum}

-- What comes in, or goes out.
abbrev pub signed : StockDirection → ℕ → ℤ
signed stock_in qty = pos qty
signed stock_out qty = pos 0 -ℤ pos qty

pub signed_zero : (dir : StockDirection) → signed dir 0 ≡ pos 0
signed_zero stock_in = refl
signed_zero stock_out = eq_of_parts _ _ (omega (arith, -ℤ_parts (pos 0) (pos 0)))

pub signed_add :
    (dir : StockDirection) (m n : ℕ) → signed dir m +ℤ signed dir n ≡ signed dir (m + n)
signed_add stock_in m n = eq_of_parts _ _ (omega (arith, +ℤ_parts (pos m) (pos n)))
signed_add stock_out m n = eq_of_parts _ _ (
    omega (
      arith,
      -ℤ_parts (pos 0) (pos m),
      -ℤ_parts (pos 0) (pos n),
      -ℤ_parts (pos 0) (pos (m + n)),
      +ℤ_parts (pos 0 -ℤ pos m) (pos 0 -ℤ pos n),
    ))

pub moved_in : (n : ℕ) → (pos 0 +ℤ pos n) -ℤ pos 0 ≡ pos n
moved_in n =
    eq_of_parts _ _ (omega (arith, +ℤ_parts (pos 0) (pos n), -ℤ_parts (pos 0 +ℤ pos n) (pos 0)))

pub moved_out : (n : ℕ) → (pos 0 +ℤ pos 0) -ℤ pos n ≡ pos 0 -ℤ pos n
moved_out n = ap (λ z. z -ℤ pos n) (zero_+ℤ (pos 0))

-- What goes out, put back.
pub out_and_in : (a : ℤ) (n : ℕ) → (a +ℤ signed stock_out n) +ℤ signed stock_in n ≡ a
out_and_in a n = eq_of_parts _ _ (
    omega (
      arith,
      -ℤ_parts (pos 0) (pos n),
      +ℤ_parts a (pos 0 -ℤ pos n),
      +ℤ_parts (a +ℤ (pos 0 -ℤ pos n)) (pos n),
    ))

pub signed-if :
    (dir : StockDirection) (p : Bool) (n : ℕ)
    → (if p then signed dir n else pos 0) ≡ signed dir (if p then n else 0)
signed-if dir true n = refl
signed-if dir false n = sym (signed_zero dir)

-- The shares that count, as one quantity.
pub entries_sum-signed :
    (f : BatchShare → StockEntry) (dir : StockDirection)
    (each : (x : BatchShare) → net_moved (f x) ≡ signed dir x.qty) (q : StockEntry → Bool)
    (shares : List BatchShare)
    → entries_sum q (map f shares) ≡ signed dir (sum_by (λ x. if q (f x) then x.qty else 0) shares)
entries_sum-signed f dir each q [] = sym (signed_zero dir)
entries_sum-signed f dir each q (x ∷ xs) =
    let rest = sum_by (λ y. if q (f y) then y.qty else 0) xs in
    rw (each x, signed-if dir (q (f x)) x.qty, entries_sum-signed f dir each q xs)
      (signed_add dir (if q (f x) then x.qty else 0) rest)

pub sum_by-const :
    (p : BatchShare → Bool) (c : Bool) (same : (x : BatchShare) → p x ≡ c)
    (shares : List BatchShare)
    → sum_by (λ (x : BatchShare). if p x then x.qty else 0) shares
      ≡ (if c then total_qty shares else 0)
sum_by-const p true same [] = refl
sum_by-const p false same [] = refl
sum_by-const p true same (x ∷ xs) = rw (same x, sum_by-const p true same xs) refl
sum_by-const p false same (x ∷ xs) = rw (same x, sum_by-const p false same xs) refl

-- Entries of one item at one branch move it by what they come to.
pub item_sum-signed :
    (f : BatchShare → StockEntry) (dir : StockDirection) (branch item : ℕ)
    (at : (x : BatchShare) → (f x).branch_id ≡ branch)
    (of : (x : BatchShare) → (f x).item_id ≡ item)
    (each : (x : BatchShare) → net_moved (f x) ≡ signed dir x.qty) (shares : List BatchShare)
    (b i : ℕ)
    → item_sum (map f shares) b i
      ≡ (if is_key b i branch item then signed dir (total_qty shares) else pos 0)
unfolding item_sum
item_sum-signed f dir branch item at of each shares b i =
    let here = is_key b i branch item in
    entries_sum-signed f dir each (of_key item_key b i) shares
    ∙ (ap (signed dir)
          (sum_by-const (λ x. of_key item_key b i (f x)) here (λ x. rw (at x, of x) refl) shares)
        ∙ sym (signed-if dir here (total_qty shares)))
