-- ===== src/Stock/Batches/PutBack.antt =====
-- Where `putBack` puts what comes back.
use Prim.Native.Nat.{min}
use pointofsale.Base.{
  ℕ, ◌+◌, ◌-◌, ◌≤◌, ◌≡◌, refl, true, Option, none, some, List, [], ◌∷◌, ◌++◌, if◌then◌else◌, sum_by,
  sum_by-append, arith, Bool-cases, inl, inr,
}
use pointofsale.Stock.Batches.{
  BatchShare, total_qty, uncovered, same_batch, ReturnedTo, put_returned, returned_to,
  put_back_loop, put_back,
}

-- The quantity of a batch (or of the stock without one) among shares.
pub qty_of : Option ℕ → List BatchShare → ℕ
qty_of b = sum_by (λ s. if same_batch b s.batch_id then s.qty else 0)

qty_of-append :
    (b : Option ℕ) (xs ys : List BatchShare) → qty_of b (xs ++ ys) ≡ qty_of b xs + qty_of b ys
unfolding qty_of
qty_of-append b xs ys = sum_by-append _ xs ys

put_back_loop-sum :
    (out : List BatchShare) (r : ReturnedTo) (left : ℕ)
    → let (shares, rest) = put_back_loop out r left in total_qty shares + rest ≡ left
unfolding put_back_loop
put_back_loop-sum [] r left = omega arith
put_back_loop-sum (s ∷ out) r left =
    let r' = put_returned r s.batch_id (r s.batch_id - s.qty) in
    ground (
      arith,
      put_back_loop-sum out r' left,
      put_back_loop-sum out r' (left - min left (s.qty - r s.batch_id)),
    )

same_batch_eq : (a b : Option ℕ) → same_batch a b ≡ true → a ≡ b
same_batch_eq none none h = refl
same_batch_eq none (some b) h = ground arith
same_batch_eq (some a) none h = ground arith
same_batch_eq (some a) (some b) h = ground arith

put_back_loop-qty_of :
    (b : Option ℕ) (out : List BatchShare) (r : ReturnedTo) (left : ℕ)
    → qty_of b (put_back_loop out r left).0 ≤ qty_of b out - r b
unfolding put_back_loop qty_of
put_back_loop-qty_of b [] r left = omega arith
put_back_loop-qty_of b (s ∷ out) r left =
    let r' = put_returned r s.batch_id (r s.batch_id - s.qty) in
    elim (Bool-cases (same_batch b s.batch_id)) [
      | inl same ↦
          let e = same_batch_eq b s.batch_id same in
          ground (
            arith,
            e,
            put_back_loop-qty_of b out r' left,
            put_back_loop-qty_of b out r' (left - min left (s.qty - r s.batch_id)),
          )
      | inr other ↦ ground (
        arith,
        put_back_loop-qty_of b out r' left,
        put_back_loop-qty_of b out r' (left - min left (s.qty - r s.batch_id)),
      )
    ]

returned_to-qty_of :
    (b : Option ℕ) (back : List BatchShare) (r : ReturnedTo)
    → returned_to r back b ≡ r b + qty_of b back
unfolding returned_to qty_of
returned_to-qty_of b [] r = omega arith
returned_to-qty_of b (s ∷ back) r =
    let r' = put_returned r s.batch_id (r s.batch_id + s.qty) in
    elim (Bool-cases (same_batch b s.batch_id)) [
      | inl same ↦
          let e = same_batch_eq b s.batch_id same in ground (arith, e, returned_to-qty_of b back r')
      | inr other ↦ ground (arith, returned_to-qty_of b back r')
    ]

uncovered_unbatched : (batch left : ℕ) → qty_of (some batch) (uncovered left) ≡ 0
unfolding qty_of
uncovered_unbatched batch left = ground arith

-- Everything that comes back is put somewhere, and a batch is put back no more than it sent out less
-- what had already come back to it.
pub put_back_bounds :
    (out back : List BatchShare) (qty batch : ℕ)
    → (total_qty (put_back out back qty) ≡ qty)
      × (qty_of (some batch) (put_back out back qty)
          ≤ qty_of (some batch) out - qty_of (some batch) back)
unfolding put_back
put_back_bounds out back qty batch =
    let r = returned_to (λ _. 0) back in
    let done = put_back_loop out r qty in
    let joined = sum_by-append (λ (s : BatchShare). s.qty) done.0 (uncovered done.1) in
    let placed = put_back_loop-sum out r qty in
    (
      ground (arith, joined, placed),
      omega (
        arith,
        qty_of-append (some batch) done.0 (uncovered done.1),
        uncovered_unbatched batch done.1,
        put_back_loop-qty_of (some batch) out r qty,
        returned_to-qty_of (some batch) back (λ _. 0),
      ),
    )
