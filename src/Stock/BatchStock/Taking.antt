-- ===== src/Stock/BatchStock/Taking.antt =====
-- What `takeFromBatches` answers for an item.
use pointofsale.Base.{
  ℕ, ◌≤◌, ◌<◌, ◌≡◌, refl, Bool, true, false, not, ◌&&◌, ◌||◌, leb, none, List, [], ◌∷◌, ltb,
  sum_by-append, Result, ok, err, arith, Bool-cases, inl, inr,
}
use pointofsale.Stock.Batches.{BatchShare, PickInput, pick_batches, total_qty}
use pointofsale.Stock.Batches.Pick.{available, pick_batches-sum}
use pointofsale.Stock.BatchStock.{
  StockRefusal, only_expired_left, insufficient_stock, ItemStock, TakeOptions, pick_input,
  take_picked, take_item,
}

-- What the answer promises, for what may be sold and what has expired.
abbrev pub IsTaken : PickInput → ℕ → Bool → Result StockRefusal (List BatchShare) → Type 0
IsTaken i qty allow_short (ok shares) =
    (total_qty shares ≡ qty) × ((allow_short || leb qty (available i)) ≡ true)
IsTaken i qty allow_short (err (only_expired_left sold)) =
    (sold ≡ available i) × (available i < qty) × (1 ≤ (pick_batches i).expired)
IsTaken i qty allow_short (err (insufficient_stock sold)) =
    (sold ≡ available i) × (available i < qty) × (allow_short ≡ false)

-- What is taken of an item comes to what is wanted, and unless selling past the stock is allowed there
-- is that much; a refusal names what is available, which is less than what is wanted, and either some
-- stock has expired or selling past the stock is not allowed.
pub take_item-IsTaken :
    (s : ItemStock) (qty : ℕ) (o : TakeOptions)
    → IsTaken (pick_input s qty o) qty o.allow_short (take_item s qty o)
unfolding take_item take_picked
take_item-IsTaken s qty o =
    let i = pick_input s qty o in
    let (sum_taken, short) = pick_batches-sum i in
    let picked = pick_batches i in
    elim (Bool-cases (ltb 0 picked.short)) [
      | inl more ↦
          elim (Bool-cases
            (ltb 0 picked.expired && not (o.allow_short && ltb picked.expired picked.short))) [
              | inl old ↦
                  rw (more, old)
                    (ground (arith, more, short), ground (arith, more, short), ground (arith, old))
              | inr fresh ↦ elim (Bool-cases o.allow_short) [
                | inl allowed ↦
                    rw (more, fresh)
                      (simp allowed (
                        omega (
                          arith,
                          sum_by-append (λ (x : BatchShare). x.qty) picked.taken
                              (record { batch_id = none; qty = picked.short } ∷ []),
                          sum_taken,
                        ),
                        refl,
                      ))
                | inr strict ↦
                    rw (more, fresh)
                      (simp strict (ground (arith, more, short), ground (arith, more, short), refl))
              ]
            ]
      | inr enough ↦ rw enough (ground (arith, enough, sum_taken), ground (arith, enough, short))
    ]
