-- ===== src/Pricing/Refund/Laws.antt =====
-- `returnLineAmounts` over the returns of a line.
use pointofsale.Base.{ℕ, ◌+◌, ◌≤◌, ◌<◌, ◌≡◌, List, [], ◌∷◌, sum, All, arith}
use pointofsale.Pricing.Refund.{
  GstAmounts, no_amounts, total_of, add_amounts, ReturnInput, remaining_parts, prorated_parts,
  return_parts, return_line_amounts,
}

-- Part by part no more.
pub record IsWithin (a b : GstAmounts) : Type 0 where
  pub taxable_le : a.taxable ≤ b.taxable
  pub cgst_le : a.cgst ≤ b.cgst
  pub sgst_le : a.sgst ≤ b.sgst
  pub igst_le : a.igst ≤ b.igst

-- What is returned never exceeds, part by part, what the line has left, and the refund is the taxable
-- value and the tax of the parts.
pub return_line_amounts-IsWithin :
    (i : ReturnInput)
    → IsWithin i.already_returned i.line
    → let r = return_line_amounts i in
      IsWithin (add_amounts i.already_returned r.parts) i.line
      × (r.tax ≡ r.parts.cgst + r.parts.sgst + r.parts.igst)
      × (r.amount ≡ total_of r.parts)
unfolding return_line_amounts return_parts remaining_parts prorated_parts
return_line_amounts-IsWithin i w = ground arith

-- The return that completes the line refunds exactly what is left of it.
return_parts_last :
    (i : ReturnInput)
    → IsWithin i.already_returned i.line
    → 0 < i.qty
    → i.already_returned_qty + i.qty ≡ i.sold_qty
    → add_amounts i.already_returned (return_parts i) ≡ i.line
unfolding return_parts remaining_parts
return_parts_last i w p e = ground arith

-- A line that has been returned in part: the units, and the amounts of the return lines.
pub record Returned : Type 0 where
  pub qty : ℕ
  pub amounts : GstAmounts

abbrev pub nothing_returned : Returned
nothing_returned = record { qty = 0; amounts = no_amounts }

-- One return line after another, as `createReturn` stores them.
pub return_step : GstAmounts → ℕ → Returned → ℕ → Returned
return_step line sold r qty = record {
  qty = r.qty + qty;
  amounts =
      add_amounts r.amounts
        (return_line_amounts (record {
          line = line;
          sold_qty = sold;
          already_returned_qty = r.qty;
          already_returned = r.amounts;
          qty = qty;
        })).parts;
}

pub return_steps : GstAmounts → ℕ → Returned → List ℕ → Returned
return_steps line sold r [] = r
return_steps line sold r (q ∷ qs) = return_steps line sold (return_step line sold r q) qs

-- After any return steps at all no part has been refunded beyond the line's, if none was before.
pub return_steps-IsWithin :
    (line : GstAmounts) (sold : ℕ) (r : Returned) (qs : List ℕ)
    → IsWithin r.amounts line
    → IsWithin (return_steps line sold r qs).amounts line
unfolding return_steps return_step
return_steps-IsWithin line sold r [] w = w
return_steps-IsWithin line sold r (q ∷ qs) w =
    return_steps-IsWithin line sold (return_step line sold r q) qs
      (return_line_amounts-IsWithin
        (record {
          line = line;
          sold_qty = sold;
          already_returned_qty = r.qty;
          already_returned = r.amounts;
          qty = q;
        })
        w).0

return_steps_complete :
    (line : GstAmounts) (sold : ℕ) (r : Returned) (q : ℕ) (qs : List ℕ)
    → IsWithin r.amounts line
    → All (λ n. 0 < n) (q ∷ qs)
    → r.qty + sum (q ∷ qs) ≡ sold
    → (return_steps line sold r (q ∷ qs)).amounts ≡ line
unfolding return_steps return_step return_line_amounts
return_steps_complete line sold r q [] w p e =
    return_parts_last
      (record {
        line = line;
        sold_qty = sold;
        already_returned_qty = r.qty;
        already_returned = r.amounts;
        qty = q;
      })
      w p.0 (omega arith)
return_steps_complete line sold r q (q' ∷ qs) w p e =
    return_steps_complete line sold (return_step line sold r q) q' qs
      (return_line_amounts-IsWithin
        (record {
          line = line;
          sold_qty = sold;
          already_returned_qty = r.qty;
          already_returned = r.amounts;
          qty = q;
        })
        w).0
      p.1 (omega arith)

-- Returning all units of a line, in any number of steps, refunds it exactly, part by part.
pub return_steps-exact :
    (line : GstAmounts) (sold q : ℕ) (qs : List ℕ)
    → All (λ n. 0 < n) (q ∷ qs)
    → sum (q ∷ qs) ≡ sold
    → (return_steps line sold nothing_returned (q ∷ qs)).amounts ≡ line
return_steps-exact line sold q qs p e =
    return_steps_complete line sold nothing_returned q qs (omega arith) p (omega arith)
