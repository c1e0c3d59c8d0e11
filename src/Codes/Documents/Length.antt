-- ===== src/Codes/Documents/Length.antt =====
-- How long `documentNumber` is.
use pointofsale.Base.{
  ℕ, zero, suc, ◌+◌, ◌-◌, ◌/◌, ◌%◌, ◌≤◌, ◌≡◌, refl, ap, false, List, [], ◌∷◌, ◌++◌, length,
  length-append, length-map, ltb, if◌then◌else◌, arith,
}
use pointofsale.Codes.Gstin.{two_digits}
use pointofsale.Codes.Code128.{digits_of}
use pointofsale.Codes.Documents.{
  decimal, zeros, pad_start, document_series, document_number, document_year_code,
  branch_code_problem, DocumentKind, invoice, return_note,
}

digits_of-step :
    (f n : ℕ)
    → length (digits_of (suc f) n) ≡ (if ltb n 10 then 1 else length (digits_of f (n / 10)) + 1)
unfolding digits_of
digits_of-step f n = ground (arith, length-append (digits_of f (n / 10)) (n % 10 ∷ []))

length-decimal :
    (n : ℕ) → n ≤ 99_999 → (length (decimal n) ≤ 5) × (length (decimal n) ≤ 2 + (n - 99))
unfolding decimal
length-decimal n h =
    let m = length-map (λ d. 48 + d) (digits_of 20 n) in
    let s0 = digits_of-step 19 n in
    let s1 = digits_of-step 18 (n / 10) in
    let s2 = digits_of-step 17 (n / 10 / 10) in
    let s3 = digits_of-step 16 (n / 10 / 10 / 10) in
    let s4 = digits_of-step 15 (n / 10 / 10 / 10 / 10) in
    (ground (arith, m, s0, s1, s2, s3, s4), ground (arith, m, s0, s1, s2, s3, s4))

length-zeros : (n : ℕ) → length (zeros n) ≡ n
length-zeros zero = refl
length-zeros (suc n) = ap suc (length-zeros n)

length-pad_start : (cs : List ℕ) → length cs ≤ 5 → length (pad_start 5 cs) ≡ 5
unfolding pad_start
length-pad_start cs h =
    omega (arith, length-append (zeros (5 - length cs)) cs, length-zeros (5 - length cs))

length-document_series :
    (branch : List ℕ) (counter : ℕ) (kind : DocumentKind)
    → counter ≤ 99
    → length (document_series branch counter kind) ≤ length branch + 4
unfolding document_series
length-document_series branch counter invoice h =
    let d = length-decimal counter (omega arith) in
    omega (arith, length-append branch (47 ∷ decimal counter), d.1)
length-document_series branch counter return_note h =
    let d = length-decimal counter (omega arith) in
    omega (arith, length-append branch (82 ∷ 47 ∷ decimal counter), d.1)

-- With a branch code that has no problem, a counter of at most 99 and a count of at most 99,999, the
-- number of an invoice or a credit note has at most the 16 characters that GST allows.
pub length-document_number :
    (branch : List ℕ) (counter year seq : ℕ) (kind : DocumentKind)
    → branch_code_problem branch ≡ false
    → counter ≤ 99
    → seq ≤ 99_999
    → length (document_number (document_series branch counter kind) year seq) ≤ 16
unfolding document_number document_year_code branch_code_problem
length-document_number branch counter year seq kind code_ok hc hs =
    let series = document_series branch counter kind in
    let three : length branch ≡ 3 = ground (arith, code_ok) in
    let d = length-decimal seq hs in
    let padded = length-pad_start (decimal seq) d.0 in
    omega (
      arith,
      length-append series (47 ∷ (two_digits (year % 100) ++ 47 ∷ pad_start 5 (decimal seq))),
      length-document_series branch counter kind hc,
      three,
      padded,
    )
