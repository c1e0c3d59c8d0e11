-- ===== src/Codes/Code128/Width.antt =====
-- How many modules `code128Modules` gives.
use pointofsale.Base.{
  ℕ, zero, suc, ◌+◌, ◌-◌, ◌*◌, ◌<◌, ◌≡◌, refl, ap, ◌∙◌, Bool, true, false, not, ◌&&◌, Option, none,
  some, List, [], ◌∷◌, ◌++◌, map, length, length-append, get_or, sum, All, leb, ◌==◌, arith,
  Bool-cases, inl, inr,
}
use pointofsale.Codes.Weighted.{is_digit, every, number_from}
use pointofsale.Codes.Code128.{
  patterns, can_encode_code128, pair_values, digits_only, data_values, start_value, checksum,
  code128_values, digits_of, repeat, bars, symbol, modules_of, code128_modules,
}

-- How wide the pattern of a symbol is: 11 modules, the stop symbol 13.
abbrev pattern_width : ℕ → ℕ
pattern_width n = sum (digits_of 7 n)

abbrev widths_ok : List ℕ → Bool
widths_ok [] = true
widths_ok (n ∷ []) = pattern_width n == 13
widths_ok (n ∷ m ∷ ns) = (pattern_width n == 11) && widths_ok (m ∷ ns)

patterns-widths_ok : widths_ok patterns ≡ true
unfolding digits_of
patterns-widths_ok = refl

width_at :
    (ns : List ℕ) (v : ℕ)
    → widths_ok ns ≡ true
    → v + 1 < length ns
    → pattern_width (get_or ns v 0) ≡ 11
width_at [] v h l = ground arith
width_at (n ∷ []) v h l = ground arith
width_at (n ∷ m ∷ ns) zero h l = ground arith
width_at (n ∷ m ∷ ns) (suc v) h l = width_at (m ∷ ns) v (ground arith) (omega arith)

length-repeat : (b : Bool) (n : ℕ) → length (repeat b n) ≡ n
length-repeat b zero = refl
length-repeat b (suc n) = ap suc (length-repeat b n)

length-bars : (b : Bool) (ws : List ℕ) → length (bars b ws) ≡ sum ws
unfolding bars
length-bars b [] = refl
length-bars b (w ∷ ws) =
    omega (
      arith,
      length-append (repeat b w) (bars (not b) ws),
      length-repeat b w,
      length-bars (not b) ws,
    )

length-symbol : (v : ℕ) → v < 106 → length (symbol v) ≡ 11
unfolding symbol
length-symbol v h =
    length-bars true (digits_of 7 (get_or patterns v 0))
    ∙ width_at patterns v patterns-widths_ok (omega arith)

length-modules_of : (vs : List ℕ) → All (λ v. v < 106) vs → length (modules_of vs) ≡ 11 * length vs
unfolding modules_of
length-modules_of [] h = refl
length-modules_of (v ∷ vs) h =
    omega (
      arith,
      length-append (symbol v) (modules_of vs),
      length-symbol v h.0,
      length-modules_of vs h.1,
    )

pair_values-small : (cs : List ℕ) → every is_digit cs ≡ true → All (λ v. v < 106) (pair_values cs)
unfolding pair_values number_from
pair_values-small [] h = tt
pair_values-small (c ∷ []) h = tt
pair_values-small (c ∷ d ∷ cs) h =
    let dc : is_digit c ≡ true = ground arith in
    let dd : is_digit d ≡ true = ground arith in
    (ground (arith, dc, dd), pair_values-small cs (ground arith))

chars-small :
    (cs : List ℕ)
    → every (λ c. leb 32 c && leb c 126) cs ≡ true
    → All (λ v. v < 106) (map (λ c. c - 32) cs)
chars-small [] h = tt
chars-small (c ∷ cs) h = (ground arith, chars-small cs (ground arith))

data_values-small :
    (text : List ℕ) → can_encode_code128 text ≡ true → All (λ v. v < 106) (data_values text)
unfolding data_values
data_values-small text h = elim (Bool-cases (digits_only text)) [
  | inl e ↦
      let digits : every is_digit text ≡ true = ground arith in rw e (pair_values-small text digits)
  | inr e ↦
      let printable : every (λ c. leb 32 c && leb c 126) text ≡ true = ground arith in
      rw e (chars-small text printable)
]

start-small : (text : List ℕ) → start_value text < 106
unfolding start_value
start-small text = ground arith

checksum-small : (text : List ℕ) → checksum text < 106
unfolding checksum
checksum-small text = omega arith

modules_of-append :
    (us vs : List ℕ)
    → length (modules_of (us ++ vs)) ≡ length (modules_of us) + length (modules_of vs)
unfolding modules_of
modules_of-append [] vs = omega arith
modules_of-append (u ∷ us) vs = omega (
  arith,
  length-append (symbol u) (modules_of (us ++ vs)),
  length-append (symbol u) (modules_of us),
  modules_of-append us vs,
)

stop_width : length (modules_of (106 ∷ [])) ≡ 13
unfolding modules_of symbol bars digits_of
stop_width = refl

-- The width of a barcode, when the text can be encoded.
abbrev pub HasWidth : List ℕ → Option (List Bool) → Type 0
HasWidth text none = can_encode_code128 text ≡ false
HasWidth text (some modules) =
    (can_encode_code128 text ≡ true) × (length modules ≡ 11 * (length (data_values text) + 2) + 13)

encoded_width :
    (text : List ℕ)
    → can_encode_code128 text ≡ true
    → length (modules_of (start_value text ∷ (data_values text ++ checksum text ∷ 106 ∷ [])))
      ≡ 11 * (length (data_values text) + 2) + 13
unfolding modules_of
encoded_width text h =
    let ds = data_values text in
    let tail = checksum text ∷ 106 ∷ [] in
    omega (
      arith,
      length-append (symbol (start_value text)) (modules_of (ds ++ tail)),
      length-append (symbol (checksum text)) (modules_of (106 ∷ [])),
      modules_of-append ds tail,
      length-symbol (start_value text) (start-small text),
      length-symbol (checksum text) (checksum-small text),
      length-modules_of ds (data_values-small text h),
      stop_width,
    )

-- A text of 1 to 40 printable characters, and no other, has a barcode, of 11 modules for the start,
-- for each symbol of the text and for the checksum, and of 13 for the stop.
pub code128_modules-width : (text : List ℕ) → HasWidth text (code128_modules text)
unfolding code128_modules code128_values
code128_modules-width text = elim (Bool-cases (can_encode_code128 text)) [
  | inl e ↦ rw e (e, encoded_width text e)
  | inr e ↦ rw e e
]
