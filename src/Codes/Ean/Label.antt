-- ===== src/Codes/Ean/Label.antt =====
-- `parseScaleBarcode` of the labels that a scale prints.
use pointofsale.Base.{
  ℕ, ◌+◌, ◌-◌, ◌%◌, ◌≤◌, ◌≡◌, refl, ap, ◌∙◌, true, some, List, [], ◌∷◌, ◌++◌, length, length-append,
  ◌==◌, arith,
}
use pointofsale.Codes.Weighted.{
  is_digit, every, every-append, reverse, reverse-place, number, weigh,
}
use pointofsale.Codes.Gstin.{take, drop, same_text}
use pointofsale.Codes.Ean.{
  ean_term, is_checked, has_valid_check_digit, ScaleBarcode, drop_zeros, scale_value, read_label,
  parse_scale_barcode,
}

-- A body with its check digit behind it.
abbrev pub check_char : List ℕ → ℕ
check_char body = 48 + (10 - weigh ean_term 0 (reverse body) % 10) % 10

abbrev pub with_check : List ℕ → List ℕ
with_check body = body ++ check_char body ∷ []

-- The label of an item's code on the scale and a value, each in digits.
unfoldable pub scale_label : ScaleBarcode → List ℕ → List ℕ → List ℕ
scale_label config item value = with_check (config.prefix ++ (item ++ value))

take-append : (xs ys : List ℕ) → take (length xs) (xs ++ ys) ≡ xs
take-append [] [] = refl
take-append [] (y ∷ ys) = refl
take-append (x ∷ xs) ys = ground (arith, take-append xs ys)

drop-append : (xs ys : List ℕ) → drop (length xs) (xs ++ ys) ≡ ys
drop-append [] [] = refl
drop-append [] (y ∷ ys) = refl
drop-append (x ∷ xs) ys = ground (arith, drop-append xs ys)

same_text_refl : (xs : List ℕ) → same_text xs xs ≡ true
same_text_refl [] = refl
same_text_refl (x ∷ xs) = ground (arith, same_text_refl xs)

append_assoc : (xs ys zs : List ℕ) → (xs ++ ys) ++ zs ≡ xs ++ (ys ++ zs)
append_assoc [] ys zs = refl
append_assoc (x ∷ xs) ys zs = ap (λ l. x ∷ l) (append_assoc xs ys zs)

check_char_digit : (body : List ℕ) → is_digit (check_char body) ≡ true
check_char_digit body = ground arith

with_check-has_valid :
    (body : List ℕ)
    → every is_digit body ≡ true
    → 1 ≤ length body
    → has_valid_check_digit (with_check body) ≡ true
unfolding has_valid_check_digit is_checked
with_check-has_valid body digits some_digits =
    let c = check_char body in
    let all = every-append is_digit body (c ∷ []) in
    let len = length-append body (c ∷ []) in
    rw (reverse-place body [] c) (ground (arith, all, len, check_char_digit body))

-- A scale's label is read as the item's code without its leading zeros and the weight or the price:
-- for an item's code and a value of as many digits as the scale is set to print.
pub parse_scale_barcode-scale_label :
    (config : ScaleBarcode) (item value : List ℕ)
    → length item ≡ config.item_digits
    → length value ≡ config.value_digits
    → 1 ≤ config.item_digits
    → every is_digit config.prefix ≡ true
    → every is_digit item ≡ true
    → every is_digit value ≡ true
    → parse_scale_barcode (scale_label config item value) (some config)
      ≡ some (record {
        item_code = drop_zeros item;
        value = scale_value config.value_type (number value) config.value_decimals;
      })
unfolding parse_scale_barcode scale_label read_label
parse_scale_barcode-scale_label config item value li lv pos_items dp di dv =
    let body = config.prefix ++ (item ++ value) in
    let c = check_char body in
    let split1 = append_assoc config.prefix (item ++ value) (c ∷ []) in
    let split2 = append_assoc item value (c ∷ []) in
    let digits : every is_digit body ≡ true = ground (
      arith,
      every-append is_digit config.prefix (item ++ value),
      every-append is_digit item value,
    ) in
    let body_length : length body
        ≡ length config.prefix + config.item_digits + config.value_digits =
      omega (arith, length-append config.prefix (item ++ value), length-append item value) in
    let all_length = length-append body (c ∷ []) in
    let valid = with_check-has_valid body digits (omega arith) in
    let lengths : (length (with_check body)
          == length config.prefix + config.item_digits + config.value_digits + 1)
        ≡ true =
      ground (arith, all_length, body_length) in
    let all_digits : every is_digit (with_check body) ≡ true =
      ground (arith, every-append is_digit body (c ∷ []), check_char_digit body) in
    let front : take (length config.prefix) (with_check body) ≡ config.prefix =
      rw split1 (take-append config.prefix ((item ++ value) ++ c ∷ [])) in
    let back : drop (length config.prefix) (with_check body) ≡ item ++ (value ++ c ∷ []) =
      rw split1 (drop-append config.prefix ((item ++ value) ++ c ∷ []) ∙ split2) in
    let items : take config.item_digits (item ++ (value ++ c ∷ [])) ≡ item =
      rw (← li) (take-append item (value ++ c ∷ [])) in
    let values : take config.value_digits (drop config.item_digits (item ++ (value ++ c ∷ [])))
        ≡ value =
      rw (← li, ← lv)
        (ap (take (length value)) (drop-append item (value ++ c ∷ []))
          ∙ take-append value (c ∷ [])) in
    rw (lengths, all_digits, front, same_text_refl config.prefix, valid, back, items, values) refl
