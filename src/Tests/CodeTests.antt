-- ===== src/Tests/CodeTests.antt =====
-- packages/contracts/src/barcodes.ts and gst.ts at concrete inputs.
use pointofsale.Base.{ℕ, ◌≡◌, ◌≢◌, refl, true, false, none, some, List, [], ◌∷◌, ◌++◌, arith}
use pointofsale.Money.{round_div}
use pointofsale.Codes.Weighted.{weigh, number_from, number}
use pointofsale.Codes.Gstin.{
  gstin_problem, gstin_check_character, gstin_term, char_index, gstin_char, matches_pattern,
  is_gst_state_code,
}
use pointofsale.Codes.Gstin.Check.{gstin_check_character_change}
use pointofsale.Codes.Ean.{
  ScaleBarcode, weight, qty, has_valid_check_digit, is_checked, ean_term, parse_scale_barcode,
  read_label, drop_zeros, scale_value,
}
use pointofsale.Codes.Ean.Check.{has_valid_check_digit_change}
use pointofsale.Codes.Ean.Label.{scale_label, parse_scale_barcode-scale_label}
use pointofsale.Codes.Code128.{
  digits_of, code128_values, data_values, pair_values, start_value, checksum,
}
use pointofsale.Codes.Documents.{
  codes, suggest_uqc, suggest_for, uom_key, is_gst_uqc, return_note, document_number,
  document_series, document_year_code, decimal, pad_start,
}

uqc_run : suggest_uqc (codes "Kg.") ≡ some (codes "KGS")
unfolding suggest_uqc suggest_for uom_key is_gst_uqc
uqc_run = refl

document_run :
    document_number (document_series (codes "MAI") 1 return_note) 2026 1 ≡ codes "MAIR/1/26/00001"
unfolding document_number document_series document_year_code decimal pad_start digits_of
document_run = refl

-- "1234", as two symbols.
code128_run : code128_values (49 ∷ 50 ∷ 51 ∷ 52 ∷ []) ≡ some (105 ∷ 12 ∷ 34 ∷ 82 ∷ 106 ∷ [])
unfolding code128_values data_values pair_values start_value checksum weigh number_from
code128_run = refl

-- 27AAPFU0939F1Z in code points, up to its fifth character and after it.
abbrev gstin_front : List ℕ
gstin_front = 50 ∷ 55 ∷ 65 ∷ 65 ∷ []

abbrev gstin_back : List ℕ
gstin_back = 70 ∷ 85 ∷ 48 ∷ 57 ∷ 51 ∷ 57 ∷ 70 ∷ 49 ∷ 90 ∷ []

gstin_run : gstin_problem (gstin_front ++ 80 ∷ gstin_back ++ 86 ∷ []) ≡ none
unfolding gstin_problem gstin_check_character gstin_term char_index gstin_char matches_pattern
    is_gst_state_code weigh
gstin_run = refl

gstin_check_character_change_example :
    gstin_check_character (gstin_front ++ 80 ∷ gstin_back)
    ≢ gstin_check_character (gstin_front ++ 81 ∷ gstin_back)
gstin_check_character_change_example =
    gstin_check_character_change gstin_front gstin_back 80 81 refl refl (λ e. ground arith)

-- 4006381333931
abbrev ean_front : List ℕ
ean_front = 52 ∷ 48 ∷ 48 ∷ 54 ∷ []

abbrev ean_back : List ℕ
ean_back = 56 ∷ 49 ∷ 51 ∷ 51 ∷ 51 ∷ 57 ∷ 51 ∷ 49 ∷ []

ean_run : has_valid_check_digit (ean_front ++ 51 ∷ ean_back) ≡ true
unfolding has_valid_check_digit is_checked ean_term weigh
ean_run = refl

has_valid_check_digit_change_example : has_valid_check_digit (ean_front ++ 53 ∷ ean_back) ≡ false
has_valid_check_digit_change_example =
    has_valid_check_digit_change ean_front ean_back 51 53 refl refl (λ e. ground arith) ean_run

-- Item 1234, 1.250 kg.
abbrev sample_scale : ScaleBarcode
sample_scale = record {
  prefix = 50 ∷ [];
  item_digits = 5;
  value_type = weight;
  value_digits = 5;
  value_decimals = 3;
}

parse_scale_barcode-scale_label_example :
    parse_scale_barcode
      (scale_label sample_scale (48 ∷ 49 ∷ 50 ∷ 51 ∷ 52 ∷ []) (48 ∷ 49 ∷ 50 ∷ 53 ∷ 48 ∷ []))
      (some sample_scale)
    ≡ some (record {
      item_code = drop_zeros (48 ∷ 49 ∷ 50 ∷ 51 ∷ 52 ∷ []);
      value = scale_value weight (number (48 ∷ 49 ∷ 50 ∷ 53 ∷ 48 ∷ [])) 3;
    })
parse_scale_barcode-scale_label_example =
    parse_scale_barcode-scale_label sample_scale (48 ∷ 49 ∷ 50 ∷ 51 ∷ 52 ∷ [])
      (48 ∷ 49 ∷ 50 ∷ 53 ∷ 48 ∷ []) refl refl (omega arith) refl refl refl

label_run :
    parse_scale_barcode
      (scale_label sample_scale (48 ∷ 49 ∷ 50 ∷ 51 ∷ 52 ∷ []) (48 ∷ 49 ∷ 50 ∷ 53 ∷ 48 ∷ []))
      (some sample_scale)
    ≡ some (record { item_code = 49 ∷ 50 ∷ 51 ∷ 52 ∷ []; value = qty 1250 })
unfolding parse_scale_barcode scale_label read_label has_valid_check_digit is_checked ean_term weigh
    drop_zeros number_from round_div
label_run = refl
