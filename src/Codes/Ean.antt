-- ===== src/Codes/Ean.antt =====
-- packages/contracts/src/barcodes.ts: the check digit of an EAN or UPC barcode, and the labels that a
-- weighing scale prints. The text is already trimmed.
pub mod Check
pub mod Label
use pointofsale.Base.{
  ℕ, ◌+◌, ◌-◌, ◌*◌, ◌/◌, ◌%◌, ◌^◌, Bool, true, false, not, ◌&&◌, ◌||◌, Option, none, some, List, [],
  ◌∷◌, ◌++◌, length, ltb, leb, ◌==◌, if◌then◌else◌,
}
use pointofsale.Money.{round_div}
use pointofsale.Codes.Weighted.{is_digit, every, reverse, number, weigh}
use pointofsale.Codes.Gstin.{take, drop, same_text}

-- From the right of the body: weights 3, 1, 3, 1, ...
unfoldable pub ean_term : ℕ → ℕ → ℕ
ean_term i c = (c - 48) * (if i % 2 == 0 then 3 else 1)

-- The digits from the right: the check digit, then the body.
unfoldable pub is_checked : List ℕ → Bool
is_checked [] = false
is_checked (check ∷ body) = (10 - weigh ean_term 0 body % 10) % 10 == check - 48

unfoldable pub has_valid_check_digit : List ℕ → Bool
has_valid_check_digit code =
    (every is_digit code && leb 2 (length code)) && is_checked (reverse code)

pub data ValueType : Type 0 where
  weight price : ValueType

pub record ScaleBarcode : Type 0 where
  pub prefix : List ℕ
  pub item_digits : ℕ
  pub value_type : ValueType
  pub value_digits : ℕ
  pub value_decimals : ℕ

pub data ScaleValue : Type 0 where
  qty price : ℕ → ScaleValue

pub record ScaleLabel : Type 0 where
  pub item_code : List ℕ
  pub value : ScaleValue

-- `replace(/^0+(?=\d)/, '')` of digits: no zero in front, but at the end of the text.
unfoldable pub drop_zeros : List ℕ → List ℕ
drop_zeros [] = []
drop_zeros (c ∷ []) = c ∷ []
drop_zeros (c ∷ d ∷ cs) = let rest = drop_zeros (d ∷ cs) in if c == 48 then rest else c ∷ d ∷ cs

-- `round3` of the weight, in thousandths, or `round2` of the price, in paise.
abbrev pub scale_value : ValueType → ℕ → ℕ → ScaleValue
scale_value weight raw decimals = qty (round_div (raw * 1000) (10 ^ decimals))
scale_value ValueType.price raw decimals = ScaleValue.price (round_div (raw * 100) (10 ^ decimals))

unfoldable pub read_label : List ℕ → ScaleBarcode → ScaleLabel
read_label value config =
    let rest = drop (length config.prefix) value in
    record {
      item_code = drop_zeros (take config.item_digits rest);
      value =
          scale_value config.value_type
            (number (take config.value_digits (drop config.item_digits rest)))
            config.value_decimals;
    }

unfoldable pub parse_scale_barcode : List ℕ → Option ScaleBarcode → Option ScaleLabel
parse_scale_barcode value none = none
parse_scale_barcode value (some config) =
    if (length value == length config.prefix + config.item_digits + config.value_digits + 1)
      && (every is_digit value && same_text (take (length config.prefix) value) config.prefix)
    then (if has_valid_check_digit value then some (read_label value config) else none)
    else none
