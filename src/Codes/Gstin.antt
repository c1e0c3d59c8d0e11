-- ===== src/Codes/Gstin.antt =====
-- packages/contracts/src/gst.ts: taxpayer types, state codes, GSTINs and their check character.
pub mod Check
use pointofsale.Base.{
  ℕ, ◌+◌, ◌-◌, ◌*◌, ◌/◌, ◌%◌, Bool, true, false, not, ◌&&◌, ◌||◌, Option, none, some, List, [], ◌∷◌,
  ◌++◌, length, ltb, leb, ◌==◌, if◌then◌else◌,
}
use pointofsale.Codes.Weighted.{is_digit, is_upper, every, weigh}

pub data TaxpayerType : Type 0 where
  regular composition unregistered : TaxpayerType

pub data GstDocumentType : Type 0 where
  tax_invoice bill_of_supply invoice : GstDocumentType

unfoldable pub document_type_for : TaxpayerType → GstDocumentType
document_type_for unregistered = invoice
document_type_for composition = bill_of_supply
document_type_for regular = tax_invoice

-- Whether sales charge GST on the bill.
unfoldable pub charges_gst : TaxpayerType → Bool
charges_gst regular = true
charges_gst composition = false
charges_gst unregistered = false

-- `GST_STATES`, by number: 01 to 38 without 25 and 28, and 97.
abbrev pub gst_states : List ℕ
gst_states =
    1 ∷ 2 ∷ 3 ∷ 4 ∷ 5 ∷ 6 ∷ 7 ∷ 8 ∷ 9 ∷ 10 ∷ 11 ∷ 12 ∷ 13 ∷ 14 ∷ 15 ∷ 16 ∷ 17 ∷ 18 ∷ 19 ∷ 20 ∷ 21
    ∷ 22 ∷ 23 ∷ 24 ∷ 26 ∷ 27 ∷ 29 ∷ 30 ∷ 31 ∷ 32 ∷ 33 ∷ 34 ∷ 35 ∷ 36 ∷ 37 ∷ 38 ∷ 97 ∷ []

-- A number in two digits: `String(n).padStart(2, '0')`.
abbrev pub two_digits : ℕ → List ℕ
two_digits n = (48 + n / 10) ∷ (48 + n % 10) ∷ []

abbrev pub same_text : List ℕ → List ℕ → Bool
same_text [] [] = true
same_text [] (d ∷ ds) = false
same_text (c ∷ cs) [] = false
same_text (c ∷ cs) (d ∷ ds) = (c == d) && same_text cs ds

abbrev pub has_text : List ℕ → List ℕ → Bool
has_text code [] = false
has_text code (s ∷ states) = same_text code (two_digits s) || has_text code states

unfoldable pub is_gst_state_code : List ℕ → Bool
is_gst_state_code code = has_text code gst_states

-- `GSTIN_CHARS.indexOf` of a digit or a capital letter.
unfoldable pub char_index : ℕ → ℕ
char_index c = if is_digit c then c - 48 else c - 55

-- `GSTIN_CHARS[i]`
unfoldable pub gstin_char : ℕ → ℕ
gstin_char i = if ltb i 10 then i + 48 else i + 55

-- What a character adds to the sum, by its place.
unfoldable pub gstin_term : ℕ → ℕ → ℕ
gstin_term i c =
    let product = char_index c * (if i % 2 == 0 then 1 else 2) in product / 36 + product % 36

unfoldable pub gstin_check_character : List ℕ → ℕ
gstin_check_character first14 = gstin_char ((36 - weigh gstin_term 0 first14 % 36) % 36)

-- The classes of `GSTIN_PATTERN`, and its places.
pub data GstinClass : Type 0 where
  digit letter entity letter_z any_char : GstinClass

abbrev pub in_class : GstinClass → ℕ → Bool
in_class digit c = is_digit c
in_class letter c = is_upper c
in_class entity c = (is_digit c && not (c == 48)) || is_upper c
in_class letter_z c = c == 90
in_class any_char c = is_digit c || is_upper c

abbrev pub gstin_pattern : List GstinClass
gstin_pattern =
    digit ∷ digit ∷ letter ∷ letter ∷ letter ∷ letter ∷ letter ∷ digit ∷ digit ∷ digit ∷ digit
    ∷ letter ∷ entity ∷ letter_z ∷ any_char ∷ []

unfoldable pub matches_pattern : List GstinClass → List ℕ → Bool
matches_pattern [] [] = true
matches_pattern [] (c ∷ cs) = false
matches_pattern (k ∷ ks) [] = false
matches_pattern (k ∷ ks) (c ∷ cs) = in_class k c && matches_pattern ks cs

abbrev pub take : ℕ → List ℕ → List ℕ
take n [] = []
take n (c ∷ cs) = if n == 0 then [] else c ∷ take (n - 1) cs

abbrev pub drop : ℕ → List ℕ → List ℕ
drop n [] = []
drop n (c ∷ cs) = if n == 0 then c ∷ cs else drop (n - 1) cs

pub data GstinProblem : Type 0 where
  not_a_gstin not_a_state_code wrong_check_character : GstinProblem

unfoldable pub gstin_problem : List ℕ → Option GstinProblem
gstin_problem gstin =
    if not (matches_pattern gstin_pattern gstin)
    then some not_a_gstin
    else (if not (is_gst_state_code (take 2 gstin))
        then some not_a_state_code
        else (if not (same_text (gstin_check_character (take 14 gstin) ∷ []) (drop 14 gstin))
            then some wrong_check_character
            else none))
