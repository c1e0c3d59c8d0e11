-- ===== src/Codes/Documents.antt =====
-- packages/contracts/src/gst.ts: unit quantity codes, supply types, HSN codes, financial years and the
-- numbers of documents.
pub mod Units
pub mod Length
use Prim.Native.Char.{Char, code}
use Prim.Native.String.{String}
use pointofsale.Base.{
  ℕ, zero, suc, ◌+◌, ◌-◌, ◌%◌, Bool, true, false, not, ◌&&◌, ◌||◌, Option, none, some, List, [],
  ◌∷◌, ◌++◌, map, filter, length, ltb, leb, ◌==◌, if◌then◌else◌,
}
use pointofsale.Codes.Weighted.{is_digit, is_upper, every}
use pointofsale.Codes.Gstin.{same_text, two_digits}
use pointofsale.Codes.Code128.{digits_of}

abbrev pub codes : String → List ℕ
codes String.[] = []
codes (String.◌∷◌ c s) = code c ∷ codes s

-- The codes of `GST_UQCS`.
abbrev pub gst_uqcs : List String
gst_uqcs =
    "BAG" ∷ "BAL" ∷ "BDL" ∷ "BKL" ∷ "BOU" ∷ "BOX" ∷ "BTL" ∷ "BUN" ∷ "CAN" ∷ "CBM" ∷ "CCM" ∷ "CMS"
    ∷ "CTN" ∷ "DOZ" ∷ "DRM" ∷ "GGK" ∷ "GMS" ∷ "GRS" ∷ "GYD" ∷ "KGS" ∷ "KLR" ∷ "KME" ∷ "LTR" ∷ "MLT"
    ∷ "MTR" ∷ "MTS" ∷ "NOS" ∷ "OTH" ∷ "PAC" ∷ "PCS" ∷ "PRS" ∷ "QTL" ∷ "ROL" ∷ "SET" ∷ "SQF" ∷ "SQM"
    ∷ "SQY" ∷ "TBS" ∷ "TGM" ∷ "THD" ∷ "TON" ∷ "TUB" ∷ "UGS" ∷ "UNT" ∷ "YDS" ∷ "NA" ∷ []

-- `UOM_TO_UQC`
abbrev pub uom_to_uqc : List (String × String)
uom_to_uqc =
    ("PC", "PCS")
    ∷ ("PIECE", "PCS")
    ∷ ("PIECES", "PCS")
    ∷ ("NO", "NOS")
    ∷ ("NUMBER", "NOS")
    ∷ ("NUMBERS", "NOS")
    ∷ ("KG", "KGS")
    ∷ ("KILO", "KGS")
    ∷ ("KILOS", "KGS")
    ∷ ("KILOGRAM", "KGS")
    ∷ ("KILOGRAMS", "KGS")
    ∷ ("G", "GMS")
    ∷ ("GM", "GMS")
    ∷ ("GRM", "GMS")
    ∷ ("GRAM", "GMS")
    ∷ ("GRAMS", "GMS")
    ∷ ("L", "LTR")
    ∷ ("LT", "LTR")
    ∷ ("LITRE", "LTR")
    ∷ ("LITER", "LTR")
    ∷ ("LITRES", "LTR")
    ∷ ("LITERS", "LTR")
    ∷ ("ML", "MLT")
    ∷ ("MILLILITRE", "MLT")
    ∷ ("MILLILITER", "MLT")
    ∷ ("M", "MTR")
    ∷ ("METER", "MTR")
    ∷ ("METRE", "MTR")
    ∷ ("METERS", "MTR")
    ∷ ("METRES", "MTR")
    ∷ ("CM", "CMS")
    ∷ ("BOXES", "BOX")
    ∷ ("DOZEN", "DOZ")
    ∷ ("DZN", "DOZ")
    ∷ ("PKT", "PAC")
    ∷ ("PACK", "PAC")
    ∷ ("PACKS", "PAC")
    ∷ ("PACKET", "PAC")
    ∷ ("PACKETS", "PAC")
    ∷ ("SETS", "SET")
    ∷ ("PAIR", "PRS")
    ∷ ("PAIRS", "PRS")
    ∷ ("BOTTLE", "BTL")
    ∷ ("BOTTLES", "BTL")
    ∷ ("BAGS", "BAG")
    ∷ ("CARTON", "CTN")
    ∷ ("CARTONS", "CTN")
    ∷ ("ROLL", "ROL")
    ∷ ("ROLLS", "ROL")
    ∷ ("TONNE", "TON")
    ∷ ("TONNES", "TON")
    ∷ ("QUINTAL", "QTL")
    ∷ ("UNIT", "UNT")
    ∷ ("UNITS", "UNT")
    ∷ ("CANS", "CAN")
    ∷ ("TUBE", "TUB")
    ∷ ("TUBES", "TUB")
    ∷ ("TAB", "TBS")
    ∷ ("TABLET", "TBS")
    ∷ ("TABLETS", "TBS")
    ∷ ("BUNDLE", "BDL")
    ∷ ("BUNDLES", "BDL")
    ∷ ("SQFT", "SQF")
    ∷ ("SQMT", "SQM")
    ∷ []

abbrev pub is_one_of : List ℕ → List String → Bool
is_one_of key [] = false
is_one_of key (s ∷ ss) = same_text key (codes s) || is_one_of key ss

unfoldable pub is_gst_uqc : List ℕ → Bool
is_gst_uqc key = is_one_of key gst_uqcs

abbrev pub lookup_uqc : List ℕ → List (String × String) → Option (List ℕ)
lookup_uqc key [] = none
lookup_uqc key (e ∷ es) = if same_text key (codes e.0) then some (codes e.1) else lookup_uqc key es

-- `toUpperCase` of an ASCII character.
abbrev pub to_upper : ℕ → ℕ
to_upper c = if leb 97 c && leb c 122 then c - 32 else c

-- `uom.toUpperCase().replace(/[^A-Z]/g, '')`
unfoldable pub uom_key : List ℕ → List ℕ
uom_key uom = filter is_upper (map to_upper uom)

unfoldable pub suggest_for : List ℕ → Option (List ℕ)
suggest_for key =
    if length key == 0
    then none
    else (if is_gst_uqc key && not (same_text key (codes "NA"))
        then some key
        else lookup_uqc key uom_to_uqc)

unfoldable pub suggest_uqc : List ℕ → Option (List ℕ)
suggest_uqc uom = suggest_for (uom_key uom)

pub data GstSupplyType : Type 0 where
  taxable nil_rated exempt non_gst : GstSupplyType

unfoldable pub default_supply_type : ℕ → GstSupplyType
default_supply_type rate = if ltb 0 rate then taxable else nil_rated

abbrev pub is_taxable : GstSupplyType → Bool
is_taxable taxable = true
is_taxable nil_rated = false
is_taxable exempt = false
is_taxable non_gst = false

pub data SupplyTypeProblem : Type 0 where
  needs_a_rate has_no_tax : SupplyTypeProblem

unfoldable pub supply_type_problem : GstSupplyType → ℕ → Option SupplyTypeProblem
supply_type_problem kind rate =
    if is_taxable kind && not (ltb 0 rate)
    then some needs_a_rate
    else (if not (is_taxable kind) && not (rate == 0) then some has_no_tax else none)

pub data HsnProblem : Type 0 where
  not_digits wrong_length too_short : HsnProblem

unfoldable pub hsn_problem : List ℕ → ℕ → Option HsnProblem
hsn_problem code min_digits =
    let n = length code in
    if not (every is_digit code && ltb 0 n)
    then some not_digits
    else (if not ((n == 4) || ((n == 6) || (n == 8)))
        then some wrong_length
        else (if ltb n min_digits then some too_short else none))

-- The year a financial year (April to March) starts in; months from 1.
unfoldable pub financial_year_start : ℕ → ℕ → ℕ
financial_year_start year month = if leb 4 month then year else year - 1

unfoldable pub financial_year_code : ℕ → List ℕ
financial_year_code start = two_digits (start % 100) ++ two_digits ((start + 1) % 100)

unfoldable pub document_year_code : ℕ → List ℕ
document_year_code start = two_digits (start % 100)

pub data DocumentKind : Type 0 where
  invoice return_note : DocumentKind

-- `String` of a number below 10 ^ 20.
unfoldable pub decimal : ℕ → List ℕ
decimal n = map (λ d. 48 + d) (digits_of 20 n)

abbrev pub zeros : ℕ → List ℕ
zeros zero = []
zeros (suc n) = 48 ∷ zeros n

-- `padStart(width, '0')`
unfoldable pub pad_start : ℕ → List ℕ → List ℕ
pad_start width cs = zeros (width - length cs) ++ cs

unfoldable pub document_series : List ℕ → ℕ → DocumentKind → List ℕ
document_series branch counter invoice = branch ++ 47 ∷ decimal counter
document_series branch counter return_note = branch ++ 82 ∷ 47 ∷ decimal counter

unfoldable pub document_number : List ℕ → ℕ → ℕ → List ℕ
document_number series year seq =
    series ++ 47 ∷ (document_year_code year ++ 47 ∷ pad_start 5 (decimal seq))

unfoldable pub branch_code_problem : List ℕ → Bool
branch_code_problem code = not ((length code == 3) && every (λ c. is_upper c || is_digit c) code)
