-- ===== src/Codes/Code128.antt =====
-- packages/contracts/src/code128.ts: Code 128 barcodes. A pattern is the number that its six or seven
-- bar and space widths spell.
pub mod Width
use pointofsale.Base.{
  ℕ, zero, suc, ◌+◌, ◌-◌, ◌*◌, ◌/◌, ◌%◌, ◌≡◌, Bool, true, false, not, ◌&&◌, ◌||◌, Option, none,
  some, List, [], ◌∷◌, ◌++◌, map, length, get_or, ltb, leb, ◌==◌, if◌then◌else◌,
}
use pointofsale.Codes.Weighted.{is_digit, every, number, weigh}

abbrev pub patterns : List ℕ
patterns =
    212_222 ∷ 222_122 ∷ 222_221 ∷ 121_223 ∷ 121_322 ∷ 131_222 ∷ 122_213 ∷ 122_312 ∷ 132_212
    ∷ 221_213 ∷ 221_312 ∷ 231_212 ∷ 112_232 ∷ 122_132 ∷ 122_231 ∷ 113_222 ∷ 123_122 ∷ 123_221
    ∷ 223_211 ∷ 221_132 ∷ 221_231 ∷ 213_212 ∷ 223_112 ∷ 312_131 ∷ 311_222 ∷ 321_122 ∷ 321_221
    ∷ 312_212 ∷ 322_112 ∷ 322_211 ∷ 212_123 ∷ 212_321 ∷ 232_121 ∷ 111_323 ∷ 131_123 ∷ 131_321
    ∷ 112_313 ∷ 132_113 ∷ 132_311 ∷ 211_313 ∷ 231_113 ∷ 231_311 ∷ 112_133 ∷ 112_331 ∷ 132_131
    ∷ 113_123 ∷ 113_321 ∷ 133_121 ∷ 313_121 ∷ 211_331 ∷ 231_131 ∷ 213_113 ∷ 213_311 ∷ 213_131
    ∷ 311_123 ∷ 311_321 ∷ 331_121 ∷ 312_113 ∷ 312_311 ∷ 332_111 ∷ 314_111 ∷ 221_411 ∷ 431_111
    ∷ 111_224 ∷ 111_422 ∷ 121_124 ∷ 121_421 ∷ 141_122 ∷ 141_221 ∷ 112_214 ∷ 112_412 ∷ 122_114
    ∷ 122_411 ∷ 142_112 ∷ 142_211 ∷ 241_211 ∷ 221_114 ∷ 413_111 ∷ 241_112 ∷ 134_111 ∷ 111_242
    ∷ 121_142 ∷ 121_241 ∷ 114_212 ∷ 124_112 ∷ 124_211 ∷ 411_212 ∷ 421_112 ∷ 421_211 ∷ 212_141
    ∷ 214_121 ∷ 412_121 ∷ 111_143 ∷ 111_341 ∷ 131_141 ∷ 114_113 ∷ 114_311 ∷ 411_113 ∷ 411_311
    ∷ 113_141 ∷ 114_131 ∷ 311_141 ∷ 411_131 ∷ 211_412 ∷ 211_214 ∷ 211_232 ∷ 2_331_112 ∷ []

abbrev pub can_encode_code128 : List ℕ → Bool
can_encode_code128 text =
    ltb 0 (length text) && (leb (length text) 40 && every (λ c. leb 32 c && leb c 126) text)

-- Two digits to a symbol.
unfoldable pub pair_values : List ℕ → List ℕ
pair_values [] = []
pair_values (c ∷ []) = []
pair_values (c ∷ d ∷ cs) = number (c ∷ d ∷ []) ∷ pair_values cs

abbrev pub digits_only : List ℕ → Bool
digits_only text = every is_digit text && (length text % 2 == 0)

unfoldable pub data_values : List ℕ → List ℕ
data_values text = if digits_only text then pair_values text else map (λ c. c - 32) text

unfoldable pub start_value : List ℕ → ℕ
start_value text = if digits_only text then 105 else 104

unfoldable pub checksum : List ℕ → ℕ
checksum text = (start_value text + weigh (λ i v. v * (i + 1)) 0 (data_values text)) % 103

-- The symbol values: start, data, checksum, stop.
unfoldable pub code128_values : List ℕ → Option (List ℕ)
code128_values text =
    if can_encode_code128 text
    then some (start_value text ∷ (data_values text ++ checksum text ∷ 106 ∷ []))
    else none

-- The digits of a pattern, of which there are at most seven.
unfoldable pub digits_of : ℕ → ℕ → List ℕ
digits_of zero n = []
digits_of (suc k) n =
    let rest = digits_of k (n / 10) in if ltb n 10 then n ∷ [] else rest ++ n % 10 ∷ []

abbrev pub repeat : Bool → ℕ → List Bool
repeat b zero = []
repeat b (suc n) = b ∷ repeat b n

-- Bars and spaces in turn.
unfoldable pub bars : Bool → List ℕ → List Bool
bars b [] = []
bars b (w ∷ ws) = repeat b w ++ bars (not b) ws

unfoldable pub symbol : ℕ → List Bool
symbol v = bars true (digits_of 7 (get_or patterns v 0))

unfoldable pub modules_of : List ℕ → List Bool
modules_of [] = []
modules_of (v ∷ vs) = symbol v ++ modules_of vs

abbrev pub modules_or_none : Option (List ℕ) → Option (List Bool)
modules_or_none none = none
modules_or_none (some vs) = some (modules_of vs)

-- The barcode: true is a bar.
unfoldable pub code128_modules : List ℕ → Option (List Bool)
code128_modules text = modules_or_none (code128_values text)
