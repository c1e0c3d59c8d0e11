-- ===== src/Codes/Documents/Units.antt =====
-- What `suggestUqc` may answer.
use pointofsale.Base.{
  ℕ, ◌≡◌, refl, Bool, true, false, not, ◌&&◌, Option, none, some, List, [], ◌∷◌, length, ◌==◌,
  arith, Bool-cases, inl, inr,
}
use Prim.Native.String.{String}
use pointofsale.Codes.Gstin.{same_text}
use pointofsale.Codes.Documents.{
  codes, uom_to_uqc, is_gst_uqc, lookup_uqc, suggest_for, suggest_uqc, uom_key,
}

-- A code that may be suggested: known, and not that of services.
abbrev is_goods_uqc : List ℕ → Bool
is_goods_uqc c = is_gst_uqc c && not (same_text c (codes "NA"))

abbrev all_goods : List (String × String) → Bool
all_goods [] = true
all_goods (e ∷ es) = is_goods_uqc (codes e.1) && all_goods es

uom_to_uqc-goods : all_goods uom_to_uqc ≡ true
unfolding is_gst_uqc
uom_to_uqc-goods = refl

abbrev pub IsGoods : Option (List ℕ) → Type 0
IsGoods none = Unit {0}
IsGoods (some c) = (is_gst_uqc c ≡ true) × (same_text c (codes "NA") ≡ false)

lookup_uqc-IsGoods :
    (key : List ℕ) (es : List (String × String)) → all_goods es ≡ true → IsGoods (lookup_uqc key es)
lookup_uqc-IsGoods key [] h = tt
lookup_uqc-IsGoods key (e ∷ es) h = elim (Bool-cases (same_text key (codes e.0))) [
  | inl same ↦ rw same (ground (arith, h), ground (arith, h))
  | inr other ↦ rw other (lookup_uqc-IsGoods key es (ground (arith, h)))
]

-- What is suggested for a unit, if anything, is a known unit quantity code, and not that of services.
pub suggest_uqc-IsGoods : (uom : List ℕ) → IsGoods (suggest_uqc uom)
unfolding suggest_uqc suggest_for
suggest_uqc-IsGoods uom =
    let key = uom_key uom in
    elim (Bool-cases (length key == 0)) [
      | inl e ↦ rw e tt
      | inr e ↦ elim (Bool-cases (is_goods_uqc key)) [
        | inl f ↦ rw (e, f) (ground (arith, f), ground (arith, f))
        | inr f ↦ rw (e, f) (lookup_uqc-IsGoods key uom_to_uqc uom_to_uqc-goods)
      ]
    ]
