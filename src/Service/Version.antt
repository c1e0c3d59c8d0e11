-- ===== src/Service/Version.antt =====
-- packages/contracts/src/version.ts: `isOlderVersion`, of versions whose parts are read as numbers (a
-- part that is none counts as 0).
pub mod Order
use Prim.Native.Nat.{max}
use pointofsale.Base.{
  ℕ, zero, suc, ◌+◌, Bool, true, false, List, [], ◌∷◌, length, ltb, ◌==◌, if◌then◌else◌,
}

-- `a[i] ?? 0` of the first part, and the parts after it.
abbrev pub head_or_0 : List ℕ → ℕ
head_or_0 [] = 0
head_or_0 (x ∷ xs) = x

abbrev pub tail : List ℕ → List ℕ
tail [] = []
tail (x ∷ xs) = xs

-- The loop over the parts, with as many to compare as the first argument.
unfoldable pub older_in : ℕ → List ℕ → List ℕ → Bool
older_in zero a b = false
older_in (suc n) a b =
    let rest = older_in n (tail a) (tail b) in
    if head_or_0 a == head_or_0 b then rest else ltb (head_or_0 a) (head_or_0 b)

unfoldable pub is_older_version : List ℕ → List ℕ → Bool
is_older_version version minimum =
    older_in (max (max (length version) (length minimum)) 3) version minimum
