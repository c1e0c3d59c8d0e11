-- ===== src/Base/Results.antt =====
-- Results: what may be refused, as a value, with `do` blocks; and tables, as functions of their keys.
use Prim.Native.Nat.{ℕ}
use mathlib.Core.Path.{◌≡◌, refl, ap}
use mathlib.Core.Bool.{Bool, true, false}
use mathlib.Core.Option.{Option, none, some}
use native.Mathlib.Omega.{arith}
use pointofsale.Base.Tests.{◌==◌, if◌then◌else◌}

pub data Result {ℓ} (E : Type 0) (A : Type ℓ) : Type ℓ where
  ok : A → Result E A
  err : E → Result E A

infixl 5 ◌>>=◌ ◌>>◌
abbrev pub ◌>>=◌ {ℓ κ} :
    {E : Type 0} {A : Type ℓ} {B : Type κ} → Result E A → (A → Result E B) → Result E B
ok a >>= f = f a
err e >>= f = err e

abbrev pub ◌>>◌ {ℓ} : {E : Type 0} {B : Type ℓ} → Result E (Unit {0}) → Result E B → Result E B
m >> k = m >>= λ _. k

abbrev pub guard : {E : Type 0} → Bool → E → Result E (Unit {0})
guard true e = ok tt
guard false e = err e

-- The row that was looked for, or a refusal.
abbrev pub found {ℓ} : {E : Type 0} {A : Type ℓ} → Option A → E → Result E A
found none e = err e
found (some a) e = ok a

pub guard-ok : {E : Type 0} (b : Bool) (e : E) {u : Unit {0}} → guard b e ≡ ok u → b ≡ true
guard-ok true e h = refl
guard-ok false e h = ground arith

pub found-ok {ℓ} :
    {E : Type 0} {A : Type ℓ} (o : Option A) (e : E) {a : A} → found o e ≡ ok a → o ≡ some a
found-ok none e h = ground arith
found-ok (some b) e h = ground arith

-- A chain that succeeds has a first step that succeeds.
pub >>=-ok {ℓ κ} :
    {E : Type 0} {A : Type ℓ} {B : Type κ} (m : Result E A) (f : A → Result E B) {b : B}
    → (m >>= f) ≡ ok b
    → (a : A) × (m ≡ ok a) × (f a ≡ ok b)
>>=-ok (ok a) f h = (a, refl, h)
>>=-ok (err e) f h = ground arith

pub guard->>= {ℓ} :
    {E : Type 0} {B : Type ℓ} (b : Bool) (e : E) (m : Result E B) {x : B}
    → (guard b e >> m) ≡ ok x
    → (b ≡ true) × (m ≡ ok x)
guard->>= true e m h = (refl, h)
guard->>= false e m h = ground arith

-- A table's rows by their key, with one row changed.
abbrev pub put {ℓ} : {A : Type ℓ} → (ℕ → A) → ℕ → A → ℕ → A
put m k a j = if j == k then a else m j

pub put_self {ℓ} : {A : Type ℓ} (m : ℕ → A) (k : ℕ) (a : A) → put m k a k ≡ a
put_self m k a = ground arith

abbrev value_or {ℓ} : {E : Type 0} {A : Type ℓ} → A → Result E A → A
value_or d (ok a) = a
value_or d (err e) = d

pub ok_injective {ℓ} :
    {E : Type 0} {A : Type ℓ} (a b : A) → ◌≡◌ {A = Result E A} (ok a) (ok b) → a ≡ b
ok_injective a b h = ap (value_or a) h

-- A refusal of a part, as one of the whole.
abbrev pub map_err {ℓ} : {E F : Type 0} {A : Type ℓ} → (E → F) → Result E A → Result F A
map_err f (ok a) = ok a
map_err f (err e) = err (f e)

pub map_err-ok {ℓ} :
    {E F : Type 0} {A : Type ℓ} (f : E → F) (m : Result E A) {a : A} → map_err f m ≡ ok a → m ≡ ok a
map_err-ok f (ok b) h = ground arith
map_err-ok f (err e) h = ground arith
