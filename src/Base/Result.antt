-- ===== src/Base/Result.antt =====
-- A Go result `(value, error)` that is either a value or an error.
use Prim.Native.String
use Prim.Native.String.{String}
use mathlib.Core.Path.{◌≡◌, refl}
use mathlib.Core.Logic.{◌⊎◌, inl, inr}
use mathlib.Core.Bool.{Bool, true, false}
use mathlib.Core.Option.{Option, none, some}

pub data Result {ℓ κ} (E : Type ℓ) (A : Type κ) : Type (ℓ ⊔ κ) where
  ok : A → Result E A
  err : E → Result E A

infixl 5 ◌>>=◌
abbrev pub ◌>>=◌ {ℓ κ μ} :
    {E : Type ℓ} {A : Type κ} {B : Type μ} → Result E A → (A → Result E B) → Result E B
ok a >>= f = f a
err e >>= f = err e

-- A chain that succeeds has a first step that does.
pub bind_succeeds {ℓ κ μ} :
    {E : Type ℓ} {A : Type κ} {B : Type μ} {end : B} (first : Result E A) (next : A → Result E B)
    → (first >>= next) ≡ ok end
    → (mid : A) × (first ≡ ok mid) × (next mid ≡ ok end)
bind_succeeds (err e) next success = cc
bind_succeeds (ok mid) next success = (mid, refl, success)

-- `if !test { return e }`
abbrev pub check {ℓ} : {E : Type ℓ} → Bool → E → Result E (Unit {0})
check true e = ok tt
check false e = err e

pub check_passes {ℓ} :
    {E : Type ℓ} (test : Bool) (e : E) {u : Unit {0}} → check test e ≡ ok u → test ≡ true
check_passes true e h = refl
check_passes false e h = cc

-- `if v == nil { return e }`
abbrev pub required {ℓ κ} : {E : Type ℓ} {A : Type κ} → Option A → E → Result E A
required none e = err e
required (some a) e = ok a

pub required_succeeds {ℓ κ} :
    {E : Type ℓ} {A : Type κ} (o : Option A) (e : E) {a : A} → required o e ≡ ok a → o ≡ some a
required_succeeds none e h = cc
required_succeeds (some a) e h = cc

-- The error of a failed call is replaced by another.
abbrev pub or_error {ℓ κ μ} : {E : Type ℓ} {F : Type κ} {A : Type μ} → Result E A → F → Result F A
or_error (ok a) f = ok a
or_error (err e) f = err f

pub or_error_succeeds {ℓ κ μ} :
    {E : Type ℓ} {F : Type κ} {A : Type μ} (r : Result E A) (f : F) {a : A}
    → or_error r f ≡ ok a
    → r ≡ ok a
or_error_succeeds (ok a) f h = cc
or_error_succeeds (err e) f h = cc

pub Result-cases {ℓ κ} :
    {E : Type ℓ} {A : Type κ} (r : Result E A) → ((e : E) × (r ≡ err e)) ⊎ ((a : A) × (r ≡ ok a))
Result-cases (ok a) = inr (a, refl)
Result-cases (err e) = inl (e, refl)

pub ok_inj {ℓ κ} : {E : Type ℓ} {A : Type κ} {a b : A} → ◌≡◌ {A = Result E A} (ok a) (ok b) → a ≡ b
ok_inj same = cc

-- fmt.Errorf("context%w", err)
abbrev pub with_context {ℓ} : {A : Type ℓ} → String → Result String A → Result String A
with_context text (ok a) = ok a
with_context text (err e) = err (String.◌++◌ text e)

pub with_context_succeeds {ℓ} :
    {A : Type ℓ} (text : String) (r : Result String A) {a : A}
    → with_context text r ≡ ok a
    → r ≡ ok a
with_context_succeeds text (ok a) h = cc
with_context_succeeds text (err e) h = cc
