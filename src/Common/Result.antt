-- ===== src/Common/Result.antt =====
-- A call that returns or throws, in `do` blocks, and try/catch as a test.
use mathlib.Core.Bool.{Bool, true, false}
use mathlib.Core.Path.{◌≡◌, refl}
use qwertycoin_ts.Common.Tests.{if◌then◌else◌}

pub data Result {ℓ κ} (E : Type κ) (A : Type ℓ) : Type (ℓ ⊔ κ) where
  ok : A → Result E A
  err : E → Result E A

-- `try { m; return true } catch { return false }`
abbrev pub returns {ℓ κ} : {E : Type κ} {A : Type ℓ} → Result E A → Bool
returns (err thrown) = false
returns (ok value) = true

-- `if (!test) throw e`
abbrev pub guard {κ} : {E : Type κ} → Bool → E → Result E (Unit {0})
guard test e = if test then ok tt else err e

infixl 5 ◌>>=◌ ◌>>◌
abbrev pub ◌>>=◌ {ℓ κ μ} :
    {E : Type κ} {A : Type ℓ} {B : Type μ} → Result E A → (A → Result E B) → Result E B
err thrown >>= f = err thrown
ok value >>= f = f value

abbrev pub ◌>>◌ {ℓ κ μ} :
    {E : Type κ} {A : Type ℓ} {B : Type μ} → Result E A → Result E B → Result E B
err thrown >> later = err thrown
ok value >> later = later

pub ok-injective {ℓ κ} :
    {E : Type κ} {A : Type ℓ} {a b : A} → ◌≡◌ {A = Result E A} (ok a) (ok b) → a ≡ b
ok-injective h = cc

-- A chain behind a test that returns passed the test.
pub guard-passes {ℓ κ} :
    {E : Type κ} {A : Type ℓ} (test : Bool) (e : E) (m : Result E A) (a : A)
    → (guard test e >> m) ≡ ok a
    → (test ≡ true) × (m ≡ ok a)
guard-passes true e m a h = (refl, h)
guard-passes false e m a h = absurd (cc)

-- A predicate on the value of a call that returns.
abbrev pub AllOk {ℓ κ μ} : {E : Type κ} {A : Type ℓ} → (A → Type μ) → Result E A → Type μ
AllOk P (err e) = Unit
AllOk P (ok a) = P a

pub AllOk-always {ℓ κ μ} :
    {E : Type κ} {A : Type ℓ} (P : A → Type μ) (m : Result E A) → ((a : A) → P a) → AllOk P m
AllOk-always P (err e) h = tt
AllOk-always P (ok a) h = h a

pub AllOk-then {ℓ κ μ ν ρ} :
    {E : Type κ} {A : Type ℓ} {B : Type ν} (P : A → Type μ) (Q : B → Type ρ) (m : Result E A)
    (next : A → Result E B)
    → AllOk P m
    → ((a : A) → P a → AllOk Q (next a))
    → AllOk Q (m >>= next)
AllOk-then P Q (err e) next p h = tt
AllOk-then P Q (ok a) next p h = h a p
