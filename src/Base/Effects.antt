-- ===== src/Base/Effects.antt =====
-- Code that passes a state and throws: what was done to the state before a throw stays done.
use mathlib.Core.Option.{Option, none, some}
use mathlib.Core.Path.{◌≡◌, refl}
use mathlib.Core.Bool.{Bool, true, false}
use scim_bridge.Base.Tests.{if◌then◌else◌}
use scim_bridge.Base.Result.{Result, ok, err}

abbrev pub Effect : Type 0 → Type 0 → Type 0 → Type 0
Effect S E A = S → Result E A × S

abbrev pub pure : {S E A : Type 0} → A → Effect S E A
pure a s = (ok a, s)

abbrev pub throw : {S E A : Type 0} → E → Effect S E A
throw e s = (err e, s)

abbrev pub continue : {S E A B : Type 0} → Result E A × S → (A → Effect S E B) → Result E B × S
continue (ok a, s) next = next a s
continue (err e, s) next = (err e, s)

infixl 5 ◌>>=◌ ◌>>◌
abbrev pub ◌>>=◌ : {S E A B : Type 0} → Effect S E A → (A → Effect S E B) → Effect S E B
◌>>=◌ m next s = continue (m s) next

abbrev pub ◌>>◌ : {S E A B : Type 0} → Effect S E A → Effect S E B → Effect S E B
m >> n = m >>= λ _. n

-- A computed result, thrown or returned.
abbrev pub result : {S E A : Type 0} → Result E A → Effect S E A
result r s = (r, s)

-- `value ?? (() => { throw e })()`
abbrev pub or_throw : {S E A : Type 0} → E → Option A → Effect S E A
or_throw e none = throw e
or_throw e (some a) = pure a

-- What both parts of a sequence preserve, the sequence preserves, whether or not it throws.
pub continue-Keeps :
    {S E A B : Type 0} (P : S → Type 0) (r : Result E A × S) (next : A → Effect S E B)
    → P r.1
    → ((a : A) → (s : S) → r ≡ (ok a, s) → P s → P (next a s).1)
    → P (continue r next).1
continue-Keeps P (ok a, s) next holds rest = rest a s refl holds
continue-Keeps P (err e, s) next holds rest = holds

-- What holds of both branches holds of a conditional.
pub if-Posts {ℓ} :
    {A : Type ℓ} (P : A → Type 0) (b : Bool) (x y : A)
    → (b ≡ true → P x)
    → (b ≡ false → P y)
    → P (if b then x else y)
if-Posts P true x y holds rest = holds refl
if-Posts P false x y holds rest = rest refl

-- A claim about the end of a sequence, by how its first part ends.
pub continue-Posts :
    {S E A B : Type 0} (P : Result E B × S → Type 0) (r : Result E A) (s : S)
    (next : A → Effect S E B)
    → ((e : E) → P (err e, s))
    → ((a : A) → r ≡ ok a → P (next a s))
    → P (continue (r, s) next)
continue-Posts P (ok a) s next failed rest = rest a refl
continue-Posts P (err e) s next failed rest = failed e
