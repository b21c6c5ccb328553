-- ===== src/Base/Result.antt =====
-- Code that throws: a result is a value or the error thrown.

use mathlib.Core.Path.{◌≡◌, refl}
use mathlib.Core.Bool.{Bool, true, false}
use scim_bridge.Base.Tests.{if◌then◌else◌}

pub data Result (E A : Type 0) : Type 0 where
  ok : A → Result E A
  err : E → Result E A

infixl 5 ◌>>=◌
abbrev pub ◌>>=◌ : {E A B : Type 0} → Result E A → (A → Result E B) → Result E B
ok x >>= next = next x
err e >>= next = err e

pub >>=-eq-ok :
    {E A B : Type 0} (first : Result E A) (next : A → Result E B) {y : B}
    → (first >>= next) ≡ ok y
    → (x : A) × (first ≡ ok x) × (next x ≡ ok y)
>>=-eq-ok (ok x) next h = (x, refl, h)
>>=-eq-ok (err e) next h = cc

pub ok_inj : {E A : Type 0} {a b : A} → ◌≡◌ {A = Result E A} (ok a) (ok b) → a ≡ b
ok_inj h = cc

-- A guard that throws: its test failed, and the value is what was returned.
pub ok_of_guard :
    {E A : Type 0} (b : Bool) (e : E) (x : A) {y : A}
    → ◌≡◌ {A = Result E A} (if b then err e else ok x) (ok y)
    → (b ≡ false) × (x ≡ y)
ok_of_guard true e x h = cc
ok_of_guard false e x h = (refl, ok_inj h)
