-- ===== src/Base/TextOrder.antt =====
-- The order of texts by their characters, in which ISO-8601 timestamps of one format are in the
-- order of time.
use Prim.Native.Char.{code}
use Prim.Native.String.{String, [], ◌∷◌}
use mathlib.Core.Path.{◌≡◌, refl}
use mathlib.Core.Bool.{Bool, true, false}
use native.Mathlib.Omega.{arith}
use scim_bridge.Base.Tests.{ltb, if◌then◌else◌}

-- `a < b`
unfoldable pub before : String → String → Bool
before [] [] = false
before [] (d ∷ t) = true
before (c ∷ s) [] = false
before (c ∷ s) (d ∷ t) =
    let rest = before s t in
    if ltb (code c) (code d) then true else if ltb (code d) (code c) then false else rest

pub before_irrefl : (a : String) → before a a ≡ false
unfolding before
before_irrefl [] = refl
before_irrefl (c ∷ s) = ground (arith, before_irrefl s)

pub before_asymm : (a b : String) → before a b ≡ true → before b a ≡ false
unfolding before
before_asymm [] [] h = refl
before_asymm [] (d ∷ t) h = refl
before_asymm (c ∷ s) [] h = cc
before_asymm (c ∷ s) (d ∷ t) h = ground (arith, before_asymm s t)

-- What is not before a text that is not before a third is not before the third.
pub not_before_trans :
    (a b c : String) → before a b ≡ false → before b c ≡ false → before a c ≡ false
unfolding before
not_before_trans [] [] c g h = h
not_before_trans [] (b ∷ s) c g h = cc
not_before_trans (a ∷ r) b [] g h = refl
not_before_trans (a ∷ r) [] (c ∷ t) g h = cc
not_before_trans (a ∷ r) (b ∷ s) (c ∷ t) g h = ground (arith, not_before_trans r s t)
