-- ===== src/Base/Lists.antt =====
-- Lists: the Boolean searches of JavaScript arrays, and predicates over lists.
use Prim.Native.Nat.{ℕ, suc}
use mathlib.Core.Path.{◌≡◌, refl}
use mathlib.Core.Bool.{Bool, true, false, ◌&&◌, ◌||◌}
use mathlib.Core.Logic.{◌⊎◌, ◌↔◌, inl, inr}
use native.Mathlib.Omega.{arith}
use mathlib.Core.Option.{Option, none, some}
use mathlib.Core.List.{List, [], ◌∷◌, ◌++◌}
use scim_bridge.Base.Tests.{if◌then◌else◌, Bool-cases, Eq, ◌==◌}

module _ {ℓ} {A : Type ℓ} where
  abbrev pub length : List A → ℕ
  length [] = 0
  length (x ∷ xs) = suc (length xs)

  -- `Array.prototype.find`
  abbrev pub find : (A → Bool) → List A → Option A
  find p [] = none
  find p (x ∷ xs) = if p x then some x else find p xs

  -- `Array.prototype.filter`
  abbrev pub keep : (A → Bool) → List A → List A
  keep p [] = []
  keep p (x ∷ xs) = let rest = keep p xs in if p x then x ∷ rest else rest

  abbrev pub any : (A → Bool) → List A → Bool
  any p [] = false
  any p (x ∷ xs) = p x || any p xs

  abbrev pub all : (A → Bool) → List A → Bool
  all p [] = true
  all p (x ∷ xs) = p x && all p xs

-- A `Set` of JavaScript: its values in the order added.
module _ {ℓ} {A : Type ℓ} ⦃e : Eq A⦄ where
  abbrev pub is_in : A → List A → Bool
  is_in a xs = any (λ x. x == a) xs

  -- `set.add(a)`
  abbrev pub add_new : A → List A → List A
  add_new a xs = if is_in a xs then xs else xs ++ a ∷ []

  abbrev pub add_all_new : List A → List A → List A
  add_all_new [] set = set
  add_all_new (a ∷ more) set = add_all_new more (add_new a set)

-- `new Set(xs)`
abbrev pub distinct {ℓ} : {A : Type ℓ} ⦃e : Eq A⦄ → List A → List A
distinct xs = add_all_new xs []

module _ {ℓ κ} {A : Type ℓ} where
  abbrev pub All : (A → Type κ) → List A → Type κ
  All P [] = Unit
  All P (x ∷ xs) = P x × All P xs

-- `In a xs` says where in `xs` the value stands.
abbrev pub In : {A : Type 0} → A → List A → Type 0
In a [] = ⊥
In a (x ∷ xs) = (a ≡ x) ⊎ In a xs

module _ {A : Type 0} (p : A → Bool) where
  In-cons : {a x : A} (xs : List A) → In a xs × (p a ≡ true) → In a (x ∷ xs) × (p a ≡ true)
  In-cons xs (i, e) = (inr i, e)

  In-keep_cons :
      {a x : A} (xs : List A)
      → p x ≡ true
      → (In a (keep p xs) → In a xs × (p a ≡ true))
      → In a (x ∷ keep p xs)
      → In a (x ∷ xs) × (p a ≡ true)
  In-keep_cons xs here ih (inl e) = (inl e, rw e here)
  In-keep_cons xs here ih (inr i) = In-cons xs (ih i)

  pub In-keep : (a : A) (xs : List A) → In a (keep p xs) → In a xs × (p a ≡ true)
  In-keep a [] h = elim h [ ]
  In-keep a (x ∷ xs) h =
      let ih : In a (keep p xs) → In a xs × (p a ≡ true) = In-keep a xs in
      elim (Bool-cases (p x)) [
        | inl here ↦ In-keep_cons xs here ih (rw here at h)
        | inr gone ↦ In-cons xs (ih (rw gone at h))
      ]

  pub keep-In : (a : A) (xs : List A) → In a xs → p a ≡ true → In a (keep p xs)
  keep-In a [] h e = h
  keep-In a (x ∷ xs) (inl i) e = rw (← i, e) (inl refl)
  keep-In a (x ∷ xs) (inr i) e = elim (Bool-cases (p x)) [
    | inl here ↦ rw here (inr (keep-In a xs i e))
    | inr gone ↦ rw gone (keep-In a xs i e)
  ]

-- A search finds nothing exactly if the test fails everywhere.
pub find-eq-none_iff :
    {A : Type 0} (p : A → Bool) (xs : List A) → (find p xs ≡ none) ↔ All (λ x. p x ≡ false) xs
find-eq-none_iff p [] = ((λ e. tt), (λ h. refl))
find-eq-none_iff p (x ∷ xs) = ground (arith, find-eq-none_iff p xs)
