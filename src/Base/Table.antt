-- ===== src/Base/Table.antt =====
-- A table of rows under a key: what the SQL statements of the datastore do to one table. A primary
-- key is the invariant `Unique`.
use mathlib.Core.Path.{◌≡◌, refl}
use mathlib.Core.Bool.{Bool}
use mathlib.Core.Logic.{inl, inr}
use mathlib.Core.Option
use mathlib.Core.Option.{Option, none, some}
use mathlib.Core.List.{List, [], ◌∷◌}
use native.Mathlib.Omega.{arith}
use scim_bridge.Base.Tests.{if◌then◌else◌, Eq, ◌==◌, beq_refl, Bool-cases}
use scim_bridge.Base.Lists.{keep, In}

abbrev pub kept : {R : Type 0} → (R → Bool) → Option R → Option R
kept p none = none
kept p (some x) = if p x then some x else none

abbrev pub or_fresh : {R : Type 0} → (R → R) → R → Option R → R
or_fresh f r none = r
or_fresh f r (some x) = f x

-- `UPDATE … WHERE p`
unfoldable pub update : {R : Type 0} → (R → Bool) → (R → R) → List R → List R
update p f [] = []
update p f (x ∷ xs) = (if p x then f x else x) ∷ update p f xs

module _ {K R : Type 0} ⦃e : Eq K⦄ (key : R → K) where
  -- `SELECT … WHERE key = k`, first row
  unfoldable pub lookup : K → List R → Option R
  lookup k [] = none
  lookup k (x ∷ xs) = if key x == k then some x else lookup k xs

  -- `INSERT r … ON CONFLICT (key) DO UPDATE` by `f`
  unfoldable pub upsert : (R → R) → R → List R → List R
  upsert f r [] = r ∷ []
  upsert f r (x ∷ xs) = if key x == key r then f x ∷ xs else x ∷ upsert f r xs

  -- `DELETE … WHERE key = k`
  unfoldable pub remove : K → List R → List R
  remove k [] = []
  remove k (x ∷ xs) = let rest = remove k xs in if key x == k then rest else x ∷ rest

  -- No two rows share a key.
  abbrev pub Unique : List R → Type 0
  Unique [] = Unit
  Unique (x ∷ xs) = (lookup (key x) xs ≡ none) × Unique xs

  pub lookup-upsert :
      (f : R → R) (r : R) (k : K) (xs : List R)
      → ((x : R) → key (f x) ≡ key x)
      → lookup k (upsert f r xs)
        ≡ (if key r == k then some (or_fresh f r (lookup (key r) xs)) else lookup k xs)
  unfolding lookup upsert
  lookup-upsert f r k [] same = ground arith
  lookup-upsert f r k (x ∷ xs) same = ground (
    arith,
    same x,
    e.beq_iff (key x) (key r),
    e.beq_iff (key x) k,
    e.beq_iff (key r) k,
    e.beq_iff (key (f x)) k,
    e.beq_iff (key (f x)) (key r),
    lookup-upsert f r k xs same,
  )

  pub lookup-update :
      (p : R → Bool) (f : R → R) (k : K) (xs : List R)
      → ((x : R) → key (f x) ≡ key x)
      → lookup k (update p f xs) ≡ Option.map (λ x. if p x then f x else x) (lookup k xs)
  unfolding lookup update
  lookup-update p f k [] same = refl
  lookup-update p f k (x ∷ xs) same = ground (arith, same x, lookup-update p f k xs same)

  pub lookup-remove :
      (j k : K) (xs : List R) → lookup k (remove j xs) ≡ (if j == k then none else lookup k xs)
  unfolding lookup remove
  lookup-remove j k [] = ground arith
  lookup-remove j k (x ∷ xs) =
      ground (arith, e.beq_iff (key x) j, e.beq_iff (key x) k, e.beq_iff j k, lookup-remove j k xs)

  pub remove-Unique : (j : K) (xs : List R) → Unique xs → Unique (remove j xs)
  unfolding remove
  remove-Unique j [] u = tt
  remove-Unique j (x ∷ xs) (fresh, u) =
      ground (arith, lookup-remove j (key x) xs, remove-Unique j xs u)

  pub lookup-keep :
      (p : R → Bool) (k : K) (xs : List R) → Unique xs → lookup k (keep p xs) ≡ kept p (lookup k xs)
  unfolding lookup
  lookup-keep p k [] u = refl
  lookup-keep p k (x ∷ xs) (fresh, u) = ground (arith, e.beq_iff (key x) k, lookup-keep p k xs u)

  pub upsert-Unique :
      (f : R → R) (r : R) (xs : List R)
      → ((x : R) → key (f x) ≡ key x)
      → Unique xs
      → Unique (upsert f r xs)
  unfolding upsert lookup
  upsert-Unique f r [] same u = (refl, tt)
  upsert-Unique f r (x ∷ xs) same (fresh, u) = ground (
    arith,
    same x,
    e.beq_iff (key x) (key r),
    e.beq_iff (key r) (key x),
    lookup-upsert f r (key x) xs same,
    upsert-Unique f r xs same u,
  )

  pub update-Unique :
      (p : R → Bool) (f : R → R) (xs : List R)
      → ((x : R) → key (f x) ≡ key x)
      → Unique xs
      → Unique (update p f xs)
  unfolding update
  update-Unique p f [] same u = tt
  update-Unique p f (x ∷ xs) same (fresh, u) =
      ground (arith, same x, lookup-update p f (key x) xs same, update-Unique p f xs same u)

  pub keep-Unique : (p : R → Bool) (xs : List R) → Unique xs → Unique (keep p xs)
  keep-Unique p [] u = tt
  keep-Unique p (x ∷ xs) (fresh, u) = ground (arith, lookup-keep p (key x) xs u, keep-Unique p xs u)

  pub key-lookup : (k : K) (xs : List R) {x : R} → lookup k xs ≡ some x → key x ≡ k
  unfolding lookup
  key-lookup k [] h = cc
  key-lookup k (y ∷ xs) {x} h = ground (arith, e.beq_iff (key y) k, key-lookup k xs {x = x})

  pub In-lookup : (x : R) (xs : List R) → Unique xs → In x xs → lookup (key x) xs ≡ some x
  unfolding lookup
  In-lookup x [] u i = elim i [ ]
  In-lookup x (y ∷ xs) u (inl i) = rw (← i, beq_refl (key x))
  In-lookup x (y ∷ xs) (fresh, u) (inr i) =
      ground (arith, e.beq_iff (key y) (key x), In-lookup x xs u i)

  pub lookup-In : (k : K) (xs : List R) {x : R} → lookup k xs ≡ some x → In x xs
  unfolding lookup
  lookup-In k [] h = cc
  lookup-In k (y ∷ xs) {x} h = elim (Bool-cases (key y == k)) [
    | inl here ↦ inl (ground arith)
    | inr gone ↦ inr (lookup-In k xs (rw gone at h))
  ]

  pub lookup-cons : (x : R) (xs : List R) → lookup (key x) (x ∷ xs) ≡ some x
  unfolding lookup
  lookup-cons x xs = rw (beq_refl (key x))
