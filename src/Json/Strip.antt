-- ===== src/Json/Strip.antt =====
-- `stripNulls` of workers/shared/scim.ts. An assignment to the key `__proto__` of a plain object adds no
-- key, so that an own key of that name, which `JSON.parse` can give, is lost. A value is its own keys:
-- the prototype that such an assignment sets is none of them.
use scim_bridge.Base.{
  String, ◌≡◌, ◌≢◌, refl, ap, ◌∙◌, ◌↔◌, ◌==◌, string_eq, eq_iff, Bool-cases, inl, inr,
  if◌then◌else◌, arith, beq-eq-false_of_ne,
}
use scim_bridge.Json.{Value, null, arr, obj, Items, nil, cons, Fields, end, field}

-- `stripped[key] = value`, in front of the keys that follow.
abbrev pub assign : String → Value → Fields → Fields
assign key value fs = if key == "__proto__" then fs else field key value fs

unfoldable mutual
  pub strip_nulls : Value → Value
  strip_nulls (arr xs) = arr (strip_items xs)
  strip_nulls (obj fs) = obj (strip_fields fs)
  strip_nulls v = v

  pub strip_items : Items → Items
  strip_items nil = nil
  strip_items (cons x xs) = cons (strip_nulls x) (strip_items xs)

  pub strip_fields : Fields → Fields
  strip_fields end = end
  strip_fields (field k null fs) = strip_fields fs
  strip_fields (field k v fs) = assign k (strip_nulls v) (strip_fields fs)

-- Neither an array nor an object.
abbrev pub IsFlat : Value → Type 0
IsFlat (arr xs) = ⊥
IsFlat (obj fs) = ⊥
IsFlat v = Unit

-- No object inside the value has a key whose value is null, or the key `__proto__`.
mutual
  pub data IsClean : Value → Type 0 where
    flat : (v : Value) → IsFlat v → IsClean v
    list : {xs : Items} → CleanItems xs → IsClean (arr xs)
    object : {fs : Fields} → CleanFields fs → IsClean (obj fs)

  pub data CleanItems : Items → Type 0 where
    no_items : CleanItems nil
    item : {x : Value} {xs : Items} → IsClean x → CleanItems xs → CleanItems (cons x xs)

  pub data CleanFields : Fields → Type 0 where
    no_keys : CleanFields end
    kept :
        (k : String) {v : Value} {fs : Fields}
        → k ≢ "__proto__"
        → v ≢ null
        → IsClean v
        → CleanFields fs
        → CleanFields (field k v fs)

strip-ne-null : (v : Value) → v ≢ null → strip_nulls v ≢ null
unfolding strip_nulls
strip-ne-null null h = h
strip-ne-null (arr xs) h = λ e. cc
strip-ne-null (obj fs) h = λ e. cc
strip-ne-null _ h = h

strip_fields-field :
    (k : String) (v : Value) (fs : Fields)
    → v ≢ null
    → strip_fields (field k v fs) ≡ assign k (strip_nulls v) (strip_fields fs)
unfolding strip_fields
strip_fields-field k null fs h = absurd (h refl)
strip_fields-field k _ fs h = refl

assign-CleanFields :
    (k : String) (v : Value) (fs : Fields)
    → v ≢ null
    → IsClean v
    → CleanFields fs
    → CleanFields (assign k v fs)
assign-CleanFields k v fs h c cs = elim (Bool-cases (k == "__proto__")) [
  | inl lost ↦ rw lost cs
  | inr stays ↦ rw stays (kept k (λ same. ground (arith, eq_iff k "__proto__")) h c cs)
]

assign-field :
    (k : String) (v : Value) (fs : Fields) → k ≢ "__proto__" → assign k v fs ≡ field k v fs
assign-field k v fs h = rw (beq-eq-false_of_ne k "__proto__" h) refl

mutual
  unfolding strip_nulls strip_items strip_fields

  IsClean-value : (v : Value) → IsClean (strip_nulls v)
  IsClean-value (arr xs) = list (clean_items xs)
  IsClean-value (obj fs) = object (clean_fields fs)
  IsClean-value null = flat null tt
  IsClean-value v = flat v tt

  clean_items : (xs : Items) → CleanItems (strip_items xs)
  clean_items nil = no_items
  clean_items (cons x xs) = item (IsClean-value x) (clean_items xs)

  clean_fields : (fs : Fields) → CleanFields (strip_fields fs)
  clean_fields end = no_keys
  clean_fields (field k null fs) = clean_fields fs
  clean_fields (field k v fs) =
      assign-CleanFields k (strip_nulls v) (strip_fields fs) (strip-ne-null v (λ e. cc))
        (IsClean-value v) (clean_fields fs)

mutual
  unfolding strip_nulls strip_items strip_fields

  fixed_value : {v : Value} → IsClean v → strip_nulls v ≡ v
  fixed_value (flat (arr xs) h) = absurd h
  fixed_value (flat (obj fs) h) = absurd h
  fixed_value (flat v h) = refl
  fixed_value (list c) = ap arr (fixed_items c)
  fixed_value (object c) = ap obj (fixed_fields c)

  fixed_items : {xs : Items} → CleanItems xs → strip_items xs ≡ xs
  fixed_items no_items = refl
  fixed_items (item c cs) = cc (fixed_value c, fixed_items cs)

  fixed_fields : {fs : Fields} → CleanFields fs → strip_fields fs ≡ fs
  fixed_fields no_keys = refl
  fixed_fields (kept k {v} {fs} named h c cs) =
      strip_fields-field k v fs h
      ∙ assign-field k (strip_nulls v) (strip_fields fs) named
      ∙ cc (fixed_value c, fixed_fields cs)

-- Stripping leaves no key with a null value, at any depth of objects and arrays, and no key
-- `__proto__`.
pub strip_nulls-IsClean : (v : Value) → IsClean (strip_nulls v)
strip_nulls-IsClean v = IsClean-value v

-- A value is left as it is exactly if at any depth it has no key with a null value and no key
-- `__proto__`, so empty objects and arrays and the null elements of arrays stay.
pub strip_nulls-eq_iff : (v : Value) → (strip_nulls v ≡ v) ↔ IsClean v
strip_nulls-eq_iff v = (λ e. rw e at (IsClean-value v), fixed_value)
