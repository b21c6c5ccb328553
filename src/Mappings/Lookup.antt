-- ===== src/Mappings/Lookup.antt =====
-- Reads of `id_mappings` by native id (workers/shared/db.ts) after its writes.
use scim_bridge.Base.{
  String, ◌≡◌, refl, ap, Option, none, some, List, [], ◌∷◌, arith, ◌==◌, string_eq, pair_eq,
  if◌then◌else◌, lookup, Unique, lookup-upsert, lookup-remove, remove-Unique, upsert-Unique,
  key-lookup, Option-cases, inl, inr, or_fresh,
}
use scim_bridge.Types.{ResourceType, kind_eq, IdMapping}
use scim_bridge.Mappings.{
  MappingKey, mapping_key, overwrite, get_mapping, upsert_mapping, upsert_mappings, delete_mapping,
}

-- The primary key of the table holds.
abbrev pub IsKeyed : List IdMapping → Type 0
IsKeyed rows = Unique mapping_key rows

overwrite_eq :
    (m x : IdMapping)
    → x.directory_id ≡ m.directory_id
    → x.resource_type ≡ m.resource_type
    → x.native_id ≡ m.native_id
    → overwrite m x ≡ m
overwrite_eq m x p q r = ground arith

module _ (m : IdMapping) (rows : List IdMapping) where
  or_fresh-overwrite : or_fresh (overwrite m) m (lookup mapping_key (mapping_key m) rows) ≡ m
  or_fresh-overwrite = elim (Option-cases (lookup mapping_key (mapping_key m) rows)) [
    | inl fresh ↦ rw fresh
    | inr (x, old) ↦
        let same = key-lookup mapping_key (mapping_key m) rows old in
        rw old (overwrite_eq m x (ap (λ k. k.0) same) (ap (λ k. k.1.0) same) (ap (λ k. k.1.1) same))
  ]

  -- After a write the row of its key is what was written, and every other row is as before.
  pub get-upsert :
      (directory : String) (kind : ResourceType) (native : String)
      → get_mapping directory kind native (upsert_mapping m rows) ≡ (
          if mapping_key m == (directory, (kind, native))
          then some m
          else get_mapping directory kind native rows)
  unfolding get_mapping upsert_mapping
  get-upsert directory kind native =
      rw (lookup-upsert mapping_key (overwrite m) m (directory, (kind, native)) rows (λ x. refl))
        (rw or_fresh-overwrite)

  pub upsert_mapping-IsKeyed : IsKeyed rows → IsKeyed (upsert_mapping m rows)
  unfolding upsert_mapping
  upsert_mapping-IsKeyed = upsert-Unique mapping_key (overwrite m) m rows (λ x. refl)

-- The last row of a batch under a key, or what the table had.
abbrev pub last_written : MappingKey → List IdMapping → Option IdMapping → Option IdMapping
last_written k [] before = before
last_written k (m ∷ ms) before = last_written k ms (if mapping_key m == k then some m else before)

-- A batch leaves under each key the last row that it holds for that key, so a correction queued
-- after a first write wins, and keys that it does not name are as before.
pub get-upsert_mappings :
    (ms rows : List IdMapping) (directory : String) (kind : ResourceType) (native : String)
    → get_mapping directory kind native (upsert_mappings ms rows)
      ≡ last_written (directory, (kind, native)) ms (get_mapping directory kind native rows)
unfolding upsert_mappings
get-upsert_mappings [] rows directory kind native = refl
get-upsert_mappings (m ∷ ms) rows directory kind native =
    rw (get-upsert_mappings ms (upsert_mapping m rows) directory kind native)
      (rw (get-upsert m rows directory kind native))

pub upsert_mappings-IsKeyed :
    (ms rows : List IdMapping) → IsKeyed rows → IsKeyed (upsert_mappings ms rows)
unfolding upsert_mappings
upsert_mappings-IsKeyed [] rows h = h
upsert_mappings-IsKeyed (m ∷ ms) rows h =
    upsert_mappings-IsKeyed ms (upsert_mapping m rows) (upsert_mapping-IsKeyed m rows h)

module _ (directory : String) (kind : ResourceType) (native : String) (rows : List IdMapping) where
  -- A delete removes the row of its key and no other.
  pub get-delete :
      (d : String) (k : ResourceType) (n : String)
      → get_mapping d k n (delete_mapping directory kind native rows) ≡ (
          if ◌==◌ {A = MappingKey} (directory, (kind, native)) (d, (k, n))
          then none
          else get_mapping d k n rows)
  unfolding get_mapping delete_mapping
  get-delete d k n = lookup-remove mapping_key (directory, (kind, native)) (d, (k, n)) rows

  pub delete_mapping-IsKeyed : IsKeyed rows → IsKeyed (delete_mapping directory kind native rows)
  unfolding delete_mapping
  delete_mapping-IsKeyed = remove-Unique mapping_key (directory, (kind, native)) rows
