-- ===== src/Mappings/Owner.antt =====
-- Reads of `id_mappings` by WorkOS id (workers/shared/db.ts).
use scim_bridge.Base.{
  String, ◌≡◌, ◌≢◌, refl, sym, ◌∙◌, ap, true, Option, none, some, List, [], ◌∷◌, arith, string_eq,
  pair_eq, Unique, inl, inr, eq_iff, keep, In, In-keep, keep-In, In-lookup, lookup-In, key-lookup,
  lookup-cons, keep-Unique, lookup,
}
use scim_bridge.Base.Result.{Result, ok, err}
use scim_bridge.Types.{ResourceType, kind_eq, kind_beq_iff, IdMapping}
use scim_bridge.Mappings.{
  Ambiguous, ambiguous, MappingKey, mapping_key, owns_workos_id, at_most_one, get_mapping,
  get_mapping_by_workos_id,
}
use scim_bridge.Mappings.Lookup.{IsKeyed}

module _ (directory : String) (kind : ResourceType) (workos : String) (rows : List IdMapping) where
  -- `m` is stored, under its native id, as a holder of the WorkOS id.
  abbrev pub Holds : IdMapping → Type 0
  Holds m = (get_mapping directory kind m.native_id rows ≡ some m) × (m.workos_id ≡ workos)

  -- What each answer of a read by WorkOS id says about the table.
  abbrev pub Answers : Result Ambiguous (Option IdMapping) → Type 0
  Answers (ok none) = (m : IdMapping) → ¬ Holds m
  Answers (ok (some m)) = Holds m × ((n : IdMapping) → Holds n → n ≡ m)
  Answers (err ambiguous) =
      (m : IdMapping) × (n : IdMapping) × Holds m × Holds n × (m.native_id ≢ n.native_id)

  owns_fields :
      (m : IdMapping)
      → owns_workos_id directory kind workos m ≡ true
      → (mapping_key m ≡ (directory, (kind, m.native_id))) × (m.workos_id ≡ workos)
  owns_fields m h = ground (
    arith,
    eq_iff m.directory_id directory,
    kind_beq_iff m.resource_type kind,
    eq_iff m.workos_id workos,
  )

  owns_of_fields :
      (m : IdMapping)
      → mapping_key m ≡ (directory, (kind, m.native_id))
      → m.workos_id ≡ workos
      → owns_workos_id directory kind workos m ≡ true
  owns_of_fields m h e = ground (
    arith,
    eq_iff m.directory_id directory,
    kind_beq_iff m.resource_type kind,
    eq_iff m.workos_id workos,
  )

  Holds-of_In :
      (m : IdMapping)
      → IsKeyed rows
      → In m (keep (owns_workos_id directory kind workos) rows)
      → Holds m
  unfolding get_mapping
  Holds-of_In m u i =
      let (stored, owns) = In-keep (owns_workos_id directory kind workos) m rows i in
      let (same, held) = owns_fields m owns in
      (rw (← same) (In-lookup mapping_key m rows u stored), held)

  In-of_Holds : (m : IdMapping) → Holds m → In m (keep (owns_workos_id directory kind workos) rows)
  unfolding get_mapping
  In-of_Holds m (stored, held) =
      let k : MappingKey = (directory, (kind, m.native_id)) in
      keep-In (owns_workos_id directory kind workos) m rows (lookup-In mapping_key k rows stored)
        (owns_of_fields m (key-lookup mapping_key k rows stored) held)

  Holds-key : (m : IdMapping) → Holds m → mapping_key m ≡ (directory, (kind, m.native_id))
  unfolding get_mapping
  Holds-key m (stored, held) =
      key-lookup mapping_key (let k : MappingKey = (directory, (kind, m.native_id)) in k) rows
        stored

  Answers-at_most_one :
      (found : List IdMapping)
      → Unique mapping_key found
      → ((m : IdMapping) → In m found → Holds m)
      → ((m : IdMapping) → Holds m → In m found)
      → Answers (at_most_one found)
  Answers-at_most_one [] u sound complete = complete
  Answers-at_most_one (m ∷ []) u sound complete = (sound m (inl refl), λ n h. only (complete n h))
    where
      only : {n : IdMapping} → In n (m ∷ []) → n ≡ m
      only (inl e) = e
      only (inr i) = elim i [ ]
  Answers-at_most_one (m ∷ n ∷ rest) (fresh, u) sound complete =
      let held_m = sound m (inl refl) in
      let held_n = sound n (inr (inl refl)) in
      (m, n, held_m, held_n, λ same. apart held_m held_n same)
    where
      apart : Holds m → Holds n → m.native_id ≢ n.native_id
      apart held_m held_n same =
          let to_n : mapping_key m ≡ mapping_key n =
            Holds-key m held_m ∙ ap (λ i. (directory, (kind, i))) same ∙ sym (Holds-key n held_n) in
          let found : lookup mapping_key (mapping_key m) (n ∷ rest) ≡ some n =
            rw to_n (lookup-cons mapping_key n rest) in
          cc (fresh, found)

  -- In a table without repeated keys, a read by WorkOS id answers with the one mapping that holds the
  -- id, with none only if no mapping holds it, and it fails only if two native ids hold it.
  pub get_by_workos_id-Answers :
      IsKeyed rows → Answers (get_mapping_by_workos_id directory kind workos rows)
  unfolding get_mapping_by_workos_id
  get_by_workos_id-Answers u =
      Answers-at_most_one (keep (owns_workos_id directory kind workos) rows)
        (keep-Unique mapping_key (owns_workos_id directory kind workos) rows u)
        (λ m i. Holds-of_In m u i) In-of_Holds
