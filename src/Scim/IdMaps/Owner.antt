-- ===== src/Scim/IdMaps/Owner.antt =====
-- Translation by the maps of `loadIdMaps` (workers/shared/scim.ts) against the stored mappings.
use scim_bridge.Base.{
  String, ◌≡◌, refl, sym, ◌∙◌, ap, ◌⊎◌, inl, inr, Bool, true, false, Option, some, List, [], ◌∷◌,
  not, ◌&&◌, ◌==◌, string_eq, keep, eq_iff, arith, In, In-keep, keep-In,
}
use scim_bridge.Base.Result.{ok, ok_inj, ok_of_guard, >>=-eq-ok}
use scim_bridge.Types.{ResourceType, users, groups, kind_eq, kind_beq_iff, IdMapping}
use scim_bridge.Mappings.{ambiguous}
use scim_bridge.Scim.IdMaps.{
  IdMap, map_get, IdTranslationMaps, empty_maps, no_maps, contains, load_rows, maps_of,
  is_unambiguous, load_id_maps, checked_get, to_workos, to_native, or_same,
}
use scim_bridge.Scim.IdMaps.Loop.{
  map_get-empty, load_kind, maps_of-load_rows, load_kind-Owned, load_kind-reverse,
  load_kind-forward, load_kind-listed, Listed,
}

-- `id_mappings` holds this pair for the directory and resource type.
abbrev pub Stored : List IdMapping → String → ResourceType → String → String → Type 0
Stored rows directory kind native workos =
    (row : IdMapping) × In row rows
    × (row.directory_id ≡ directory)
    × (row.resource_type ≡ kind)
    × (row.native_id ≡ native)
    × (row.workos_id ≡ workos)

abbrev relevant : String → ResourceType → List IdMapping → List IdMapping
relevant directory kind rows =
    keep (λ row. row.resource_type == kind) (keep (λ row. row.directory_id == directory) rows)

module _ (rows : List IdMapping) (directory : String) (kind : ResourceType) where
  Stored-of_Listed :
      (native workos : String)
      → Listed (relevant directory kind rows) native workos
      → Stored rows directory kind native workos
  Stored-of_Listed native workos (row, i, p, q) =
      let (j, k) =
        In-keep (λ x. x.resource_type == kind) row (keep (λ x. x.directory_id == directory) rows)
          i in
      let (l, d) = In-keep (λ x. x.directory_id == directory) row rows j in
      (
        row,
        l,
        (eq_iff row.directory_id directory).0 d,
        (kind_beq_iff row.resource_type kind).0 k,
        p,
        q,
      )

  Listed-of_Stored :
      (native workos : String)
      → Stored rows directory kind native workos
      → Listed (relevant directory kind rows) native workos
  Listed-of_Stored native workos (row, i, d, k, p, q) = (
    row,
    keep-In (λ x. x.resource_type == kind) row (keep (λ x. x.directory_id == directory) rows)
        (keep-In (λ x. x.directory_id == directory) row rows i
          ((eq_iff row.directory_id directory).1 d))
        ((kind_beq_iff row.resource_type kind).1 k),
    p,
    q,
  )

  loaded_all :
      (strict : Bool) (maps : IdTranslationMaps)
      → load_id_maps directory strict rows ≡ ok maps
      → ((strict && not (is_unambiguous maps.for_users && is_unambiguous maps.for_groups)) ≡ false)
        × (load_rows (keep (λ row. row.directory_id == directory) rows) no_maps ≡ maps)
  unfolding load_id_maps
  loaded_all strict maps loaded =
      let all = load_rows (keep (λ row. row.directory_id == directory) rows) no_maps in
      let (open_, same) =
        ok_of_guard (strict && not (is_unambiguous all.for_users && is_unambiguous all.for_groups))
          ambiguous all loaded in
      (rw (← same) open_, same)

  maps_of-no_maps : maps_of kind no_maps ≡ empty_maps
  maps_of-no_maps = elim kind as (λ k. maps_of k no_maps ≡ empty_maps) [
    | users ↦ refl
    | groups ↦ refl
  ]

  module _ (strict : Bool) (maps : IdTranslationMaps)
      (loaded : load_id_maps directory strict rows ≡ ok maps) where
    loaded_maps : maps_of kind maps ≡ load_kind (relevant directory kind rows) empty_maps
    loaded_maps =
        let (_, same) = loaded_all strict maps loaded in
        rw (← same) (
          maps_of-load_rows kind (keep (λ row. row.directory_id == directory) rows) no_maps
          ∙ ap (load_kind (relevant directory kind rows)) maps_of-no_maps)

    -- A stored WorkOS id has an owner in the reverse map, and that is its one native id or every
    -- native id stored for it is contested.
    owner_of_Stored :
        (native workos : String)
        → Stored rows directory kind native workos
        → (n : String) × (map_get workos (maps_of kind maps).workos_to_native ≡ some n)
          × ((n ≡ native)
              ⊎ ((contains workos (maps_of kind maps).ambiguous_ids ≡ true)
                  × (contains native (maps_of kind maps).ambiguous_ids ≡ true)))
    owner_of_Stored native workos stored =
        let (row, i, p, q) = Listed-of_Stored native workos stored in
        rw (loaded_maps, ← p, ← q) (load_kind-Owned (relevant directory kind rows) empty_maps row i)

    reverse-Stored :
        (native workos : String)
        → map_get workos (maps_of kind maps).workos_to_native ≡ some native
        → Stored rows directory kind native workos
    reverse-Stored native workos h =
        elim (load_kind-reverse (relevant directory kind rows) empty_maps workos native
          (rw loaded_maps at h)) [
            | inl none_yet ↦ cc (map_get-empty workos)
            | inr listed ↦ Stored-of_Listed native workos listed
          ]

    forward-Stored :
        (native workos : String)
        → map_get native (maps_of kind maps).native_to_workos ≡ some workos
        → Stored rows directory kind native workos
    forward-Stored native workos h =
        elim (load_kind-forward (relevant directory kind rows) empty_maps native workos
          (rw loaded_maps at h)) [
            | inl none_yet ↦ cc (map_get-empty native)
            | inr listed ↦ Stored-of_Listed native workos listed
          ]

    forward_of_Stored :
        (native workos : String)
        → Stored rows directory kind native workos
        → (t : String) × (map_get native (maps_of kind maps).native_to_workos ≡ some t)
    forward_of_Stored native workos stored =
        let (row, i, p, q) = Listed-of_Stored native workos stored in
        rw (loaded_maps, ← p) (load_kind-listed (relevant directory kind rows) empty_maps row i)

    checked_some :
        (ids : List String) (m : IdMap) (id : String) {o : Option String}
        → checked_get ids m id ≡ ok o
        → (contains id ids ≡ false) × (map_get id m ≡ o)
    unfolding checked_get
    checked_some ids m id h = ok_of_guard (contains id ids) ambiguous (map_get id m) h

    -- In the maps that a load gave, strict or not, a WorkOS id that the reverse map answers with a
    -- native id is stored with that native id in the directory, and with no other.
    pub checked_get-owner :
        (workos native : String)
        → checked_get (maps_of kind maps).ambiguous_ids (maps_of kind maps).workos_to_native workos
          ≡ ok (some native)
        → Stored rows directory kind native workos
          × ((other : String) → Stored rows directory kind other workos → other ≡ native)
    checked_get-owner workos native h =
        let (clear, found) =
          checked_some (maps_of kind maps).ambiguous_ids (maps_of kind maps).workos_to_native workos
            h in
        (
          reverse-Stored native workos found,
          λ other stored. ground (arith, owner_of_Stored other workos stored),
        )

    -- A stored native id is translated to a WorkOS id that is stored with it.
    pub to_workos-Stored :
        (native workos there : String)
        → Stored rows directory kind native workos
        → to_workos maps kind native ≡ ok there
        → Stored rows directory kind native there
    unfolding to_workos
    to_workos-Stored native workos there stored went =
        let m = maps_of kind maps in
        let (o, got, same) =
          >>=-eq-ok (checked_get m.ambiguous_ids m.native_to_workos native)
            (λ found. ok (or_same native found)) went in
        let (clear, found) = checked_some m.ambiguous_ids m.native_to_workos native got in
        let (t, has) = forward_of_Stored native workos stored in
        let there_t : there ≡ t = sym (ok_inj same) ∙ ap (or_same native) (sym found ∙ has) in
        rw there_t (forward-Stored native t has)

    -- In the maps that a load gave, strict or not, a stored native id that is translated to a WorkOS id
    -- and back is itself again, whenever neither translation is refused.
    pub to_native-to_workos :
        (native workos there back : String)
        → Stored rows directory kind native workos
        → to_workos maps kind native ≡ ok there
        → to_native maps kind there ≡ ok back
        → back ≡ native
    unfolding to_workos to_native
    to_native-to_workos native workos there back stored went came =
        let m = maps_of kind maps in
        let (o, got, same) =
          >>=-eq-ok (checked_get m.ambiguous_ids m.native_to_workos native)
            (λ found. ok (or_same native found)) went in
        let (clear, found) = checked_some m.ambiguous_ids m.native_to_workos native got in
        let (t, has) = forward_of_Stored native workos stored in
        let there_t : there ≡ t = sym (ok_inj same) ∙ ap (or_same native) (sym found ∙ has) in
        let (o', got', same') =
          >>=-eq-ok (checked_get m.ambiguous_ids m.workos_to_native there)
            (λ found. ok (or_same there found)) came in
        let (clear', found') = checked_some m.ambiguous_ids m.workos_to_native there got' in
        let (n, owner, whose) = owner_of_Stored native t (forward-Stored native t has) in
        let back_n : back ≡ n =
          sym (ok_inj same')
          ∙ ap (or_same there)
              (sym found' ∙ ap (λ w. map_get w m.workos_to_native) there_t ∙ owner) in
        elim whose [ inl own ↦ back_n ∙ own | inr (_, contested) ↦ cc ]

unambiguous-contains :
    (ids : List String) (id : String)
    → elim ids [ [] ↦ true | x ∷ xs ↦ false ] ≡ true
    → contains id ids ≡ false
unambiguous-contains [] id e = refl
unambiguous-contains (x ∷ xs) id e = cc

strict_clear :
    (kind : ResourceType) (maps : IdTranslationMaps)
    → not (is_unambiguous maps.for_users && is_unambiguous maps.for_groups) ≡ false
    → is_unambiguous (maps_of kind maps) ≡ true
strict_clear users maps h = ground arith
strict_clear groups maps h = ground arith

-- The maps of a strict load contest no id.
pub strict-contains :
    (rows : List IdMapping) (directory : String) (maps : IdTranslationMaps) (kind : ResourceType)
    (id : String)
    → load_id_maps directory true rows ≡ ok maps
    → contains id (maps_of kind maps).ambiguous_ids ≡ false
strict-contains rows directory maps kind id loaded =
    let (passed, _) = loaded_all rows directory kind true maps loaded in
    unambiguous-contains (maps_of kind maps).ambiguous_ids id (strict_clear kind maps passed)

-- Where a strict load succeeds, no WorkOS id is stored with two native ids of one directory and
-- resource type.
pub load_id_maps-strict :
    (rows : List IdMapping) (directory : String) (kind : ResourceType) (maps : IdTranslationMaps)
    (workos one other : String)
    → load_id_maps directory true rows ≡ ok maps
    → Stored rows directory kind one workos
    → Stored rows directory kind other workos
    → one ≡ other
load_id_maps-strict rows directory kind maps workos one other loaded p q =
    let (passed, _) = loaded_all rows directory kind true maps loaded in
    let clear = strict_clear kind maps passed in
    ground (
      arith,
      unambiguous-contains (maps_of kind maps).ambiguous_ids workos clear,
      owner_of_Stored rows directory kind true maps loaded one workos p,
      owner_of_Stored rows directory kind true maps loaded other workos q,
    )
