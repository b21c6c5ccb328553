-- ===== src/Scim/IdMaps/Loop.antt =====
-- The loop of `loadIdMaps` (workers/shared/scim.ts), one resource type at a time.
use scim_bridge.Base.{
  String, ◌≡◌, refl, ◌⊎◌, inl, inr, true, Option, none, some, List, [], ◌∷◌, ◌==◌, string_eq, keep,
  lookup, if◌then◌else◌, eq_iff, beq_refl, arith, In, lookup-upsert, Bool-cases, Option-cases,
}
use scim_bridge.Types.{ResourceType, kind_eq, IdMapping}
use scim_bridge.Scim.IdMaps.{
  IdMap, entry_key, map_get, map_set, KindMaps, IdTranslationMaps, contains, load_owned, load_row,
  load_into, load_rows, maps_of,
}

pub map_get-empty : (id : String) → map_get id [] ≡ none
unfolding map_get lookup
map_get-empty id = refl

-- `Map.get` after `Map.set`
pub map_get-set :
    (id value other : String) (m : IdMap)
    → map_get other (map_set id value m) ≡ (if id == other then some value else map_get other m)
unfolding map_get map_set
map_get-set id value other m =
    rw (lookup-upsert entry_key (λ p. (p.0, value)) (id, value) other m (λ p. refl))
      (elim (Option-cases (lookup entry_key id m)) [
        | inl fresh ↦ rw fresh (ground arith)
        | inr (p, old) ↦ rw old (ground arith)
      ])

unfoldable pub load_kind : List IdMapping → KindMaps → KindMaps
load_kind [] m = m
load_kind (row ∷ rows) m = load_kind rows (load_row row m)

-- The loop treats each resource type by itself.
pub maps_of-load_rows :
    (kind : ResourceType) (rows : List IdMapping) (maps : IdTranslationMaps)
    → maps_of kind (load_rows rows maps)
      ≡ load_kind (keep (λ row. row.resource_type == kind) rows) (maps_of kind maps)
unfolding load_rows load_kind
maps_of-load_rows kind [] maps = refl
maps_of-load_rows kind (row ∷ rows) maps =
    ground (arith, maps_of-load_rows kind rows (load_into row.resource_type row maps))

module _ (row : IdMapping) (m : KindMaps) where
  kept_reverse :
      (o : Option String) (w n : String)
      → map_get row.workos_id m.workos_to_native ≡ o
      → map_get w m.workos_to_native ≡ some n
      → map_get w (load_owned o row m).workos_to_native ≡ some n
  kept_reverse (some owner) w n e h = h
  kept_reverse none w n e h = elim (Bool-cases (row.workos_id == w)) [
    | inl same ↦
        let clash : map_get w m.workos_to_native ≡ none =
          rw ((eq_iff row.workos_id w).0 same) at e in
        cc
    | inr other ↦ rw (map_get-set row.workos_id row.native_id w m.workos_to_native) (rw other h)
  ]

  kept_ambiguous :
      (o : Option String) (id : String)
      → contains id m.ambiguous_ids ≡ true
      → contains id (load_owned o row m).ambiguous_ids ≡ true
  kept_ambiguous none id h = h
  kept_ambiguous (some owner) id h = ground arith

  -- The row's WorkOS id has an owner, which is the row's native id or is contested with it.
  abbrev pub Owned : KindMaps → Type 0
  Owned m' =
      (n : String) × (map_get row.workos_id m'.workos_to_native ≡ some n)
      × ((n ≡ row.native_id)
          ⊎ ((contains row.workos_id m'.ambiguous_ids ≡ true)
              × (contains row.native_id m'.ambiguous_ids ≡ true)))

  row-Owned :
      (o : Option String)
      → map_get row.workos_id m.workos_to_native ≡ o
      → Owned (load_owned o row m)
  row-Owned none e = (
    row.native_id,
    rw (map_get-set row.workos_id row.native_id row.workos_id m.workos_to_native)
        (rw (beq_refl row.workos_id)),
    inl refl,
  )
  row-Owned (some owner) e = elim (Bool-cases (owner == row.native_id)) [
    | inl same ↦ (owner, e, inl ((eq_iff owner row.native_id).0 same))
    | inr other ↦ (
      owner,
      e,
      inr (
        ground (arith, eq_iff row.workos_id row.workos_id),
        ground (arith, eq_iff row.native_id row.native_id),
      ),
    )
  ]

  reverse_source :
      (o : Option String) (w n : String)
      → map_get w (load_owned o row m).workos_to_native ≡ some n
      → (map_get w m.workos_to_native ≡ some n) ⊎ ((row.workos_id ≡ w) × (row.native_id ≡ n))
  reverse_source (some owner) w n h = inl h
  reverse_source none w n h =
      ground (
        arith,
        map_get-set row.workos_id row.native_id w m.workos_to_native,
        eq_iff row.workos_id w,
      )

  forward_source :
      (o : Option String) (id t : String)
      → map_get id (load_owned o row m).native_to_workos ≡ some t
      → (map_get id m.native_to_workos ≡ some t) ⊎ ((row.native_id ≡ id) × (row.workos_id ≡ t))
  forward_source none id t h = ground (
    arith,
    map_get-set row.native_id row.workos_id id m.native_to_workos,
    eq_iff row.native_id id,
  )
  forward_source (some owner) id t h = ground (
    arith,
    map_get-set row.native_id row.workos_id id m.native_to_workos,
    eq_iff row.native_id id,
  )

pub load_kind-kept :
    (rows : List IdMapping) (m : KindMaps) (w n : String)
    → map_get w m.workos_to_native ≡ some n
    → map_get w (load_kind rows m).workos_to_native ≡ some n
unfolding load_kind load_row
load_kind-kept [] m w n h = h
load_kind-kept (row ∷ rows) m w n h =
    load_kind-kept rows (load_row row m) w n
      (kept_reverse row m (map_get row.workos_id m.workos_to_native) w n refl h)

pub load_kind-ambiguous :
    (rows : List IdMapping) (m : KindMaps) (id : String)
    → contains id m.ambiguous_ids ≡ true
    → contains id (load_kind rows m).ambiguous_ids ≡ true
unfolding load_kind load_row
load_kind-ambiguous [] m id h = h
load_kind-ambiguous (row ∷ rows) m id h =
    load_kind-ambiguous rows (load_row row m) id
      (kept_ambiguous row m (map_get row.workos_id m.workos_to_native) id h)

pub load_kind-Owned :
    (rows : List IdMapping) (m : KindMaps) (row : IdMapping)
    → In row rows
    → Owned row m (load_kind rows m)
unfolding load_kind load_row
load_kind-Owned [] m row i = elim i [ ]
load_kind-Owned (row' ∷ rows) m row (inl e) =
    rw e (first (row-Owned row' m (map_get row'.workos_id m.workos_to_native) refl))
  where
    first : Owned row' m (load_row row' m) → Owned row' m (load_kind rows (load_row row' m))
    first (n, owner, inl same) =
        (n, load_kind-kept rows (load_row row' m) row'.workos_id n owner, inl same)
    first (n, owner, inr (a, b)) = (
      n,
      load_kind-kept rows (load_row row' m) row'.workos_id n owner,
      inr (
        load_kind-ambiguous rows (load_row row' m) row'.workos_id a,
        load_kind-ambiguous rows (load_row row' m) row'.native_id b,
      ),
    )
load_kind-Owned (row' ∷ rows) m row (inr i) = load_kind-Owned rows (load_row row' m) row i

-- A row of the list with these two ids.
abbrev pub Listed : List IdMapping → String → String → Type 0
Listed rows native workos =
    (row : IdMapping) × In row rows × (row.native_id ≡ native) × (row.workos_id ≡ workos)

Listed-cons :
    (row : IdMapping) (rows : List IdMapping) (native workos : String)
    → Listed rows native workos
    → Listed (row ∷ rows) native workos
Listed-cons row rows native workos (x, i, p, q) = (x, inr i, p, q)

pub load_kind-reverse :
    (rows : List IdMapping) (m : KindMaps) (w n : String)
    → map_get w (load_kind rows m).workos_to_native ≡ some n
    → (map_get w m.workos_to_native ≡ some n) ⊎ Listed rows n w
unfolding load_kind load_row
load_kind-reverse [] m w n h = inl h
load_kind-reverse (row ∷ rows) m w n h = elim (load_kind-reverse rows (load_row row m) w n h) [
  | inr listed ↦ inr (Listed-cons row rows n w listed)
  | inl before ↦ elim (reverse_source row m (map_get row.workos_id m.workos_to_native) w n before) [
    | inl old ↦ inl old
    | inr (p, q) ↦ inr (row, inl refl, q, p)
  ]
]

pub load_kind-forward :
    (rows : List IdMapping) (m : KindMaps) (id t : String)
    → map_get id (load_kind rows m).native_to_workos ≡ some t
    → (map_get id m.native_to_workos ≡ some t) ⊎ Listed rows id t
unfolding load_kind load_row
load_kind-forward [] m id t h = inl h
load_kind-forward (row ∷ rows) m id t h = elim (load_kind-forward rows (load_row row m) id t h) [
  | inr listed ↦ inr (Listed-cons row rows id t listed)
  | inl before ↦
      elim (forward_source row m (map_get row.workos_id m.workos_to_native) id t before) [
        | inl old ↦ inl old
        | inr (p, q) ↦ inr (row, inl refl, p, q)
      ]
]

forward_has :
    (row : IdMapping) (m : KindMaps) (o : Option String) (id t : String)
    → map_get id m.native_to_workos ≡ some t
    → (t' : String) × (map_get id (load_owned o row m).native_to_workos ≡ some t')
forward_has row m none id t h = elim (Bool-cases (row.native_id == id)) [
  | inl same ↦
      (row.workos_id, rw (map_get-set row.native_id row.workos_id id m.native_to_workos) (rw same))
  | inr other ↦ (t, rw (map_get-set row.native_id row.workos_id id m.native_to_workos) (rw other h))
]
forward_has row m (some owner) id t h = elim (Bool-cases (row.native_id == id)) [
  | inl same ↦
      (row.workos_id, rw (map_get-set row.native_id row.workos_id id m.native_to_workos) (rw same))
  | inr other ↦ (t, rw (map_get-set row.native_id row.workos_id id m.native_to_workos) (rw other h))
]

forward_own :
    (row : IdMapping) (m : KindMaps) (o : Option String)
    → map_get row.native_id (load_owned o row m).native_to_workos ≡ some row.workos_id
forward_own row m none =
    rw (map_get-set row.native_id row.workos_id row.native_id m.native_to_workos)
      (rw (beq_refl row.native_id))
forward_own row m (some owner) =
    rw (map_get-set row.native_id row.workos_id row.native_id m.native_to_workos)
      (rw (beq_refl row.native_id))

load_kind-has :
    (rows : List IdMapping) (m : KindMaps) (id t : String)
    → map_get id m.native_to_workos ≡ some t
    → (t' : String) × (map_get id (load_kind rows m).native_to_workos ≡ some t')
unfolding load_kind load_row
load_kind-has [] m id t h = (t, h)
load_kind-has (row ∷ rows) m id t h =
    let (t', h') = forward_has row m (map_get row.workos_id m.workos_to_native) id t h in
    load_kind-has rows (load_row row m) id t' h'

-- Every listed native id has a forward entry.
pub load_kind-listed :
    (rows : List IdMapping) (m : KindMaps) (row : IdMapping)
    → In row rows
    → (t : String) × (map_get row.native_id (load_kind rows m).native_to_workos ≡ some t)
unfolding load_kind load_row
load_kind-listed [] m row i = elim i [ ]
load_kind-listed (row' ∷ rows) m row (inl e) = rw e (
    load_kind-has rows (load_row row' m) row'.native_id row'.workos_id
      (forward_own row' m (map_get row'.workos_id m.workos_to_native)))
load_kind-listed (row' ∷ rows) m row (inr i) = load_kind-listed rows (load_row row' m) row i
