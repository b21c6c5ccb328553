-- ===== src/Scim/IdMaps.antt =====
-- The id translation maps of a directory: `loadIdMaps`, `CheckedIdMap` and `makeTranslator` of
-- workers/shared/scim.ts. A JavaScript map or set is the list of its entries in insertion order.
pub mod Loop
pub mod Owner
pub mod Translation
use mathlib.Core.Option
use scim_bridge.Base.{
  String, Bool, true, false, Option, none, some, List, [], ◌∷◌, not, ◌&&◌, ◌||◌, ◌==◌, string_eq,
  keep, any, lookup, upsert, if◌then◌else◌,
}
use scim_bridge.Base.Result.{Result, ok, err, ◌>>=◌}
use scim_bridge.Types.{ResourceType, users, groups, kind_eq, IdMapping}
use scim_bridge.Mappings.{Ambiguous, ambiguous}
use scim_bridge.Json.Translate.{Translator}

abbrev pub IdMap : Type 0
IdMap = List (String × String)

abbrev pub entry_key : String × String → String
entry_key p = p.0

unfoldable pub map_get : String → IdMap → Option String
map_get id m = Option.map (λ p. p.1) (lookup entry_key id m)

unfoldable pub map_set : String → String → IdMap → IdMap
map_set id value m = upsert entry_key (λ p. (p.0, value)) (id, value) m

-- What `loadIdMaps` builds for one resource type. The two maps are `CheckedIdMap`s over one set.
pub record KindMaps : Type 0 where
  pub native_to_workos : IdMap
  pub workos_to_native : IdMap
  pub ambiguous_ids : List String

pub record IdTranslationMaps : Type 0 where
  pub for_users : KindMaps
  pub for_groups : KindMaps

abbrev pub empty_maps : KindMaps
empty_maps = record { native_to_workos = []; workos_to_native = []; ambiguous_ids = [] }

abbrev pub no_maps : IdTranslationMaps
no_maps = record { for_users = empty_maps; for_groups = empty_maps }

abbrev pub contains : String → List String → Bool
contains id ids = any (λ x. x == id) ids

-- The loop's body, by what the reverse map has for the row's WorkOS id.
abbrev pub load_owned : Option String → IdMapping → KindMaps → KindMaps
load_owned none row m = record m {
  native_to_workos = map_set row.native_id row.workos_id m.native_to_workos;
  workos_to_native = map_set row.workos_id row.native_id m.workos_to_native;
}
load_owned (some owner) row m = record m {
  native_to_workos = map_set row.native_id row.workos_id m.native_to_workos;
  ambiguous_ids =
      if owner == row.native_id
      then m.ambiguous_ids
      else row.workos_id ∷ owner ∷ row.native_id ∷ m.ambiguous_ids;
}

unfoldable pub load_row : IdMapping → KindMaps → KindMaps
load_row row m = load_owned (map_get row.workos_id m.workos_to_native) row m

abbrev pub load_into : ResourceType → IdMapping → IdTranslationMaps → IdTranslationMaps
load_into users row maps = record maps { for_users = load_row row maps.for_users }
load_into groups row maps = record maps { for_groups = load_row row maps.for_groups }

unfoldable pub load_rows : List IdMapping → IdTranslationMaps → IdTranslationMaps
load_rows [] maps = maps
load_rows (row ∷ rows) maps = load_rows rows (load_into row.resource_type row maps)

abbrev pub maps_of : ResourceType → IdTranslationMaps → KindMaps
maps_of users maps = maps.for_users
maps_of groups maps = maps.for_groups

-- `assertUnambiguous`
abbrev pub is_unambiguous : KindMaps → Bool
is_unambiguous m = elim m.ambiguous_ids [ [] ↦ true | id ∷ ids ↦ false ]

unfoldable pub load_id_maps : String → Bool → List IdMapping → Result Ambiguous IdTranslationMaps
load_id_maps directory strict rows =
    let maps = load_rows (keep (λ row. row.directory_id == directory) rows) no_maps in
    if strict && not (is_unambiguous maps.for_users && is_unambiguous maps.for_groups)
    then err ambiguous
    else ok maps

-- `CheckedIdMap.get`
unfoldable pub checked_get : List String → IdMap → String → Result Ambiguous (Option String)
checked_get ambiguous_ids m id =
    if contains id ambiguous_ids then err ambiguous else ok (map_get id m)

-- `CheckedIdMap.has`
unfoldable pub checked_has : List String → IdMap → String → Result Ambiguous Bool
checked_has ambiguous_ids m id =
    if contains id ambiguous_ids
    then err ambiguous
    else ok (elim (map_get id m) [ none ↦ false | some v ↦ true ])

-- `CheckedIdMap.entries`, by which `values`, the iterator and `forEach` are checked too
unfoldable pub checked_entries : List String → IdMap → Result Ambiguous IdMap
checked_entries [] m = ok m
checked_entries (id ∷ ids) m = err ambiguous

abbrev pub or_same : String → Option String → String
or_same id none = id
or_same id (some t) = t

-- `makeTranslator` over the native-to-WorkOS maps
unfoldable pub to_workos : IdTranslationMaps → Translator
to_workos maps kind id = do
  found ← checked_get (maps_of kind maps).ambiguous_ids (maps_of kind maps).native_to_workos id
  ok (or_same id found)

-- `makeTranslator` over the WorkOS-to-native maps
unfoldable pub to_native : IdTranslationMaps → Translator
to_native maps kind id = do
  found ← checked_get (maps_of kind maps).ambiguous_ids (maps_of kind maps).workos_to_native id
  ok (or_same id found)
