-- ===== src/Mappings.antt =====
-- The table `id_mappings` and its statements (workers/shared/db.ts). Its primary key is
-- (directory, resource type, native id); a WorkOS id is not a key.
pub mod Lookup
pub mod Owner
use scim_bridge.Base.{
  String, Bool, Option, none, some, List, [], ◌∷◌, ◌&&◌, ◌==◌, string_eq, pair_eq, keep, lookup,
  upsert, remove,
}
use scim_bridge.Base.Result.{Result, ok, err}
use scim_bridge.Types.{ResourceType, kind_eq, IdMapping}

-- `AmbiguousScimMappingError`
pub data Ambiguous : Type 0 where
  ambiguous : Ambiguous

abbrev pub MappingKey : Type 0
MappingKey = String × (ResourceType × String)

abbrev pub mapping_key : IdMapping → MappingKey
mapping_key m = (m.directory_id, (m.resource_type, m.native_id))

-- The row that `ON CONFLICT … DO UPDATE` leaves.
abbrev pub overwrite : IdMapping → IdMapping → IdMapping
overwrite m row = record row { workos_id = m.workos_id; strategy = m.strategy }

unfoldable pub get_mapping : String → ResourceType → String → List IdMapping → Option IdMapping
get_mapping directory kind native rows = lookup mapping_key (directory, (kind, native)) rows

unfoldable pub upsert_mapping : IdMapping → List IdMapping → List IdMapping
upsert_mapping m rows = upsert mapping_key (overwrite m) m rows

unfoldable pub upsert_mappings : List IdMapping → List IdMapping → List IdMapping
upsert_mappings [] rows = rows
upsert_mappings (m ∷ ms) rows = upsert_mappings ms (upsert_mapping m rows)

unfoldable pub delete_mapping : String → ResourceType → String → List IdMapping → List IdMapping
delete_mapping directory kind native rows = remove mapping_key (directory, (kind, native)) rows

abbrev pub owns_workos_id : String → ResourceType → String → IdMapping → Bool
owns_workos_id directory kind workos m =
    m.directory_id == directory && m.resource_type == kind && m.workos_id == workos

-- `results[0] ?? null` of a `LIMIT 2` query, which throws on a second row
abbrev pub at_most_one : List IdMapping → Result Ambiguous (Option IdMapping)
at_most_one [] = ok none
at_most_one (m ∷ []) = ok (some m)
at_most_one (_ ∷ _ ∷ _) = err ambiguous

unfoldable pub get_mapping_by_workos_id :
    String → ResourceType → String → List IdMapping → Result Ambiguous (Option IdMapping)
get_mapping_by_workos_id directory kind workos rows =
    at_most_one (keep (owns_workos_id directory kind workos) rows)
