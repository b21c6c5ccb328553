-- ===== src/Scim/IdMaps/Translation.antt =====
-- Translating resources and list responses by the maps of `loadIdMaps` (workers/shared/scim.ts), there
-- and back.
use scim_bridge.Base.{String, ◌≡◌, refl, ap, ◌∙◌, true, List}
use scim_bridge.Base.Result.{ok}
use scim_bridge.Types.{ResourceType, IdMapping}
use scim_bridge.Json.{Fields}
use scim_bridge.Json.Translate.{translate_resource_ids, translate_list_response}
use scim_bridge.Json.Translate.RoundTrip.{ResourceIds, ResponseIds, resource-back, response-back}
use scim_bridge.Json.Translate.Carried.{resource-carried, response-carried}
use scim_bridge.Json.Translate.Total.{resource-total, response-total}
use scim_bridge.Scim.IdMaps.{
  IdTranslationMaps, map_get, maps_of, load_id_maps, checked_get, to_workos, to_native, or_same,
}
use scim_bridge.Scim.IdMaps.Owner.{Stored, to_workos-Stored, to_native-to_workos, strict-contains}

-- The native id has a mapping in the directory.
abbrev pub HasMapping : List IdMapping → String → ResourceType → String → Type 0
HasMapping rows directory kind native = (workos : String) × Stored rows directory kind native workos

-- The WorkOS id is that of a mapping in the directory.
abbrev pub IsMapped : List IdMapping → String → ResourceType → String → Type 0
IsMapped rows directory kind workos = (native : String) × Stored rows directory kind native workos

module _ (rows : List IdMapping) (directory : String) (maps : IdTranslationMaps)
    (loaded : load_id_maps directory true rows ≡ ok maps) where
  to_workos-total :
      (kind : ResourceType) (id : String) → (t : String) × (to_workos maps kind id ≡ ok t)
  unfolding to_workos checked_get
  to_workos-total kind id = (
    or_same id (map_get id (maps_of kind maps).native_to_workos),
    rw (strict-contains rows directory maps kind id loaded) refl,
  )

  to_native-total :
      (kind : ResourceType) (id : String) → (t : String) × (to_native maps kind id ≡ ok t)
  unfolding to_native checked_get
  to_native-total kind id = (
    or_same id (map_get id (maps_of kind maps).workos_to_native),
    rw (strict-contains rows directory maps kind id loaded) refl,
  )

  undone :
      (kind : ResourceType) (id t : String)
      → HasMapping rows directory kind id
      → to_workos maps kind id ≡ ok t
      → to_native maps kind t ≡ ok id
  undone kind id t (workos, stored) went =
      let (b, came) = to_native-total kind t in
      came
      ∙ ap ok
          (to_native-to_workos rows directory kind true maps loaded id workos t b stored went came)

  carried :
      (kind : ResourceType) (id t : String)
      → HasMapping rows directory kind id
      → to_workos maps kind id ≡ ok t
      → IsMapped rows directory kind t
  carried kind id t (workos, stored) went =
      (id, to_workos-Stored rows directory kind true maps loaded id workos t stored went)

  -- Where a strict load of the maps succeeds, a resource whose ids, its own and its members', all have
  -- a mapping in the directory is translated to a resource whose ids are WorkOS ids of mappings in the
  -- directory, and that one is translated back to the resource itself.
  pub translate_resource_ids-back :
      (kind : ResourceType) (fs : Fields)
      → ResourceIds (HasMapping rows directory) kind fs
      → (out : Fields) × (translate_resource_ids fs kind (to_workos maps) ≡ ok out)
        × ResourceIds (IsMapped rows directory) kind out
        × (translate_resource_ids out kind (to_native maps) ≡ ok fs)
  translate_resource_ids-back kind fs known =
      let (out, went) = resource-total (to_workos maps) to_workos-total kind fs in
      (
        out,
        went,
        resource-carried (HasMapping rows directory) (IsMapped rows directory) (to_workos maps)
            carried kind fs out known went,
        resource-back (HasMapping rows directory) (to_workos maps) (to_native maps) undone kind fs
            out known went,
      )

  -- Where a strict load of the maps succeeds, a list response whose resources' ids, their own and their
  -- members', all have a mapping in the directory is translated to one whose ids are WorkOS ids of
  -- mappings in the directory, and that one is translated back to the list response itself.
  pub translate_list_response-back :
      (kind : ResourceType) (fs : Fields)
      → ResponseIds (HasMapping rows directory) kind fs
      → (out : Fields) × (translate_list_response fs kind (to_workos maps) ≡ ok out)
        × ResponseIds (IsMapped rows directory) kind out
        × (translate_list_response out kind (to_native maps) ≡ ok fs)
  translate_list_response-back kind fs known =
      let (out, went) = response-total (to_workos maps) to_workos-total kind fs in
      (
        out,
        went,
        response-carried (HasMapping rows directory) (IsMapped rows directory) (to_workos maps)
            carried kind fs out known went,
        response-back (HasMapping rows directory) (to_workos maps) (to_native maps) undone kind fs
            out known went,
      )
