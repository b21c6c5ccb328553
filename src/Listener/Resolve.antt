-- ===== src/Listener/Resolve.antt =====
-- `nativeIdForEvent` of workers/shared/event-mapping.ts, and how the listener calls it:
-- `resolveNativeEventId`, `findUser` and `findGroup` of workers/native/listener.ts.
use scim_bridge.Base.{
  String, Bool, false, Option, none, some, List, [], ◌∷◌, map, not, ◌&&◌, ◌||◌, ◌==◌, string_eq,
  keep, if◌then◌else◌,
}
use scim_bridge.Base.Effects.{pure, throw, ◌>>=◌, result, or_throw}
use scim_bridge.Types.{ResourceType, users, groups, Directory, IdMapping}
use scim_bridge.Mappings.{get_mapping}
use scim_bridge.EventLinks.{EventLink, get_event_link}
use scim_bridge.Json.{str, Fields, end, field}
use scim_bridge.Native.{
  UserRow, GroupRow, Native, holds_text, user_by_id, user_by_external_id, user_by_user_name,
  group_by_id, group_by_external_id, group_by_display_name,
}
use scim_bridge.Listener.{Rows, Ids, Learning, Outside}
use scim_bridge.Listener.Learn.{learning, fetch_event_native_id}
use scim_bridge.Listener.Reading.{◌<|>◌, is_some, nonempty, text_at, object_at, event_name}
use scim_bridge.Listener.Resources.{or_null}
use scim_bridge.Listener.Mapping.{
  is_directory_sync_resource_id, matches_event_identity, get_unique_scim_mapping,
  get_directory_by_id, external_of, Candidates, try_candidates, candidates_of,
}
use scim_bridge.Listener.Verify.{verified_workos_event_mapping}

-- `proof` of `nativeIdForEvent`
pub record Proof (W : Type 0) : Type 0 where
  pub native_resource : String → Option Fields
  pub stored_identities : List (String × Fields)
  pub remote_mapping : Option (Learning W (Option String))
  pub allow_absent_mapping : Bool

abbrev pub mapped_or : String → Option IdMapping → String
mapped_or id none = id
mapped_or id (some m) = m.native_id

abbrev native_of : Option IdMapping → Option String
native_of none = none
native_of (some m) = some m.native_id

module _ {W : Type 0} (o : Outside W) (rows : Rows) (ids : Ids) (directory_id : String)
    (kind : ResourceType) where
  module _ (resource : Fields) (proof : Proof W) where
    abbrev remote : Option (Learning W (Option String)) → Learning W (Option String)
    remote none = throw "Event has no authenticated mapping resolver"
    remote (some ask) = ask

    -- The rows of `storedIdentities` that match the event.
    abbrev matching : List (String × Fields)
    matching = keep (λ entry. matches_event_identity kind resource entry.1) proof.stored_identities

    unfoldable ask_workos : Option Directory → Learning W (Option String)
    unfolding verified_workos_event_mapping
    ask_workos none = throw "Event directory no longer exists"
    ask_workos (some directory) =
        if directory.workos_url == "" || directory.workos_token == ""
        then remote proof.remote_mapping
        else learning (verified_workos_event_mapping o ids directory kind resource) >>= λ verified.
            pure (native_of verified)

    -- The decision behind the loop over the candidates.
    unfoldable decide : Candidates → List (String × Fields) → Learning W (Option String)
    unfolding ask_workos
    decide found (_ ∷ _ ∷ _) = throw "Event identity matches multiple native SCIM mappings"
    decide found (entry ∷ []) = pure (some entry.0)
    decide found [] = elim found.absent [
      | [] ↦
          if not found.unverified
          then pure none
          else ask_workos (get_directory_by_id rows directory_id)
      | m ∷ more ↦ elim more [
        | [] ↦ pure (some m.native_id)
        | _ ∷ _ ↦ throw "Absent event SCIM mapping is ambiguous"
      ]
    ]

    unfoldable after_candidates : Candidates → Learning W (Option String)
    unfolding decide matches_event_identity
    after_candidates found = elim found.confirmed [
      | some native_id ↦ pure (some native_id)
      | none ↦ decide found matching
    ]

    -- The branch of an event that carries no id of its own.
    unfoldable from_candidates : Learning W (Option String)
    unfolding after_candidates try_candidates
    from_candidates =
        result (
          try_candidates ids directory_id kind resource proof.native_resource
            proof.allow_absent_mapping (candidates_of resource))
        >>= after_candidates

    abbrev linked_or_remote : Option EventLink → Learning W (Option String)
    linked_or_remote none = remote proof.remote_mapping
    linked_or_remote (some link) = pure (some link.native_id)

    -- `nativeIdForEvent`
    unfoldable pub native_id_for_event : Learning W (Option String)
    unfolding from_candidates is_directory_sync_resource_id text_at get_unique_scim_mapping
    native_id_for_event = elim (text_at "id" resource) [
      | none ↦ from_candidates
      | some id ↦
          if is_directory_sync_resource_id id
          then linked_or_remote (get_event_link directory_id kind id ids.links)
          else result (get_unique_scim_mapping ids directory_id kind id) >>= λ mapping.
              pure (some (mapped_or id mapping))
    ]

  abbrev user_identity : UserRow → Fields
  user_identity row =
      field "userName" (str row.user_name) (field "externalId" (or_null row.external_id) end)

  abbrev group_identity : GroupRow → Fields
  group_identity row =
      field "displayName" (str row.display_name) (field "externalId" (or_null row.external_id) end)

  -- `nativeResource` of `resolveNativeEventId`
  abbrev native_resource : Native → ResourceType → String → Option Fields
  native_resource native users id = elim (user_by_id id native) [
    | none ↦ none
    | some row ↦ some (user_identity row)
  ]
  native_resource native groups id = elim (group_by_id id native) [
    | none ↦ none
    | some row ↦ some (group_identity row)
  ]

  -- The condition of the query in `storedIdentities`: the row is mapped in the directory, and has the
  -- event's external id or its name.
  unfoldable pub is_stored : Fields → String → Option String → String → Bool
  unfolding text_at object_at event_name get_mapping
  is_stored resource id external_id name =
      is_some (get_mapping directory_id kind id ids.mappings)
      && (elim (external_of resource) [ none ↦ false | some e ↦ holds_text external_id e ]
          || elim (event_name kind resource) [ none ↦ false | some n ↦ name == n ])

  -- `storedIdentities` of `resolveNativeEventId`
  abbrev pub stored_identities : Native → Fields → ResourceType → List (String × Fields)
  stored_identities native resource users =
      map (λ (row : UserRow). (row.id, user_identity row))
        (keep (λ row. is_stored resource row.id row.external_id row.user_name) native.users)
  stored_identities native resource groups =
      map (λ (row : GroupRow). (row.id, group_identity row))
        (keep (λ row. is_stored resource row.id row.external_id row.display_name) native.groups)

  -- `resolveNativeEventId`
  unfoldable pub resolve_native_event_id : Native → Fields → Bool → Learning W (Option String)
  unfolding native_id_for_event is_stored
  resolve_native_event_id native resource allow_absent = native_id_for_event resource (record {
    native_resource = native_resource native kind;
    stored_identities = stored_identities native resource kind;
    remote_mapping = some (
        or_throw "Event directory no longer exists" (get_directory_by_id rows directory_id)
        >>= λ directory. fetch_event_native_id o rows directory kind resource allow_absent);
    allow_absent_mapping = allow_absent;
  })

module _ (lower : String → String) where
  abbrev user_named : Option String → Native → Option UserRow
  user_named none native = none
  user_named (some name) native = user_by_user_name lower name native

  abbrev user_held : Option String → Native → Option UserRow
  user_held none native = none
  user_held (some idp_id) native = user_by_external_id idp_id native

  -- `findUser`
  unfoldable pub find_user : Option String → Option String → Option String → Native → Option UserRow
  find_user idp_id user_name native_id native = elim (nonempty native_id) [
    | some id ↦ user_by_id id native
    | none ↦ user_held idp_id native <|> user_named user_name native
  ]

  abbrev group_named : Option String → Native → Option GroupRow
  group_named none native = none
  group_named (some name) native = group_by_display_name lower name native

  abbrev group_held : Option String → Native → Option GroupRow
  group_held none native = none
  group_held (some idp_id) native = group_by_external_id idp_id native

  -- `findGroup`
  unfoldable pub find_group :
      Option String → Option String → Option String → Native → Option GroupRow
  find_group idp_id name native_id native = elim (nonempty native_id) [
    | some id ↦ group_by_id id native
    | none ↦ group_held idp_id native <|> group_named name native
  ]
