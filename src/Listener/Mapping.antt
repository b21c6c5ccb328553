-- ===== src/Listener/Mapping.antt =====
-- How an event's resource is identified with a native one: workers/shared/event-mapping.ts.
use scim_bridge.Base.{
  String, Bool, true, false, Option, none, some, List, [], ◌∷◌, not, ◌&&◌, ◌||◌, ◌==◌, string_eq,
  nat_eq, find, if◌then◌else◌,
}
use scim_bridge.Base.Result.{Result, ok, err, ◌>>=◌}
use scim_bridge.Types.{ResourceType, users, groups, kind_eq, Directory, IdMapping}
use scim_bridge.Mappings.{Ambiguous, get_mapping_by_workos_id}
use scim_bridge.Json.{Value, null, bool, num, str, Fields, get}
use scim_bridge.Listener.{Rows, Ids}
use scim_bridge.Listener.Reading.{
  ◌<|>◌, is_some, nonempty, text_at, object_or_end, is_text, text_in, starts_with, event_name,
  object_at,
}

-- `isDirectorySyncResourceId`
unfoldable pub is_directory_sync_resource_id : String → Bool
unfolding starts_with
is_directory_sync_resource_id id =
    starts_with "directory_user_" id || starts_with "directory_group_" id

-- `!value`
abbrev pub is_falsy : Option Value → Bool
is_falsy none = true
is_falsy (some null) = true
is_falsy (some (bool b)) = not b
is_falsy (some (num n)) = nat_eq n 0
is_falsy (some (str s)) = s == ""
is_falsy _ = false

-- The text is there, and the value is that text.
abbrev pub is_the : Option String → Option Value → Bool
is_the none v = false
is_the (some s) v = is_text s v

abbrev pub identity_attribute : ResourceType → String
identity_attribute users = "userName"
identity_attribute groups = "displayName"

abbrev pub external_of : Fields → Option String
unfolding text_at object_at
external_of event =
    text_at "externalId" (object_or_end "raw_attributes" event) <|> text_at "idp_id" event

abbrev pub names_alone : Option String → Option String → Bool
names_alone none name = true
names_alone (some external) none = false
names_alone (some external) (some name) = external == name

-- `matchesEventIdentity`
unfoldable pub matches_event_identity : ResourceType → Fields → Fields → Bool
unfolding text_at object_at event_name
matches_event_identity kind event scim =
    let raw = object_or_end "raw_attributes" event in
    let external = external_of event in
    let name = event_name kind event in
    let named = is_the name (get (identity_attribute kind) scim) in
    if is_some name && not named
    then false
    else is_the external (get "externalId" scim)
      || (kind == groups
          && is_falsy (get "externalId" raw)
          && is_the name (get "idp_id" event)
          && is_the name (get "displayName" scim))
      || (not (is_some (text_at "externalId" scim)) && named && names_alone external name)

abbrev unconfirmed_message : String
unconfirmed_message =
    "Directory Sync resource has no confirmed native SCIM ID; resolve its identity or reconcile before retrying"

abbrev is_unresolved : Option Value → Bool
is_unresolved (some (str id)) = is_directory_sync_resource_id id
is_unresolved _ = false

-- `idForNewEventResource`
unfoldable pub id_for_new_event_resource : Fields → Option String → String → Result String String
unfolding is_directory_sync_resource_id
id_for_new_event_resource resource native_id fallback = elim (nonempty native_id) [
  | some id ↦ ok id
  | none ↦ if is_unresolved (get "id" resource) then err unconfirmed_message else ok fallback
]

abbrev unambiguous : Result Ambiguous (Option IdMapping) → Result String (Option IdMapping)
unambiguous (ok m) = ok m
unambiguous (err e) = err "SCIM mapping is ambiguous"

-- `getUniqueScimMapping`
unfoldable pub get_unique_scim_mapping :
    Ids → String → ResourceType → String → Result String (Option IdMapping)
get_unique_scim_mapping ids directory_id kind workos_id =
    unambiguous (get_mapping_by_workos_id directory_id kind workos_id ids.mappings)

-- `getDirectoryById`
unfoldable pub get_directory_by_id : Rows → String → Option Directory
get_directory_by_id rows id = find (λ d. d.id == id) rows.directories

-- What the loop over the candidates found: a native id that the native app confirms, whether some
-- mapping was not confirmed, and the mappings whose native row is absent, where these may be used.
pub record Candidates : Type 0 where
  pub confirmed : Option String
  pub unverified : Bool
  pub absent : List IdMapping

abbrev pub unconfirmed : Bool → IdMapping → Candidates → Result String Candidates
unconfirmed is_absent m rest =
    ok (record rest {
      unverified = true;
      absent = if is_absent then m ∷ rest.absent else rest.absent;
    })

module _ (ids : Ids) (directory_id : String) (kind : ResourceType) (resource : Fields)
    (native_resource : String → Option Fields) (allow_absent : Bool) where
  abbrev pub judge : IdMapping → Option Fields → Result String Candidates → Result String Candidates
  unfolding matches_event_identity
  judge m none rest = rest >>= unconfirmed allow_absent m
  judge m (some native) rest =
      if matches_event_identity kind resource native
      then ok (record { confirmed = some m.native_id; unverified = false; absent = [] })
      else rest >>= unconfirmed false m

  -- The loop over the candidates in `nativeIdForEvent`
  unfoldable pub try_candidates : List (Option String) → Result String Candidates
  unfolding get_unique_scim_mapping
  try_candidates [] = ok (record { confirmed = none; unverified = false; absent = [] })
  try_candidates (none ∷ more) = try_candidates more
  try_candidates (some candidate ∷ more) =
      let rest = try_candidates more in
      elim (get_unique_scim_mapping ids directory_id kind candidate) [
        | err e ↦ err e
        | ok found ↦ elim found [
          | none ↦ rest
          | some m ↦ judge m (native_resource m.native_id) rest
        ]
      ]

-- `[rawExternalId, resource.idp_id, resource.id]`, each where it is a text that is not empty
unfoldable pub candidates_of : Fields → List (Option String)
unfolding text_at object_at
candidates_of resource =
    text_in "externalId" (object_at "raw_attributes" resource)
    ∷ text_at "idp_id" resource
    ∷ text_at "id" resource
    ∷ []
