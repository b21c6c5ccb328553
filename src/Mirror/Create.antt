-- ===== src/Mirror/Create.antt =====
-- `createViaPost` and `resolveCreateRace` of
-- workers/shared/scim.ts.
use Prim.Native.String
use scim_bridge.Base.{
  ℕ, String, Option, none, some, [], ◌∷◌, not, ◌==◌, string_eq, if◌then◌else◌, nat_eq,
}
use scim_bridge.Base.Text.{concat, replace_quotes}
use scim_bridge.Types.{
  ResourceType, users, groups, kind_eq, kind_name, Strategy, migrated_id, fallback_post, Directory,
  IdMapping,
}
use scim_bridge.Json.{arr, obj, Items, nil, cons, Fields, get, omit, as_string, parse_json}
use scim_bridge.Scim.Http.{Upstream, UpstreamResult, is_success, migrated_id_header}
use scim_bridge.Mirror.Effects.{M, pure, ◌>>=◌, ◌>>◌}
use scim_bridge.Mirror.{
  MirrorResult, mapping_row, mirror_ok, mint_conflict, record_mapping, claimed_by_another,
  scim_fetch, collection_url, body_options, put_workos, mirror_fail,
}

-- `resources.find(isRecord)`
abbrev pub first_record : Items → Option Fields
first_record nil = none
first_record (cons (obj fs) xs) = some fs
first_record (cons _ xs) = first_record xs

abbrev pub resources_of : Option Fields → Items
resources_of none = nil
resources_of (some listing) = elim (get "Resources" listing) [
  | some v ↦ elim v [ arr xs ↦ xs | _ ↦ nil ]
  | none ↦ nil
]

abbrev pub id_of : Option Fields → Option String
id_of none = none
id_of (some fs) = as_string (get "id" fs)

-- `created && typeof created.id === "string" ? created.id : null`, and no empty id
abbrev pub usable : Option String → Option String
usable none = none
usable (some id) = if id == "" then none else some id

abbrev pub name_attribute : ResourceType → String
name_attribute users = "userName"
name_attribute groups = "displayName"

abbrev pub strategy_for : String → String → Strategy
strategy_for native_id workos_id = if workos_id == native_id then migrated_id else fallback_post

abbrev pub with_created : Option String → MirrorResult → MirrorResult
with_created none r = r
with_created (some id) r = record r { created_id = some id }

abbrev pub label : ResourceType → String → String → String → String
label kind verb id suffix = concat (verb ∷ " /" ∷ kind_name kind ∷ "/" ∷ id ∷ " " ∷ suffix ∷ [])

abbrev pub post_label : ResourceType → String
post_label kind = concat ("POST /" ∷ kind_name kind ∷ " +" ∷ migrated_id_header ∷ [])

abbrev pub status_error : (ℕ → String) → String → ℕ → String
status_error status_text what status = String.◌++◌ what (status_text status)

module _ {W : Type 0} (u : Upstream W) (status_text : ℕ → String) (directory : Directory)
    (kind : ResourceType) (native_id : String) where
  -- The listing that a 409 recovery looks the name up in.
  unfoldable pub lookup_by_name : String → M W UpstreamResult
  unfolding scim_fetch
  lookup_by_name value =
      let filter = concat (name_attribute kind ∷ " eq \"" ∷ replace_quotes value ∷ "\"" ∷ []) in
      scim_fetch u (concat (collection_url u directory kind ∷ "?filter=" ∷ u.encode filter ∷ []))
        (record {
          method = "GET";
          token = directory.workos_token;
          body = none;
          content_type = none;
          migrated_id = none;
          request_headers = [];
        })

  -- The write onto the row that the lookup found, once no other resource holds it.
  unfoldable pub adopt_found : Fields → String → Option IdMapping → M W MirrorResult
  adopt_found resource workos_id (some claimed) =
      mint_conflict (label kind "PUT" workos_id "(409 recovery)") kind workos_id claimed.native_id
  adopt_found resource workos_id none = do
    let sync_label = label kind "PUT" workos_id "(409 recovery)"
    sync ← put_workos u directory kind workos_id resource none
    if is_success sync.status
        then (record_mapping (mapping_row directory kind native_id workos_id fallback_post)
            >> mirror_ok sync_label sync)
        else mirror_fail u sync_label sync
            (status_error status_text "WorkOS 409-recovery PUT returned " sync.status)

  unfoldable pub not_recovered : UpstreamResult → M W MirrorResult
  not_recovered create =
      mirror_fail u
        (concat
          ("GET /" ∷ kind_name kind ∷ "?filter=" ∷ name_attribute kind ∷ " (409 recovery)" ∷ []))
        create
        (concat (
          "WorkOS POST hit 409 and the "
          ∷ name_attribute kind
          ∷ " lookup did not recover an id"
          ∷ []))

  unfoldable pub adopt_lookup : Fields → UpstreamResult → Option String → M W MirrorResult
  adopt_lookup resource create none = not_recovered create
  adopt_lookup resource create (some workos_id) = do
    claimed ← claimed_by_another directory.id kind workos_id native_id
    adopt_found resource workos_id claimed

  unfoldable pub recover_by_name : Fields → UpstreamResult → Option String → M W MirrorResult
  recover_by_name resource create none = not_recovered create
  recover_by_name resource create (some value) = do
    lookup ← lookup_by_name value
    let found = usable (id_of (first_record (resources_of (parse_json u.parse lookup.body_text))))
    adopt_lookup resource create (if is_success lookup.status then found else none)

  -- The branch behind the PUT that retries after a 409.
  unfoldable pub after_retry : Fields → UpstreamResult → UpstreamResult → M W MirrorResult
  after_retry resource create reput =
      let reput_label =
        label kind "PUT" native_id (concat ("+" ∷ migrated_id_header ∷ " (409 retry)" ∷ [])) in
      if is_success reput.status
      then (record_mapping (mapping_row directory kind native_id native_id migrated_id)
          >> mirror_ok reput_label reput)
      else if not (nat_eq reput.status 404)
      then mirror_fail u reput_label reput
          (status_error status_text "WorkOS 409-retry PUT returned " reput.status)
      else recover_by_name resource create (usable (as_string (get (name_attribute kind) resource)))

  -- `resolveCreateRace`
  unfoldable pub resolve_create_race : Fields → UpstreamResult → M W MirrorResult
  resolve_create_race resource create = do
    reput ← put_workos u directory kind native_id resource (some native_id)
    after_retry resource create reput

  abbrev pub created_if : ℕ → String → Option String
  created_if status id = if nat_eq status 201 then some id else none

  unfoldable pub created_as : UpstreamResult → Option String → M W MirrorResult
  created_as create none =
      mirror_fail u (post_label kind) create "WorkOS POST succeeded but the response had no id"
  created_as create (some workos_id) = do
    record_mapping
        (mapping_row directory kind native_id workos_id (strategy_for native_id workos_id))
    result ← mirror_ok (post_label kind) create
    pure (with_created (created_if create.status workos_id) result)

  unfoldable pub after_post : Fields → UpstreamResult → M W MirrorResult
  after_post resource create =
      if is_success create.status
      then created_as create (usable (id_of (parse_json u.parse create.body_text)))
      else if nat_eq create.status 409
      then resolve_create_race resource create
      else mirror_fail u (post_label kind) create
          (status_error status_text "WorkOS POST returned " create.status)

  -- `createViaPost`
  unfoldable pub create_via_post : Fields → M W MirrorResult
  create_via_post resource = do
    create ←
        scim_fetch u (collection_url u directory kind)
          (body_options u directory "POST" (obj (omit "id" resource)) (some native_id))
    after_post resource create
