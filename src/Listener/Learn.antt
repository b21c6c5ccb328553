-- ===== src/Listener/Learn.antt =====
-- `fetchEventNativeId` of workers/native/status-client.ts: asking the bridge which native id an event's
-- resource has, and storing the answer.
pub mod Stored
use scim_bridge.Base.{
  String, Bool, true, false, Option, none, some, List, [], ◌∷◌, not, ◌&&◌, ◌||◌, ◌==◌, string_eq,
  pair_eq, nat_eq, any, keep, upsert, if◌then◌else◌,
}
use scim_bridge.Base.Text.{concat, strip_slashes}
use scim_bridge.Base.Effects.{pure, ◌>>=◌}
use scim_bridge.Base.Result.{Result, ok, err}
use scim_bridge.Types.{
  ResourceType, kind_eq, kind_name, Directory, IdMapping, Strategy, migrated_id, fallback_post,
}
use scim_bridge.Mappings.{mapping_key, get_mapping, owns_workos_id}
use scim_bridge.EventLinks.{EventLink, LinkError, empty_id, conflicting_owner, bind_event_link}
use scim_bridge.Json.{Value, null, bool, num, str, Fields, get, record_of}
use scim_bridge.Scim.Http.{HttpRequest, HttpResponse, Fetched, unreachable, answered, is_success}
use scim_bridge.Listener.{Rows, Ids, Outer, Outside, Learning}
use scim_bridge.Listener.Reading.{
  ◌<|>◌, is_some, nonempty, text_at, object_or_end, object_at, is_text, event_name,
}
use scim_bridge.Listener.Config.{base_url, client_token_for}
use scim_bridge.Listener.Answer.{EventMapping, checked_mapping}
use scim_bridge.Listener.Mapping.{identity_attribute}

abbrev pub learning : {W A : Type 0} → Outer W A → Learning W A
learning f s = let r = f s.1 in (r.0, (s.0, r.1))

abbrev pub link_error : LinkError → String
link_error empty_id = "A Directory Sync event link requires nonempty directory and resource ids"
link_error conflicting_owner =
    "Directory Sync event link conflicts with an established resource owner"

abbrev pub conflict : String
conflict = "Verified bridge identity conflicts with an existing local mapping"

abbrev pub first_two : List IdMapping → List IdMapping
first_two (a ∷ b ∷ rest) = a ∷ b ∷ []
first_two rows = rows

module _ (directory : Directory) (kind : ResourceType) (m : EventMapping) where
  -- `readOwners`
  abbrev pub owners : List IdMapping → List IdMapping
  owners rows = first_two (keep (owns_workos_id directory.id kind m.workos_scim_id) rows)

  abbrev pub is_other : Option IdMapping → Bool
  is_other none = false
  is_other (some row) = not (row.workos_id == m.workos_scim_id)

  unfoldable pub contradicts : List IdMapping → Bool
  unfolding get_mapping
  contradicts rows =
      is_other (get_mapping directory.id kind m.native_id rows)
      || any (λ owner. not (owner.native_id == m.native_id)) (owners rows)

  -- A row that keeps the insert from happening.
  abbrev pub blocks : IdMapping → Bool
  blocks row =
      row.directory_id == directory.id
      && row.resource_type == kind
      && ((row.native_id == m.native_id && not (row.workos_id == m.workos_scim_id))
          || (row.workos_id == m.workos_scim_id && not (row.native_id == m.native_id)))

  -- `INSERT … SELECT … WHERE NOT EXISTS … ON CONFLICT DO NOTHING`
  unfoldable pub insert_mapping : Strategy → List IdMapping → List IdMapping
  insert_mapping strategy rows =
      let row : IdMapping = record {
        directory_id = directory.id;
        resource_type = kind;
        native_id = m.native_id;
        workos_id = m.workos_scim_id;
        strategy = strategy;
      } in
      let written = upsert mapping_key (λ old. old) row rows in
      if any blocks rows then rows else written

  abbrev pub is_owner : List IdMapping → Bool
  is_owner (owner ∷ []) = owner.native_id == m.native_id
  is_owner _ = false

  abbrev pub maps_it : Option IdMapping → Bool
  maps_it none = false
  maps_it (some row) = row.workos_id == m.workos_scim_id

  unfoldable pub confirmed_by : List IdMapping → Bool
  unfolding get_mapping
  confirmed_by rows =
      maps_it (get_mapping directory.id kind m.native_id rows) && is_owner (owners rows)

  -- Behind the link: the mapping, where the answer has a strategy.
  unfoldable pub store_mapping : Option Strategy → Ids → Result String String × Ids
  unfolding insert_mapping confirmed_by
  store_mapping none ids = (ok m.native_id, ids)
  store_mapping (some strategy) ids =
      let mappings = insert_mapping strategy ids.mappings in
      (
        if confirmed_by mappings then ok m.native_id else err conflict,
        record ids { mappings = mappings },
      )

  abbrev pub after_bind :
      Result LinkError (Unit {0}) × List EventLink → Ids → Result String String × Ids
  after_bind (err e, links) ids = (err (link_error e), record ids { links = links })
  after_bind (ok done, links) ids = store_mapping m.strategy (record ids { links = links })

  -- Storing the answer: the link, and the mapping where the answer has a strategy.
  unfoldable pub learn : String → Ids → Result String String × Ids
  unfolding contradicts bind_event_link store_mapping
  learn dsync_id ids =
      let link : EventLink = record {
        directory_id = directory.id;
        resource_type = kind;
        dsync_id = dsync_id;
        native_id = m.native_id;
        workos_id = m.workos_scim_id;
      } in
      if contradicts ids.mappings
      then (err conflict, ids)
      else after_bind (bind_event_link link ids.links) ids

abbrev pub pair_if : String → Option String → List (String × String) → List (String × String)
pair_if key none rest = rest
pair_if key (some value) rest = (key, value) ∷ rest

-- `value ?? ""`
abbrev pub or_empty : Option Value → Option Value
or_empty none = some (str "")
or_empty (some null) = some (str "")
or_empty (some v) = some v

module _ {W : Type 0} (o : Outside W) (rows : Rows) (directory : Directory) (kind : ResourceType)
    (resource : Fields) (existing_only : Bool) where
  unfoldable pub mapping_query : List (String × String)
  unfolding text_at object_at event_name
  mapping_query =
      ("dsync_id", o.string_of (or_empty (get "id" resource)))
      ∷ pair_if "idp_id" (text_at "idp_id" resource) (
          pair_if (identity_attribute kind) (event_name kind resource) (
            pair_if "existing_only" (if existing_only then some "1" else none) (
              pair_if "externalId" (text_at "externalId" (object_or_end "raw_attributes" resource))
                [])))

  unfoldable pub mapping_request : String → String → HttpRequest
  unfolding mapping_query
  mapping_request base token = record {
    url = concat (
        base
        ∷ "/status/directories/"
        ∷ o.upstream.encode directory.id
        ∷ "/event-mapping/"
        ∷ kind_name kind
        ∷ "?"
        ∷ o.url_query mapping_query
        ∷ []);
    method = "GET";
    headers = ("Authorization", concat ("Bearer " ∷ token ∷ [])) ∷ [];
    body = none;
  }

  abbrev pub of_response : HttpResponse → Result String EventMapping
  of_response response =
      if not (is_success response.status)
      then err
          (concat ("Bridge event mapping resolver returned " ∷ o.number_text response.status ∷ []))
      else elim (o.upstream.parse response.text) [
        | none ↦ err (o.not_json response.text)
        | some value ↦ elim (checked_mapping directory kind resource (record_of (some value))) [
          | none ↦ err "Bridge returned an invalid event mapping"
          | some m ↦ ok m
        ]
      ]

  abbrev pub of_fetched : Fetched × W → Result String EventMapping × W
  of_fetched (unreachable message, w) = (err message, w)
  of_fetched (answered response, w) = (of_response response, w)

  unfoldable pub ask_bridge : Option String → Option String → Outer W EventMapping
  unfolding mapping_request event_name text_at
  ask_bridge none token w = (err "Event has no authenticated bridge mapping resolver", w)
  ask_bridge (some base) none w = (err "Event has no authenticated bridge mapping resolver", w)
  ask_bridge (some base) (some token) w =
      if not existing_only
        && not (is_some (event_name kind resource) && is_some (text_at "idp_id" resource))
      then (err "Event has no usable SCIM identity attributes", w)
      else of_fetched (o.upstream.fetch (mapping_request base token) w)

  abbrev pub store_answer : EventMapping → Learning W String
  store_answer m s =
      let r = learn directory kind m (o.string_of (get "id" resource)) s.0 in (r.0, (r.1, s.1))

  -- `fetchEventNativeId`
  unfoldable pub fetch_event_native_id : Learning W (Option String)
  unfolding ask_bridge learn
  fetch_event_native_id = do
    m ← learning (ask_bridge (base_url rows) (nonempty (client_token_for o rows directory.id)))
    native_id ← store_answer m
    pure (some native_id)
