-- ===== src/Listener/Verify.antt =====
-- `verifiedWorkosEventMapping` of workers/shared/event-mapping.ts: the identity of an event, confirmed
-- by WorkOS.
use scim_bridge.Base.{
  ℕ, suc, String, Bool, true, false, Option, none, some, List, [], ◌∷◌, not, ◌&&◌, ◌||◌, string_eq,
  nat_eq, leb, distinct, if◌then◌else◌,
}
use scim_bridge.Base.Text.{concat}
use scim_bridge.Base.Effects.{pure, throw, ◌>>=◌, result}
use scim_bridge.Base.Result.{Result, ok, err}
use scim_bridge.Types.{ResourceType, kind_name, Directory, IdMapping}
use scim_bridge.Json.{Value, num, str, arr, obj, Items, nil, cons, Fields, get, parse_json}
use scim_bridge.Scim.Http.{
  Fetched, unreachable, answered, UpstreamResult, upstream_result, is_success, join_scim_url,
  scim_request,
}
use scim_bridge.Listener.{Ids, Outer, Outside}
use scim_bridge.Listener.Reading.{◌<|>◌, text_at, object_at, object_or_end, is_text, event_name}
use scim_bridge.Listener.Mapping.{
  get_unique_scim_mapping, matches_event_identity, identity_attribute,
}

abbrev present : Option String → List String → List String
present none rest = rest
present (some s) rest = s ∷ rest

abbrev is_num : ℕ → Option Value → Bool
is_num n (some (num m)) = nat_eq m n
is_num n _ = false

abbrev count : Items → ℕ
count nil = 0
count (cons x xs) = suc (count xs)

abbrev all_objects : Items → Bool
all_objects nil = true
all_objects (cons (obj fs) xs) = all_objects xs
all_objects (cons _ xs) = false

abbrev first : Items → Option Fields
first (cons (obj fs) xs) = some fs
first _ = none

module _ {W : Type 0} (o : Outside W) where
  abbrev answer : Fetched × W → Result String UpstreamResult × W
  answer (unreachable message, w) = (err message, w)
  answer (answered r, w) = (ok (upstream_result r), w)

  -- `scimFetch` with the method GET
  unfoldable scim_get : String → String → Outer W UpstreamResult
  scim_get url token w = answer (
      o.upstream.fetch
        (scim_request url (record {
          method = "GET";
          token = token;
          body = none;
          content_type = none;
          migrated_id = none;
          request_headers = [];
        }))
        w)

  abbrev lookup_failed : ℕ → String
  lookup_failed status =
      concat ("WorkOS SCIM identity lookup returned " ∷ o.number_text status ∷ [])

  module _ (ids : Ids) (directory : Directory) (kind : ResourceType) (resource : Fields) where
    abbrev url_of : String → String
    url_of path =
        join_scim_url o.upstream.parse_url o.upstream.url_with_path directory.workos_url path

    abbrev confirms : IdMapping → Option Fields → Bool
    confirms m none = false
    confirms m (some resolved) =
        is_text m.workos_id (get "id" resolved) && matches_event_identity kind resource resolved

    unfoldable after_get :
        IdMapping → Outer W (Option IdMapping) → UpstreamResult → Outer W (Option IdMapping)
    after_get m rest response =
        if nat_eq response.status 404
        then rest
        else if not (is_success response.status)
        then throw (lookup_failed response.status)
        else if confirms m (parse_json o.upstream.parse response.body_text)
        then pure (some m)
        else rest

    -- The loop over the candidates; none is confirmed where it answers `none`.
    unfoldable verify_candidates : List String → Outer W (Option IdMapping)
    unfolding scim_get after_get
    verify_candidates [] = pure none
    verify_candidates (candidate ∷ more) =
        let rest = verify_candidates more in
        result (get_unique_scim_mapping ids directory.id kind candidate) >>= λ found. elim found [
          | none ↦ rest
          | some m ↦
              scim_get
                (url_of (concat ("/" ∷ kind_name kind ∷ "/" ∷ o.upstream.encode m.workos_id ∷ [])))
                directory.workos_token
              >>= after_get m rest
        ]

    -- The one resource of a complete listing, or none.
    unfoldable sole_resource : Option Fields → Result String (Option Fields)
    sole_resource none = err "WorkOS SCIM identity lookup is incomplete or ambiguous"
    sole_resource (some listing) = elim (get "Resources" listing) [
      | none ↦ err "WorkOS SCIM identity lookup is incomplete or ambiguous"
      | some v ↦ elim v [
        | arr xs ↦
            if is_num (count xs) (get "totalResults" listing)
              && leb (count xs) 1
              && is_num 1 (get "startIndex" listing)
              && is_num (count xs) (get "itemsPerPage" listing)
              && all_objects xs
            then ok (first xs)
            else err "WorkOS SCIM identity lookup is incomplete or ambiguous"
        | _ ↦ err "WorkOS SCIM identity lookup is incomplete or ambiguous"
      ]
    ]

    unfoldable mapping_of_listed : String → Option Fields → Result String (Option IdMapping)
    unfolding text_at
    mapping_of_listed value none = ok none
    mapping_of_listed value (some resolved) =
        if not (is_text value (get (identity_attribute kind) resolved))
          || not (matches_event_identity kind resource resolved)
        then err "WorkOS SCIM lookup did not confirm the event identity"
        else elim (text_at "id" resolved) [
          | none ↦ err "WorkOS SCIM identity has no resource id"
          | some scim_id ↦ get_unique_scim_mapping ids directory.id kind scim_id
        ]

    unfoldable after_listing : String → UpstreamResult → Outer W (Option IdMapping)
    unfolding sole_resource mapping_of_listed
    after_listing value response =
        if not (is_success response.status)
        then throw (lookup_failed response.status)
        else result (sole_resource (parse_json o.upstream.parse response.body_text)) >>= λ listed.
            result (mapping_of_listed value listed)

    -- The lookup by name behind the loop.
    unfoldable look_up_by_name : Option String → Outer W (Option IdMapping)
    unfolding scim_get after_listing
    look_up_by_name none = throw "Event has no usable SCIM identity attributes"
    look_up_by_name (some value) =
        let filter =
          concat (identity_attribute kind ∷ " eq " ∷ o.upstream.stringify (str value) ∷ []) in
        scim_get
          (concat (
            url_of (concat ("/" ∷ kind_name kind ∷ []))
            ∷ "?filter="
            ∷ o.upstream.encode filter
            ∷ "&startIndex=1&count=2"
            ∷ []))
          directory.workos_token
        >>= after_listing value

    -- `verifiedWorkosEventMapping`
    unfoldable pub verified_workos_event_mapping : Outer W (Option IdMapping)
    unfolding verify_candidates look_up_by_name text_at object_at
    verified_workos_event_mapping =
        verify_candidates (
          distinct (
            present (text_at "externalId" (object_or_end "raw_attributes" resource))
              (present (text_at "idp_id" resource) [])))
        >>= λ verified. elim verified [
          | some m ↦ pure (some m)
          | none ↦ look_up_by_name (event_name kind resource <|> text_at "idp_id" resource)
        ]
