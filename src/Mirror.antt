-- ===== src/Mirror.antt =====
-- The mirror of workers/shared/scim.ts: `mirrorUpsert` writes one resource to WorkOS and records how
-- its native id and its WorkOS id correspond.
pub mod Effects
pub mod Create
pub mod Upsert
pub mod Outcome
pub mod Guarantees
use Prim.Native.String
use scim_bridge.Base.{
  ℕ, ◌+◌, String, Bool, true, false, Option, none, some, List, [], ◌∷◌, ◌++◌, not, ◌&&◌, ◌||◌, ◌==◌,
  string_eq, number_eq, find, if◌then◌else◌, leb, ltb, nat_eq,
}
use scim_bridge.Base.Result.{Result, ok, err}
use scim_bridge.Base.Text.{concat, replace_quotes}
use scim_bridge.Types.{
  ResourceType, users, groups, kind_eq, kind_name, Strategy, migrated_id, fallback_post, Directory,
  IdMapping,
}
use scim_bridge.Mappings.{
  Ambiguous, ambiguous, get_mapping, get_mapping_by_workos_id, upsert_mapping,
}
use scim_bridge.Claims.{CreateClaim, claim_workos_primary_create, release_workos_primary_create}
use scim_bridge.Json.{
  Value, str, arr, obj, Items, nil, cons, Fields, get, set, omit, as_string, parse_json, record_of,
}
use scim_bridge.Json.Strip.{strip_fields}
use scim_bridge.Scim.Http.{
  HttpRequest, HttpResponse, Fetched, unreachable, answered, Upstream, UpstreamResult, is_success,
  join_scim_url, FetchOptions, migrated_id_header, scim_request, upstream_result, scim_error_detail,
}
use scim_bridge.Mirror.Effects.{
  Thrown, fetch_failed, mapping_is_ambiguous, error_message, Store, M, pure, throw, continue, ◌>>=◌,
  ◌>>◌, catch,
}

-- `MirrorResult`
pub record MirrorResult : Type 0 where
  pub ok_ : Bool
  pub workos_request : String
  pub status : Option ℕ
  pub ms : Option ℕ
  pub body : Option String
  pub error : Option String
  pub created_id : Option String
  pub mint_conflict : Bool

-- `acc.ms || null`
abbrev pub ms_or_null : ℕ → Option ℕ
ms_or_null ms = if nat_eq ms 0 then none else some ms

abbrev pub strategy_eq : Strategy → Strategy → Bool
strategy_eq migrated_id migrated_id = true
strategy_eq fallback_post fallback_post = true
strategy_eq _ _ = false

-- `mappingRow`
abbrev pub mapping_row : Directory → ResourceType → String → String → Strategy → IdMapping
mapping_row directory kind native_id workos_id strategy = record {
  directory_id = directory.id;
  resource_type = kind;
  native_id = native_id;
  workos_id = workos_id;
  strategy = strategy;
}

-- `mintConflictDetail`
abbrev pub mint_conflict_detail : ResourceType → String → String → String
mint_conflict_detail kind id owner_native_id = concat (
    kind_name kind
    ∷ "/"
    ∷ id
    ∷ " is already the WorkOS-side id of "
    ∷ kind_name kind
    ∷ "/"
    ∷ owner_native_id
    ∷ " in this directory, so it cannot also be a resource id of its own. Address that resource by the id this directory returned for it."
    ∷ [])

abbrev pub added : List IdMapping → IdMapping → List IdMapping
added queue m = queue ++ m ∷ []

abbrev pub queued_claim :
    String → ResourceType → String → String → Option (List IdMapping) → Option IdMapping
queued_claim directory kind workos_id native_id none = none
queued_claim directory kind workos_id native_id (some queue) =
    find
      (λ m.
        m.directory_id == directory
        && m.resource_type == kind
        && m.workos_id == workos_id
        && not (m.native_id == native_id))
      queue

abbrev pub other_claim : String → Option IdMapping → Option IdMapping → Option IdMapping
other_claim native_id none queued = queued
other_claim native_id (some claimed) queued =
    if not (claimed.native_id == native_id) then some claimed else queued

abbrev pub claim_answer :
    String
    → Result Ambiguous (Option IdMapping)
    → Option IdMapping
    → Result Thrown (Option IdMapping)
claim_answer native_id (err ambiguous) queued = err mapping_is_ambiguous
claim_answer native_id (ok stored) queued = ok (other_claim native_id stored queued)

-- `UpstreamResult` as the outcome of a leg
module _ {W : Type 0} where
  abbrev pub elapsed : M W ℕ
  elapsed s = (ok s.elapsed, s)

  unfoldable pub mirror_ok : String → UpstreamResult → M W MirrorResult
  mirror_ok workos_request result s = (
    ok (record {
      ok_ = true;
      workos_request = workos_request;
      status = some result.status;
      ms = some s.elapsed;
      body = result.body_text;
      error = none;
      created_id = none;
      mint_conflict = false;
    }),
    s,
  )

  -- A refusal before or between the writes: `mintConflict` and `recoveryRefused`.
  unfoldable pub refused : String → ℕ → String → Bool → M W MirrorResult
  refused workos_request status error mint_conflict s = (
    ok (record {
      ok_ = false;
      workos_request = workos_request;
      status = some status;
      ms = ms_or_null s.elapsed;
      body = none;
      error = some error;
      created_id = none;
      mint_conflict = mint_conflict;
    }),
    s,
  )

  unfoldable pub mint_conflict : String → ResourceType → String → String → M W MirrorResult
  unfolding refused
  mint_conflict workos_request kind id owner_native_id =
      refused workos_request 409 (mint_conflict_detail kind id owner_native_id) true

  -- `recordMapping`
  abbrev pub recorded : IdMapping → Option (List IdMapping) → Store W → Store W
  recorded m none s = record s { mappings = upsert_mapping m s.mappings }
  recorded m (some queue) s = record s { sink = some (added queue m) }

  unfoldable pub record_mapping : IdMapping → M W (Unit {0})
  record_mapping m s = (ok tt, recorded m s.sink s)

  unfoldable pub read_mapping : String → ResourceType → String → M W (Option IdMapping)
  read_mapping directory kind native_id s =
      (ok (get_mapping directory kind native_id s.mappings), s)

  -- `claimedByAnother`
  unfoldable pub claimed_by_another :
      String → ResourceType → String → String → M W (Option IdMapping)
  claimed_by_another directory kind workos_id native_id s = (
    claim_answer native_id (get_mapping_by_workos_id directory kind workos_id s.mappings)
        (queued_claim directory kind workos_id native_id s.sink),
    s,
  )

module _ {W : Type 0} (u : Upstream W) where
  abbrev pub fetched : Fetched × W → Store W → Result Thrown UpstreamResult × Store W
  fetched (unreachable message, w) s = (err (fetch_failed message), record s { world = w })
  fetched (answered response, w) s =
      (ok (upstream_result response), record s { world = w; elapsed = s.elapsed + response.ms })

  -- `scimFetch` and the `acc.ms += result.ms` that follows each of its calls in the mirror
  unfoldable pub scim_fetch : String → FetchOptions → M W UpstreamResult
  scim_fetch url options s = fetched (u.fetch (scim_request url options) s.world) s

  abbrev pub scim_url : String → String → String
  scim_url base path = join_scim_url u.parse_url u.url_with_path base path

  abbrev pub resource_url : Directory → ResourceType → String → String
  resource_url directory kind id =
      scim_url directory.workos_url (concat ("/" ∷ kind_name kind ∷ "/" ∷ u.encode id ∷ []))

  abbrev pub collection_url : Directory → ResourceType → String
  collection_url directory kind = scim_url directory.workos_url (String.◌++◌ "/" (kind_name kind))

  abbrev pub body_options : Directory → String → Value → Option String → FetchOptions
  body_options directory method value migrated = record {
    method = method;
    token = directory.workos_token;
    body = some (u.stringify value);
    content_type = none;
    migrated_id = migrated;
    request_headers = [];
  }

  unfoldable pub put_workos :
      Directory → ResourceType → String → Fields → Option String → M W UpstreamResult
  unfolding scim_fetch
  put_workos directory kind id resource migrated =
      scim_fetch (resource_url directory kind id)
        (body_options directory "PUT" (obj (set "id" (str id) resource)) migrated)

  abbrev pub fail_error : String → Option String → String
  fail_error error none = error
  fail_error error (some detail) = concat (error ∷ " (" ∷ detail ∷ ")" ∷ [])

  unfoldable pub mirror_fail : String → UpstreamResult → String → M W MirrorResult
  mirror_fail workos_request result error s = (
    ok (record {
      ok_ = false;
      workos_request = workos_request;
      status = some result.status;
      ms = some s.elapsed;
      body = result.body_text;
      error = some (
          fail_error error (
            if is_success result.status then none else scim_error_detail u.parse result.body_text));
      created_id = none;
      mint_conflict = false;
    }),
    s,
  )
