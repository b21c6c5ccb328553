-- ===== src/Examples/Mirrored.antt =====
-- Examples on the mirror (workers/shared/scim.ts), against a WorkOS that accepts every write.
use scim_bridge.Base.{
  if◌then◌else◌, ◌==◌, string_eq, ℕ, ◌+◌, String, ◌≡◌, refl, true, false, some, none, [], ◌∷◌,
  arith, eq_iff, lookup, upsert,
}
use scim_bridge.Base.Result.{ok, err}
use scim_bridge.Types.{users, migrated_id, IdMapping, Directory, workos_primary}
use scim_bridge.Mappings.{get_mapping, get_mapping_by_workos_id}
use scim_bridge.Json.Strip.{strip_fields, strip_nulls}
use scim_bridge.Json.{str, Fields, end, field}
use scim_bridge.Scim.Http.{
  HttpResponse, Fetched, answered, unreachable, Upstream, upstream_result, scim_request,
}
use scim_bridge.Mirror.Effects.{Store, fetch_failed}
use scim_bridge.Mirror.{
  MirrorResult, read_mapping, claimed_by_another, put_workos, scim_fetch, record_mapping, mirror_ok,
}
use scim_bridge.Mirror.Upsert.{
  mirror_upsert, finish, mirror_body, mirror_known, write_first, after_first_put,
}
use scim_bridge.Mirror.Outcome.{IsMapped, Post}
use scim_bridge.Mirror.Create.{create_via_post}
use scim_bridge.Mirror.Outcome.Returns.{serialized_mirror_upsert-returns}
use scim_bridge.Mirror.Guarantees.{
  RefusedUntouched, mirror_upsert-Post, mirror_upsert-IsMapped, mirror_upsert-elsewhere,
  mirror_upsert-claimed,
}

abbrev pub accepted : HttpResponse
accepted = record { status = 200; ms = 5; text = ""; header = λ name. none }

-- The world counts the requests.
abbrev pub accepting : Upstream ℕ
accepting = record {
  fetch = λ request count. (answered accepted, count + 1);
  random_uuid = λ count. ("token", count);
  parse = λ text. none;
  stringify = λ value. "{}";
  encode = λ text. text;
  parse_url = λ text. none;
  url_with_path = λ url path. path;
}

abbrev no_text : ℕ → String
no_text status = ""

abbrev pub acme : Directory
acme = record {
  id = "d";
  name = "Acme";
  mode = workos_primary;
  proxy_token_hash = "";
  proxy_token_hint = "";
  native_url = "";
  native_token = "";
  native_token_partitioned = false;
  workos_url = "https://workos.test";
  workos_token = "t";
  workos_directory_id = none;
  log_persistence = false;
}

abbrev bob : IdMapping
bob = record {
  directory_id = "d";
  resource_type = users;
  native_id = "2";
  workos_id = "w";
  strategy = migrated_id;
}

abbrev store : Store ℕ
store = record { mappings = bob ∷ []; claims = []; sink = none; elapsed = 0; world = 0 }

abbrev person : Fields
person = field "userName" (str "ada") end

mirror_upsert-Post_example :
    Post acme users "1" store (mirror_upsert accepting no_text acme users "1" false person store)
mirror_upsert-Post_example = mirror_upsert-Post accepting no_text acme users "1" false person store

mirror_upsert-elsewhere_example :
    get_mapping "d" users "2"
      (mirror_upsert accepting no_text acme users "1" false person store).1.mappings
    ≡ get_mapping "d" users "2" (bob ∷ [])
mirror_upsert-elsewhere_example =
    mirror_upsert-elsewhere accepting no_text acme users "1" false person store "d" users "2"
      (λ same. ground (arith, eq_iff "1" "2"))

mirror_upsert-claimed_example :
    RefusedUntouched accepting no_text acme users "w" person store
      (mirror_upsert accepting no_text acme users "w" false person store)
unfolding get_mapping_by_workos_id get_mapping lookup
mirror_upsert-claimed_example =
    mirror_upsert-claimed accepting no_text acme users "w" person store bob refl
      (λ same. ground (arith, eq_iff "2" "w"))

abbrev mirrored : MirrorResult
mirrored = record {
  ok_ = true;
  workos_request = "PUT /Users/1 +X-WorkOS-Migrated-Id";
  status = some 200;
  ms = some 5;
  body = none;
  error = none;
  created_id = none;
  mint_conflict = false;
}

mirrors : (mirror_upsert accepting no_text acme users "1" false person store).0 ≡ ok mirrored
unfolding mirror_upsert mirror_body read_mapping get_mapping mirror_known claimed_by_another
    get_mapping_by_workos_id write_first put_workos scim_fetch after_first_put finish record_mapping
    mirror_ok upstream_result scim_request strip_fields strip_nulls lookup upsert
mirrors = refl

mirror_upsert-IsMapped_example :
    IsMapped acme users "1" (mirror_upsert accepting no_text acme users "1" false person store).1
mirror_upsert-IsMapped_example =
    mirror_upsert-IsMapped accepting no_text acme users "1" false person store refl mirrored mirrors
      refl

serialized_mirror_upsert-returns_example :
    (r : MirrorResult) × ((mirror_upsert accepting no_text acme users "2" true person store).0
      ≡ ok r)
serialized_mirror_upsert-returns_example =
    serialized_mirror_upsert-returns accepting no_text acme users "2" person store

-- A WorkOS that has no resource yet, and to which the create does not connect.
abbrev flaky_answer : String → Fetched
flaky_answer method =
    if method == "POST"
    then unreachable "connection reset"
    else answered (record accepted { status = 404 })

abbrev flaky : Upstream ℕ
flaky = record accepting { fetch = λ request count. (flaky_answer request.method, count + 1) }

-- The exception of the create is not caught where the caller does not ask for a serialized update.
creation_throws :
    (mirror_upsert flaky no_text acme users "1" false person store).0
    ≡ err (fetch_failed "connection reset")
unfolding mirror_upsert mirror_body read_mapping get_mapping mirror_known claimed_by_another
    get_mapping_by_workos_id write_first put_workos scim_fetch after_first_put finish
    create_via_post upstream_result scim_request strip_fields strip_nulls lookup upsert
creation_throws = refl
