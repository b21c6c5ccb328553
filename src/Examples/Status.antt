-- ===== src/Examples/Status.antt =====
-- Examples on the client of the bridge's status routes (workers/native/status-client.ts).
use scim_bridge.Base.{ℕ, ◌+◌, ◌≡◌, refl, true, some, none, [], ◌∷◌, lookup, upsert, string_eq}
use scim_bridge.Base.Result.{ok}
use scim_bridge.Base.Text.{strip_slashes}
use scim_bridge.Types.{users, IdMapping, fallback_post}
use scim_bridge.Json.{str, null, obj, Fields, end, field}
use scim_bridge.Mappings.{get_mapping}
use scim_bridge.EventLinks.{EventLink, get_event_link, insert_link}
use scim_bridge.Scim.Http.{HttpResponse, answered}
use scim_bridge.Listener.{Rows, Ids, Outside}
use scim_bridge.Listener.Config.{get_config}
use scim_bridge.Listener.Answer.{checked_mapping}
use scim_bridge.Listener.Learn.{ask_bridge, learn, fetch_event_native_id}
use scim_bridge.Listener.Learn.Stored.{fetch-keeps_mapping, fetch-binds}
use scim_bridge.Listener.Status.{CacheEntry, Client, fetch_directory_status}
use scim_bridge.Examples.Mirrored.{accepting, acme}
use scim_bridge.Examples.Events.{bridge_side}

abbrev response : ℕ → HttpResponse
response status = record { status = status; ms = 1; text = "answer"; header = λ name. none }

abbrev mapping_answer : Fields
mapping_answer = field "workos_directory_id" null (
    field "resource_type" (str "Users") (
      field "dsync_id" (str "directory_user_1") (
        field "workos_scim_id" (str "w1")
          (field "native_id" (str "n1") (field "strategy" (str "migrated-id") end)))))

-- A bridge that answers every request with one status and one mapping.
abbrev bridge_answering : ℕ → Outside ℕ
bridge_answering status = record bridge_side {
  upstream = record accepting {
    fetch = λ request count. (answered (response status), count + 1);
    parse = λ text. some (obj mapping_answer);
  };
  string_of = λ v. "directory_user_1";
  remembered = λ id. some "token";
}

abbrev reachable : Rows
reachable = record {
  directories = acme ∷ [];
  config = ("proxy.public_url", "https://bridge.test") ∷ [];
  versions = [];
}

abbrev event : Fields
event = field "id" (str "directory_user_1") end

-- The mapping of the answer, with another strategy.
abbrev old_row : IdMapping
old_row = record {
  directory_id = "d";
  resource_type = users;
  native_id = "n1";
  workos_id = "w1";
  strategy = fallback_post;
}

abbrev known : Ids
known = record { mappings = old_row ∷ []; links = [] }

found : get_mapping "d" users "n1" known.mappings ≡ some old_row
unfolding get_mapping lookup
found = refl

fetch-keeps_mapping_example :
    get_mapping "d" users "n1"
      (fetch_event_native_id
        (bridge_answering 200)
        reachable
        acme
        users
        event
        true
        (known, 0)).1.0.mappings
    ≡ some old_row
fetch-keeps_mapping_example =
    fetch-keeps_mapping (bridge_answering 200) reachable acme users event true "d" users "n1"
      old_row known 0 found

learns :
    (fetch_event_native_id (bridge_answering 200) reachable acme users event true (known, 0)).0
    ≡ ok (some "n1")
unfolding fetch_event_native_id get_config lookup strip_slashes ask_bridge learn checked_mapping
    get_event_link insert_link upsert
learns = refl

fetch-binds_example :
    (row : EventLink) × (get_event_link "d" users "directory_user_1"
        (fetch_event_native_id
          (bridge_answering 200)
          reachable
          acme
          users
          event
          true
          (known, 0)).1.0.links
      ≡ some row)
    × (row.native_id ≡ "n1")
fetch-binds_example =
    fetch-binds (bridge_answering 200) reachable acme users event true "n1" known 0 learns

-- An entry that is within its five seconds, confirmed before the instant that is asked for.
abbrev entry : CacheEntry
entry = record { status = str "cut over"; etag = some "v1"; validated_at = 999000 }

abbrev client : Client ℕ
client = record { cache = λ id. some entry; failed_until = λ id. none; world = 0 }

-- The request was made, where the caller named the instant, and not where it named none.
asked :
    ((fetch_directory_status (bridge_answering 304) reachable acme (some 999500) client).1.world
      ≡ 1)
    × ((fetch_directory_status (bridge_answering 304) reachable acme none client).1.world ≡ 0)
unfolding fetch_directory_status get_config lookup strip_slashes
asked = (refl, refl)
