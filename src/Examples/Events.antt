-- ===== src/Examples/Events.antt =====
-- Examples on the listener and its poller (workers/native), in a directory that is cut over.
use scim_bridge.Base.{
  string_eq, ℕ, ◌≢◌, String, ◌≡◌, refl, true, false, ◌&&◌, some, none, [], ◌∷◌, lookup, upsert,
}
use scim_bridge.Base.Result.{ok}
use scim_bridge.Base.Text.{after_prefix}
use scim_bridge.Base.TextOrder.{before}
use scim_bridge.Json.{str, obj, Fields, end, field}
use scim_bridge.EventLinks.{get_event_link}
use scim_bridge.Native.{UserRow, Native, user_by_id, user_by_external_id, upsert_user}
use scim_bridge.Listener.Config.{get_config}
use scim_bridge.Listener.{Rows, Bridge, Outside, DirectoryStatus, skipped, ignored}
use scim_bridge.Listener.Reading.{text_at, object_at, starts_with}
use scim_bridge.Listener.Mapping.{get_directory_by_id, candidates_of}
use scim_bridge.Listener.Learn.{fetch_event_native_id}
use scim_bridge.Listener.Resolve.{is_stored}
use scim_bridge.Mappings.{get_mapping_by_workos_id}
use scim_bridge.Listener.Scopes.{scope_for}
use scim_bridge.Listener.Versions.{is_newest_event}
use scim_bridge.Listener.Versions.Order.{record_all, newest_of_all, is_newest-record_all}
use scim_bridge.Listener.Handlers.Stable.{deletes_hard}
use scim_bridge.Listener.Log.{is_duplicate}
use scim_bridge.Listener.Process.{
  Processed, process_dsync_event, follow, attempt, dispatch, settled_attempt,
}
use scim_bridge.Listener.Process.Replays.{process-late}
use scim_bridge.Listener.Process.Redelivery.{process-failed}
use scim_bridge.Listener.Process.Once.{process-once}
use scim_bridge.Listener.Process.Tables.{process-keeps_user}
use scim_bridge.Examples.Mirrored.{accepting, acme}

abbrev pub cut_over : DirectoryStatus
cut_over = record { mode = "workos-only"; apply_dsync_events = none }

abbrev pub bridge_side : Outside ℕ
bridge_side = record {
  upstream = accepting;
  date_now = λ w. (1000000, w);
  lower = λ text. text;
  unique_violation = "UNIQUE constraint failed";
  text_length = λ text. 0;
  slice_to = λ n text. text;
  number_text = λ n. "";
  hmac_hex = λ secret text. "ab";
  fetch_directory_status = λ rows directory since w. (ok (some cut_over), w);
  string_of = λ v. "";
  not_json = λ text. "not JSON";
  url_query = λ pairs. "";
  remembered = λ id. none;
}

abbrev pub tables : Rows
tables = record {
  directories = acme ∷ [];
  config = ("native.webhook_secret", "s") ∷ [];
  versions = ("user:x", "2026-02") ∷ [];
}

abbrev ada : UserRow
ada = record { id = "1"; user_name = "ada"; external_id = some "x"; active = true; resource = "" }

abbrev pub directory : Native
directory = record { users = ada ∷ []; groups = []; members = ("g", "1") ∷ [] }

abbrev pub before_all : Bridge ℕ
before_all = record {
  rows = tables;
  ids = record { mappings = []; links = [] };
  native = directory;
  events = [];
  world = 0;
}

abbrev pub deletion : Fields
deletion = field "id" (str "event_1") (
    field "event" (str "dsync.user.deleted")
      (field "created_at" (str "2026-01") (field "data" (obj (field "idp_id" (str "x") end)) end)))

process-late_example :
    (process_dsync_event bridge_side (some deletion) none true before_all).1.native ≡ directory
unfolding text_at object_at scope_for starts_with is_newest_event before lookup after_prefix
process-late_example =
    process-late bridge_side deletion none true before_all "dsync.user.deleted" "user:x" refl refl
      refl

-- An event with a Directory Sync id that nothing binds.
abbrev pub unbound : Fields
unbound = field "id" (str "event_2") (
    field "event" (str "dsync.user.created")
      (field "data" (obj (field "id" (str "directory_user_1") (field "idp_id" (str "y") end))) end))

abbrev failure : Processed
failure = record { action = ignored; handler_error = true }

fails : (process_dsync_event bridge_side (some unbound) none true before_all).0 ≡ ok failure
unfolding process_dsync_event follow attempt dispatch settled_attempt text_at object_at after_prefix
    get_event_link get_directory_by_id fetch_event_native_id lookup
fails = refl

process-failed_example :
    ((process_dsync_event bridge_side (some unbound) none true before_all).1.rows ≡ tables)
    × ((id : String)
        → is_duplicate id
            (process_dsync_event bridge_side (some unbound) none true before_all).1.events
          ≡ is_duplicate id [])
unfolding text_at
process-failed_example =
    process-failed bridge_side unbound none true before_all "dsync.user.created" failure refl fails
      refl

abbrev skip : Processed
skip = record { action = skipped; handler_error = false }

skips : (process_dsync_event bridge_side (some deletion) none true before_all).0 ≡ ok skip
unfolding process_dsync_event follow attempt dispatch settled_attempt text_at object_at after_prefix
    lookup before
skips = refl

process-once_example :
    (process_dsync_event bridge_side
      (some deletion)
      none
      true
      (process_dsync_event bridge_side (some deletion) none true before_all).1).1.native
    ≡ (process_dsync_event bridge_side (some deletion) none true before_all).1.native
unfolding text_at
process-once_example =
    process-once bridge_side deletion none none true true before_all "dsync.user.deleted" "event_1"
      skip refl refl skips refl

-- The deletion, newer than what the ledger holds.
abbrev new_deletion : Fields
new_deletion = field "created_at" (str "2026-03") deletion

process-keeps_user_example :
    user_by_id "1"
      (process_dsync_event bridge_side (some new_deletion) none true before_all).1.native
    ≢ none
unfolding user_by_id lookup get_config deletes_hard
process-keeps_user_example =
    process-keeps_user bridge_side (some new_deletion) none true before_all "1" refl (λ e. cc)

-- The deletion is applied: the row stays, and is inactive.
deactivates :
    (process_dsync_event bridge_side (some new_deletion) none true before_all).1.native.users
    ≡ record {
      id = "1";
      user_name = "ada";
      external_id = some "x";
      active = false;
      resource = "{}";
    }
      ∷ []
unfolding process_dsync_event after_prefix lookup before candidates_of get_mapping_by_workos_id
    is_stored user_by_external_id upsert_user upsert
deactivates = refl

is_newest-record_all_example :
    is_newest_event
      (record_all (("user:x" ∷ [], some "2026-03") ∷ []) tables.versions)
      "user:x"
      (some "2026-01")
    ≡ (is_newest_event tables.versions "user:x" (some "2026-01")
        && newest_of_all "user:x" "2026-01" (("user:x" ∷ [], some "2026-03") ∷ []))
is_newest-record_all_example =
    is_newest-record_all "user:x" "2026-01" (("user:x" ∷ [], some "2026-03") ∷ []) tables.versions
