-- ===== src/Poller.antt =====
-- The poller of the Events API (workers/native/events-poller.ts): its cursor and its retry state, and
-- what it does after each event.
pub mod Pages
pub mod Order
use scim_bridge.Base.{
  ℕ, zero, suc, ◌+◌, String, Bool, true, false, Option, none, some, List, [], ◌∷◌, not, ◌&&◌, ◌||◌,
  ◌==◌, string_eq, nat_eq, ltb, upsert, remove, if◌then◌else◌,
}
use scim_bridge.Base.Text.{concat}
use scim_bridge.Base.Effects.{Effect, pure, throw, ◌>>=◌}
use scim_bridge.Base.Result.{Result, ok, err}
use scim_bridge.Json.{
  Value, null, num, str, arr, obj, Items, nil, cons, Fields, end, field, get, record_of, as_string,
}
use scim_bridge.Scim.Http.{is_success}
use scim_bridge.Listener.Config.{get_config}
use scim_bridge.Listener.{Rows, Outer, Outside, Listening, Bridge, Action, ignored}
use scim_bridge.Listener.Reading.{nonempty, string_value, text_at}
use scim_bridge.Listener.Scopes.{or_else}
use scim_bridge.Listener.Log.{record_event}
use scim_bridge.Listener.Process.{Processed, process_dsync_event, outside, payload_of}

-- `EVENTS_CURSOR_KEY`
abbrev pub events_cursor_key : String
events_cursor_key = "native.events_cursor"

-- `EVENTS_RETRY_KEY`
abbrev pub events_retry_key : String
events_retry_key = "native.events_retry"

-- `MAX_EVENT_ATTEMPTS`
abbrev pub max_event_attempts : ℕ
max_event_attempts = 5

-- `RetryState`
pub record RetryState : Type 0 where
  pub id : String
  pub count : ℕ

-- A response: its status, and the body's `data` and `list_metadata.after`.
pub record EventsPage : Type 0 where
  pub status : ℕ
  pub events : Items
  pub after : Option String

abbrev pub config_key : String × String → String
config_key row = row.0

module _ {W : Type 0} where
  -- `setConfig`
  unfoldable pub set_config : String → String → Bridge W → Bridge W
  set_config key value s =
      let rows = s.rows in
      record s {
        rows = record rows {
          config = upsert config_key (λ row. (row.0, value)) (key, value) rows.config;
        };
      }

  -- `deleteConfig`
  unfoldable pub delete_config : String → Bridge W → Bridge W
  delete_config key s =
      let rows = s.rows in
      record s { rows = record rows { config = remove config_key key rows.config } }

abbrev pub retry_of : Option Fields → Option RetryState
retry_of none = none
retry_of (some fs) = elim (get "id" fs) [
  | none ↦ none
  | some i ↦ elim i [
    | str id ↦ elim (get "count" fs) [
      | none ↦ none
      | some c ↦ elim c [ num count ↦ some (record { id = id; count = count }) | _ ↦ none ]
    ]
    | _ ↦ none
  ]
]

-- `readRetryState`: a value that does not parse reads as none
unfoldable pub read_retry_state :
    (String → Option Value) → List (String × String) → Option RetryState
unfolding get_config
read_retry_state parse config = elim (nonempty (get_config events_retry_key config)) [
  | none ↦ none
  | some raw ↦ retry_of (record_of (parse raw))
]

abbrev pub retry_value : RetryState → Value
retry_value r = obj (field "id" (str r.id) (field "count" (num r.count) end))

-- The event is the one that is being retried.
abbrev pub is_retry : Option RetryState → Option String → Bool
is_retry none id = false
is_retry (some retry) none = false
is_retry (some retry) (some id) = retry.id == id

abbrev pub attempts_so_far : Option RetryState → Option String → ℕ
attempts_so_far none id = 1
attempts_so_far (some retry) id = if is_retry (some retry) id then retry.count + 1 else 1

-- The variables of the loop over a page.
pub record Progress : Type 0 where
  pub last_processed : Option String
  pub retry : Option RetryState
  pub processed : ℕ

-- How the loop over a page ended: at the end of the page, or before an event to be retried.
pub record PageEnd : Type 0 where
  pub progress : Progress
  pub stopped : Bool

abbrev pub record_of_value : Value → Option Fields
record_of_value v = record_of (some v)

abbrev pub event_id_of : Option Fields → Option String
event_id_of none = none
event_id_of (some fs) = string_value (get "id" fs)

abbrev pub type_of : Option Fields → String
type_of none = "unknown"
type_of (some fs) = or_else "unknown" (string_value (get "event" fs))

abbrev pub past : Option String → Option String → Option String
past none last = last
past (some id) last = some id

module _ {W : Type 0} (o : Outside W) where
  -- `advanceCursor`
  unfoldable pub advance_cursor : Option String → Option String → Bridge W → Bridge W
  unfolding set_config
  advance_cursor cursor none s = s
  advance_cursor cursor (some id) s =
      if or_else "" cursor == id then s else set_config events_cursor_key id s

  -- An event whose budget is spent, or that has no id.
  unfoldable pub abandon : Option Fields → ℕ → Bridge W → Bridge W
  unfolding delete_config record_event
  abandon envelope attempts s =
      record_event o (event_id_of envelope) (type_of envelope) none ignored
        (concat (
          "poller abandoned event "
          ∷ or_else "<no id>" (event_id_of envelope)
          ∷ " after "
          ∷ o.number_text attempts
          ∷ " attempts — the event was NOT applied; run Reconcile from WorkOS to repair the resource"
          ∷ []))
        (payload_of o envelope none) (delete_config events_retry_key s)

  -- What follows the processing of one event: go on with the progress, or stop before the event.
  unfoldable pub after_event :
      Option String → Option Fields → Progress → Processed → Bridge W → PageEnd × Bridge W
  unfolding delete_config set_config advance_cursor abandon
  after_event cursor envelope p outcome s =
      let id = event_id_of envelope in
      let retried = is_retry p.retry id in
      let attempts = attempts_so_far p.retry id in
      if not outcome.handler_error
      then (
        record {
          progress = record {
            last_processed = past id p.last_processed;
            retry = if retried then none else p.retry;
            processed = suc p.processed;
          };
          stopped = false;
        },
        if retried then delete_config events_retry_key s else s,
      )
      else elim id [
        | none ↦ (
          record {
            progress = record {
              last_processed = p.last_processed;
              retry = none;
              processed = p.processed;
            };
            stopped = false;
          },
          abandon envelope attempts s,
        )
        | some event_id ↦
            let retry : RetryState = record { id = event_id; count = attempts } in
            if ltb attempts max_event_attempts
            then (
              record {
                progress = record {
                  last_processed = p.last_processed;
                  retry = some retry;
                  processed = p.processed;
                };
                stopped = true;
              },
              advance_cursor cursor p.last_processed
                  (set_config events_retry_key (o.upstream.stringify (retry_value retry)) s),
            )
            else (
              record {
                progress = record {
                  last_processed = some event_id;
                  retry = none;
                  processed = p.processed;
                };
                stopped = false;
              },
              abandon envelope attempts s,
            )
      ]
