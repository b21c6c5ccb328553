-- ===== src/Listener/Process.antt =====
-- Processing one event: `processDsyncEvent` and `dispatch` of workers/native/listener.ts.
pub mod Replays
pub mod Redelivery
pub mod Once
pub mod Tables
use scim_bridge.Base.{
  ℕ, String, Bool, true, false, Option, none, some, List, [], ◌∷◌, not, ◌&&◌, ◌||◌, ◌==◌, string_eq,
  any, ltb, if◌then◌else◌,
}
use scim_bridge.Base.Text.{concat}
use scim_bridge.Base.Effects.{Effect, pure, ◌>>=◌, ◌>>◌}
use scim_bridge.Base.Result.{Result, ok, err}
use scim_bridge.Json.{Value, null, obj, Fields, end, get, record_of}
use scim_bridge.Native.{Native, holds_text}
use scim_bridge.Listener.{
  Rows, Outer, Outside, Handler, Listening, Bridge, LoggedEvent, Outcome, Action, applied, skipped,
  ignored,
}
use scim_bridge.Listener.Reading.{text_at, object_or_end, starts_with, object_at, nonempty}
use scim_bridge.Listener.Scopes.{add_scope, scope_for, event_scopes, or_else}
use scim_bridge.Listener.Versions.{is_newest_across, record_event_versions}
use scim_bridge.Listener.Steps.{outcome}
use scim_bridge.Listener.Handlers.{
  upsert_user_from_event, delete_user_from_event, upsert_group_from_event, delete_group_from_event,
}
use scim_bridge.Listener.Memberships.{read_membership, add_membership, remove_membership}
use scim_bridge.Listener.Log.{is_processed, is_duplicate, truncate_body, record_event}
use scim_bridge.Listener.Apply.{apply_event}
use scim_bridge.Listener.Instruction.{Instruction, dsync_instruction_for_event}

-- `ProcessedDsyncEvent`
pub record Processed : Type 0 where
  pub action : Action
  pub handler_error : Bool

-- What an attempt at an event leaves: the id to log, the outcome, and whether a handler threw.
pub record Attempted : Type 0 where
  pub event_id : Option String
  pub outcome_ : Outcome
  pub failed : Bool

abbrev pub tried : Option String → Outcome → Bool → Attempted
tried event_id out failed = record { event_id = event_id; outcome_ = out; failed = failed }

module _ {W : Type 0} (o : Outside W) where
  -- A handler, run on the native tables of the database.
  abbrev pub handled : {A : Type 0} → Handler W A → Listening W A
  handled h s =
      let r = h (s.native, (s.ids, s.world)) in
      (r.0, record s { native = r.1.0; ids = r.1.1.0; world = r.1.1.1 })

  abbrev pub outside : {A : Type 0} → Outer W A → Listening W A
  outside f s = let r = f s.world in (r.0, record s { world = r.1 })

  -- `for (const scope of scopes) await recordEventVersion(…)`
  abbrev pub record_versions : List String → Option String → Bridge W → Bridge W
  unfolding record_event_versions
  record_versions scopes at s =
      let rows = s.rows in
      record s { rows = record rows { versions = record_event_versions scopes at rows.versions } }

  abbrev pub scopes_of : Bridge W → String → String → Fields → List String
  unfolding event_scopes
  scopes_of s dir event_type event =
      event_scopes s.ids s.native dir o.upstream.stringify event_type event

  abbrev pub applied_all :
      List String
      → Option String
      → Result String Outcome × Bridge W
      → Result String Outcome × Bridge W
  applied_all scopes at (ok out, s) = (ok out, record_versions scopes at s)
  applied_all scopes at (err e, s) = (err e, s)

  -- `dispatch`
  unfoldable pub dispatch : String → Fields → Option String → String → Listening W Outcome
  unfolding event_scopes is_newest_across apply_event text_at
  dispatch event_type event at dir s =
      let scopes = scopes_of s dir event_type event in
      if not (is_newest_across s.rows.versions scopes at)
      then (
        ok (
            outcome skipped "superseded by a newer event (out-of-order delivery)"
              (text_at "idp_id" event)),
        s,
      )
      else applied_all scopes at (handled (apply_event o s.rows dir at event_type event) s)

  -- What the `try` block around `dispatch` leaves: the id to log, the outcome, and whether it threw.
  unfoldable pub settled_attempt :
      Option String → Result String Outcome × Bridge W → Attempted × Bridge W
  settled_attempt event_id (ok out, s) = (tried event_id out false, s)
  settled_attempt none (err message, s) =
      (tried none (outcome ignored (concat ("handler error: " ∷ message ∷ [])) none) true, s)
  settled_attempt (some id) (err message, s) = (
    tried none (outcome ignored (concat ("handler error (event " ∷ id ∷ "): " ∷ message ∷ [])) none)
        true,
    s,
  )

  abbrev pub is_repeated : Option String → List LoggedEvent → Bool
  unfolding is_duplicate
  is_repeated none events = false
  is_repeated (some id) events = is_duplicate id events

  unfoldable pub attempt :
      Option String → String → Fields → Option String → String → Bridge W → Attempted × Bridge W
  unfolding settled_attempt dispatch is_duplicate text_at
  attempt event_id event_type event at dir s =
      if is_repeated event_id s.events
      then (tried event_id (outcome skipped "duplicate delivery" (text_at "idp_id" event)) false, s)
      else settled_attempt event_id (dispatch event_type event at dir s)

  abbrev pub logged : String → String → Bool → Attempted × Bridge W → Processed × Bridge W
  unfolding record_event
  logged event_type payload record_handler_error (tried_, s) =
      let out = tried_.outcome_ in
      let answer : Processed = record { action = out.action; handler_error = tried_.failed } in
      (
        answer,
        if not tried_.failed || record_handler_error
            then record_event o tried_.event_id event_type out.idp_id out.action out.detail payload
                s
            else s,
      )

  abbrev pub inert_scopes : Bridge W → Option String → String → Fields → List String
  unfolding scope_for
  inert_scopes s none event_type event = add_scope (scope_for event_type event) []
  inert_scopes s (some dir) event_type event = scopes_of s dir event_type event

  abbrev pub ignored_event : Processed
  ignored_event = record { action = ignored; handler_error = false }

  -- The branch of an instruction not to apply.
  unfoldable pub stay_inert :
      Option String
      → String
      → Fields
      → Option String
      → Instruction
      → String
      → Bridge W
      → Processed × Bridge W
  unfolding record_event record_event_versions event_scopes scope_for text_at
  stay_inert event_id event_type event at instruction payload s = (
    ignored_event,
    record_event o event_id event_type (text_at "idp_id" event) ignored
        (concat (
          "listener inactive in "
          ∷ or_else "pre-cutover" instruction.mode
          ∷ " mode — the proxy writes the native app directly until cutover"
          ∷ []))
        payload (record_versions (inert_scopes s instruction.directory_id event_type event) at s),
  )

  -- What follows the instruction. One that says to apply names its directory.
  unfoldable pub follow :
      Option String
      → String
      → Fields
      → Option String
      → String
      → Bool
      → Instruction
      → Bridge W
      → Processed × Bridge W
  unfolding stay_inert attempt
  follow event_id event_type event at payload record_handler_error instruction s =
      if not instruction.apply
      then stay_inert event_id event_type event at instruction payload s
      else logged event_type payload record_handler_error
          (attempt event_id event_type event at (or_else "" instruction.directory_id) s)

  abbrev pub payload_of : Option Fields → Option String → String
  payload_of envelope (some raw) = raw
  payload_of none none = o.upstream.stringify null
  payload_of (some fs) none = o.upstream.stringify (obj fs)

  abbrev pub as_listening : {A : Type 0} → (Bridge W → A × Bridge W) → Listening W A
  as_listening f s = let r = f s in (ok r.0, r.1)

  abbrev pub reject : String → Listening W Processed
  unfolding record_event
  reject payload s = (
    ok ignored_event,
    record_event o none "unknown" none ignored "payload is not a WorkOS webhook envelope" payload s,
  )

  abbrev pub process_typed : Fields → Option String → Option String → Bool → Listening W Processed
  unfolding dsync_instruction_for_event follow text_at object_at
  process_typed envelope none raw record_handler_error s = reject (payload_of (some envelope) raw) s
  process_typed envelope (some event_type) raw record_handler_error s =
      let event = object_or_end "data" envelope in
      (outside (dsync_instruction_for_event o s.rows event) >>= λ instruction. as_listening (
          follow (text_at "id" envelope) event_type event (text_at "created_at" envelope)
            (payload_of (some envelope) raw) record_handler_error instruction))
        s

  -- `processDsyncEvent`
  unfoldable pub process_dsync_event : Option Fields → Option String → Bool → Listening W Processed
  unfolding dsync_instruction_for_event follow text_at object_at record_event
  process_dsync_event none raw record_handler_error = reject (payload_of none raw)
  process_dsync_event (some envelope) raw record_handler_error =
      process_typed envelope (text_at "event" envelope) raw record_handler_error
