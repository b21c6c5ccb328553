-- ===== src/Listener/Process/Tables.antt =====
-- What every event, applied or not, keeps of the native tables.
use scim_bridge.Base.{
  ◌≡◌, ◌≢◌, refl, String, Bool, false, not, ◌==◌, string_eq, Option, none, some, lookup,
  lookup-upsert, upsert, Option-cases, inl, inr,
}
use scim_bridge.Base.Result.{Result, ok, err}
use scim_bridge.Base.Effects.{if-Posts}
use scim_bridge.Json.{Fields}
use scim_bridge.Native.{
  UserRow, Native, user_id, overwrite_user, user_by_id, upsert_group, clear_memberships,
  clear_group, delete_group, add_member, remove_member, is_member,
}
use scim_bridge.Native.Stable.{Stable}
use scim_bridge.Listener.{Outside, Bridge, Outcome}
use scim_bridge.Listener.Reading.{text_at, object_or_end}
use scim_bridge.Listener.Scopes.{or_else}
use scim_bridge.Listener.Versions.{is_newest_across}
use scim_bridge.Listener.Handlers.Stable.{deletes_hard}
use scim_bridge.Listener.Apply.{apply_event}
use scim_bridge.Listener.Apply.Stable.{apply_event-Keeps}
use scim_bridge.Listener.Log.{record_event}
use scim_bridge.Listener.Instruction.{Instruction}
use scim_bridge.Listener.Process.Replays.{process-Follows, logged-native, settled_attempt-native}
use scim_bridge.Listener.Process.{
  Processed, process_dsync_event, follow, stay_inert, attempt, Attempted, dispatch, scopes_of,
  applied_all, record_versions, handled, is_repeated, logged, payload_of,
}

module _ {W : Type 0} (o : Outside W) (P : Native → Type 0) where
  applied_all-Keeps :
      (scopes : _) (at : Option String) (r : Result String Outcome × Bridge W)
      → P r.1.native
      → P (applied_all o scopes at r).1.native
  unfolding record_versions
  applied_all-Keeps scopes at (ok out, s) p = p
  applied_all-Keeps scopes at (err e, s) p = p

  module _ (event_type : String) (event : Fields) (at : Option String) (s : Bridge W)
      (stable : Stable (deletes_hard s.rows) P) where
    dispatch-Keeps : (dir : String) → P s.native → P (dispatch o event_type event at dir s).1.native
    unfolding dispatch
    dispatch-Keeps dir p =
        if-Posts {A = Result String Outcome × Bridge W} (λ r. P r.1.native)
          (not (is_newest_across s.rows.versions (scopes_of o s dir event_type event) at)) _ _
          (λ late. p)
          (λ newest.
            applied_all-Keeps (scopes_of o s dir event_type event) at
              (handled o (apply_event o s.rows dir at event_type event) s)
              ((apply_event-Keeps o s.rows dir P stable at event_type event).keeps
                (s.native, (s.ids, s.world)) p))

    attempt-Keeps :
        (event_id : Option String) (dir : String)
        → P s.native
        → P (attempt o event_id event_type event at dir s).1.native
    unfolding attempt
    attempt-Keeps event_id dir p =
        if-Posts {A = Attempted × Bridge W} (λ r. P r.1.native) (is_repeated o event_id s.events) _
          _ (λ repeated. p)
          (λ fresh.
            rw (settled_attempt-native o event_id (dispatch o event_type event at dir s))
              (dispatch-Keeps dir p))

    follow-Keeps :
        (event_id : Option String) (payload : String) (record_error : Bool)
        (instruction : Instruction)
        → P s.native
        → P (follow o event_id event_type event at payload record_error instruction s).1.native
    unfolding follow stay_inert record_event
    follow-Keeps event_id payload record_error instruction p =
        let dir = or_else "" instruction.directory_id in
        let tried = attempt o event_id event_type event at dir s in
        if-Posts {A = Processed × Bridge W} (λ r. P r.1.native) (not instruction.apply)
          (stay_inert o event_id event_type event at instruction payload s)
          (logged o event_type payload record_error tried) (λ inert. p)
          (λ acts.
            rw (logged-native o event_type payload record_error tried)
              (attempt-Keeps event_id dir p))

  -- What every statement of the handlers keeps, the processing of an event keeps.
  pub process-Keeps :
      (envelope : Option Fields) (raw : Option String) (record_error : Bool) (s : Bridge W)
      → Stable (deletes_hard s.rows) P
      → P s.native
      → P (process_dsync_event o envelope raw record_error s).1.native
  unfolding process_dsync_event record_event
  process-Keeps none raw record_error s stable p = p
  process-Keeps (some envelope) raw record_error s stable p =
      elim (Option-cases (text_at "event" envelope)) [
        | inl untyped ↦ rw untyped p
        | inr (event_type, typed) ↦
            process-Follows o (λ r. P r.1.native) envelope raw record_error s event_type typed
              (λ e w. p)
              (λ instruction w.
                follow-Keeps event_type (object_or_end "data" envelope)
                  (text_at "created_at" envelope) (record s { world = w }) stable
                  (text_at "id" envelope) (payload_of o (some envelope) raw) record_error
                  instruction p)
      ]

-- The user has a row.
HasUser : String → Native → Type 0
HasUser id db = user_by_id id db ≢ none

upsert-ne-none :
    (u : UserRow) (id : String) (rows : _)
    → lookup user_id id rows ≢ none
    → lookup user_id id (upsert user_id (overwrite_user u) u rows) ≢ none
upsert-ne-none u id rows has = rw (lookup-upsert user_id (overwrite_user u) u id rows (λ x. refl)) (
    if-Posts {A = Option UserRow} (λ r. r ≢ none) (user_id u == id) _ _ (λ same e. cc)
      (λ other. has))

HasUser-Stable : (id : String) (hard : Bool) → hard ≡ false → Stable hard (HasUser id)
unfolding HasUser user_by_id upsert_group clear_memberships clear_group delete_group add_member
    remove_member
HasUser-Stable id hard soft = record {
  on_upsert_user = λ u db free has. upsert-ne-none u id db.users has;
  on_upsert_group = λ g db has. has;
  on_clear = λ user db has. has;
  on_delete_user = λ user db h has. cc;
  on_delete_group = λ group db has. has;
  on_add = λ group user db has.
      if-Posts {A = Bool × Native} (λ r. lookup user_id id r.1.users ≢ none)
        (is_member group user db) _ _ (λ old. has) (λ new. has);
  on_remove = λ group user db has. has;
}

module _ {W : Type 0} (o : Outside W) where
  -- Unless the configured delete policy is `hard`, no event removes the row of a user, a deletion of
  -- the user included.
  pub process-keeps_user :
      (envelope : Option Fields) (raw : Option String) (record_error : Bool) (s : Bridge W)
      (id : String)
      → deletes_hard s.rows ≡ false
      → user_by_id id s.native ≢ none
      → user_by_id id (process_dsync_event o envelope raw record_error s).1.native ≢ none
  unfolding HasUser
  process-keeps_user envelope raw record_error s id soft =
      process-Keeps o (HasUser id) envelope raw record_error s
        (HasUser-Stable id (deletes_hard s.rows) soft)
