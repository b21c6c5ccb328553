-- ===== src/Listener/Process/Replays.antt =====
-- What keeps a delivery from being applied out of order or twice.
use scim_bridge.Base.{
  ◌∙◌, ◌≡◌, refl, String, Bool, false, Option, none, some, List, [], ◌∷◌, ◌++◌, not, string_eq,
  arith, Bool-cases, inl, inr, is_in,
}
use scim_bridge.Base.Result.{Result, ok, err}
use scim_bridge.Base.Effects.{continue-Posts, if-Posts}
use scim_bridge.Json.{Fields}
use scim_bridge.Listener.{Outside, Bridge, Outcome}
use scim_bridge.Listener.Reading.{text_at, object_or_end}
use scim_bridge.Listener.Scopes.{add_scope, scope_for, event_scopes, or_else}
use scim_bridge.Listener.Versions.{is_newest_event, is_newest_across}
use scim_bridge.Listener.Log.{record_event}
use scim_bridge.Listener.Instruction.{Instruction, dsync_instruction_for_event}
use scim_bridge.Listener.Process.{
  Processed, process_dsync_event, follow, stay_inert, attempt, Attempted, settled_attempt,
  as_listening, payload_of, dispatch, logged, scopes_of,
}

is_newest_across-append :
    (versions : List (String × String)) (scopes : List String) (scope : String) (at : Option String)
    → is_newest_across versions scopes at ≡ false
    → is_newest_across versions (scopes ++ scope ∷ []) at ≡ false
unfolding is_newest_across
is_newest_across-append versions [] scope at h = cc
is_newest_across-append versions (s ∷ scopes) scope at h =
    ground (arith, is_newest_across-append versions scopes scope at)

is_newest_across-add :
    (versions : List (String × String)) (o : Option String) (scopes : List String)
    (at : Option String)
    → is_newest_across versions scopes at ≡ false
    → is_newest_across versions (add_scope o scopes) at ≡ false
is_newest_across-add versions none scopes at h = h
is_newest_across-add versions (some s) scopes at h = elim (Bool-cases (is_in s scopes)) [
  | inl old ↦ rw old h
  | inr new ↦ rw new (is_newest_across-append versions scopes s at h)
]

is_newest_across-own :
    (versions : List (String × String)) {scope : String} {own : Option String}
    (stable current : Option String) (at : Option String)
    → own ≡ some scope
    → is_newest_event versions scope at ≡ false
    → is_newest_across versions (add_scope current (add_scope stable (add_scope own []))) at ≡ false
unfolding is_newest_across
is_newest_across-own versions {scope} {own} stable current at named late =
    let alone : is_newest_across versions (add_scope own []) at ≡ false = rw named (rw late refl) in
    is_newest_across-add versions current (add_scope stable (add_scope own [])) at
      (is_newest_across-add versions stable (add_scope own []) at alone)

module _ {W : Type 0} (o : Outside W) where
  -- A later time under the event's own scope makes the whole event a late one.
  event_scopes-late :
      (s : Bridge W) (dir event_type scope : String) (event : Fields) (at : Option String)
      → scope_for event_type event ≡ some scope
      → is_newest_event s.rows.versions scope at ≡ false
      → is_newest_across s.rows.versions (scopes_of o s dir event_type event) at ≡ false
  unfolding event_scopes is_newest_across
  event_scopes-late s dir event_type scope event at own late =
      is_newest_across-own s.rows.versions _ _ at own late

  pub settled_attempt-native :
      (event_id : Option String) (r : Result String Outcome × Bridge W)
      → (settled_attempt o event_id r).1.native ≡ r.1.native
  unfolding settled_attempt
  settled_attempt-native event_id (ok out, s) = refl
  settled_attempt-native none (err e, s) = refl
  settled_attempt-native (some id) (err e, s) = refl

  pub logged-native :
      (event_type payload : String) (record_error : Bool) (r : Attempted × Bridge W)
      → (logged o event_type payload record_error r).1.native ≡ r.1.native
  unfolding record_event
  logged-native event_type payload record_error r = ground arith

  dispatch-late :
      (event_type : String) (event : Fields) (at : Option String) (dir : String) (s : Bridge W)
      → is_newest_across s.rows.versions (scopes_of o s dir event_type event) at ≡ false
      → (dispatch o event_type event at dir s).1.native ≡ s.native
  unfolding dispatch
  dispatch-late event_type event at dir s late = rw late refl

  attempt-late :
      (event_id : Option String) (event_type : String) (event : Fields) (at : Option String)
      (dir : String) (s : Bridge W)
      → is_newest_across s.rows.versions (scopes_of o s dir event_type event) at ≡ false
      → (attempt o event_id event_type event at dir s).1.native ≡ s.native
  unfolding attempt
  attempt-late event_id event_type event at dir s late = ground (
    arith,
    settled_attempt-native event_id (dispatch o event_type event at dir s),
    dispatch-late event_type event at dir s late,
  )

  follow-late :
      (event_id : Option String) (event_type scope : String) (event : Fields) (at : Option String)
      (payload : String) (record_error : Bool) (instruction : Instruction) (s : Bridge W)
      → scope_for event_type event ≡ some scope
      → is_newest_event s.rows.versions scope at ≡ false
      → (follow o event_id event_type event at payload record_error instruction s).1.native
        ≡ s.native
  unfolding follow stay_inert record_event
  follow-late event_id event_type scope event at payload record_error instruction s own late =
      let dir = or_else "" instruction.directory_id in
      let tried = attempt o event_id event_type event at dir s in
      if-Posts (λ r. r.1.native ≡ s.native) (not instruction.apply)
        (stay_inert o event_id event_type event at instruction payload s)
        (logged o event_type payload record_error tried) (λ inert. refl)
        (λ acts.
          logged-native event_type payload record_error tried
          ∙ attempt-late event_id event_type event at dir s
              (event_scopes-late s dir event_type scope event at own late))

  -- Processing follows an instruction, or ends where none could be had; the tables are as before.
  pub process-Follows :
      (P : Result String Processed × Bridge W → Type 0) (envelope : Fields) (raw : Option String)
      (record_error : Bool) (s : Bridge W) (event_type : String)
      → text_at "event" envelope ≡ some event_type
      → ((e : String) → (w : W) → P (err e, record s { world = w }))
      → ((instruction : Instruction)
          → (w : W)
          → P (
              as_listening o
                (follow o
                  (text_at "id" envelope)
                  event_type
                  (object_or_end "data" envelope)
                  (text_at "created_at" envelope)
                  (payload_of o (some envelope) raw)
                  record_error
                  instruction)
                (record s { world = w })))
      → P (process_dsync_event o (some envelope) raw record_error s)
  unfolding process_dsync_event
  process-Follows P envelope raw record_error s event_type typed failed followed =
      let asked = dsync_instruction_for_event o s.rows (object_or_end "data" envelope) s.world in
      rw typed (
        continue-Posts P asked.0 (record s { world = asked.1 }) _ (λ e. failed e asked.1)
          (λ instruction given. followed instruction asked.1))

  -- An event whose own scope has a later time in the ledger leaves the native tables as they are,
  -- whatever the bridge instructs and whatever else the event holds.
  pub process-late :
      (envelope : Fields) (raw : Option String) (record_error : Bool) (s : Bridge W)
      (event_type scope : String)
      → text_at "event" envelope ≡ some event_type
      → scope_for event_type (object_or_end "data" envelope) ≡ some scope
      → is_newest_event s.rows.versions scope (text_at "created_at" envelope) ≡ false
      → (process_dsync_event o (some envelope) raw record_error s).1.native ≡ s.native
  process-late envelope raw record_error s event_type scope typed own late =
      process-Follows (λ r. r.1.native ≡ s.native) envelope raw record_error s event_type typed
        (λ e w. refl)
        (λ instruction w.
          follow-late (text_at "id" envelope) event_type scope (object_or_end "data" envelope)
            (text_at "created_at" envelope) (payload_of o (some envelope) raw) record_error
            instruction (record s { world = w }) own late)
