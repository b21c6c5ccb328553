-- ===== src/Listener/Process/Redelivery.antt =====
-- What a failed event leaves for its redelivery.
use scim_bridge.Base.{
  ◌∙◌, ap, ◌≡◌, refl, String, Bool, true, false, Option, none, some, List, not, ◌||◌, string_eq,
}
use scim_bridge.Base.Result.{Result, ok, err, ok_inj}
use scim_bridge.Base.Effects.{if-Posts}
use scim_bridge.Json.{Fields}
use scim_bridge.Listener.{Outside, Bridge, Outcome}
use scim_bridge.Listener.Reading.{text_at, object_or_end}
use scim_bridge.Listener.Scopes.{or_else}
use scim_bridge.Listener.Versions.{is_newest_across}
use scim_bridge.Listener.Log.{record_event, is_duplicate}
use scim_bridge.Listener.Apply.{apply_event}
use scim_bridge.Listener.Process.Replays.{process-Follows}
use scim_bridge.Listener.Process.{
  applied_all, record_versions, handled, is_repeated, Processed, process_dsync_event, follow,
  stay_inert, attempt, Attempted, settled_attempt, payload_of, dispatch, logged, scopes_of,
}

module _ {W : Type 0} (o : Outside W) where
  applied_all-events :
      (scopes : List String) (at : Option String) (r : Result String Outcome × Bridge W)
      → (applied_all o scopes at r).1.events ≡ r.1.events
  unfolding record_versions
  applied_all-events scopes at (ok out, s) = refl
  applied_all-events scopes at (err e, s) = refl

  applied_all-failed :
      (scopes : List String) (at : Option String) (r : Result String Outcome × Bridge W)
      (e : String)
      → (applied_all o scopes at r).0 ≡ err e
      → (applied_all o scopes at r).1.rows ≡ r.1.rows
  applied_all-failed scopes at (ok out, s) e h = cc
  applied_all-failed scopes at (err f, s) e h = refl

  module _ (event_type : String) (event : Fields) (at : Option String) (dir : String)
      (s : Bridge W) where
    run : Result String Outcome × Bridge W
    run = handled o (apply_event o s.rows dir at event_type event) s

    dispatch-events : (dispatch o event_type event at dir s).1.events ≡ s.events
    unfolding dispatch run
    dispatch-events =
        if-Posts {A = Result String Outcome × Bridge W} (λ r. r.1.events ≡ s.events)
          (not (is_newest_across s.rows.versions (scopes_of o s dir event_type event) at)) _ _
          (λ late. refl) (λ newest. applied_all-events (scopes_of o s dir event_type event) at run)

    dispatch-failed :
        (e : String)
        → (dispatch o event_type event at dir s).0 ≡ err e
        → (dispatch o event_type event at dir s).1.rows ≡ s.rows
    unfolding dispatch run
    dispatch-failed e =
        if-Posts {A = Result String Outcome × Bridge W} (λ r. r.0 ≡ err e → r.1.rows ≡ s.rows)
          (not (is_newest_across s.rows.versions (scopes_of o s dir event_type event) at)) _ _
          (λ late h. refl)
          (λ newest. applied_all-failed (scopes_of o s dir event_type event) at run e)

  -- An attempt that failed logs no id, and left the ledger of times, the configuration, the
  -- directories and the log as they were.
  Failed : Attempted × Bridge W → Bridge W → Type 0
  Failed r s =
      r.0.failed ≡ true → (r.0.event_id ≡ none) × ((r.1.rows ≡ s.rows) × (r.1.events ≡ s.events))

  settled_attempt-Failed :
      (event_id : Option String) (r : Result String Outcome × Bridge W) (s : Bridge W)
      → ((e : String) → r.0 ≡ err e → r.1.rows ≡ s.rows)
      → r.1.events ≡ s.events
      → Failed (settled_attempt o event_id r) s
  unfolding settled_attempt Failed
  settled_attempt-Failed event_id (ok out, t) s rows events = λ h. cc
  settled_attempt-Failed none (err e, t) s rows events = λ h. (refl, (rows e refl, events))
  settled_attempt-Failed (some id) (err e, t) s rows events = λ h. (refl, (rows e refl, events))

  attempt-Failed :
      (event_id : Option String) (event_type : String) (event : Fields) (at : Option String)
      (dir : String) (s : Bridge W)
      → Failed (attempt o event_id event_type event at dir s) s
  unfolding attempt Failed
  attempt-Failed event_id event_type event at dir s =
      if-Posts {A = Attempted × Bridge W} (λ r. Failed r s) (is_repeated o event_id s.events) _ _
        (λ repeated h. cc)
        (λ fresh.
          settled_attempt-Failed event_id (dispatch o event_type event at dir s) s
            (dispatch-failed event_type event at dir s) (dispatch-events event_type event at dir s))

  -- What a failure leaves for the redelivery of the event.
  Repairable : Bridge W → Result String Processed × Bridge W → Type 0
  Repairable s r =
      (p : Processed)
      → r.0 ≡ ok p
      → p.handler_error ≡ true
      → (r.1.rows ≡ s.rows)
        × ((id : String) → is_duplicate id r.1.events ≡ is_duplicate id s.events)

  logged-Repairable :
      (event_type payload : String) (record_error : Bool) (r : Attempted × Bridge W) (s : Bridge W)
      → Failed r s
      → Repairable s (
        ok (logged o event_type payload record_error r).0,
        (logged o event_type payload record_error r).1,
      )
  unfolding Failed Repairable record_event is_duplicate
  logged-Repairable event_type payload record_error r s failed p same h =
      let (unnamed, (rows, events)) = failed (ap (λ q. q.handler_error) (ok_inj same) ∙ h) in
      (
        if-Posts {A = Bridge W} (λ t. t.rows ≡ s.rows) (not r.0.failed || record_error) _ _
            (λ logs. rows) (λ quiet. rows),
        λ id.
            if-Posts {A = Bridge W} (λ t. is_duplicate id t.events ≡ is_duplicate id s.events)
              (not r.0.failed || record_error) _ _ (λ logs. rw (unnamed, events) refl)
              (λ quiet. rw events refl),
      )

  process-Repairable :
      (envelope : Fields) (raw : Option String) (record_error : Bool) (s : Bridge W)
      (event_type : String)
      → text_at "event" envelope ≡ some event_type
      → Repairable s (process_dsync_event o (some envelope) raw record_error s)
  unfolding Repairable follow stay_inert
  process-Repairable envelope raw record_error s event_type typed =
      process-Follows o (Repairable s) envelope raw record_error s event_type typed
        (λ e w p same. cc)
        (λ instruction w.
          let t : Bridge W = record s { world = w } in
          let event = object_or_end "data" envelope in
          let at = text_at "created_at" envelope in
          let dir = or_else "" instruction.directory_id in
          let id = text_at "id" envelope in
          let payload = payload_of o (some envelope) raw in
          if-Posts {A = Processed × Bridge W} (λ r. Repairable s (ok r.0, r.1))
            (not instruction.apply) (stay_inert o id event_type event at instruction payload t)
            (logged o event_type payload record_error (attempt o id event_type event at dir t))
            (λ inert p same h.
              let clash : false ≡ true = ap (λ q. q.handler_error) (ok_inj same) ∙ h in cc)
            (λ acts.
              logged-Repairable event_type payload record_error
                (attempt o id event_type event at dir t) t
                (attempt-Failed id event_type event at dir t)))

  -- After a handler error the directories, the configuration and the ledger of times are as before
  -- the event, and the log counts the same events as processed, whichever of the native rows,
  -- mappings and links were written: a redelivery is no duplicate and no later than it was.
  pub process-failed :
      (envelope : Fields) (raw : Option String) (record_error : Bool) (s : Bridge W)
      (event_type : String) (p : Processed)
      → text_at "event" envelope ≡ some event_type
      → (process_dsync_event o (some envelope) raw record_error s).0 ≡ ok p
      → p.handler_error ≡ true
      → ((process_dsync_event o (some envelope) raw record_error s).1.rows ≡ s.rows)
        × ((id : String)
            → is_duplicate id (process_dsync_event o (some envelope) raw record_error s).1.events
              ≡ is_duplicate id s.events)
  unfolding Repairable
  process-failed envelope raw record_error s event_type p typed =
      process-Repairable envelope raw record_error s event_type typed p
