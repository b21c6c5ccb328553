-- ===== src/Listener/Process/Once.antt =====
-- What was applied or skipped is not processed again.
use scim_bridge.Base.{
  ◌∙◌, ap, ◌≡◌, refl, String, Bool, true, false, Option, none, some, not, string_eq, beq_refl,
}
use scim_bridge.Base.Result.{Result, ok, err, ok_inj}
use scim_bridge.Base.Effects.{if-Posts}
use scim_bridge.Json.{Fields}
use scim_bridge.Listener.{Outside, Bridge, Outcome}
use scim_bridge.Listener.Reading.{text_at, object_or_end}
use scim_bridge.Listener.Scopes.{or_else}
use scim_bridge.Listener.Log.{record_event, is_duplicate, is_processed}
use scim_bridge.Listener.Process.Replays.{process-Follows, logged-native}
use scim_bridge.Listener.Process.{
  is_repeated, Processed, process_dsync_event, follow, stay_inert, attempt, Attempted,
  settled_attempt, payload_of, dispatch, logged,
}

module _ {W : Type 0} (o : Outside W) where
  logged-Processed :
      (event_type payload : String) (record_error : Bool) (r : Attempted × Bridge W) (id : String)
      → r.0.event_id ≡ some id
      → r.0.failed ≡ false
      → is_processed r.0.outcome_.action ≡ true
      → is_duplicate id (logged o event_type payload record_error r).1.events ≡ true
  unfolding record_event is_duplicate
  logged-Processed event_type payload record_error r id named fine acted =
      rw (fine, named, acted, beq_refl id) refl

  -- An attempt that applied or skipped the event did not fail, and logs the event's id.
  settled_attempt-acted :
      (event_id : Option String) (r : Result String Outcome × Bridge W)
      → is_processed (settled_attempt o event_id r).0.outcome_.action ≡ true
      → ((settled_attempt o event_id r).0.event_id ≡ event_id)
        × ((settled_attempt o event_id r).0.failed ≡ false)
  unfolding settled_attempt
  settled_attempt-acted event_id (ok out, t) h = (refl, refl)
  settled_attempt-acted none (err e, t) h = cc
  settled_attempt-acted (some id) (err e, t) h = cc

  attempt-acted :
      (event_id : Option String) (event_type : String) (event : Fields) (at : Option String)
      (dir : String) (s : Bridge W)
      → is_processed (attempt o event_id event_type event at dir s).0.outcome_.action ≡ true
      → ((attempt o event_id event_type event at dir s).0.event_id ≡ event_id)
        × ((attempt o event_id event_type event at dir s).0.failed ≡ false)
  unfolding attempt
  attempt-acted event_id event_type event at dir s =
      if-Posts {A = Attempted × Bridge W}
        (λ r.
          is_processed r.0.outcome_.action ≡ true
          → (r.0.event_id ≡ event_id) × (r.0.failed ≡ false))
        (is_repeated o event_id s.events) _ _ (λ repeated h. (refl, refl))
        (λ fresh. settled_attempt-acted event_id (dispatch o event_type event at dir s))

  process-logs :
      (envelope : Fields) (raw : Option String) (record_error : Bool) (s : Bridge W)
      (event_type id : String) (p : Processed)
      → text_at "event" envelope ≡ some event_type
      → text_at "id" envelope ≡ some id
      → (process_dsync_event o (some envelope) raw record_error s).0 ≡ ok p
      → is_processed p.action ≡ true
      → is_duplicate id (process_dsync_event o (some envelope) raw record_error s).1.events ≡ true
  unfolding follow stay_inert
  process-logs envelope raw record_error s event_type id p typed named =
      process-Follows o
        (λ r. r.0 ≡ ok p → is_processed p.action ≡ true → is_duplicate id r.1.events ≡ true)
        envelope raw record_error s event_type typed (λ e w same. cc)
        (λ instruction w.
          let t : Bridge W = record s { world = w } in
          let event = object_or_end "data" envelope in
          let at = text_at "created_at" envelope in
          let dir = or_else "" instruction.directory_id in
          let payload = payload_of o (some envelope) raw in
          let tried = attempt o (text_at "id" envelope) event_type event at dir t in
          if-Posts {A = Processed × Bridge W}
            (λ r.
              ◌≡◌ {A = Result String Processed} (ok r.0) (ok p)
              → is_processed p.action ≡ true
              → is_duplicate id r.1.events ≡ true)
            (not instruction.apply)
            (stay_inert o (text_at "id" envelope) event_type event at instruction payload t)
            (logged o event_type payload record_error tried)
            (λ inert same acted.
              let clash : false ≡ true = ap (λ q. is_processed q.action) (ok_inj same) ∙ acted in
              cc)
            (λ acts same acted.
              let done = ap (λ q. is_processed q.action) (ok_inj same) ∙ acted in
              let (kept, fine) =
                attempt-acted (text_at "id" envelope) event_type event at dir t done in
              logged-Processed event_type payload record_error tried id (kept ∙ named) fine done))

  process-duplicate :
      (envelope : Fields) (raw : Option String) (record_error : Bool) (s : Bridge W)
      (event_type id : String)
      → text_at "event" envelope ≡ some event_type
      → text_at "id" envelope ≡ some id
      → is_duplicate id s.events ≡ true
      → (process_dsync_event o (some envelope) raw record_error s).1.native ≡ s.native
  unfolding follow stay_inert attempt
  process-duplicate envelope raw record_error s event_type id typed named old =
      process-Follows o (λ r. r.1.native ≡ s.native) envelope raw record_error s event_type typed
        (λ e w. refl)
        (λ instruction w.
          let t : Bridge W = record s { world = w } in
          let event = object_or_end "data" envelope in
          let at = text_at "created_at" envelope in
          let dir = or_else "" instruction.directory_id in
          let payload = payload_of o (some envelope) raw in
          let tried = attempt o (text_at "id" envelope) event_type event at dir t in
          if-Posts {A = Processed × Bridge W} (λ r. r.1.native ≡ s.native) (not instruction.apply)
            (stay_inert o (text_at "id" envelope) event_type event at instruction payload t)
            (logged o event_type payload record_error tried) (λ inert. refl)
            (λ acts.
              logged-native o event_type payload record_error tried
              ∙ if-Posts {A = Attempted × Bridge W} (λ r. r.1.native ≡ s.native)
                  (is_repeated o (text_at "id" envelope) s.events) _ _ (λ repeated. refl)
                  (λ fresh.
                    let repeated : is_repeated o (text_at "id" envelope) s.events ≡ true =
                      rw named old in
                    cc)))

  -- Once an event with an id was applied or skipped, a redelivery of it leaves the native tables as
  -- they are, whatever the bridge then instructs.
  pub process-once :
      (envelope : Fields) (raw raw_again : Option String) (record_error record_again : Bool)
      (s : Bridge W) (event_type id : String) (p : Processed)
      → text_at "event" envelope ≡ some event_type
      → text_at "id" envelope ≡ some id
      → (process_dsync_event o (some envelope) raw record_error s).0 ≡ ok p
      → is_processed p.action ≡ true
      → (process_dsync_event o
          (some envelope)
          raw_again
          record_again
          (process_dsync_event o (some envelope) raw record_error s).1).1.native
        ≡ (process_dsync_event o (some envelope) raw record_error s).1.native
  process-once envelope raw raw_again record_error record_again s event_type id p typed named same
        acted =
      process-duplicate envelope raw_again record_again
        (process_dsync_event o (some envelope) raw record_error s).1 event_type id typed named
        (process-logs envelope raw record_error s event_type id p typed named same acted)
