-- ===== src/Listener/Log.antt =====
-- The log of events, `listener_events`: `isDuplicate` and `recordEvent` of workers/native/listener.ts.
use scim_bridge.Base.{
  String, Bool, true, false, Option, none, some, List, [], ◌∷◌, ◌&&◌, ◌==◌, string_eq, any, ltb,
  if◌then◌else◌,
}
use scim_bridge.Base.Text.{concat}
use scim_bridge.Native.{holds_text}
use scim_bridge.Listener.{Outside, Bridge, LoggedEvent, Action, ignored}

-- `action <> 'ignored'`
abbrev pub is_processed : Action → Bool
is_processed ignored = false
is_processed _ = true

-- `isDuplicate`
unfoldable pub is_duplicate : String → List LoggedEvent → Bool
is_duplicate event_id events =
    any (λ e. holds_text e.event_id event_id && is_processed e.action) events

module _ {W : Type 0} (o : Outside W) where
  -- `truncateBody`
  abbrev pub truncate_body : String → Option String
  truncate_body body =
      if body == ""
      then none
      else if ltb 8192 (o.text_length body)
      then some (concat (o.slice_to 8192 body ∷ "… [truncated]" ∷ []))
      else some body

  -- `recordEvent`; the newest row stands first
  unfoldable pub record_event :
      Option String → String → Option String → Action → String → String → Bridge W → Bridge W
  record_event event_id event_type idp_id action detail payload s =
      let row : LoggedEvent = record {
        event_id = event_id;
        event_type = event_type;
        idp_id = idp_id;
        action = action;
        detail = detail;
        payload = truncate_body payload;
      } in
      record s { events = row ∷ s.events }
