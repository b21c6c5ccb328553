-- ===== src/Poller/Pages.antt =====
-- The loops of `pollDsyncEventsOnce` (workers/native/events-poller.ts): over the events of a page, and
-- over pages. The request of a page and its parsing are the parameter `fetch_page`, from the cursor to
-- the response's status and, where the response is a success, the page.
use scim_bridge.Base.{
  ℕ, zero, suc, String, true, false, Option, none, some, [], ◌∷◌, not, ◌&&◌, ◌==◌, string_eq,
  nat_eq, if◌then◌else◌,
}
use scim_bridge.Base.Text.{concat}
use scim_bridge.Base.Effects.{pure, throw, ◌>>=◌}
use scim_bridge.Base.Result.{ok}
use scim_bridge.Json.{Items, nil, cons}
use scim_bridge.Scim.Http.{is_success}
use scim_bridge.Listener.Config.{get_config}
use scim_bridge.Listener.{Outer, Outside, Listening}
use scim_bridge.Listener.Reading.{nonempty}
use scim_bridge.Listener.Scopes.{or_else}
use scim_bridge.Listener.Process.{process_dsync_event, outside}
use scim_bridge.Poller.{
  events_cursor_key, RetryState, EventsPage, delete_config, read_retry_state, is_retry, Progress,
  PageEnd, record_of_value, event_id_of, advance_cursor, after_event,
}

module _ {W : Type 0} (o : Outside W) where
  -- The loop over the events of a page.
  unfoldable pub walk_page : Option String → Items → Progress → Listening W PageEnd
  unfolding after_event process_dsync_event
  walk_page cursor nil p = pure (record { progress = p; stopped = false })
  walk_page cursor (cons event rest) p =
      let envelope = record_of_value event in
      process_dsync_event o envelope none (not (is_retry p.retry (event_id_of envelope)))
      >>= (λ outcome s. (
        ok (after_event o cursor envelope p outcome s).0,
        (after_event o cursor envelope p outcome s).1,
      ))
      >>= λ step. elim step.stopped [
        | true ↦ pure step
        | false ↦ walk_page cursor rest step.progress
      ]

  module _ (fetch_page : Option String → Outer W EventsPage) where
    -- Behind the walk over a page.
    abbrev pub poll_end :
        Option String
        → EventsPage
        → PageEnd
        → (Option String → Option RetryState → ℕ → Listening W (Option ℕ))
        → Listening W (Option ℕ)
    unfolding advance_cursor
    poll_end cursor page walked next s = elim walked.stopped [
      | true ↦ (ok (some walked.progress.processed), s)
      | false ↦
          let p = walked.progress in
          let moved = advance_cursor o cursor p.last_processed s in
          elim (nonempty page.after) [
            | none ↦ (ok (some p.processed), moved)
            | some after ↦ elim page.events [
              | nil ↦ (ok (some p.processed), moved)
              | cons _ _ ↦ next p.last_processed p.retry p.processed moved
            ]
          ]
    ]

    -- The loop of `pollDsyncEventsOnce` over at most so many requests; `none` where they are used up.
    unfoldable pub poll_pages : ℕ → Option String → Option RetryState → ℕ → Listening W (Option ℕ)
    unfolding delete_config walk_page advance_cursor
    poll_pages zero cursor retry processed = pure none
    poll_pages (suc fuel) cursor retry processed =
        outside o (fetch_page (nonempty cursor)) >>= λ page.
        if nat_eq page.status 400 && not (or_else "" cursor == "")
        then (λ s. poll_pages fuel none retry processed (delete_config events_cursor_key s))
        else if not (is_success page.status)
        then throw (concat ("events API answered " ∷ o.number_text page.status ∷ []))
        else walk_page cursor page.events
            (record { last_processed = cursor; retry = retry; processed = processed })
          >>= λ walked. poll_end cursor page walked (poll_pages fuel)

    -- `pollDsyncEventsOnce`
    unfoldable pub poll_dsync_events_once : ℕ → Listening W (Option ℕ)
    unfolding poll_pages get_config read_retry_state
    poll_dsync_events_once fuel s =
        poll_pages fuel (get_config events_cursor_key s.rows.config)
          (read_retry_state o.upstream.parse s.rows.config) 0 s
