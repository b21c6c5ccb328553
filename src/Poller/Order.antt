-- ===== src/Poller/Order.antt =====
-- The walk over a page of events keeps their order, and passes or keeps each event for a reason.
use scim_bridge.Base.{
  ℕ, suc, ◌<◌, ◌≤◌, ◌≡◌, refl, sym, String, Bool, true, false, not, Option, none, some, ltb, ◌==◌,
  string_eq, eq_iff, arith, Bool-cases, Option-cases, ◌⊎◌, inl, inr, if◌then◌else◌,
}
use scim_bridge.Base.Result.{Result, ok, err, ok_inj}
use scim_bridge.Base.Effects.{if-Posts, continue, pure}
use scim_bridge.Json.{Value, Items, nil, cons, Fields}
use scim_bridge.Listener.{Outside, Bridge, Listening}
use scim_bridge.Listener.Log.{record_event}
use scim_bridge.Listener.Process.{Processed, process_dsync_event}
use scim_bridge.Poller.Pages.{walk_page}
use scim_bridge.Poller.{
  max_event_attempts, RetryState, Progress, PageEnd, record_of_value, event_id_of, past, is_retry,
  attempts_so_far, after_event, delete_config, abandon, events_retry_key, advance_cursor,
  set_config,
}

-- Why an event is passed, with the retry state that the walk began with: its handler did not fail, or
-- it has no id, or that state counts four failures of it already.
abbrev pub MayPass : Option RetryState → Option String → Processed → Type 0
MayPass retry id outcome =
    (outcome.handler_error ≡ false)
    ⊎ ((id ≡ none) ⊎ ((r : RetryState) × (retry ≡ some r) × (id ≡ some r.id) × (4 ≤ r.count)))

-- A retry state counts one failure, or one more than the state that the walk began with has for the
-- same event.
abbrev pub Counted : Option RetryState → RetryState → Type 0
Counted retry r =
    (r.count ≡ 1) ⊎ ((q : RetryState) × (retry ≡ some q) × (q.id ≡ r.id) × (r.count ≡ suc q.count))

-- How a walk ends, by the id that the cursor may move to and the database: behind the last event of
-- the page, or in front of an event whose handler failed, whose failures are counted under its id and
-- are fewer than five. An event is passed only for one of the reasons of `MayPass`, and the next one
-- is processed on the native tables that it left.
pub data Walked {W : Type 0} (o : Outside W) (retry : Option RetryState)
    : Items → Option String → Bridge W → PageEnd → Type 0 where
  at_end :
      (s : Bridge W) (e : PageEnd)
      → e.stopped ≡ false
      → Walked o retry nil e.progress.last_processed s e
  in_front :
      (event : Value) (rest : Items) (s : Bridge W) (e : PageEnd) (record_error : Bool)
      (outcome : Processed) (r : RetryState)
      → (process_dsync_event o (record_of_value event) none record_error s).0 ≡ ok outcome
      → outcome.handler_error ≡ true
      → e.stopped ≡ true
      → e.progress.retry ≡ some r
      → event_id_of (record_of_value event) ≡ some r.id
      → r.count < 5
      → Counted retry r
      → Walked o retry (cons event rest) e.progress.last_processed s e
  over :
      (event : Value) {rest : Items} {last : Option String} {s t : Bridge W} {e : PageEnd}
      (record_error : Bool) (outcome : Processed)
      → (process_dsync_event o (record_of_value event) none record_error s).0 ≡ ok outcome
      → MayPass retry (event_id_of (record_of_value event)) outcome
      → t.native ≡ (process_dsync_event o (record_of_value event) none record_error s).1.native
      → Walked o retry rest (past (event_id_of (record_of_value event)) last) t e
      → Walked o retry (cons event rest) last s e

-- The loop forgets the retry state that it began with, or has it still.
abbrev Kept : Option RetryState → Option RetryState → Type 0
Kept retry now = (now ≡ none) ⊎ (now ≡ retry)

attempts-Counted :
    (retry now : Option RetryState) (id : String)
    → Kept retry now
    → Counted retry (record { id = id; count = attempts_so_far now (some id) })
attempts-Counted retry none id kept = inl refl
attempts-Counted retry (some q) id kept = elim (Bool-cases (q.id == id)) [
  | inl same ↦
      let held : retry ≡ some q = elim kept [ inl gone ↦ cc | inr still ↦ sym still ] in
      rw same (inr (q, held, (eq_iff q.id id).0 same, ground arith))
  | inr other ↦ rw other (inl refl)
]

named-Counted :
    (retry now : Option RetryState) (of : Option String) (id : String)
    → of ≡ some id
    → Kept retry now
    → Counted retry (record { id = id; count = attempts_so_far now of })
named-Counted retry now of id named kept = rw named (attempts-Counted retry now id kept)

spent-MayPass :
    (retry : Option RetryState) (id : String) (outcome : Processed) (count : ℕ)
    → ltb count 5 ≡ false
    → Counted retry (record { id = id; count = count })
    → MayPass retry (some id) outcome
spent-MayPass retry id outcome count spent (inl once) = ground arith
spent-MayPass retry id outcome count spent (inr (q, held, same, more)) =
    inr (inr (q, held, rw same refl, ground arith))

if-Kept :
    (b : Bool) (retry now : Option RetryState)
    → Kept retry now
    → Kept retry (if b then none else now)
if-Kept true retry now kept = inl refl
if-Kept false retry now kept = kept

ltb-lt : (a b : ℕ) → ltb a b ≡ true → a < b
ltb-lt a b h = ground arith

module _ {W : Type 0} (o : Outside W) (retry : Option RetryState) where
  -- One event is passed, or the walk stops in front of it.
  abbrev Step : Option String → Progress → Processed → Bridge W → PageEnd × Bridge W → Type 0
  Step id p outcome s r =
      ((r.0.stopped ≡ false)
        × (r.0.progress.last_processed ≡ past id p.last_processed)
        × MayPass retry id outcome
        × Kept retry r.0.progress.retry
        × (r.1.native ≡ s.native))
      ⊎ ((r.0.stopped ≡ true)
          × (r.0.progress.last_processed ≡ p.last_processed)
          × (outcome.handler_error ≡ true)
          × ((q : RetryState) × (r.0.progress.retry ≡ some q)
              × (id ≡ some q.id)
              × (q.count < 5)
              × Counted retry q))

  cleared-native :
      (b : Bool) (s : Bridge W)
      → (if b then delete_config events_retry_key s else s).native ≡ s.native
  unfolding delete_config
  cleared-native true s = refl
  cleared-native false s = refl

  abandon-native :
      (envelope : Option Fields) (attempts : ℕ) (s : Bridge W)
      → (abandon o envelope attempts s).native ≡ s.native
  unfolding abandon delete_config record_event
  abandon-native envelope attempts s = refl

  after_event-Step :
      (cursor : Option String) (envelope : Option Fields) (p : Progress) (outcome : Processed)
      (s : Bridge W)
      → Kept retry p.retry
      → Step (event_id_of envelope) p outcome s (after_event o cursor envelope p outcome s)
  unfolding after_event advance_cursor set_config
  after_event-Step cursor envelope p outcome s kept =
      let retried = is_retry p.retry (event_id_of envelope) in
      if-Posts {A = PageEnd × Bridge W} (Step (event_id_of envelope) p outcome s)
        (not outcome.handler_error) _ _
        (λ fine. inl (
          refl,
          refl,
          inl (ground arith),
          if-Kept retried retry p.retry kept,
          cleared-native retried s,
        ))
        (λ failed. elim (Option-cases (event_id_of envelope)) [
          | inl unnamed ↦ rw unnamed (
              inl (
                refl,
                refl,
                inr (inl refl),
                inl refl,
                abandon-native envelope (attempts_so_far p.retry (event_id_of envelope)) s,
              ))
          | inr (id, named) ↦
              let attempts = attempts_so_far p.retry (event_id_of envelope) in
              let counted = named-Counted retry p.retry (event_id_of envelope) id named kept in
              rw named (
                if-Posts {A = PageEnd × Bridge W} (Step (some id) p outcome s)
                  (ltb attempts max_event_attempts) _ _
                  (λ within. inr (
                    refl,
                    refl,
                    ground arith,
                    (
                      record { id = id; count = attempts },
                      refl,
                      refl,
                      ltb-lt attempts 5 within,
                      counted,
                    ),
                  ))
                  (λ spent. inl (
                    refl,
                    refl,
                    spent-MayPass retry id outcome attempts spent counted,
                    inl refl,
                    abandon-native envelope attempts s,
                  )))
        ])

  -- What the walk does behind one event.
  walk_on : (cursor : Option String) → Items → PageEnd → Bridge W → Result String PageEnd × Bridge W
  unfolding walk_page
  walk_on cursor rest step s =
      let next : Listening W PageEnd = elim step.stopped [
        | true ↦ pure step
        | false ↦ walk_page o cursor rest step.progress
      ] in
      next s

  halted :
      (b : Bool) (step e : PageEnd) (next : Listening W PageEnd) (s : Bridge W)
      → b ≡ true
      → (let h : Listening W PageEnd = elim b [ true ↦ pure step | false ↦ next ] in (h s).0 ≡ ok e)
      → step ≡ e
  halted true step e next s b h = ok_inj h
  halted false step e next s b h = cc

  module _ (cursor : Option String) (event : Value) (rest : Items) (p : Progress) (e : PageEnd)
      (ih : (q : Progress)
        → (t : Bridge W) → Kept retry q.retry
        → (walk_page o cursor rest q t).0 ≡ ok e
        → Walked o retry rest q.last_processed t e) where
    walk_on-Walked :
        (s t : Bridge W) (record_error : Bool) (outcome : Processed) (r : PageEnd × Bridge W)
        → (process_dsync_event o (record_of_value event) none record_error s).0 ≡ ok outcome
        → (process_dsync_event o (record_of_value event) none record_error s).1 ≡ t
        → Step (event_id_of (record_of_value event)) p outcome t r
        → (walk_on cursor rest r.0 r.1).0 ≡ ok e
        → Walked o retry (cons event rest) p.last_processed s e
    unfolding walk_on
    walk_on-Walked s t record_error outcome r processed left (inl (goes, last, may, kept, native))
          h =
        over event {t = r.1} record_error outcome processed may (rw left native)
          (rw (← last) (ih r.0.progress r.1 kept (rw goes at h)))
    walk_on-Walked s t record_error outcome r processed left
          (inr (stops, last, failed, (q, held, named, within, counted))) h =
        let same = halted r.0.stopped r.0 e (walk_page o cursor rest r.0.progress) r.1 stops h in
        rw (← same, ← last)
          (in_front event rest s r.0 record_error outcome q processed failed stops held named within
            counted)

    walk_from : Result String Processed × Bridge W → Result String PageEnd × Bridge W
    unfolding walk_on
    walk_from r =
        continue
          (continue r (λ outcome t. (
            ok (after_event o cursor (record_of_value event) p outcome t).0,
            (after_event o cursor (record_of_value event) p outcome t).1,
          )))
          (walk_on cursor rest)

    walk_from-Walked :
        (s : Bridge W) (record_error : Bool) (r : Result String Processed × Bridge W)
        → Kept retry p.retry
        → (process_dsync_event o (record_of_value event) none record_error s).0 ≡ r.0
        → (process_dsync_event o (record_of_value event) none record_error s).1 ≡ r.1
        → (walk_from r).0 ≡ ok e
        → Walked o retry (cons event rest) p.last_processed s e
    unfolding walk_from
    walk_from-Walked s record_error (err m, t) kept processed left h = cc
    walk_from-Walked s record_error (ok outcome, t) kept processed left h =
        walk_on-Walked s t record_error outcome
          (after_event o cursor (record_of_value event) p outcome t) processed left
          (after_event-Step cursor (record_of_value event) p outcome t kept) h

  walk-Walked :
      (cursor : Option String) (events : Items) (p : Progress) (s : Bridge W) (e : PageEnd)
      → Kept retry p.retry
      → (walk_page o cursor events p s).0 ≡ ok e
      → Walked o retry events p.last_processed s e
  unfolding walk_page walk_from walk_on
  walk-Walked cursor nil p s e kept same =
      rw (← ok_inj same) (at_end s (record { progress = p; stopped = false }) refl)
  walk-Walked cursor (cons event rest) p s e kept same =
      let record_error = not (is_retry p.retry (event_id_of (record_of_value event))) in
      walk_from-Walked cursor event rest p e
        (λ q t still done. walk-Walked cursor rest q t e still done) s record_error
        (process_dsync_event o (record_of_value event) none record_error s) kept refl refl same

module _ {W : Type 0} (o : Outside W) where
  -- A walk over a page that ends takes its events in order, each on the native tables that the one
  -- before it left, and the cursor's next value is the id of the last event passed that has one. An
  -- event is passed only if its handler did not fail, if it has no id, or if the stored retry state
  -- counts four failures of it already. The walk ends behind the page, or in front of an event whose
  -- handler failed and for which it keeps a count below five: one, or one more than was stored for it.
  pub walk_page-Walked :
      (cursor : Option String) (events : Items) (p : Progress) (s : Bridge W) (e : PageEnd)
      → (walk_page o cursor events p s).0 ≡ ok e
      → Walked o p.retry events p.last_processed s e
  walk_page-Walked cursor events p s e = walk-Walked o p.retry cursor events p s e (inr refl)
