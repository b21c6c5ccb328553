-- ===== src/Listener/Versions/Order.antt =====
-- The ledger of event times, against the list of all the times recorded in it.
use scim_bridge.Base.{
  ◌≡◌, refl, String, Bool, true, Option, none, some, List, [], ◌∷◌, not, ◌&&◌, ◌==◌, string_eq,
  arith, lookup, lookup-upsert, or_fresh, Bool-cases, inl, inr, eq_of_beq,
}
use scim_bridge.Base.TextOrder.{before, before_asymm, not_before_trans}
use scim_bridge.Listener.Versions.{
  scope_key, not_older, is_newest_event, advance, record_event_version, record_event_versions,
}

-- No time recorded with the scope is later than `at`.
abbrev pub is_not_older : String → String → Option String → String → Bool
is_not_older scope at none recorded_scope = true
is_not_older scope at (some time) recorded_scope = not (recorded_scope == scope && before at time)

abbrev pub none_newer : String → String → List String → Option String → Bool
none_newer scope at [] time = true
none_newer scope at (s ∷ scopes) time =
    is_not_older scope at time s && none_newer scope at scopes time

-- A run of applied events: the scopes and the time of each.
abbrev pub record_all :
    List (List String × Option String) → List (String × String) → List (String × String)
unfolding record_event_versions
record_all [] versions = versions
record_all ((scopes, time) ∷ events) versions =
    record_all events (record_event_versions scopes time versions)

abbrev pub newest_of_all : String → String → List (List String × Option String) → Bool
newest_of_all scope at [] = true
newest_of_all scope at ((scopes, time) ∷ events) =
    none_newer scope at scopes time && newest_of_all scope at events

advanced :
    (at time : String) (old : String × String)
    → not_older at (some (advance time old)) ≡ (not (before at old.1) && not (before at time))
advanced at time old =
    ground (
      arith,
      not_before_trans at time old.1,
      not_before_trans at old.1 time,
      before_asymm old.1 time,
    )

not_older-or_fresh :
    (at time scope : String) (o : Option (String × String))
    → not_older at (some (or_fresh (advance time) (scope, time) o))
      ≡ (not_older at o && not (before at time))
not_older-or_fresh at time scope none = refl
not_older-or_fresh at time scope (some old) = advanced at time old

advance-key : (time : String) (row : String × String) → scope_key (advance time row) ≡ scope_key row
advance-key time row = ground arith

lookup-record :
    (scope at s time : String) (versions : List (String × String))
    → not_older at (lookup scope_key scope (record_event_version s (some time) versions))
      ≡ (not_older at (lookup scope_key scope versions) && is_not_older scope at (some time) s)
unfolding record_event_version
lookup-record scope at s time versions = elim (Bool-cases (s == scope)) [
  | inl same ↦
      rw
        (
          lookup-upsert scope_key (advance time) (s, time) scope versions (advance-key time),
          same,
          eq_of_beq s scope same,
        )
        (not_older-or_fresh at time scope (lookup scope_key scope versions))
  | inr other ↦
      rw (lookup-upsert scope_key (advance time) (s, time) scope versions (advance-key time), other)
        (ground arith)
]

is_newest-record :
    (scope at s : String) (time : Option String) (versions : List (String × String))
    → is_newest_event (record_event_version s time versions) scope (some at)
      ≡ (is_newest_event versions scope (some at) && is_not_older scope at time s)
unfolding is_newest_event record_event_version
is_newest-record scope at s none versions = ground arith
is_newest-record scope at s (some time) versions = lookup-record scope at s time versions

is_newest-record_event :
    (scope at : String) (scopes : List String) (time : Option String)
    (versions : List (String × String))
    → is_newest_event (record_event_versions scopes time versions) scope (some at)
      ≡ (is_newest_event versions scope (some at) && none_newer scope at scopes time)
unfolding record_event_versions
is_newest-record_event scope at [] time versions = ground arith
is_newest-record_event scope at (s ∷ scopes) time versions = ground (
  arith,
  is_newest-record_event scope at scopes time (record_event_version s time versions),
  is_newest-record scope at s time versions,
)

-- After any run of events the ledger lets an event of a scope pass exactly if it did so before the
-- run and no event of the run that has the scope is later. The ledger keeps one time for each scope;
-- the run is the list of all of them.
pub is_newest-record_all :
    (scope at : String) (events : List (List String × Option String))
    (versions : List (String × String))
    → is_newest_event (record_all events versions) scope (some at)
      ≡ (is_newest_event versions scope (some at) && newest_of_all scope at events)
unfolding record_event_versions
is_newest-record_all scope at [] versions = ground arith
is_newest-record_all scope at ((scopes, time) ∷ events) versions = ground (
  arith,
  is_newest-record_all scope at events (record_event_versions scopes time versions),
  is_newest-record_event scope at scopes time versions,
)
