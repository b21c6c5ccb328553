-- ===== src/Listener/Versions.antt =====
-- The ledger of event times per scope, `listener_versions`: `isNewestEvent`, `isNewestAcross` and
-- `recordEventVersion` of workers/native/listener.ts.
pub mod Order
use scim_bridge.Base.{
  String, Bool, true, Option, none, some, List, [], ◌∷◌, not, ◌&&◌, string_eq, lookup, upsert,
  if◌then◌else◌,
}
use scim_bridge.Base.TextOrder.{before}

abbrev pub scope_key : String × String → String
scope_key row = row.0

abbrev pub not_older : String → Option (String × String) → Bool
not_older at none = true
not_older at (some row) = not (before at row.1)

-- `isNewestEvent`
unfoldable pub is_newest_event : List (String × String) → String → Option String → Bool
is_newest_event versions scope none = true
is_newest_event versions scope (some at) = not_older at (lookup scope_key scope versions)

-- `isNewestAcross`
unfoldable pub is_newest_across : List (String × String) → List String → Option String → Bool
unfolding is_newest_event
is_newest_across versions [] at = true
is_newest_across versions (scope ∷ scopes) at =
    is_newest_event versions scope at && is_newest_across versions scopes at

-- `ON CONFLICT (scope) DO UPDATE … WHERE excluded.event_at > listener_versions.event_at`
abbrev pub advance : String → String × String → String × String
advance at row = if before row.1 at then (row.0, at) else row

-- `recordEventVersion`
unfoldable pub record_event_version :
    String → Option String → List (String × String) → List (String × String)
record_event_version scope none versions = versions
record_event_version scope (some at) versions = upsert scope_key (advance at) (scope, at) versions

-- `for (const scope of scopes) await recordEventVersion(db, scope, eventAt)`
unfoldable pub record_event_versions :
    List String → Option String → List (String × String) → List (String × String)
unfolding record_event_version
record_event_versions [] at versions = versions
record_event_versions (scope ∷ scopes) at versions =
    record_event_versions scopes at (record_event_version scope at versions)
