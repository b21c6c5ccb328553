-- ===== src/Listener/Answer.antt =====
-- What the bridge answers about the identity of an event's resource, and its checks in
-- `fetchEventNativeId` of workers/native/status-client.ts.
use scim_bridge.Base.{
  String, Bool, true, false, Option, none, some, not, ◌&&◌, ◌==◌, string_eq, nat_eq, if◌then◌else◌,
}
use scim_bridge.Types.{ResourceType, kind_name, Directory, Strategy, migrated_id, fallback_post}
use scim_bridge.Json.{Value, null, bool, num, str, Fields, get}
use scim_bridge.Listener.Reading.{text_at, is_text}

-- What the bridge answers, once it is checked.
pub record EventMapping : Type 0 where
  pub native_id : String
  pub workos_scim_id : String
  pub strategy : Option Strategy

-- `a === b`, on values that are not objects
abbrev pub same_value : Option Value → Option Value → Bool
same_value none none = true
same_value (some null) (some null) = true
same_value (some (str a)) (some (str b)) = a == b
same_value (some (num a)) (some (num b)) = nat_eq a b
same_value (some (bool true)) (some (bool b)) = b
same_value (some (bool false)) (some (bool b)) = not b
same_value _ _ = false

abbrev pub column : Option String → Option Value
column none = some null
column (some s) = some (str s)

-- The strategy of an answer, or none where it is no known one.
abbrev pub strategy_of : Option Value → Option (Option Strategy)
strategy_of none = some none
strategy_of (some (str s)) =
    if s == "migrated-id"
    then some (some migrated_id)
    else if s == "fallback-post"
    then some (some fallback_post)
    else none
strategy_of _ = none

abbrev pub checked_ids :
    Option String → Option String → Option (Option Strategy) → Option EventMapping
checked_ids (some workos_id) (some native_id) (some strategy) =
    some (record { native_id = native_id; workos_scim_id = workos_id; strategy = strategy })
checked_ids _ _ _ = none

-- The answer as a mapping of the resource, if it is one.
unfoldable pub checked_mapping :
    Directory → ResourceType → Fields → Option Fields → Option EventMapping
unfolding text_at
checked_mapping directory kind resource none = none
checked_mapping directory kind resource (some mapping) =
    if same_value (get "workos_directory_id" mapping) (column directory.workos_directory_id)
      && is_text (kind_name kind) (get "resource_type" mapping)
      && same_value (get "dsync_id" mapping) (get "id" resource)
    then checked_ids (text_at "workos_scim_id" mapping) (text_at "native_id" mapping)
        (strategy_of (get "strategy" mapping))
    else none
