-- ===== src/Listener/Handlers.antt =====
-- The handlers of user and group events in workers/native/listener.ts: `upsertUserFromEvent`,
-- `deleteUserFromEvent`, `upsertGroupFromEvent`, `deleteGroupFromEvent`.
pub mod Stable
use scim_bridge.Base.{
  String, Bool, true, false, Option, none, some, List, [], ◌∷◌, not, ◌&&◌, ◌==◌, string_eq, lookup,
  if◌then◌else◌,
}
use scim_bridge.Base.Text.{concat}
use scim_bridge.Base.Effects.{pure, ◌>>=◌, ◌>>◌, result}
use scim_bridge.Types.{ResourceType, users, groups}
use scim_bridge.Json.{obj, Fields, end, get}
use scim_bridge.Native.{
  UserRow, GroupRow, upsert_user, clear_memberships, delete_user, upsert_group, delete_group,
}
use scim_bridge.Listener.{Rows, Outside, Handler, Outcome, applied, skipped, ignored}
use scim_bridge.Listener.Reading.{text_at, is_text, user_name_from_event, group_key_from_event}
use scim_bridge.Listener.Resources.{
  user_resource_from_event, group_resource_from_event, parse_resource,
}
use scim_bridge.Listener.Config.{get_config}
use scim_bridge.Listener.Steps.{outcome, consult, ask, change, write}
use scim_bridge.Listener.Mapping.{id_for_new_event_resource}
use scim_bridge.Listener.Resolve.{resolve_native_event_id, find_user, find_group}
use scim_bridge.Listener.Scopes.{or_else}

abbrev pub same_option : Option String → Option String → Bool
same_option none none = true
same_option (some a) (some b) = a == b
same_option _ _ = false

abbrev pub same_bool : Bool → Bool → Bool
same_bool true b = b
same_bool false b = not b

abbrev user_row : String → String → Option String → Bool → String → UserRow
user_row id user_name external_id active resource = record {
  id = id;
  user_name = user_name;
  external_id = external_id;
  active = active;
  resource = resource;
}

-- The external id changes hands: the row has one, and it is another.
abbrev pub changes_hands : Option String → String → Bool
changes_hands none idp_id = false
changes_hands (some external_id) idp_id = not (external_id == idp_id)

abbrev transition_detail : Bool → Bool → String
transition_detail was_active active =
    if not was_active && active
    then "onboard()"
    else if was_active && not active
    then "offboard()"
    else "attributes updated"

module _ {W : Type 0} (o : Outside W) where
  -- `store.upsertUser`, which writes the resource as text
  unfoldable pub store_user : String → String → Option String → Bool → Fields → Handler W (Unit {0})
  store_user id user_name external_id active resource =
      write o.unique_violation (
        upsert_user
          (user_row id user_name external_id active (o.upstream.stringify (obj resource))))

  unfoldable pub store_group : String → String → Option String → Fields → Handler W (Unit {0})
  store_group id display_name external_id resource = change (
      upsert_group (record {
        id = id;
        display_name = display_name;
        external_id = external_id;
        resource = o.upstream.stringify (obj resource);
      }))

  module _ (rows : Rows) (directory_id : String) where
    -- `resolveNativeEventId`, as a step of a handler
    unfoldable pub resolve : ResourceType → Fields → Bool → Handler W (Option String)
    unfolding resolve_native_event_id
    resolve kind event allow_absent = consult (λ native ids.
        resolve_native_event_id o rows ids directory_id kind native event allow_absent)

    -- A user whose row is not there yet.
    unfoldable pub create_user : String → String → Bool → Option String → Fields → Handler W Outcome
    unfolding store_user user_resource_from_event id_for_new_event_resource
    create_user idp_id user_name active native_id event = do
      id ← result (id_for_new_event_resource event native_id idp_id)
      store_user id user_name (some idp_id) active
          (user_resource_from_event id (some idp_id) user_name active event end)
      pure (outcome applied (if active then "onboard()" else "provisioned inactive") (some idp_id))

    -- The memberships that a row loses with its external id.
    unfoldable pub release_memberships : UserRow → String → Handler W String
    unfolding clear_memberships
    release_memberships existing idp_id =
        if changes_hands existing.external_id idp_id
        then (change (clear_memberships existing.id) >> pure "; inherited memberships cleared")
        else pure ""

    -- `unchanged` of `upsertUserFromEvent`
    abbrev pub is_unchanged : String → String → Bool → Fields → UserRow → Bool
    is_unchanged idp_id user_name active resource existing =
        same_bool existing.active active
        && existing.user_name == user_name
        && same_option existing.external_id (some idp_id)
        && o.upstream.stringify (obj resource) == existing.resource

    unfoldable pub update_user : String → String → Bool → Fields → UserRow → Handler W Outcome
    unfolding store_user user_resource_from_event parse_resource release_memberships
    update_user idp_id user_name active event existing =
        let resource =
          user_resource_from_event existing.id (some idp_id) user_name active event
            (parse_resource o.upstream.parse existing.resource) in
        if is_unchanged idp_id user_name active resource existing
        then pure (outcome skipped "no transition" (some idp_id))
        else (do
          note ← release_memberships existing idp_id
          store_user existing.id user_name (some idp_id) active resource
          pure (
              outcome applied (concat (transition_detail existing.active active ∷ note ∷ []))
                (some idp_id)))

    unfoldable pub upsert_found :
        String → String → Bool → Fields → Option String → Option UserRow → Handler W Outcome
    unfolding create_user update_user
    upsert_found idp_id user_name active event native_id none =
        create_user idp_id user_name active native_id event
    upsert_found idp_id user_name active event native_id (some existing) =
        update_user idp_id user_name active event existing

    unfoldable pub upsert_user_keyed : Fields → Option String → Handler W Outcome
    unfolding resolve find_user upsert_found text_at user_name_from_event
    upsert_user_keyed event none = pure (outcome ignored "user event carries no idp_id" none)
    upsert_user_keyed event (some idp_id) = do
      let user_name = or_else idp_id (user_name_from_event event)
      let active = is_text "active" (get "state" event)
      native_id ← resolve users event (not active)
      existing ← ask (find_user o.lower (some idp_id) (some user_name) native_id)
      upsert_found idp_id user_name active event native_id existing

    -- `upsertUserFromEvent`
    unfoldable pub upsert_user_from_event : Fields → Handler W Outcome
    unfolding upsert_user_keyed text_at group_key_from_event
    upsert_user_from_event event = upsert_user_keyed event (text_at "idp_id" event)

    unfoldable pub remove_found : String → Fields → Option UserRow → Handler W Outcome
    unfolding store_user user_resource_from_event parse_resource get_config
    remove_found idp_id event none =
        pure (outcome skipped "no-op: user already absent" (some idp_id))
    remove_found idp_id event (some existing) =
        if same_option (get_config "native.delete_policy" rows.config) (some "hard")
        then (do
          change (delete_user existing.id)
          pure (outcome applied "offboard() — hard-deleted" (some idp_id)))
        else (do
          store_user existing.id existing.user_name (some idp_id) false (
              user_resource_from_event existing.id (some idp_id) existing.user_name false event
                (parse_resource o.upstream.parse existing.resource))
          pure (outcome applied "offboard() — deactivated in place" (some idp_id)))

    unfoldable pub delete_user_keyed : Fields → Option String → Handler W Outcome
    unfolding resolve find_user remove_found text_at user_name_from_event
    delete_user_keyed event none = pure (outcome ignored "user event carries no idp_id" none)
    delete_user_keyed event (some idp_id) = do
      native_id ← resolve users event true
      existing ← ask (find_user o.lower (some idp_id) (user_name_from_event event) native_id)
      remove_found idp_id event existing

    -- `deleteUserFromEvent`
    unfoldable pub delete_user_from_event : Fields → Handler W Outcome
    unfolding delete_user_keyed text_at group_key_from_event
    delete_user_from_event event = delete_user_keyed event (text_at "idp_id" event)

    abbrev pub is_group_unchanged : String → String → GroupRow → Bool
    is_group_unchanged idp_id display_name existing =
        existing.display_name == display_name && same_option existing.external_id (some idp_id)

    unfoldable pub upsert_group_found :
        String → Option String → Fields → Option String → Option GroupRow → Handler W Outcome
    unfolding store_group group_resource_from_event parse_resource id_for_new_event_resource
    upsert_group_found idp_id none event native_id none =
        pure (outcome ignored "group event carries no name" (some idp_id))
    upsert_group_found idp_id (some name) event native_id none = do
      id ← result (id_for_new_event_resource event native_id idp_id)
      store_group id name (some idp_id) (group_resource_from_event id (some idp_id) name end)
      pure (outcome applied (concat ("group \"" ∷ name ∷ "\" created" ∷ [])) (some idp_id))
    upsert_group_found idp_id name event native_id (some existing) =
        let display_name = or_else existing.display_name name in
        let renamed = not (existing.display_name == display_name) in
        if is_group_unchanged idp_id display_name existing
        then pure (outcome skipped "no transition" (some idp_id))
        else (do
          store_group existing.id display_name (some idp_id) (
              group_resource_from_event existing.id (some idp_id) display_name
                (parse_resource o.upstream.parse existing.resource))
          pure (
              outcome applied
                (if renamed
                  then concat ("renamed to \"" ∷ display_name ∷ "\"" ∷ [])
                  else "attributes updated")
                (some idp_id)))

    unfoldable pub upsert_group_keyed : Fields → Option String → Handler W Outcome
    unfolding resolve find_group upsert_group_found text_at group_key_from_event
    upsert_group_keyed event none = pure (outcome ignored "group event carries no key" none)
    upsert_group_keyed event (some idp_id) = do
      native_id ← resolve groups event false
      existing ← ask (find_group o.lower (some idp_id) (text_at "name" event) native_id)
      upsert_group_found idp_id (text_at "name" event) event native_id existing

    -- `upsertGroupFromEvent`
    unfoldable pub upsert_group_from_event : Fields → Handler W Outcome
    unfolding upsert_group_keyed text_at group_key_from_event
    upsert_group_from_event event = upsert_group_keyed event (group_key_from_event event)

    unfoldable pub remove_group_found : String → Option GroupRow → Handler W Outcome
    remove_group_found idp_id none =
        pure (outcome skipped "no-op: group already absent" (some idp_id))
    remove_group_found idp_id (some existing) = do
      change (delete_group existing.id)
      pure (
          outcome applied
            (concat ("group \"" ∷ existing.display_name ∷ "\" removed; its users retained" ∷ []))
            (some idp_id))

    unfoldable pub delete_group_keyed : Fields → Option String → Handler W Outcome
    unfolding resolve find_group remove_group_found text_at group_key_from_event
    delete_group_keyed event none = pure (outcome ignored "group event carries no key" none)
    delete_group_keyed event (some idp_id) = do
      native_id ← resolve groups event true
      existing ← ask (find_group o.lower (some idp_id) (text_at "name" event) native_id)
      remove_group_found idp_id existing

    -- `deleteGroupFromEvent`
    unfoldable pub delete_group_from_event : Fields → Handler W Outcome
    unfolding delete_group_keyed text_at group_key_from_event
    delete_group_from_event event = delete_group_keyed event (group_key_from_event event)
