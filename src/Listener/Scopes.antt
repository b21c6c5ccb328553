-- ===== src/Listener/Scopes.antt =====
-- The scopes whose times order an event: `scopeFor` and `eventScopes` of workers/native/listener.ts.
use scim_bridge.Base.{
  String, Bool, true, false, Option, none, some, List, [], ◌∷◌, ◌||◌, ◌==◌, string_eq, add_new,
  if◌then◌else◌,
}
use scim_bridge.Base.Text.{concat}
use scim_bridge.Types.{ResourceType, users, groups}
use scim_bridge.EventLinks.{EventLink, get_event_link}
use scim_bridge.Json.{Value, null, str, arr, obj, nil, cons, Fields, end, field, get}
use scim_bridge.Native.{UserRow, GroupRow, Native, user_by_id, group_by_id}
use scim_bridge.Listener.{Ids}
use scim_bridge.Listener.Reading.{
  ◌<|>◌, text_at, object_at, text_in, starts_with, primary_email, group_key_from_event,
}

abbrev pub or_else : String → Option String → String
or_else value none = value
or_else value (some v) = v

abbrev pub is_membership : String → Bool
is_membership event_type =
    event_type == "dsync.group.user_added" || event_type == "dsync.group.user_removed"

abbrev pub prefixed : String → Option String → Option String
prefixed prefix none = none
prefixed prefix (some key) = some (concat (prefix ∷ key ∷ []))

abbrev member_scope : Option String → Option String → Option String
member_scope (some user) (some group) = some (concat ("member:" ∷ group ∷ ":" ∷ user ∷ []))
member_scope _ _ = none

abbrev user_key : Option Fields → Option String
unfolding text_at
user_key none = none
user_key (some user) = text_at "idp_id" user <|> primary_email (get "emails" user)

abbrev group_key : Option Fields → Option String
group_key none = none
group_key (some group) = group_key_from_event group

-- `scopeFor`
unfoldable pub scope_for : String → Fields → Option String
unfolding text_at object_at
scope_for event_type event =
    if starts_with "dsync.user." event_type
    then prefixed "user:" (text_at "idp_id" event)
    else if is_membership event_type
    then member_scope (user_key (object_at "user" event)) (group_key (object_at "group" event))
    else if starts_with "dsync.group." event_type
    then prefixed "group:" (group_key_from_event event)
    else none

abbrev pub add_scope : Option String → List String → List String
add_scope none scopes = scopes
add_scope (some scope) scopes = add_new scope scopes

-- The id, where it is one of Directory Sync.
abbrev real_id : String → Option String → Option String
real_id prefix none = none
real_id prefix (some id) = if starts_with prefix id then some id else none

abbrev or_null_object : Option Fields → Value
or_null_object none = null
or_null_object (some fs) = obj fs

abbrev idp_object : String → Fields
idp_object key = field "idp_id" (str key) end

-- The user or group that the event names, under the identity that the native row has now.
abbrev current_user : Option UserRow → Option Fields → Option Fields
current_user none event = event
current_user (some row) event = some (idp_object (or_else row.user_name row.external_id))

abbrev current_group : Option GroupRow → Option Fields → Option Fields
current_group none event = event
current_group (some row) event = some (idp_object (or_else row.display_name row.external_id))

module _ (ids : Ids) (native : Native) (directory_id : String) where
  abbrev linked : ResourceType → Option String → Option EventLink
  linked kind none = none
  linked kind (some id) = get_event_link directory_id kind id ids.links

  abbrev user_of : Option EventLink → Option UserRow
  user_of none = none
  user_of (some link) = user_by_id link.native_id native

  abbrev group_of : Option EventLink → Option GroupRow
  group_of none = none
  group_of (some link) = group_by_id link.native_id native

  module _ (stringify : Value → String) where
    abbrev dsync_member : Option String → Option String → Option String
    dsync_member (some user) (some group) = some (
        concat (
          "dsync-member:"
          ∷ stringify (arr (cons (str directory_id) (cons (str group) (cons (str user) nil))))
          ∷ []))
    dsync_member _ _ = none

    abbrev dsync_named : String → String → Option String
    dsync_named name id = some (
        concat (
          "dsync-resource:"
          ∷ stringify (arr (cons (str directory_id) (cons (str name) (cons (str id) nil))))
          ∷ []))

    abbrev dsync_resource : Option String → Option String → Option String
    dsync_resource (some user) group = dsync_named "Users" user
    dsync_resource none (some group) = dsync_named "Groups" group
    dsync_resource none none = none

    abbrev current_scope : String → Option Fields → Option String
    unfolding scope_for
    current_scope event_type none = none
    current_scope event_type (some current) = scope_for event_type current

    -- `current` of `eventScopes`
    abbrev current_event :
        Bool → Option UserRow → Option GroupRow → Option Fields → Option Fields → Option Fields
    current_event true user group named_user named_group = some (
        field "user" (or_null_object (current_user user named_user))
          (field "group" (or_null_object (current_group group named_group)) end))
    current_event false (some user) group named_user named_group =
        current_user (some user) named_user
    current_event false none (some group) named_user named_group =
        current_group (some group) named_group
    current_event false none none named_user named_group = none

    -- `eventScopes`
    unfoldable pub event_scopes : String → Fields → List String
    unfolding scope_for text_at object_at
    event_scopes event_type event =
        let membership = is_membership event_type in
        let user_event =
          if membership
          then object_at "user" event
          else if starts_with "dsync.user." event_type
          then some event
          else none in
        let group_event =
          if membership
          then object_at "group" event
          else if starts_with "dsync.group." event_type
          then some event
          else none in
        let user_id = real_id "directory_user_" (text_in "id" user_event) in
        let group_id = real_id "directory_group_" (text_in "id" group_event) in
        let stable =
          if membership then dsync_member user_id group_id else dsync_resource user_id group_id in
        let current =
          current_event membership (user_of (linked users user_id))
            (group_of (linked groups group_id)) user_event group_event in
        add_scope (current_scope event_type current)
          (add_scope stable (add_scope (scope_for event_type event) []))
