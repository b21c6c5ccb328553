-- ===== src/Listener/Memberships.antt =====
-- `changeMembership` of workers/native/listener.ts: the events that put a user into a group and take
-- it out. The two operations are two functions here: an event that takes a user out creates no row.
pub mod Stable
use scim_bridge.Base.{
  String, Bool, true, false, Option, none, some, [], ◌∷◌, not, ◌&&◌, string_eq, if◌then◌else◌,
}
use scim_bridge.Base.Text.{concat}
use scim_bridge.Base.Effects.{pure, ◌>>=◌, ◌>>◌, result}
use scim_bridge.Base.Result.{Result, ok, err}
use scim_bridge.Types.{users, groups}
use scim_bridge.Json.{Value, Fields, end, get}
use scim_bridge.Native.{UserRow, GroupRow, Native, add_member, remove_member}
use scim_bridge.Listener.{Ids, Rows, Outside, Handler, Outcome, applied, skipped, ignored}
use scim_bridge.Listener.Reading.{
  ◌<|>◌, is_some, text_at, object_at, is_text, user_name_from_event, group_key_from_event,
}
use scim_bridge.Listener.Resources.{user_resource_from_event, group_resource_from_event}
use scim_bridge.Listener.Learn.{learning}
use scim_bridge.Listener.Mapping.{id_for_new_event_resource}
use scim_bridge.Listener.Resolve.{find_user, find_group}
use scim_bridge.Listener.Scopes.{or_else, event_scopes}
use scim_bridge.Listener.Versions.{is_newest_across}
use scim_bridge.Listener.Steps.{outcome, consult, ask, look}
use scim_bridge.Listener.Handlers.{resolve, store_user, store_group}

-- The identities that a membership event names.
pub record Membership : Type 0 where
  pub user : Fields
  pub group : Fields
  pub user_idp_id : Option String
  pub user_name : String
  pub group_idp_id : Option String
  pub group_name : Option String

abbrev pub keyed :
    Fields
    → Fields
    → Option String
    → Option String
    → Option String
    → Option String
    → Result Outcome Membership
keyed user group user_idp none group_idp group_name =
    err (outcome ignored "membership event user has no usable key" none)
keyed user group user_idp (some name) none none =
    err (outcome ignored "membership event group has no usable key" user_idp)
keyed user group user_idp (some name) group_idp group_name = ok (record {
  user = user;
  group = group;
  user_idp_id = user_idp;
  user_name = name;
  group_idp_id = group_idp;
  group_name = group_name;
})

abbrev pub membership_of : Option Fields → Option Fields → Result Outcome Membership
unfolding text_at user_name_from_event group_key_from_event
membership_of (some user) (some group) =
    let user_idp = text_at "idp_id" user in
    keyed user group user_idp (user_name_from_event user <|> user_idp) (group_key_from_event group)
      (text_at "name" group)
membership_of _ _ = err (outcome ignored "membership event carries no user or group" none)

-- The membership of an event, or the outcome of an event without the keys of one.
unfoldable pub read_membership : Fields → Result Outcome Membership
unfolding object_at
read_membership event = membership_of (object_at "user" event) (object_at "group" event)

-- `idpId`
abbrev pub idp_of : Membership → Option String
idp_of m = m.user_idp_id <|> m.group_idp_id

abbrev stub_note : Bool → Bool → String
stub_note true true = " (2 stub rows created)"
stub_note false false = ""
stub_note _ _ = " (1 stub row created)"

-- `state === undefined ? true : state === "active"`
abbrev pub stub_active : Option Value → Bool
stub_active none = true
stub_active state = is_text "active" state

module _ {W : Type 0} (o : Outside W) (rows : Rows) (directory_id : String) where
  -- `idpId ?? crypto.randomUUID()`
  abbrev pub key_or_uuid : Option String → Handler W String
  key_or_uuid (some key) = pure key
  key_or_uuid none =
      consult (λ native ids. learning (λ w. let r = o.upstream.random_uuid w in (ok r.0, r.1)))

  -- `newUserId` and `newGroupId`
  abbrev pub new_id : Fields → Option String → Option String → Handler W String
  unfolding id_for_new_event_resource
  new_id event native_id key = do
    fallback ← key_or_uuid key
    result (id_for_new_event_resource event native_id fallback)

  -- No id is taken where the row is there.
  abbrev pub new_id_unless : Bool → Fields → Option String → Option String → Handler W String
  new_id_unless true event native_id key = pure ""
  new_id_unless false event native_id key = new_id event native_id key

  module _ (m : Membership) (event_at : Option String) where
    abbrev pub newest : String → Fields → Native → Ids → Bool
    unfolding event_scopes is_newest_across
    newest event_type event native ids =
        is_newest_across rows.versions
          (event_scopes ids native directory_id o.upstream.stringify event_type event) event_at

    unfoldable pub add_edge : String → String → String → Bool → Bool → Bool → Handler W Outcome
    unfolding add_member
    add_edge group_id user_id label user_stub group_stub onboarded = do
      added ← (λ s. let r = add_member group_id user_id s.0 in (ok r.0, (r.1, s.1)))
      pure (
          if added
          then outcome applied
              (concat (
                "added "
                ∷ m.user_name
                ∷ " to \""
                ∷ label
                ∷ "\""
                ∷ stub_note user_stub group_stub
                ∷ (if onboarded then "; onboard()" else "")
                ∷ []))
              (idp_of m)
          else outcome skipped "no-op: membership edge already present" (idp_of m))

    abbrev pub group_label : String
    group_label = or_else (or_else "" m.group_idp_id) m.group_name

    -- The group's row is there, or a stub of it is written.
    unfoldable pub into_group : String → Bool → Bool → String → Option GroupRow → Handler W Outcome
    unfolding store_group group_resource_from_event add_edge
    into_group user_id user_stub onboarded new_group (some group) =
        add_edge group.id user_id group.display_name user_stub false onboarded
    into_group user_id user_stub onboarded new_group none = do
      let display_name = or_else (or_else "unknown group" m.group_idp_id) m.group_name
      store_group o new_group display_name m.group_idp_id
          (group_resource_from_event new_group m.group_idp_id display_name end)
      add_edge new_group user_id display_name user_stub true onboarded

    abbrev pub stale_user : Outcome
    stale_user =
        outcome skipped
          (concat (
            "no-op: " ∷ m.user_name
            ∷ " was removed by a newer event; not resurrecting via stale membership" ∷ []))
          (idp_of m)

    abbrev pub stale_group : Outcome
    stale_group =
        outcome skipped
          (concat (
            "no-op: group \"" ∷ group_label ∷ "\" was removed by a newer event; not resurrecting"
            ∷ []))
          (idp_of m)

    -- The user's row is there, or a stub of it is written.
    unfoldable pub with_user :
        String → String → Option GroupRow → Option UserRow → Handler W Outcome
    unfolding store_user user_resource_from_event into_group
    with_user new_user new_group group (some user) = into_group user.id false false new_group group
    with_user new_user new_group group none = do
      is_newest ← look (newest "dsync.user.updated" m.user)
      let active = stub_active (get "state" m.user)
      if is_newest
          then (do
            store_user o new_user m.user_name m.user_idp_id active
                (user_resource_from_event new_user m.user_idp_id m.user_name active m.user end)
            into_group new_user true active new_group group)
          else pure stale_user

    unfoldable pub add_found :
        Option String → Option String → Option UserRow → Option GroupRow → Handler W Outcome
    unfolding with_user
    add_found native_user native_group user group = do
      is_newest ← look (newest "dsync.group.updated" m.group)
      if not (is_some group) && not is_newest then pure stale_group else (do
        new_user ← new_id_unless (is_some user) m.user native_user m.user_idp_id
        new_group ← new_id_unless (is_some group) m.group native_group m.group_idp_id
        with_user new_user new_group group user)

    unfoldable pub take_out : Option UserRow → Option GroupRow → Handler W Outcome
    unfolding remove_member
    take_out none group = pure (outcome skipped "no-op: user not present" (idp_of m))
    take_out (some user) none = pure (outcome skipped "no-op: group not present" (idp_of m))
    take_out (some user) (some group) = do
      removed ← (λ s. let r = remove_member group.id user.id s.0 in (ok r.0, (r.1, s.1)))
      pure (
          if removed
          then outcome applied
              (concat ("removed " ∷ m.user_name ∷ " from \"" ∷ group.display_name ∷ "\"" ∷ []))
              (idp_of m)
          else outcome skipped "no-op: membership edge not present" (idp_of m))

    abbrev pub found_user : Option String → Native → Option UserRow
    unfolding find_user
    found_user native_id = find_user o.lower m.user_idp_id (some m.user_name) native_id

    abbrev pub found_group : Option String → Native → Option GroupRow
    unfolding find_group
    found_group native_id = find_group o.lower m.group_idp_id m.group_name native_id

    -- `changeMembership(…, "add", …)`
    unfoldable pub add_membership : Handler W Outcome
    unfolding resolve add_found
    add_membership = do
      native_user ← resolve o rows directory_id users m.user false
      native_group ← resolve o rows directory_id groups m.group false
      user ← ask (found_user native_user)
      group ← ask (found_group native_group)
      add_found native_user native_group user group

    -- `changeMembership(…, "remove", …)`
    unfoldable pub remove_membership : Handler W Outcome
    unfolding resolve take_out
    remove_membership = do
      native_user ← resolve o rows directory_id users m.user true
      native_group ← resolve o rows directory_id groups m.group true
      user ← ask (found_user native_user)
      group ← ask (found_group native_group)
      take_out user group
