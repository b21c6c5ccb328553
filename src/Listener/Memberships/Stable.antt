-- ===== src/Listener/Memberships/Stable.antt =====
-- A property of the native tables that every statement keeps is kept by membership events.
use scim_bridge.Base.{String, Bool, true, false, not, ◌&&◌, Option, none, some}
use scim_bridge.Types.{users, groups}
use scim_bridge.Json.{Fields, get, end}
use scim_bridge.Native.{UserRow, GroupRow, Native}
use scim_bridge.Native.Stable.{Stable}
use scim_bridge.Listener.{Rows, Outside}
use scim_bridge.Listener.Steps.Stable.{Keeps, pure-Keeps, bind-Keeps, if-Keeps}
use scim_bridge.Listener.Reading.{is_some}
use scim_bridge.Listener.Resources.{user_resource_from_event}
use scim_bridge.Listener.Handlers.Stable.{
  deletes_hard, store_user-Keeps, resolve-Keeps, ask-Keeps, look-Keeps, result-Keeps,
}
use scim_bridge.Listener.Memberships.{
  Membership, add_edge, into_group, with_user, add_found, take_out, newest, new_id, new_id_unless,
  key_or_uuid, found_user, found_group, add_membership, remove_membership, stub_active, stale_user,
  stale_group,
}
use scim_bridge.Listener.Mapping.{id_for_new_event_resource}

module _ {W : Type 0} (o : Outside W) (rows : Rows) (directory_id : String) (P : Native → Type 0)
    (stable : Stable (deletes_hard rows) P) where
  key-Keeps : (key : Option String) → Keeps P (key_or_uuid o rows directory_id key)
  key-Keeps none = record { keeps = λ s p. p }
  key-Keeps (some key) = record { keeps = λ s p. p }

  new_id-Keeps :
      (present : Bool) (event : Fields) (native_id key : Option String)
      → Keeps P (new_id_unless o rows directory_id present event native_id key)
  unfolding new_id
  new_id-Keeps true event native_id key = record { keeps = λ s p. p }
  new_id-Keeps false event native_id key = bind-Keeps P (key-Keeps key) (λ fallback.
      result-Keeps o rows directory_id P stable
        (id_for_new_event_resource event native_id fallback))

  module _ (m : Membership) (at : Option String) where
    add_edge-Keeps :
        (group user label : String) (user_stub group_stub onboarded : Bool)
        → Keeps P
            (add_edge o rows directory_id m at group user label user_stub group_stub onboarded)
    unfolding add_edge
    add_edge-Keeps group user label user_stub group_stub onboarded = record {
      keeps = λ s p. stable.on_add group user s.0 p;
    }

    into_group-Keeps :
        (user : String) (user_stub onboarded : Bool) (new_group : String) (group : Option GroupRow)
        → Keeps P (into_group o rows directory_id m at user user_stub onboarded new_group group)
    unfolding into_group
    into_group-Keeps user user_stub onboarded new_group (some group) =
        add_edge-Keeps group.id user group.display_name user_stub false onboarded
    into_group-Keeps user user_stub onboarded new_group none = record {
      keeps = λ s p. stable.on_add new_group user _ (stable.on_upsert_group _ s.0 p);
    }

    with_user-Keeps :
        (new_user new_group : String) (group : Option GroupRow) (user : Option UserRow)
        → Keeps P (with_user o rows directory_id m at new_user new_group group user)
    unfolding with_user
    with_user-Keeps new_user new_group group (some user) =
        into_group-Keeps user.id false false new_group group
    with_user-Keeps new_user new_group group none =
        bind-Keeps P
          (look-Keeps o rows directory_id P stable
            (newest o rows directory_id m at "dsync.user.updated" m.user))
          (λ is_newest.
            if-Keeps P is_newest
              (λ new.
                bind-Keeps P
                  (store_user-Keeps o rows directory_id P stable new_user m.user_name m.user_idp_id
                    (stub_active (get "state" m.user))
                    (user_resource_from_event new_user m.user_idp_id m.user_name
                      (stub_active (get "state" m.user)) m.user end))
                  (λ done.
                    into_group-Keeps new_user true (stub_active (get "state" m.user)) new_group
                      group))
              (λ old. pure-Keeps P (stale_user o rows directory_id m at)))

    add_found-Keeps :
        (native_user native_group : Option String) (user : Option UserRow) (group : Option GroupRow)
        → Keeps P (add_found o rows directory_id m at native_user native_group user group)
    unfolding add_found
    add_found-Keeps native_user native_group user group =
        bind-Keeps P
          (look-Keeps o rows directory_id P stable
            (newest o rows directory_id m at "dsync.group.updated" m.group))
          (λ is_newest.
            if-Keeps P (not (is_some group) && not is_newest)
              (λ old. pure-Keeps P (stale_group o rows directory_id m at))
              (λ new.
                bind-Keeps P (new_id-Keeps (is_some user) m.user native_user m.user_idp_id)
                  (λ new_user.
                    bind-Keeps P (new_id-Keeps (is_some group) m.group native_group m.group_idp_id)
                      (λ new_group. with_user-Keeps new_user new_group group user))))

    pub add_membership-Keeps : Keeps P (add_membership o rows directory_id m at)
    unfolding add_membership
    add_membership-Keeps =
        bind-Keeps P (resolve-Keeps o rows directory_id P stable users m.user false) (λ native_user.
          bind-Keeps P (resolve-Keeps o rows directory_id P stable groups m.group false)
            (λ native_group.
              bind-Keeps P
                (ask-Keeps o rows directory_id P stable
                  (found_user o rows directory_id m at native_user))
                (λ user.
                  bind-Keeps P
                    (ask-Keeps o rows directory_id P stable
                      (found_group o rows directory_id m at native_group))
                    (λ group. add_found-Keeps native_user native_group user group))))

    take_out-Keeps :
        (user : Option UserRow) (group : Option GroupRow)
        → Keeps P (take_out o rows directory_id m at user group)
    unfolding take_out
    take_out-Keeps none group = record { keeps = λ s p. p }
    take_out-Keeps (some user) none = record { keeps = λ s p. p }
    take_out-Keeps (some user) (some group) = record {
      keeps = λ s p. stable.on_remove group.id user.id s.0 p;
    }

    pub remove_membership-Keeps : Keeps P (remove_membership o rows directory_id m at)
    unfolding remove_membership
    remove_membership-Keeps =
        bind-Keeps P (resolve-Keeps o rows directory_id P stable users m.user true) (λ native_user.
          bind-Keeps P (resolve-Keeps o rows directory_id P stable groups m.group true)
            (λ native_group.
              bind-Keeps P
                (ask-Keeps o rows directory_id P stable
                  (found_user o rows directory_id m at native_user))
                (λ user.
                  bind-Keeps P
                    (ask-Keeps o rows directory_id P stable
                      (found_group o rows directory_id m at native_group))
                    (λ group. take_out-Keeps user group))))
