-- ===== src/Listener/Handlers/Stable.antt =====
-- A property of the native tables that every statement keeps is kept by every event.
use scim_bridge.Base.{String, Bool, true, false, not, string_eq, Option, none, some}
use scim_bridge.Base.Result.{Result}
use scim_bridge.Base.Effects.{result}
use scim_bridge.Types.{ResourceType, users, groups}
use scim_bridge.Json.{Fields, get}
use scim_bridge.Native.{UserRow, GroupRow, Native}
use scim_bridge.Native.Stable.{Stable}
use scim_bridge.Listener.Config.{get_config}
use scim_bridge.Listener.{Rows, Ids, Outside}
use scim_bridge.Listener.Steps.Stable.{Keeps, pure-Keeps, bind-Keeps, if-Keeps, write-Keeps}
use scim_bridge.Listener.Reading.{is_text, user_name_from_event, text_at, group_key_from_event}
use scim_bridge.Listener.Resources.{user_resource_from_event, parse_resource}
use scim_bridge.Listener.Scopes.{or_else}
use scim_bridge.Listener.Mapping.{id_for_new_event_resource}
use scim_bridge.Listener.Resolve.{find_user, find_group}
use scim_bridge.Listener.Steps.{ask, look}
use scim_bridge.Listener.Handlers.{
  same_option, store_user, store_group, resolve, create_user, release_memberships, update_user,
  upsert_found, upsert_user_from_event, upsert_user_keyed, remove_found, delete_user_from_event,
  delete_user_keyed, upsert_group_found, upsert_group_from_event, upsert_group_keyed,
  remove_group_found, delete_group_from_event, delete_group_keyed, changes_hands, is_unchanged,
  is_group_unchanged,
}

-- `(await getConfig(db, "native.delete_policy")) === "hard"`
unfoldable pub deletes_hard : Rows → Bool
unfolding get_config
deletes_hard rows = same_option (get_config "native.delete_policy" rows.config) (some "hard")

module _ {W : Type 0} (o : Outside W) (rows : Rows) (directory_id : String) (P : Native → Type 0)
    (stable : Stable (deletes_hard rows) P) where
  pub store_user-Keeps :
      (id name : String) (external_id : Option String) (active : Bool) (resource : Fields)
      → Keeps P (store_user o id name external_id active resource)
  unfolding store_user
  store_user-Keeps id name external_id active resource = write-Keeps P stable o.unique_violation _

  pub store_group-Keeps :
      (id name : String) (external_id : Option String) (resource : Fields)
      → Keeps P (store_group o id name external_id resource)
  unfolding store_group
  store_group-Keeps id name external_id resource = record {
    keeps = λ s p. stable.on_upsert_group _ s.0 p;
  }

  pub resolve-Keeps :
      (kind : ResourceType) (event : Fields) (allow_absent : Bool)
      → Keeps P (resolve o rows directory_id kind event allow_absent)
  unfolding resolve
  resolve-Keeps kind event allow_absent = record { keeps = λ s p. p }

  pub ask-Keeps : {A : Type 0} (f : Native → A) → Keeps {W = W} P (ask f)
  ask-Keeps f = record { keeps = λ s p. p }

  pub look-Keeps : {A : Type 0} (f : Native → Ids → A) → Keeps {W = W} P (look f)
  look-Keeps f = record { keeps = λ s p. p }

  pub result-Keeps : {A : Type 0} (r : Result String A) → Keeps {W = W} P (result r)
  result-Keeps r = record { keeps = λ s p. p }

  create_user-Keeps :
      (idp_id name : String) (active : Bool) (native_id : Option String) (event : Fields)
      → Keeps P (create_user o rows directory_id idp_id name active native_id event)
  unfolding create_user
  create_user-Keeps idp_id name active native_id event =
      bind-Keeps P (record { keeps = λ s p. p })
        (λ id.
          bind-Keeps P (store_user-Keeps id name (some idp_id) active _)
            (λ done. (record { keeps = λ s p. p })))

  release-Keeps :
      (existing : UserRow) (idp_id : String)
      → Keeps P (release_memberships o rows directory_id existing idp_id)
  unfolding release_memberships
  release-Keeps existing idp_id =
      if-Keeps P (changes_hands existing.external_id idp_id)
        (λ moved. record { keeps = λ s p. stable.on_clear existing.id s.0 p })
        (λ same. pure-Keeps P _)

  update_user-Keeps :
      (idp_id name : String) (active : Bool) (event : Fields) (existing : UserRow)
      → Keeps P (update_user o rows directory_id idp_id name active event existing)
  unfolding update_user
  update_user-Keeps idp_id name active event existing =
      let resource =
        user_resource_from_event existing.id (some idp_id) name active event
          (parse_resource o.upstream.parse existing.resource) in
      if-Keeps P (is_unchanged o rows directory_id idp_id name active resource existing)
        (λ same. pure-Keeps P _)
        (λ changed. bind-Keeps P (release-Keeps existing idp_id) (λ note.
          bind-Keeps P (store_user-Keeps existing.id name (some idp_id) active resource)
            (λ done. (record { keeps = λ s p. p }))))

  upsert_found-Keeps :
      (idp_id name : String) (active : Bool) (event : Fields) (native_id : Option String)
      (existing : Option UserRow)
      → Keeps P (upsert_found o rows directory_id idp_id name active event native_id existing)
  unfolding upsert_found
  upsert_found-Keeps idp_id name active event native_id none =
      create_user-Keeps idp_id name active native_id event
  upsert_found-Keeps idp_id name active event native_id (some existing) =
      update_user-Keeps idp_id name active event existing

  upsert_user_keyed-Keeps :
      (event : Fields) (key : Option String)
      → Keeps P (upsert_user_keyed o rows directory_id event key)
  unfolding upsert_user_keyed
  upsert_user_keyed-Keeps event none = pure-Keeps P _
  upsert_user_keyed-Keeps event (some idp_id) =
      bind-Keeps P (resolve-Keeps users event (not (is_text "active" (get "state" event))))
        (λ native_id.
          bind-Keeps P
            (ask-Keeps (
              find_user o.lower (some idp_id) (some (or_else idp_id (user_name_from_event event)))
                native_id))
            (λ existing.
              upsert_found-Keeps idp_id (or_else idp_id (user_name_from_event event))
                (is_text "active" (get "state" event)) event native_id existing))

  pub upsert_user-Keeps :
      (event : Fields) → Keeps P (upsert_user_from_event o rows directory_id event)
  unfolding upsert_user_from_event
  upsert_user-Keeps event = upsert_user_keyed-Keeps event (text_at "idp_id" event)

  remove_found-Keeps :
      (idp_id : String) (event : Fields) (existing : Option UserRow)
      → Keeps P (remove_found o rows directory_id idp_id event existing)
  unfolding remove_found deletes_hard
  remove_found-Keeps idp_id event none = pure-Keeps P _
  remove_found-Keeps idp_id event (some existing) =
      if-Keeps P (deletes_hard rows)
        (λ hard. record { keeps = λ s p. stable.on_delete_user existing.id s.0 hard p })
        (λ soft.
          bind-Keeps P (store_user-Keeps existing.id existing.user_name (some idp_id) false _)
            (λ done. (record { keeps = λ s p. p })))

  delete_user_keyed-Keeps :
      (event : Fields) (key : Option String)
      → Keeps P (delete_user_keyed o rows directory_id event key)
  unfolding delete_user_keyed
  delete_user_keyed-Keeps event none = pure-Keeps P _
  delete_user_keyed-Keeps event (some idp_id) =
      bind-Keeps P (resolve-Keeps users event true) (λ native_id.
        bind-Keeps P
          (ask-Keeps (find_user o.lower (some idp_id) (user_name_from_event event) native_id))
          (λ existing. remove_found-Keeps idp_id event existing))

  pub delete_user-Keeps :
      (event : Fields) → Keeps P (delete_user_from_event o rows directory_id event)
  unfolding delete_user_from_event
  delete_user-Keeps event = delete_user_keyed-Keeps event (text_at "idp_id" event)

  upsert_group_found-Keeps :
      (idp_id : String) (name : Option String) (event : Fields) (native_id : Option String)
      (existing : Option GroupRow)
      → Keeps P (upsert_group_found o rows directory_id idp_id name event native_id existing)
  unfolding upsert_group_found
  upsert_group_found-Keeps idp_id none event native_id none = pure-Keeps P _
  upsert_group_found-Keeps idp_id (some name) event native_id none =
      bind-Keeps P (result-Keeps (id_for_new_event_resource event native_id idp_id))
        (λ id. record { keeps = λ s p. stable.on_upsert_group _ s.0 p })
  upsert_group_found-Keeps idp_id name event native_id (some existing) =
      let display_name = or_else existing.display_name name in
      if-Keeps P (is_group_unchanged o rows directory_id idp_id display_name existing)
        (λ same. pure-Keeps P _)
        (λ changed. record { keeps = λ s p. stable.on_upsert_group _ s.0 p })

  upsert_group_keyed-Keeps :
      (event : Fields) (key : Option String)
      → Keeps P (upsert_group_keyed o rows directory_id event key)
  unfolding upsert_group_keyed
  upsert_group_keyed-Keeps event none = pure-Keeps P _
  upsert_group_keyed-Keeps event (some idp_id) =
      bind-Keeps P (resolve-Keeps groups event false) (λ native_id.
        bind-Keeps P (ask-Keeps (find_group o.lower (some idp_id) (text_at "name" event) native_id))
          (λ existing.
            upsert_group_found-Keeps idp_id (text_at "name" event) event native_id existing))

  pub upsert_group-Keeps :
      (event : Fields) → Keeps P (upsert_group_from_event o rows directory_id event)
  unfolding upsert_group_from_event
  upsert_group-Keeps event = upsert_group_keyed-Keeps event (group_key_from_event event)

  remove_group_found-Keeps :
      (idp_id : String) (existing : Option GroupRow)
      → Keeps P (remove_group_found o rows directory_id idp_id existing)
  unfolding remove_group_found
  remove_group_found-Keeps idp_id none = pure-Keeps P _
  remove_group_found-Keeps idp_id (some existing) = record {
    keeps = λ s p. stable.on_delete_group existing.id s.0 p;
  }

  delete_group_keyed-Keeps :
      (event : Fields) (key : Option String)
      → Keeps P (delete_group_keyed o rows directory_id event key)
  unfolding delete_group_keyed
  delete_group_keyed-Keeps event none = pure-Keeps P _
  delete_group_keyed-Keeps event (some idp_id) =
      bind-Keeps P (resolve-Keeps groups event true) (λ native_id.
        bind-Keeps P (ask-Keeps (find_group o.lower (some idp_id) (text_at "name" event) native_id))
          (λ existing. remove_group_found-Keeps idp_id existing))

  pub delete_group-Keeps :
      (event : Fields) → Keeps P (delete_group_from_event o rows directory_id event)
  unfolding delete_group_from_event
  delete_group-Keeps event = delete_group_keyed-Keeps event (group_key_from_event event)
