-- ===== src/Examples/Links.antt =====
-- Examples on the event links (workers/shared/event-links.ts).
use scim_bridge.Base.{◌≡◌, refl, some, [], ◌∷◌}
use scim_bridge.Base.Result.{err}
use scim_bridge.Types.{users}
use scim_bridge.EventLinks.{
  EventLink, get_event_link, insert_link, bind_event_link, conflicting_owner,
}
use scim_bridge.EventLinks.Owners.{
  IsOneToOne, get-bind_event_link, bind_event_link-IsOneToOne, bind_event_link-ok,
}

abbrev ada : EventLink
ada = record {
  directory_id = "d";
  resource_type = users;
  dsync_id = "e1";
  native_id = "1";
  workos_id = "w1";
}

abbrev bob : EventLink
bob = record {
  directory_id = "d";
  resource_type = users;
  dsync_id = "e2";
  native_id = "2";
  workos_id = "w2";
}

-- Another event id for ada's native id.
abbrev stolen : EventLink
stolen = record {
  directory_id = "d";
  resource_type = users;
  dsync_id = "e3";
  native_id = "1";
  workos_id = "w3";
}

refuses_reassignment : (bind_event_link stolen (ada ∷ [])).0 ≡ err conflicting_owner
unfolding bind_event_link insert_link get_event_link
refuses_reassignment = refl

get-bind_event_link_example :
    get_event_link "d" users "e1" (bind_event_link stolen (ada ∷ [])).1 ≡ some ada
unfolding get_event_link
get-bind_event_link_example = get-bind_event_link stolen (ada ∷ []) "d" users "e1" ada refl

bind_event_link-IsOneToOne_example : IsOneToOne (bind_event_link bob (ada ∷ [])).1
bind_event_link-IsOneToOne_example = bind_event_link-IsOneToOne bob (ada ∷ []) (tt, tt)

bind_event_link-ok_example :
    (row : EventLink) × (get_event_link "d" users "e2" (bind_event_link bob (ada ∷ [])).1
      ≡ some row)
    × (row.native_id ≡ "2")
    × (row.workos_id ≡ "w2")
unfolding bind_event_link insert_link get_event_link
bind_event_link-ok_example = bind_event_link-ok bob (ada ∷ []) refl
