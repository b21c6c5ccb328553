-- ===== src/Listener/Apply.antt =====
-- `applyEvent` of workers/native/listener.ts: the handler of each type of event.
pub mod Stable
use scim_bridge.Base.{String, Option, none, [], ◌∷◌, ◌==◌, string_eq, if◌then◌else◌}
use scim_bridge.Base.Text.{concat}
use scim_bridge.Base.Effects.{pure}
use scim_bridge.Base.Result.{Result, ok, err}
use scim_bridge.Json.{Fields}
use scim_bridge.Listener.{Rows, Outside, Handler, Outcome, ignored}
use scim_bridge.Listener.Reading.{starts_with}
use scim_bridge.Listener.Steps.{outcome}
use scim_bridge.Listener.Handlers.{
  upsert_user_from_event, delete_user_from_event, upsert_group_from_event, delete_group_from_event,
}
use scim_bridge.Listener.Memberships.{
  Membership, read_membership, add_membership, remove_membership,
}

-- The cases of the switch in `applyEvent`.
pub data EventKind : Type 0 where
  user_upserted user_deleted group_upserted group_deleted user_added user_removed : EventKind
  activated directory_deleted credential : EventKind
  other_event : String → EventKind

unfoldable pub kind_of_event : String → EventKind
unfolding starts_with
kind_of_event type =
    if type == "dsync.user.created"
    then user_upserted
    else if type == "dsync.user.updated"
    then user_upserted
    else if type == "dsync.user.deleted"
    then user_deleted
    else if type == "dsync.group.created"
    then group_upserted
    else if type == "dsync.group.updated"
    then group_upserted
    else if type == "dsync.group.deleted"
    then group_deleted
    else if type == "dsync.group.user_added"
    then user_added
    else if type == "dsync.group.user_removed"
    then user_removed
    else if type == "dsync.activated"
    then activated
    else if type == "dsync.deleted"
    then directory_deleted
    else if starts_with "dsync.token." type
    then credential
    else other_event type

module _ {W : Type 0} (o : Outside W) where
  -- The early returns of `changeMembership`, for an event without the keys of a membership.
  abbrev pub membership_or :
      Result Outcome Membership → (Membership → Handler W Outcome) → Handler W Outcome
  membership_or (ok m) change = change m
  membership_or (err out) change = pure out

  unfoldable pub apply_kind : Rows → String → Option String → Fields → EventKind → Handler W Outcome
  unfolding upsert_user_from_event delete_user_from_event upsert_group_from_event
      delete_group_from_event read_membership add_membership remove_membership
  apply_kind rows dir at event user_upserted = upsert_user_from_event o rows dir event
  apply_kind rows dir at event user_deleted = delete_user_from_event o rows dir event
  apply_kind rows dir at event group_upserted = upsert_group_from_event o rows dir event
  apply_kind rows dir at event group_deleted = delete_group_from_event o rows dir event
  apply_kind rows dir at event user_added =
      membership_or (read_membership event) (λ m. add_membership o rows dir m at)
  apply_kind rows dir at event user_removed =
      membership_or (read_membership event) (λ m. remove_membership o rows dir m at)
  apply_kind rows dir at event activated =
      pure (outcome ignored "directory activated; informational, no per-user work" none)
  apply_kind rows dir at event directory_deleted =
      pure (outcome ignored "directory deleted; flagged for review, users retained" none)
  apply_kind rows dir at event credential =
      pure (outcome ignored "sync credential lifecycle; not directory data" none)
  apply_kind rows dir at event (other_event type) =
      pure (outcome ignored (concat ("no handler for event type " ∷ type ∷ [])) none)

  -- `applyEvent`
  unfoldable pub apply_event : Rows → String → Option String → String → Fields → Handler W Outcome
  unfolding apply_kind kind_of_event
  apply_event rows dir at event_type event = apply_kind rows dir at event (kind_of_event event_type)
