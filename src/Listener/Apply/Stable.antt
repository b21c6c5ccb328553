-- ===== src/Listener/Apply/Stable.antt =====
-- A property of the native tables that every statement keeps is kept by every event.
use scim_bridge.Base.{String, Option}
use scim_bridge.Base.Result.{Result, ok, err}
use scim_bridge.Json.{Fields}
use scim_bridge.Native.{Native}
use scim_bridge.Native.Stable.{Stable}
use scim_bridge.Listener.{Rows, Outside, Outcome, Handler}
use scim_bridge.Listener.Steps.Stable.{Keeps, pure-Keeps}
use scim_bridge.Listener.Handlers.Stable.{
  deletes_hard, upsert_user-Keeps, delete_user-Keeps, upsert_group-Keeps, delete_group-Keeps,
}
use scim_bridge.Listener.Memberships.{Membership, read_membership}
use scim_bridge.Listener.Memberships.Stable.{add_membership-Keeps, remove_membership-Keeps}
use scim_bridge.Listener.Apply.{
  EventKind, user_upserted, user_deleted, group_upserted, group_deleted, user_added, user_removed,
  activated, directory_deleted, credential, other_event, kind_of_event, membership_or, apply_kind,
  apply_event,
}

module _ {W : Type 0} (o : Outside W) (rows : Rows) (directory_id : String) (P : Native → Type 0)
    (stable : Stable (deletes_hard rows) P) where
  membership-Keeps :
      (r : Result Outcome Membership) {f : Membership → Handler W Outcome}
      → ((m : Membership) → Keeps P (f m))
      → Keeps P (membership_or o r f)
  membership-Keeps (ok m) each = each m
  membership-Keeps (err out) each = pure-Keeps P out

  apply_kind-Keeps :
      (at : Option String) (event : Fields) (kind : EventKind)
      → Keeps P (apply_kind o rows directory_id at event kind)
  unfolding apply_kind
  apply_kind-Keeps at event user_upserted = upsert_user-Keeps o rows directory_id P stable event
  apply_kind-Keeps at event user_deleted = delete_user-Keeps o rows directory_id P stable event
  apply_kind-Keeps at event group_upserted = upsert_group-Keeps o rows directory_id P stable event
  apply_kind-Keeps at event group_deleted = delete_group-Keeps o rows directory_id P stable event
  apply_kind-Keeps at event user_added =
      membership-Keeps (read_membership event)
        (λ m. add_membership-Keeps o rows directory_id P stable m at)
  apply_kind-Keeps at event user_removed =
      membership-Keeps (read_membership event)
        (λ m. remove_membership-Keeps o rows directory_id P stable m at)
  apply_kind-Keeps at event activated = record { keeps = λ s p. p }
  apply_kind-Keeps at event directory_deleted = record { keeps = λ s p. p }
  apply_kind-Keeps at event credential = record { keeps = λ s p. p }
  apply_kind-Keeps at event (other_event type) = record { keeps = λ s p. p }

  pub apply_event-Keeps :
      (at : Option String) (event_type : String) (event : Fields)
      → Keeps P (apply_event o rows directory_id at event_type event)
  unfolding apply_event
  apply_event-Keeps at event_type event = apply_kind-Keeps at event (kind_of_event event_type)
