-- ===== src/Examples/Deliveries.antt =====
-- Examples on the webhook route, the poller and the memberships of the native app (workers/native).
use scim_bridge.Base.{
  if◌then◌else◌, ◌==◌, string_eq, ◌+◌, ◌≤◌, String, ◌≡◌, refl, true, false, some, none, Option, [],
  ◌∷◌, lookup, is_in,
}
use scim_bridge.Base.Result.{ok}
use scim_bridge.Base.Text.{to_lower, after_prefix}
use scim_bridge.Base.TextOrder.{before}
use scim_bridge.Json.{obj, Items, cons, nil}
use scim_bridge.EventLinks.{get_event_link}
use scim_bridge.Native.{set_members, is_member}
use scim_bridge.Native.Members.{is_member-set_members}
use scim_bridge.Listener.Config.{get_config}
use scim_bridge.Listener.Mapping.{get_directory_by_id}
use scim_bridge.Listener.Learn.{fetch_event_native_id}
use mathlib.Core.Path.{subst}
use scim_bridge.Listener.Process.{process_dsync_event}
use scim_bridge.Listener.Signature.{SignatureHeader, match_signature}
use scim_bridge.Listener.Webhook.{
  verify_signature, handle_dsync_webhook, match_of, refused_response,
}
use scim_bridge.Listener.Webhook.Signed.{signature_for, verify_signature-bounds, forged-refused}
use scim_bridge.Poller.{Progress, PageEnd}
use scim_bridge.Poller.Pages.{walk_page}
use scim_bridge.Poller.Order.{Walked, walk_page-Walked}
use scim_bridge.Examples.Events.{bridge_side, tables, directory, before_all, deletion, unbound}

is_member-set_members_example : is_member "g" "1" (set_members "g" ("2" ∷ "3" ∷ []) directory) ≡ (
    if ◌==◌ {A = String} "g" "g"
    then is_in {A = String} "1" ("2" ∷ "3" ∷ [])
    else is_member "g" "1" directory)
is_member-set_members_example = is_member-set_members "g" "1" "g" ("2" ∷ "3" ∷ []) directory

abbrev signed_header : Option String
signed_header = some "t=999999 , v1=AB"

-- The pattern is found behind other text, and takes the hexadecimal digits that there are.
reads :
    match_signature "id=1 t=12 ,v1=aBg"
    ≡ some (record { time_text = "12"; time = 12; signature = "aB" })
unfolding match_signature
reads = refl

reads_no_time : match_signature "t=,v1=ab" ≡ none
unfolding match_signature
reads_no_time = refl

verify_signature-bounds_example :
    (h : SignatureHeader) × (match_of bridge_side signed_header ≡ some h)
    × (signature_for bridge_side "s" "body" h ≡ to_lower h.signature)
    × (1000000 ≤ h.time + 300000)
    × (h.time ≤ 1000000 + 300000)
unfolding verify_signature match_signature to_lower
verify_signature-bounds_example =
    verify_signature-bounds bridge_side "s" signed_header "body" 1000000 refl

abbrev forged : Option String
forged = some "t=999999,v1=cd"

abbrev IsForged : Option SignatureHeader → Type 0
IsForged none = Unit
IsForged (some h) = (signature_for bridge_side "s" "body" h == to_lower h.signature) ≡ false

forged-refused_example :
    ((handle_dsync_webhook bridge_side forged "body" before_all).0
      ≡ ok (refused_response bridge_side "Webhook signature verification failed."))
    × ((handle_dsync_webhook bridge_side forged "body" before_all).1.rows ≡ tables)
    × ((handle_dsync_webhook bridge_side forged "body" before_all).1.ids
        ≡ record { mappings = []; links = [] })
    × ((handle_dsync_webhook bridge_side forged "body" before_all).1.native ≡ directory)
    × ((handle_dsync_webhook bridge_side forged "body" before_all).1.events ≡ [])
unfolding get_config lookup match_signature to_lower
forged-refused_example =
    forged-refused bridge_side "s" forged "body" before_all refl refl
      (λ h found. subst IsForged found refl)

-- A page whose second event fails: the walk stops in front of it.
abbrev page : Items
page = cons (obj deletion) (cons (obj unbound) (cons (obj deletion) nil))

abbrev fresh : Progress
fresh = record { last_processed = none; retry = none; processed = 0 }

abbrev stop : PageEnd
stop = record {
  progress = record {
    last_processed = some "event_1";
    retry = some (record { id = "event_2"; count = 1 });
    processed = 1;
  };
  stopped = true;
}

walks : (walk_page bridge_side none page fresh before_all).0 ≡ ok stop
unfolding walk_page process_dsync_event after_prefix lookup before get_event_link
    get_directory_by_id fetch_event_native_id
walks = refl

walk_page-Walked_example : Walked bridge_side none page none before_all stop
walk_page-Walked_example = walk_page-Walked bridge_side none page fresh before_all stop walks
