-- ===== src/Divergence.antt =====
-- The divergence ledger `native_write_failures` (workers/shared/db.ts): a row for each resource of
-- which WorkOS holds a write that the native app does not, and the stamps by which a reconcile run
-- tells the rows it may retire from those recorded while it ran.
pub mod Rows
pub mod Sweep
pub mod Attempts
use scim_bridge.Base.{
  ℕ, ◌+◌, String, Bool, true, false, Option, none, some, List, [], ◌∷◌, not, ◌&&◌, ◌==◌, string_eq,
  pair_eq, keep, lookup, upsert, update, remove, length,
}
use scim_bridge.Types.{ResourceType, kind_eq, NativeWriteFailure}

abbrev pub FailureKey : Type 0
FailureKey = String × (ResourceType × String)

abbrev pub failure_key : NativeWriteFailure → FailureKey
failure_key r = (r.directory_id, (r.resource_type, r.resource_key))

-- `NewNativeWriteFailure`
pub record NewFailure : Type 0 where
  pub directory_id : String
  pub resource_type : ResourceType
  pub resource_key : String
  pub method : String
  pub native_status : Option ℕ
  pub detail : String

abbrev pub new_failure_key : NewFailure → FailureKey
new_failure_key f = (f.directory_id, (f.resource_type, f.resource_key))

-- The row inserted for a resource that has none: one attempt, no stamp.
abbrev pub fresh_failure : ℕ → NewFailure → NativeWriteFailure
fresh_failure now f = record {
  directory_id = f.directory_id;
  resource_type = f.resource_type;
  resource_key = f.resource_key;
  method = f.method;
  native_status = f.native_status;
  detail = f.detail;
  attempts = 1;
  first_seen_at = now;
  last_seen_at = now;
  sweep_token = none;
}

abbrev pub repeat_failure : ℕ → NewFailure → NativeWriteFailure → NativeWriteFailure
repeat_failure now f r = record r {
  method = f.method;
  native_status = f.native_status;
  detail = f.detail;
  attempts = r.attempts + 1;
  last_seen_at = now;
  sweep_token = none;
}

unfoldable pub record_native_write_failure :
    ℕ → NewFailure → List NativeWriteFailure → List NativeWriteFailure
record_native_write_failure now f rows =
    upsert failure_key (repeat_failure now f) (fresh_failure now f) rows

unfoldable pub clear_native_write_failure :
    String → ResourceType → String → List NativeWriteFailure → List NativeWriteFailure
clear_native_write_failure directory kind resource_key rows =
    remove failure_key (directory, (kind, resource_key)) rows

-- `sweep_token = ?`, false on NULL
abbrev pub stamped : String → NativeWriteFailure → Bool
stamped token r = elim r.sweep_token [ none ↦ false | some s ↦ s == token ]

abbrev pub unstamped : NativeWriteFailure → Bool
unstamped r = elim r.sweep_token [ none ↦ true | some s ↦ false ]

abbrev pub is_delete : NativeWriteFailure → Bool
is_delete r = r.method == "DELETE"

-- The rows that a sweep under a token may retire.
abbrev pub retirable : String → NativeWriteFailure → Bool
retirable token r = stamped token r && not (is_delete r)

unfoldable pub clear_replayed_divergence_for_resource :
    String → ResourceType → String → String → List NativeWriteFailure → List NativeWriteFailure
clear_replayed_divergence_for_resource directory kind resource_key token rows =
    keep (λ r. not (failure_key r == (directory, (kind, resource_key)) && retirable token r)) rows

unfoldable pub clear_replayed_divergences :
    String → String → List NativeWriteFailure → List NativeWriteFailure
clear_replayed_divergences directory token rows =
    keep (λ r. not (r.directory_id == directory && retirable token r)) rows

unfoldable pub mark_divergences_for_sweep :
    String → String → List NativeWriteFailure → List NativeWriteFailure
mark_divergences_for_sweep directory token rows =
    update (λ r. r.directory_id == directory && unstamped r)
      (λ r. record r { sweep_token = some token }) rows

-- One directory's row of `countNativeWriteFailures`, whose result omits the directories that count 0.
unfoldable pub count_native_write_failures : String → List NativeWriteFailure → ℕ
count_native_write_failures directory rows = length (keep (λ r. r.directory_id == directory) rows)

unfoldable pub failure_of : FailureKey → List NativeWriteFailure → Option NativeWriteFailure
failure_of k rows = lookup failure_key k rows
