-- ===== src/Divergence/Rows.antt =====
-- What each statement leaves in the ledger under one key.
use mathlib.Core.Option
use scim_bridge.Base.{
  ℕ, String, ◌≡◌, refl, none, some, List, not, ◌&&◌, ◌==◌, string_eq, pair_eq, if◌then◌else◌,
  Unique, kept, or_fresh, lookup-upsert, lookup-update, lookup-remove, lookup-keep,
}
use scim_bridge.Types.{ResourceType, kind_eq, NativeWriteFailure}
use scim_bridge.Divergence.{
  FailureKey, failure_key, NewFailure, new_failure_key, fresh_failure, repeat_failure,
  record_native_write_failure, clear_native_write_failure, unstamped, retirable,
  clear_replayed_divergence_for_resource, clear_replayed_divergences, mark_divergences_for_sweep,
  failure_of,
}

abbrev pub IsKeyed : List NativeWriteFailure → Type 0
IsKeyed rows = Unique failure_key rows

module _ (k : FailureKey) (rows : List NativeWriteFailure) where
  -- A live failure opens a row, or counts one more attempt on the row that is there and takes its
  -- stamp away; no other row changes.
  pub of-record :
      (now : ℕ) (f : NewFailure)
      → failure_of k (record_native_write_failure now f rows) ≡ (
          if new_failure_key f == k
          then some (
              or_fresh
                (repeat_failure now f)
                (fresh_failure now f)
                (failure_of (new_failure_key f) rows))
          else failure_of k rows)
  unfolding failure_of record_native_write_failure
  of-record now f =
      lookup-upsert failure_key (repeat_failure now f) (fresh_failure now f) k rows (λ x. refl)

  pub of-clear :
      (directory : String) (kind : ResourceType) (resource_key : String)
      → failure_of k (clear_native_write_failure directory kind resource_key rows) ≡ (
          if ◌==◌ {A = FailureKey} (directory, (kind, resource_key)) k
          then none
          else failure_of k rows)
  unfolding failure_of clear_native_write_failure
  of-clear directory kind resource_key =
      lookup-remove failure_key (directory, (kind, resource_key)) k rows

  pub of-mark :
      (directory token : String)
      → failure_of k (mark_divergences_for_sweep directory token rows)
        ≡ Option.map
            (λ r.
              if r.directory_id == directory && unstamped r
              then record r { sweep_token = some token }
              else r)
            (failure_of k rows)
  unfolding failure_of mark_divergences_for_sweep
  of-mark directory token =
      lookup-update failure_key (λ r. r.directory_id == directory && unstamped r)
        (λ r. record r { sweep_token = some token }) k rows (λ x. refl)

  pub of-sweep :
      (directory token : String)
      → IsKeyed rows
      → failure_of k (clear_replayed_divergences directory token rows)
        ≡ kept (λ r. not (r.directory_id == directory && retirable token r)) (failure_of k rows)
  unfolding failure_of clear_replayed_divergences
  of-sweep directory token u =
      lookup-keep failure_key (λ r. not (r.directory_id == directory && retirable token r)) k rows u

  pub of-replayed :
      (directory : String) (kind : ResourceType) (resource_key token : String)
      → IsKeyed rows
      → failure_of k (clear_replayed_divergence_for_resource directory kind resource_key token rows)
        ≡ kept
            (λ r. not (
              ◌==◌ {A = FailureKey} (failure_key r) (directory, (kind, resource_key))
              && retirable token r))
            (failure_of k rows)
  unfolding failure_of clear_replayed_divergence_for_resource
  of-replayed directory kind resource_key token u =
      lookup-keep failure_key
        (λ r. not (
          ◌==◌ {A = FailureKey} (failure_key r) (directory, (kind, resource_key))
          && retirable token r))
        k rows u
