-- ===== src/Divergence/Sweep.antt =====
-- Sequences of statements on the divergence ledger (workers/shared/db.ts): live traffic and reconcile
-- runs.
use scim_bridge.Base.{
  ℕ, String, ◌≡◌, ◌≢◌, refl, false, Option, none, some, List, [], ◌∷◌, arith, not, ◌&&◌, ◌==◌,
  string_eq, pair_eq, if◌then◌else◌, eq_iff, All, kept, or_fresh, upsert-Unique, update-Unique,
  remove-Unique, keep-Unique, Option-cases, Bool-cases, beq_refl, beq-eq-false_of_ne, ◌↔◌, ◌⊎◌, inl,
  inr,
}
use scim_bridge.Types.{ResourceType, kind_eq, NativeWriteFailure}
use scim_bridge.Divergence.{
  FailureKey, failure_key, NewFailure, new_failure_key, fresh_failure, repeat_failure, stamped,
  record_native_write_failure, clear_native_write_failure, unstamped, retirable,
  clear_replayed_divergence_for_resource, clear_replayed_divergences, mark_divergences_for_sweep,
  failure_of,
}
use scim_bridge.Divergence.Rows.{IsKeyed, of-record, of-clear, of-mark, of-sweep, of-replayed}

-- The statements that live traffic and reconcile runs make on the ledger.
pub data Statement : Type 0 where
  failed : ℕ → NewFailure → Statement
  repaired : String → ResourceType → String → Statement
  marked : String → String → Statement
  replayed : String → ResourceType → String → String → Statement
  swept : String → String → Statement

unfoldable pub apply : Statement → List NativeWriteFailure → List NativeWriteFailure
apply (failed now f) rows = record_native_write_failure now f rows
apply (repaired directory kind key) rows = clear_native_write_failure directory kind key rows
apply (marked directory token) rows = mark_divergences_for_sweep directory token rows
apply (replayed directory kind key token) rows =
    clear_replayed_divergence_for_resource directory kind key token rows
apply (swept directory token) rows = clear_replayed_divergences directory token rows

unfoldable pub run : List Statement → List NativeWriteFailure → List NativeWriteFailure
run [] rows = rows
run (s ∷ ss) rows = run ss (apply s rows)

pub apply-IsKeyed :
    (s : Statement) (rows : List NativeWriteFailure) → IsKeyed rows → IsKeyed (apply s rows)
unfolding apply record_native_write_failure clear_native_write_failure mark_divergences_for_sweep
    clear_replayed_divergence_for_resource clear_replayed_divergences
apply-IsKeyed (failed now f) rows u =
    upsert-Unique failure_key (repeat_failure now f) (fresh_failure now f) rows (λ x. refl) u
apply-IsKeyed (repaired directory kind key) rows u =
    remove-Unique failure_key (directory, (kind, key)) rows u
apply-IsKeyed (marked directory token) rows u =
    update-Unique failure_key (λ r. r.directory_id == directory && unstamped r)
      (λ r. record r { sweep_token = some token }) rows (λ x. refl) u
apply-IsKeyed (replayed directory kind key token) rows u =
    keep-Unique failure_key
      (λ r.
        not (◌==◌ {A = FailureKey} (failure_key r) (directory, (kind, key)) && retirable token r))
      rows u
apply-IsKeyed (swept directory token) rows u =
    keep-Unique failure_key (λ r. not (r.directory_id == directory && retirable token r)) rows u

-- A row stands under the key, and the stamp on it is not `token`.
abbrev pub StandsFree : String → FailureKey → List NativeWriteFailure → Type 0
StandsFree token k rows =
    (r : NativeWriteFailure) × (failure_of k rows ≡ some r) × (stamped token r ≡ false)

-- What may happen while the run that owns `token` goes on, after it has stamped its rows: anything
-- but a live write that repairs the key; only that run retires rows, and no run stamps with its token.
abbrev pub During : String → FailureKey → Statement → Type 0
During token k (failed now f) = Unit
During token k (repaired directory kind key) = ◌≢◌ {A = FailureKey} (directory, (kind, key)) k
During token k (marked directory other) = other ≢ token
During token k (replayed directory kind key own) = own ≡ token
During token k (swept directory own) = own ≡ token

stamped-or_fresh :
    (token : String) (now : ℕ) (f : NewFailure) (o : Option NativeWriteFailure)
    → stamped token (or_fresh (repeat_failure now f) (fresh_failure now f) o) ≡ false
stamped-or_fresh token now f none = refl
stamped-or_fresh token now f (some r) = refl

-- What marking makes of one row.
abbrev mark_row : String → String → NativeWriteFailure → NativeWriteFailure
mark_row directory token r =
    if r.directory_id == directory && unstamped r then record r { sweep_token = some token } else r

module _ (token : String) (k : FailureKey) where
  apply-StandsFree :
      (s : Statement) (rows : List NativeWriteFailure)
      → IsKeyed rows
      → During token k s
      → StandsFree token k rows
      → StandsFree token k (apply s rows)
  unfolding apply
  apply-StandsFree (failed now f) rows u d (r, stands, free) =
      elim (Bool-cases (◌==◌ {A = FailureKey} (new_failure_key f) k)) [
        | inl same ↦ (
          or_fresh (repeat_failure now f) (fresh_failure now f)
              (failure_of (new_failure_key f) rows),
          rw (of-record k rows now f) (rw same),
          stamped-or_fresh token now f (failure_of (new_failure_key f) rows),
        )
        | inr other ↦ (r, rw (of-record k rows now f) (rw other stands), free)
      ]
  apply-StandsFree (repaired directory kind key) rows u d (r, stands, free) =
      let other = beq-eq-false_of_ne {A = FailureKey} (directory, (kind, key)) k d in
      (r, rw (of-clear k rows directory kind key) (rw other stands), free)
  apply-StandsFree (marked directory other) rows u d (r, stands, free) = (
    mark_row directory other r,
    rw (of-mark k rows directory other) (rw stands),
    ground (arith, eq_iff other token),
  )
  apply-StandsFree (replayed directory kind key own) rows u d (r, stands, free) =
      (r, rw (of-replayed k rows directory kind key own u) (rw (stands, d) (ground arith)), free)
  apply-StandsFree (swept directory own) rows u d (r, stands, free) =
      (r, rw (of-sweep k rows directory own u) (rw (stands, d) (ground arith)), free)

  pub run-StandsFree :
      (ss : List Statement) (rows : List NativeWriteFailure)
      → IsKeyed rows
      → All (During token k) ss
      → StandsFree token k rows
      → StandsFree token k (run ss rows)
  unfolding run
  run-StandsFree [] rows u d h = h
  run-StandsFree (s ∷ ss) rows u (d, ds) h =
      run-StandsFree ss (apply s rows) (apply-IsKeyed s rows u) ds (apply-StandsFree s rows u d h)

-- In a table without repeated keys, a failure that live traffic records while a reconcile run goes on
-- is still in the ledger after any further statements, the run's own clears and final sweep among
-- them, and does not carry the run's stamp. The statements that follow repair no write of the same
-- resource, stamp no row with the run's token, and clear or sweep by the run's token only.
pub late_failure_stands :
    (token : String) (now : ℕ) (f : NewFailure) (ss : List Statement)
    (rows : List NativeWriteFailure)
    → IsKeyed rows
    → All (During token (new_failure_key f)) ss
    → StandsFree token (new_failure_key f) (run ss (record_native_write_failure now f rows))
late_failure_stands token now f ss rows u during =
    let k = new_failure_key f in
    run-StandsFree token k ss (record_native_write_failure now f rows)
      (unfold apply in apply-IsKeyed (failed now f) rows u) during
      (
        or_fresh (repeat_failure now f) (fresh_failure now f) (failure_of k rows),
        rw (of-record k rows now f) (rw (beq_refl k)),
        stamped-or_fresh token now f (failure_of k rows),
      )

-- A row of a deprovisioning that never reached the native app stands under the key.
abbrev pub StandsDelete : FailureKey → List NativeWriteFailure → Type 0
StandsDelete k rows =
    (r : NativeWriteFailure) × (failure_of k rows ≡ some r) × (r.method ≡ "DELETE")

-- Live statements name other keys; what reconcile runs do is not restricted.
abbrev pub Elsewhere : FailureKey → Statement → Type 0
Elsewhere k (failed now f) = new_failure_key f ≢ k
Elsewhere k (repaired directory kind key) = ◌≢◌ {A = FailureKey} (directory, (kind, key)) k
Elsewhere k _ = Unit

module _ (k : FailureKey) where
  apply-StandsDelete :
      (s : Statement) (rows : List NativeWriteFailure)
      → IsKeyed rows
      → Elsewhere k s
      → StandsDelete k rows
      → StandsDelete k (apply s rows)
  unfolding apply
  apply-StandsDelete (failed now f) rows u d (r, stands, gone) =
      let other = beq-eq-false_of_ne (new_failure_key f) k d in
      (r, rw (of-record k rows now f) (rw other stands), gone)
  apply-StandsDelete (repaired directory kind key) rows u d (r, stands, gone) =
      let other = beq-eq-false_of_ne {A = FailureKey} (directory, (kind, key)) k d in
      (r, rw (of-clear k rows directory kind key) (rw other stands), gone)
  apply-StandsDelete (marked directory token) rows u d (r, stands, gone) =
      (mark_row directory token r, rw (of-mark k rows directory token) (rw stands), ground arith)
  apply-StandsDelete (replayed directory kind key token) rows u d (r, stands, gone) = (
    r,
    rw (of-replayed k rows directory kind key token u)
        (rw stands (ground (arith, eq_iff r.method "DELETE"))),
    gone,
  )
  apply-StandsDelete (swept directory token) rows u d (r, stands, gone) = (
    r,
    rw (of-sweep k rows directory token u) (rw stands (ground (arith, eq_iff r.method "DELETE"))),
    gone,
  )

  -- In a table without repeated keys, the record of a delete that never reached the native app still
  -- stands, as a delete, after any sequence of reconcile statements on any resource and of live
  -- statements on other resources.
  pub delete_stands :
      (ss : List Statement) (rows : List NativeWriteFailure)
      → IsKeyed rows
      → All (Elsewhere k) ss
      → StandsDelete k rows
      → StandsDelete k (run ss rows)
  unfolding run
  delete_stands [] rows u d h = h
  delete_stands (s ∷ ss) rows u (d, ds) h =
      delete_stands ss (apply s rows) (apply-IsKeyed s rows u) ds (apply-StandsDelete s rows u d h)

-- The same for one row.
retired_row :
    (directory token : String) (r : NativeWriteFailure)
    → (kept
          (λ x. not (x.directory_id == directory && retirable token x))
          (some (mark_row directory token r))
        ≡ none)
      ↔ ((r.directory_id ≡ directory)
          × (r.method ≢ "DELETE")
          × ((r.sweep_token ≡ none) ⊎ (r.sweep_token ≡ some token)))
retired_row directory token r = elim (Option-cases r.sweep_token) [
  | inl bare ↦
      ground (arith, eq_iff r.directory_id directory, eq_iff r.method "DELETE", eq_iff token token)
  | inr (s, held) ↦
      ground (arith, eq_iff r.directory_id directory, eq_iff r.method "DELETE", eq_iff s token)
]

-- In a table without repeated keys, a run that marks a directory and sweeps it, with nothing in between, retires a row exactly if the
-- row is of that directory, is no delete, and was unstamped or already carried the run's stamp.
pub clean_run_retires :
    (k : FailureKey) (rows : List NativeWriteFailure) (directory token : String)
    (r : NativeWriteFailure)
    → IsKeyed rows
    → failure_of k rows ≡ some r
    → (failure_of k (run (marked directory token ∷ swept directory token ∷ []) rows) ≡ none) ↔ (
        (r.directory_id ≡ directory)
        × (r.method ≢ "DELETE")
        × ((r.sweep_token ≡ none) ⊎ (r.sweep_token ≡ some token)))
unfolding run apply
clean_run_retires k rows directory token r u stands =
    let marked_keyed : IsKeyed (mark_divergences_for_sweep directory token rows) =
      apply-IsKeyed (marked directory token) rows u in
    rw (of-sweep k (mark_divergences_for_sweep directory token rows) directory token marked_keyed)
      (rw (of-mark k rows directory token) (rw stands (retired_row directory token r)))
