-- ===== src/Divergence/Attempts.antt =====
-- The count of attempts on a row of the ledger.
use scim_bridge.Base.{
  ℕ, ◌+◌, ◌≡◌, refl, Option, none, some, List, [], ◌∷◌, arith, ◌==◌, string_eq, pair_eq,
  if◌then◌else◌, or_fresh, Bool-cases, eq_of_beq, inl, inr,
}
use scim_bridge.Types.{kind_eq, NativeWriteFailure}
use scim_bridge.Divergence.{
  FailureKey, NewFailure, new_failure_key, fresh_failure, repeat_failure,
  record_native_write_failure, failure_of,
}
use scim_bridge.Divergence.Rows.{of-record}

-- The attempts that the ledger counts under a key; 0 where it has no row.
abbrev pub attempts_of : Option NativeWriteFailure → ℕ
attempts_of none = 0
attempts_of (some r) = r.attempts

abbrev pub fail_all : List (ℕ × NewFailure) → List NativeWriteFailure → List NativeWriteFailure
fail_all [] rows = rows
fail_all ((now, f) ∷ fs) rows = fail_all fs (record_native_write_failure now f rows)

abbrev pub filed_under : FailureKey → List (ℕ × NewFailure) → ℕ
filed_under k [] = 0
filed_under k ((now, f) ∷ fs) = (if new_failure_key f == k then 1 else 0) + filed_under k fs

attempts-or_fresh :
    (now : ℕ) (f : NewFailure) (o : Option NativeWriteFailure)
    → attempts_of (some (or_fresh (repeat_failure now f) (fresh_failure now f) o))
      ≡ 1 + attempts_of o
attempts-or_fresh now f none = refl
attempts-or_fresh now f (some r) = omega arith

attempts-record :
    (k : FailureKey) (now : ℕ) (f : NewFailure) (rows : List NativeWriteFailure)
    → attempts_of (failure_of k (record_native_write_failure now f rows))
      ≡ (if new_failure_key f == k then 1 else 0) + attempts_of (failure_of k rows)
attempts-record k now f rows = elim (Bool-cases (new_failure_key f == k)) [
  | inl same ↦ rw (of-record k rows now f) (
      rw (same, ← eq_of_beq (new_failure_key f) k same)
        (attempts-or_fresh now f (failure_of (new_failure_key f) rows)))
  | inr other ↦ rw (of-record k rows now f) (rw other (omega arith))
]

-- The attempts under a key grow by the failures recorded for it, whatever else is recorded between.
pub attempts-fail_all :
    (k : FailureKey) (fs : List (ℕ × NewFailure)) (rows : List NativeWriteFailure)
    → attempts_of (failure_of k (fail_all fs rows))
      ≡ attempts_of (failure_of k rows) + filed_under k fs
attempts-fail_all k [] rows = omega arith
attempts-fail_all k ((now, f) ∷ fs) rows = omega (
  arith,
  attempts-fail_all k fs (record_native_write_failure now f rows),
  attempts-record k now f rows,
)
