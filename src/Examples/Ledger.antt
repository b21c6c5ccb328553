-- ===== src/Examples/Ledger.antt =====
-- Examples on the divergence ledger (workers/shared/db.ts).
use scim_bridge.Base.{
  lookup, ◌≡◌, ◌≢◌, ◌↔◌, ◌⊎◌, ◌+◌, refl, some, none, List, [], ◌∷◌, arith, eq_iff,
}
use scim_bridge.Types.{users, NativeWriteFailure}
use scim_bridge.Divergence.{
  NewFailure, new_failure_key, failure_of, record_native_write_failure, fresh_failure,
}
use scim_bridge.Divergence.Sweep.{
  marked, swept, failed, replayed, run, StandsFree, StandsDelete, late_failure_stands,
  delete_stands, clean_run_retires,
}
use scim_bridge.Divergence.Attempts.{attempts_of, fail_all, filed_under, attempts-fail_all}

abbrev lost_put : NewFailure
lost_put = record {
  directory_id = "d";
  resource_type = users;
  resource_key = "1";
  method = "PUT";
  native_status = some 500;
  detail = "";
}

abbrev lost_delete : NewFailure
lost_delete = record lost_put { resource_key = "2"; method = "DELETE" }

abbrev put_row : NativeWriteFailure
put_row = fresh_failure 5 lost_put

abbrev delete_row : NativeWriteFailure
delete_row = fresh_failure 6 lost_delete

abbrev ledger : List NativeWriteFailure
ledger = put_row ∷ delete_row ∷ []

late_failure_stands_example : StandsFree "t" (new_failure_key lost_put) (
    run
      (replayed "d" users "1" "t" ∷ swept "d" "t" ∷ [])
      (record_native_write_failure 9 lost_put ledger))
unfolding lookup
late_failure_stands_example =
    late_failure_stands "t" 9 lost_put (replayed "d" users "1" "t" ∷ swept "d" "t" ∷ []) ledger
      (refl, (refl, tt)) (refl, (refl, tt))

delete_stands_example :
    StandsDelete
      ("d", (users, "2"))
      (run (marked "d" "t" ∷ failed 7 lost_put ∷ swept "d" "t" ∷ []) ledger)
unfolding failure_of lookup
delete_stands_example =
    delete_stands ("d", (users, "2")) (marked "d" "t" ∷ failed 7 lost_put ∷ swept "d" "t" ∷ [])
      ledger (refl, (refl, tt)) (tt, (λ same. ground (arith, eq_iff "1" "2"), (tt, tt)))
      (delete_row, refl, refl)

clean_run_retires_example :
    (failure_of ("d", (users, "1")) (run (marked "d" "t" ∷ swept "d" "t" ∷ []) ledger) ≡ none) ↔ (
      (put_row.directory_id ≡ "d")
      × (put_row.method ≢ "DELETE")
      × ((put_row.sweep_token ≡ none) ⊎ (put_row.sweep_token ≡ some "t")))
unfolding failure_of lookup
clean_run_retires_example =
    clean_run_retires ("d", (users, "1")) ledger "d" "t" put_row (refl, (refl, tt)) refl

attempts-fail_all_example :
    attempts_of (
      failure_of
        ("d", (users, "1"))
        (fail_all ((7, lost_put) ∷ (8, lost_delete) ∷ (9, lost_put) ∷ []) ledger))
    ≡ attempts_of (failure_of ("d", (users, "1")) ledger)
      + filed_under ("d", (users, "1")) ((7, lost_put) ∷ (8, lost_delete) ∷ (9, lost_put) ∷ [])
attempts-fail_all_example =
    attempts-fail_all ("d", (users, "1")) ((7, lost_put) ∷ (8, lost_delete) ∷ (9, lost_put) ∷ [])
      ledger
