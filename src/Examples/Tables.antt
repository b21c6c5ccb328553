-- ===== src/Examples/Tables.antt =====
-- Examples on the mappings, the create claims and the reconcile lease (workers/shared/db.ts).
use scim_bridge.Base.{
  ◌+◌, ◌≡◌, refl, true, String, pair_eq, upsert, update, some, none, List, [], ◌∷◌, arith, eq_iff,
  leb, lookup, ◌==◌, string_eq,
}
use scim_bridge.Types.{users, kind_eq, migrated_id, fallback_post, IdMapping}
use scim_bridge.Mappings.{get_mapping, upsert_mapping, upsert_mappings, get_mapping_by_workos_id}
use scim_bridge.Mappings.Lookup.{get-upsert_mappings, last_written}
use scim_bridge.Mappings.Owner.{get_by_workos_id-Answers, Answers}
use scim_bridge.Claims.{
  Lease, CreateClaim, claim_workos_primary_create, release_workos_primary_create,
  claim_reconcile_run, release_reconcile_run,
}
use scim_bridge.Claims.Exclusive.{acquire, free, serve_all, claim_exclusive, release_frees}
use scim_bridge.Claims.Expiry.{
  acquire as ask, free as give_back, answer_all, HeldSince, lease_exclusive, late_release_keeps,
}

abbrev ada : IdMapping
ada = record {
  directory_id = "d";
  resource_type = users;
  native_id = "1";
  workos_id = "1";
  strategy = migrated_id;
}

abbrev bob : IdMapping
bob = record {
  directory_id = "d";
  resource_type = users;
  native_id = "2";
  workos_id = "w";
  strategy = fallback_post;
}

abbrev bob_again : IdMapping
bob_again = record {
  directory_id = "d";
  resource_type = users;
  native_id = "2";
  workos_id = "v";
  strategy = fallback_post;
}

abbrev stored : List IdMapping
stored = ada ∷ bob ∷ []

get-upsert_mappings_example :
    get_mapping "d" users "2" (upsert_mappings (bob ∷ bob_again ∷ []) (ada ∷ []))
    ≡ last_written ("d", (users, "2")) (bob ∷ bob_again ∷ []) (get_mapping "d" users "2" (ada ∷ []))
get-upsert_mappings_example = get-upsert_mappings (bob ∷ bob_again ∷ []) (ada ∷ []) "d" users "2"

last_queued :
    get_mapping "d" users "2" (upsert_mappings (bob ∷ bob_again ∷ []) (ada ∷ [])) ≡ some bob_again
unfolding get_mapping upsert_mappings upsert_mapping lookup upsert
last_queued = refl

get_by_workos_id-Answers_example :
    Answers "d" users "w" stored (get_mapping_by_workos_id "d" users "w" stored)
unfolding lookup
get_by_workos_id-Answers_example = get_by_workos_id-Answers "d" users "w" stored (refl, (refl, tt))

claim_exclusive_example :
    (claim_workos_primary_create "d" users "b" (
      serve_all
        (acquire "d" users "c" ∷ free "d" users "c" ∷ [])
        (claim_workos_primary_create "d" users "a" []).1)).0
    ≡ (◌==◌ {A = String} "a" "b")
unfolding claim_workos_primary_create lookup upsert
claim_exclusive_example =
    claim_exclusive "d" users "a" [] "b" (acquire "d" users "c" ∷ free "d" users "c" ∷ []) tt refl
      (tt, (λ both. ground (arith, eq_iff "c" "a"), tt))

abbrev taken : CreateClaim
taken = record { directory_id = "d"; resource_type = users; token = "a" }

release_frees_example :
    (claim_workos_primary_create "d" users "b"
      (release_workos_primary_create "d" users "a" (taken ∷ []))).0
    ≡ true
unfolding lookup
release_frees_example = release_frees "d" users "a" (taken ∷ []) "b" (refl, tt) (taken, refl, refl)

abbrev idle : Lease
idle = record { directory_id = "d"; reconcile_token = none; reconcile_started_at = none }

lease_exclusive_example :
    (claim_reconcile_run 2000 "d" "b" (
      answer_all
        (ask 200 "d" "c" ∷ give_back "d" "c" ∷ [])
        (claim_reconcile_run 100 "d" "a" (idle ∷ [])).1)).0
    ≡ leb (100 + 1800) 2000
unfolding claim_reconcile_run lookup update
lease_exclusive_example =
    lease_exclusive "d" "a" 100 (idle ∷ []) "b" 2000 (ask 200 "d" "c" ∷ give_back "d" "c" ∷ []) refl
      (omega arith, (λ both. ground (arith, eq_iff "c" "a"), tt))

late_release_keeps_example :
    HeldSince "d" "a" 100
      (release_reconcile_run "d" "b" (claim_reconcile_run 100 "d" "a" (idle ∷ [])).1)
unfolding claim_reconcile_run lookup update
late_release_keeps_example =
    late_release_keeps "d" "a" 100 (idle ∷ []) "b" (λ same. ground (arith, eq_iff "b" "a")) refl
