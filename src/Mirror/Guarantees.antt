-- ===== src/Mirror/Guarantees.antt =====
-- `mirrorUpsert` of workers/shared/scim.ts as its callers see it: what it answers and what it leaves
-- in the table `id_mappings`.
use scim_bridge.Base.{
  ℕ, String, ◌≡◌, ◌≢◌, refl, sym, ◌∙◌, ap, inl, inr, Bool, true, false, Option, none, some, List,
  pair_eq, string_eq, Option-cases, beq-eq-false_of_ne, beq-eq-true_of_eq,
}
use scim_bridge.Base.Result.{Result, ok, err, ok_inj}
use scim_bridge.Types.{ResourceType, kind_eq, Directory, IdMapping}
use scim_bridge.Mappings.{
  MappingKey, mapping_key, get_mapping, get_mapping_by_workos_id, upsert_mapping,
}
use scim_bridge.Mappings.Lookup.{get-upsert}
use scim_bridge.Json.{Fields}
use scim_bridge.Json.Strip.{strip_fields}
use scim_bridge.Scim.Http.{Upstream}
use scim_bridge.Mirror.Effects.{Thrown, Store, caught, continue}
use scim_bridge.Mirror.{
  MirrorResult, recorded, read_mapping, claimed_by_another, mint_conflict, refused,
}
use scim_bridge.Mirror.Upsert.{
  Exit, done, creates, mirror_threw, mirror_body, mirror_upsert, mirror_known, write_first,
  write_mapped, finish,
}
use scim_bridge.Mirror.Outcome.{IsMapped, Verdict, Post, Post-after, ExitPost, ExitPost-after}
use scim_bridge.Mirror.Outcome.Create.{create_via_post-Posts}
use scim_bridge.Mirror.Outcome.Upsert.{mirror_body-Exits}

module _ {W : Type 0} (u : Upstream W) (status_text : ℕ → String) (directory : Directory)
    (kind : ResourceType) (native_id : String) (serialize : Bool) (resource : Fields)
    (s : Store W) where
  caught-Exit :
      (out : Result Thrown Exit × Store W)
      → ExitPost directory kind native_id s out
      → ExitPost directory kind native_id s
          (caught out (mirror_threw u status_text directory kind native_id))
  unfolding mirror_threw
  caught-Exit (ok (done r), after) h = h
  caught-Exit (ok creates, after) h = h
  caught-Exit (err e, after) h = h

  finish-Post :
      (body : Fields) (out : Result Thrown Exit × Store W)
      → ExitPost directory kind native_id s out
      → Post directory kind native_id s
          (continue out (finish u status_text directory kind native_id body))
  unfolding finish
  finish-Post body (ok (done r), after) h = h
  finish-Post body (ok creates, after) h =
      Post-after directory kind native_id s after _ h
        (create_via_post-Posts u status_text directory kind native_id body after)
  finish-Post body (err e, after) h = h

  -- Whatever WorkOS answers, whether or not a request fails to connect: where `mirrorUpsert` answers
  -- with a success it recorded a mapping of the resource, in the queue of a batching caller and else in
  -- the table, or found the resource mapped and left the mappings and the queue as they were; where it
  -- answers with a failure, or throws, it left both as they were.
  pub mirror_upsert-Post :
      Post directory kind native_id s
        (mirror_upsert u status_text directory kind native_id serialize resource s)
  unfolding mirror_upsert
  mirror_upsert-Post = finish-Post (strip_fields resource) _ (
      caught-Exit _ (
        ExitPost-after directory kind native_id s (record s { elapsed = 0 }) _ (refl, refl)
          (mirror_body-Exits u status_text directory kind native_id serialize
            (strip_fields resource) (record s { elapsed = 0 }))))

  -- The row of a key that was just written.
  get-recorded :
      (m : IdMapping)
      → mapping_key m ≡ (directory.id, (kind, native_id))
      → get_mapping directory.id kind native_id (upsert_mapping m s.mappings) ≡ some m
  get-recorded m key = rw (get-upsert m s.mappings directory.id kind native_id) (
      rw (beq-eq-true_of_eq {A = MappingKey} (mapping_key m) (directory.id, (kind, native_id)) key))

  recorded-direct :
      (m : IdMapping) (sink : Option (List IdMapping))
      → sink ≡ none
      → (recorded m sink s).mappings ≡ upsert_mapping m s.mappings
  recorded-direct m none e = refl
  recorded-direct m (some queue) e = cc

  Verdict-IsMapped :
      (after : Store W)
      → s.sink ≡ none
      → Verdict directory kind native_id s after true
      → IsMapped directory kind native_id after
  Verdict-IsMapped after direct (inr (kept, (m, e))) =
      (m, ap (get_mapping directory.id kind native_id) kept.0 ∙ e)
  Verdict-IsMapped after direct (inl (m, key, p, q)) =
      (m, rw (p ∙ recorded-direct m s.sink direct) (get-recorded m key))

  recorded-elsewhere :
      (m : IdMapping) (sink : Option (List IdMapping)) (d : String) (k : ResourceType) (n : String)
      → ◌≢◌ {A = MappingKey} (mapping_key m) (d, (k, n))
      → get_mapping d k n (recorded m sink s).mappings ≡ get_mapping d k n s.mappings
  recorded-elsewhere m none d k n other =
      rw (get-upsert m s.mappings d k n)
        (rw (beq-eq-false_of_ne {A = MappingKey} (mapping_key m) (d, (k, n)) other))
  recorded-elsewhere m (some queue) d k n other = refl

  Verdict-elsewhere :
      (after : Store W) (b : Bool) (d : String) (k : ResourceType) (n : String)
      → ◌≢◌ {A = MappingKey} (directory.id, (kind, native_id)) (d, (k, n))
      → Verdict directory kind native_id s after b
      → get_mapping d k n after.mappings ≡ get_mapping d k n s.mappings
  Verdict-elsewhere after false d k n other kept = ap (get_mapping d k n) kept.0
  Verdict-elsewhere after true d k n other (inr (kept, mapped)) = ap (get_mapping d k n) kept.0
  Verdict-elsewhere after true d k n other (inl (m, key, p, q)) =
      ap (get_mapping d k n) p ∙ recorded-elsewhere m s.sink d k n (λ same. other (sym key ∙ same))

  success_Verdict :
      (out : Result Thrown MirrorResult × Store W) (r : MirrorResult)
      → Post directory kind native_id s out
      → out.0 ≡ ok r
      → r.ok_ ≡ true
      → Verdict directory kind native_id s out.1 true
  success_Verdict (ok q, after) r h answer success =
      rw (ap (λ x. x.ok_) (ok_inj answer) ∙ success) at h
  success_Verdict (err e, after) r h answer success = cc

  Post-elsewhere :
      (out : Result Thrown MirrorResult × Store W) (d : String) (k : ResourceType) (n : String)
      → ◌≢◌ {A = MappingKey} (directory.id, (kind, native_id)) (d, (k, n))
      → Post directory kind native_id s out
      → get_mapping d k n out.1.mappings ≡ get_mapping d k n s.mappings
  Post-elsewhere (ok r, after) d k n other h = Verdict-elsewhere after r.ok_ d k n other h
  Post-elsewhere (err e, after) d k n other kept = ap (get_mapping d k n) kept.0

  -- Where no batch is being queued, a run that answers with a success leaves the resource mapped in
  -- the table: a later lookup of its native id finds a row.
  pub mirror_upsert-IsMapped :
      s.sink ≡ none
      → (r : MirrorResult)
      → (mirror_upsert u status_text directory kind native_id serialize resource s).0 ≡ ok r
      → r.ok_ ≡ true
      → IsMapped directory kind native_id
          (mirror_upsert u status_text directory kind native_id serialize resource s).1
  mirror_upsert-IsMapped direct r answer success =
      let out = mirror_upsert u status_text directory kind native_id serialize resource s in
      Verdict-IsMapped out.1 direct (success_Verdict out r mirror_upsert-Post answer success)

  -- However a run ends, the row of every other key of the table is as before.
  pub mirror_upsert-elsewhere :
      (d : String) (k : ResourceType) (n : String)
      → ◌≢◌ {A = MappingKey} (directory.id, (kind, native_id)) (d, (k, n))
      → get_mapping d k n
          (mirror_upsert u status_text directory kind native_id serialize resource s).1.mappings
        ≡ get_mapping d k n s.mappings
  mirror_upsert-elsewhere d k n other =
      Post-elsewhere (mirror_upsert u status_text directory kind native_id serialize resource s) d k
        n other mirror_upsert-Post

module _ {W : Type 0} (u : Upstream W) (status_text : ℕ → String) (directory : Directory)
    (kind : ResourceType) (native_id : String) (resource : Fields) (s : Store W) where
  -- The WorkOS id that the first write of a run addresses.
  abbrev pub target : Option IdMapping → String
  target none = native_id
  target (some existing) = existing.workos_id

  -- A refusal by 409 that no request preceded.
  abbrev pub RefusedUntouched : Result Thrown MirrorResult × Store W → Type 0
  RefusedUntouched out =
      (r : MirrorResult) × (out.0 ≡ ok r)
      × (r.ok_ ≡ false)
      × (r.mint_conflict ≡ true)
      × (r.status ≡ some 409)
      × (out.1.world ≡ s.world)
      × (out.1.mappings ≡ s.mappings)
      × (out.1.sink ≡ s.sink)

  -- Where the WorkOS id that a run would address is held by another native id of the directory, and the
  -- caller does not ask for a serialized update, the run answers with a mint conflict of status 409,
  -- sends no request, and leaves the mappings and the queue as they were.
  pub mirror_upsert-claimed :
      (other : IdMapping)
      → get_mapping_by_workos_id directory.id kind
          (target (get_mapping directory.id kind native_id s.mappings))
          s.mappings
        ≡ ok (some other)
      → other.native_id ≢ native_id
      → RefusedUntouched (mirror_upsert u status_text directory kind native_id false resource s)
  unfolding mirror_upsert mirror_body read_mapping mirror_known claimed_by_another write_first
      write_mapped mint_conflict refused finish
  mirror_upsert-claimed other held distinct =
      elim (Option-cases (get_mapping directory.id kind native_id s.mappings)) [
        | inl e ↦
            rw (e, rw e at held, beq-eq-false_of_ne other.native_id native_id distinct)
              (_, refl, refl, refl, refl, refl, refl, refl)
        | inr (existing, e) ↦
            rw (e, rw e at held, beq-eq-false_of_ne other.native_id native_id distinct)
              (_, refl, refl, refl, refl, refl, refl, refl)
      ]
