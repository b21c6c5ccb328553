-- ===== src/Mirror/Outcome/Returns.antt =====
-- Where `mirrorUpsert` of workers/shared/scim.ts answers from within its `try` block.
use scim_bridge.Base.{
  ℕ, String, ◌≡◌, refl, Bool, true, false, not, Option, none, some, if◌then◌else◌, nat_eq,
}
use scim_bridge.Base.Result.{Result, ok, err}
use scim_bridge.Types.{ResourceType, Directory, IdMapping}
use scim_bridge.Json.{Fields}
use scim_bridge.Json.Strip.{strip_fields}
use scim_bridge.Scim.Http.{Upstream, UpstreamResult, is_success}
use scim_bridge.Mirror.Effects.{Thrown, Store, M, pure, continue, caught, ◌>>=◌}
use scim_bridge.Mirror.Create.{status_error}
use scim_bridge.Mirror.{
  mirror_ok, mirror_fail, mapping_row, record_mapping, MirrorResult, read_mapping,
  claimed_by_another, put_workos,
}
use scim_bridge.Mirror.Upsert.{
  Exit, done, creates, leave, existing_label, recover_mapped_resource, is_batching, uses_header,
  after_mapped_put, write_mapped, mirror_known, mirror_threw, mirror_body, finish, mirror_upsert,
}

module _ {W : Type 0} (u : Upstream W) (status_text : ℕ → String) (directory : Directory)
    (kind : ResourceType) (native_id : String) where
  abbrev Stays : Result Thrown Exit × Store W → Type 0
  Stays (ok (done r), s) = Unit
  Stays (ok creates, s) = ⊥
  Stays (err e, s) = Unit

  data Settles : M W Exit → Type 0 where
    settles : {m : M W Exit} → ((s : Store W) → Stays (m s)) → Settles m

  settled_at : {m : M W Exit} → Settles m → (s : Store W) → Stays (m s)
  settled_at (settles h) = h

  leave-Settles : (m : M W MirrorResult) → Settles (leave u status_text directory kind native_id m)
  leave-Settles m = settles (λ s. go (m s))
    where
      go : (out : Result Thrown MirrorResult × Store W) → Stays (continue out (λ r. pure (done r)))
      go (ok r, after) = tt
      go (err e, after) = tt

  bind-Settles :
      {A : Type 0} (m : M W A) (f : A → M W Exit) → ((a : A) → Settles (f a)) → Settles (m >>= f)
  bind-Settles m f h = settles (λ s. go (m s))
    where
      go : (out : Result Thrown _ × Store W) → Stays (continue out f)
      go (ok a, after) = settled_at (h a) after
      go (err e, after) = tt

  if-Settles : (b : Bool) (m n : M W Exit) → Settles m → Settles n → Settles (if b then m else n)
  if-Settles true m n hm hn = hm
  if-Settles false m n hm hn = hn

  after_mapped_put-Settles :
      (existing : IdMapping) (resource : Fields) (put : UpstreamResult)
      → Settles (after_mapped_put u status_text directory kind native_id true existing resource put)
  unfolding after_mapped_put
  after_mapped_put-Settles existing resource put =
      let l =
        existing_label u status_text directory kind native_id existing
          (uses_header u status_text directory kind native_id existing) in
      bind-Settles (is_batching u status_text directory kind native_id) _ (λ batching.
        if-Settles (is_success put.status) _ _
          (bind-Settles {A = Unit {0}}
            (if batching
              then record_mapping
                  (mapping_row directory kind native_id existing.workos_id existing.strategy)
              else pure tt)
            (λ t. leave u status_text directory kind native_id (mirror_ok l put))
            (λ t. leave-Settles (mirror_ok l put)))
          (if-Settles (not (nat_eq put.status 404)) _ _
            (leave-Settles
              (mirror_fail u l put (status_error status_text "WorkOS PUT returned " put.status)))
            (leave-Settles
              (recover_mapped_resource u status_text directory kind native_id existing resource))))

  write_mapped-Settles :
      (existing : IdMapping) (resource : Fields) (claimed : Option IdMapping)
      → Settles (write_mapped u status_text directory kind native_id true existing resource claimed)
  unfolding write_mapped
  write_mapped-Settles existing resource (some claimed) = leave-Settles _
  write_mapped-Settles existing resource none =
      bind-Settles (put_workos u directory kind existing.workos_id resource _) _
        (after_mapped_put-Settles existing resource)

  mirror_known-Settles :
      (resource : Fields) (existing : Option IdMapping)
      → Settles (mirror_known u status_text directory kind native_id true resource existing)
  unfolding mirror_known
  mirror_known-Settles resource none = leave-Settles _
  mirror_known-Settles resource (some existing) =
      bind-Settles (claimed_by_another directory.id kind existing.workos_id native_id) _
        (write_mapped-Settles existing resource)

  mirror_body-Settles :
      (resource : Fields)
      → Settles (mirror_body u status_text directory kind native_id true resource)
  unfolding mirror_body
  mirror_body-Settles resource =
      bind-Settles (read_mapping directory.id kind native_id) _ (mirror_known-Settles resource)

  finish-returns :
      (resource : Fields) (out : Result Thrown Exit × Store W)
      → Stays out
      → (r : MirrorResult) × ((continue
            (caught out (mirror_threw u status_text directory kind native_id))
            (finish u status_text directory kind native_id resource)).0
          ≡ ok r)
  unfolding mirror_threw finish
  finish-returns resource (ok (done r), s) h = (r, refl)
  finish-returns resource (ok creates, s) h = absurd h
  finish-returns resource (err e, s) h = (_, refl)

  -- A serialized update (`serializeRecovery`) always answers with a result, whatever WorkOS answers,
  -- whether or not a request fails to connect, and however the id mappings are contested.
  pub serialized_mirror_upsert-returns :
      (resource : Fields) (s : Store W)
      → (r : MirrorResult) × ((mirror_upsert u status_text directory kind native_id true resource
            s).0
          ≡ ok r)
  unfolding mirror_upsert
  serialized_mirror_upsert-returns resource s =
      finish-returns (strip_fields resource) _
        (settled_at (mirror_body-Settles (strip_fields resource)) (record s { elapsed = 0 }))
