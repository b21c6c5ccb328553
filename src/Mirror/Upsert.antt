-- ===== src/Mirror/Upsert.antt =====
-- `mirrorUpsert` and `recoverMappedResource` of
-- workers/shared/scim.ts.
use Prim.Native.String
use scim_bridge.Base.{
  ℕ, String, Bool, true, false, Option, none, some, [], ◌∷◌, not, ◌&&◌, ◌||◌, ◌==◌, string_eq,
  if◌then◌else◌, leb, ltb, nat_eq,
}
use scim_bridge.Base.Result.{ok}
use scim_bridge.Base.Text.{concat}
use scim_bridge.Types.{ResourceType, kind_eq, kind_name, migrated_id, Directory, IdMapping}
use scim_bridge.Claims.{claim_workos_primary_create, release_workos_primary_create}
use scim_bridge.Json.{Fields}
use scim_bridge.Scim.Http.{Upstream, UpstreamResult, is_success, migrated_id_header}
use scim_bridge.Mirror.Effects.{Thrown, error_message, M, pure, ◌>>=◌, ◌>>◌, catch}
use scim_bridge.Json.Strip.{strip_fields}
use scim_bridge.Mirror.{
  MirrorResult, ms_or_null, strategy_eq, mapping_row, mirror_ok, refused, mint_conflict,
  record_mapping, read_mapping, claimed_by_another, put_workos, mirror_fail,
}
use scim_bridge.Mirror.Create.{label, post_label, status_error, create_via_post}

-- How the `try` block of `mirrorUpsert` ends: with a result, or by going on to the creation, whose
-- promise it returns without waiting for it, so that what the creation throws is not caught.
pub data Exit : Type 0 where
  done : MirrorResult → Exit
  creates : Exit

module _ {W : Type 0} (u : Upstream W) (status_text : ℕ → String) (directory : Directory)
    (kind : ResourceType) (native_id : String) where
  unfoldable pub acquire_claim : String → M W Bool
  acquire_claim token s =
      let (granted, claims) = claim_workos_primary_create directory.id kind token s.claims in
      (ok granted, record s { claims = claims })

  unfoldable pub release_claim : String → M W (Unit {0})
  release_claim token s =
      (ok tt, record s { claims = release_workos_primary_create directory.id kind token s.claims })

  unfoldable pub new_token : M W String
  new_token s = let (token, w) = u.random_uuid s.world in (ok token, record s { world = w })

  -- Whether a recovery's outcome is certain, so that its claim may be released.
  abbrev pub settled : Bool → MirrorResult → Bool
  settled batching r =
      (r.ok_ && not batching)
      || (not r.ok_ && elim r.status [
        | none ↦ false
        | some status ↦ leb 400 status && ltb status 500 && not (nat_eq status 408)
      ])

  abbrev pub is_batching : M W Bool
  is_batching s = (ok (elim s.sink [ none ↦ false | some queue ↦ true ]), s)

  abbrev pub same_mapping : IdMapping → Option IdMapping → Bool
  same_mapping existing none = false
  same_mapping existing (some current) =
      current.workos_id == existing.workos_id && strategy_eq current.strategy existing.strategy

  abbrev pub recovery_label : String
  recovery_label = concat (post_label kind ∷ " (mapped recovery)" ∷ [])

  -- The recovery behind its claim. The claim stays where the creation throws, and where its outcome is
  -- not certain.
  unfoldable pub recover_claimed : String → IdMapping → Fields → M W MirrorResult
  recover_claimed token existing resource = do
    current ← read_mapping directory.id kind native_id
    if not (same_mapping existing current)
        then (do
          release_claim token
          refused recovery_label 409
              "The native id mapping changed while WorkOS was being updated; retry using the current mapping"
              false)
        else (do
          result ← create_via_post u status_text directory kind native_id resource
          batching ← is_batching
          (if settled batching result then release_claim token else pure tt)
          pure result)

  -- `recoverMappedResource`
  unfoldable pub recover_mapped_resource : IdMapping → Fields → M W MirrorResult
  recover_mapped_resource existing resource = do
    token ← new_token
    granted ← acquire_claim token
    if granted
        then recover_claimed token existing resource
        else refused recovery_label 503
            "Another create or reconciliation owns this resource type; retry after it completes"
            false

  abbrev pub leave : M W MirrorResult → M W Exit
  leave m = m >>= λ r. pure (done r)

  abbrev pub existing_label : IdMapping → Bool → String
  existing_label existing use_header =
      label kind "PUT" existing.workos_id
        (if use_header then String.◌++◌ "+" migrated_id_header else "(fallback)")

  abbrev pub first_label : String
  first_label = label kind "PUT" native_id (String.◌++◌ "+" migrated_id_header)

  abbrev pub uses_header : IdMapping → Bool
  uses_header existing = strategy_eq existing.strategy migrated_id

  -- A resource that is mapped: behind the write to the WorkOS id that the mapping names.
  unfoldable pub after_mapped_put : Bool → IdMapping → Fields → UpstreamResult → M W Exit
  after_mapped_put serialize existing resource put = do
    batching ← is_batching
    if is_success put.status
        then (do
          (if not serialize || batching
              then record_mapping
                  (mapping_row directory kind native_id existing.workos_id existing.strategy)
              else pure tt)
          leave (mirror_ok (existing_label existing (uses_header existing)) put))
        else if not (nat_eq put.status 404)
        then leave (
            mirror_fail u (existing_label existing (uses_header existing)) put
              (status_error status_text "WorkOS PUT returned " put.status))
        else if serialize
        then leave (recover_mapped_resource existing resource)
        else pure creates

  unfoldable pub write_mapped : Bool → IdMapping → Fields → Option IdMapping → M W Exit
  write_mapped serialize existing resource (some claimed) = leave (
      mint_conflict (existing_label existing (uses_header existing)) kind existing.workos_id
        claimed.native_id)
  write_mapped serialize existing resource none = do
    put ←
        put_workos u directory kind existing.workos_id resource
          (if uses_header existing then some native_id else none)
    after_mapped_put serialize existing resource put

  -- A resource that is not mapped yet: behind the write to the shared id.
  unfoldable pub after_first_put : Fields → UpstreamResult → M W Exit
  after_first_put resource put =
      if is_success put.status
      then (record_mapping (mapping_row directory kind native_id native_id migrated_id)
          >> leave (mirror_ok first_label put))
      else if not (nat_eq put.status 404)
      then leave (
          mirror_fail u first_label put
            (status_error status_text "WorkOS migrated-id PUT returned " put.status))
      else pure creates

  unfoldable pub write_first : Fields → Option IdMapping → M W Exit
  write_first resource (some claimed) =
      leave (mint_conflict first_label kind native_id claimed.native_id)
  write_first resource none = do
    put ← put_workos u directory kind native_id resource (some native_id)
    after_first_put resource put

  unfoldable pub mirror_known : Bool → Fields → Option IdMapping → M W Exit
  mirror_known serialize resource none =
      if serialize
      then leave (
          refused (concat ("PUT /" ∷ kind_name kind ∷ "/" ∷ native_id ∷ [])) 409
            "The native id mapping is no longer present; run backfill or reconciliation before replacing the resource"
            false)
      else (claimed_by_another directory.id kind native_id native_id >>= λ claimed.
          write_first resource claimed)
  mirror_known serialize resource (some existing) = do
    claimed ← claimed_by_another directory.id kind existing.workos_id native_id
    write_mapped serialize existing resource claimed

  -- What `catch` returns.
  unfoldable pub mirror_threw : Thrown → M W Exit
  mirror_threw e s = (
    ok (
        done (record {
          ok_ = false;
          workos_request = first_label;
          status = none;
          ms = ms_or_null s.elapsed;
          body = none;
          error = some (error_message e);
          created_id = none;
          mint_conflict = false;
        })),
    s,
  )

  unfoldable pub mirror_body : Bool → Fields → M W Exit
  mirror_body serialize resource = do
    existing ← read_mapping directory.id kind native_id
    mirror_known serialize resource existing

  abbrev pub restart : M W (Unit {0})
  restart s = (ok tt, record s { elapsed = 0 })

  unfoldable pub finish : Fields → Exit → M W MirrorResult
  finish resource (done r) = pure r
  finish resource creates = create_via_post u status_text directory kind native_id resource

  -- `mirrorUpsert`
  unfoldable pub mirror_upsert : Bool → Fields → M W MirrorResult
  mirror_upsert serialize raw_resource = do
    let resource = strip_fields raw_resource
    restart
    exit ← catch (mirror_body serialize resource) mirror_threw
    finish resource exit
