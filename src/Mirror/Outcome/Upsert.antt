-- ===== src/Mirror/Outcome/Upsert.antt =====
-- `recoverMappedResource` and `mirrorUpsert` of workers/shared/scim.ts: their outcomes.
use scim_bridge.Base.{
  ℕ, String, refl, inl, inr, Bool, true, false, not, ◌||◌, Option, none, some, if◌then◌else◌,
  nat_eq, Option-cases,
}
use scim_bridge.Base.Result.{Result, ok, err}
use scim_bridge.Types.{Strategy, ResourceType, migrated_id, Directory, IdMapping}
use scim_bridge.Claims.{release_workos_primary_create}
use scim_bridge.Mappings.{get_mapping}
use scim_bridge.Json.{Fields}
use scim_bridge.Scim.Http.{Upstream, UpstreamResult, is_success}
use scim_bridge.Mirror.Effects.{Thrown, Store, M, pure, continue, ◌>>=◌, ◌>>◌}
use scim_bridge.Mirror.{
  MirrorResult, mapping_row, mirror_ok, mirror_fail, read_mapping, record_mapping,
  claimed_by_another, put_workos,
}
use scim_bridge.Mirror.Create.{status_error}
use scim_bridge.Mirror.Upsert.{
  done, creates, leave, acquire_claim, release_claim, new_token, settled, is_batching, same_mapping,
  recover_claimed, recover_mapped_resource, existing_label, first_label, uses_header,
  after_mapped_put, write_mapped, after_first_put, write_first, mirror_known, mirror_body,
}
use scim_bridge.Mirror.Outcome.{
  IsMapped, Verdict, Verdict-then, Post, Posts, Quiet, bind-Posts, if-Posts, refused-Posts,
  record-Posts, fail-Posts, put-Quiet, claimed-Quiet, ExitPost, ExitsFrom, bind-ExitsFrom,
  if-ExitsFrom, IsMapped-stable,
}
use scim_bridge.Mirror.Outcome.Create.{mint_conflict-Posts, create_via_post-Posts}

module _ {W : Type 0} (u : Upstream W) (status_text : ℕ → String) (directory : Directory)
    (kind : ResourceType) (native_id : String) where
  token-Quiet : Quiet directory kind native_id (new_token u status_text directory kind native_id)
  unfolding new_token
  token-Quiet s = (refl, refl)

  acquire-Quiet :
      (token : String)
      → Quiet directory kind native_id (acquire_claim u status_text directory kind native_id token)
  unfolding acquire_claim
  acquire-Quiet token s = (refl, refl)

  release-Quiet :
      (token : String)
      → Quiet directory kind native_id (release_claim u status_text directory kind native_id token)
  unfolding release_claim
  release-Quiet token s = (refl, refl)

  read-Quiet :
      Quiet {W = W} directory kind native_id {A = Option IdMapping}
        (read_mapping directory.id kind native_id)
  unfolding read_mapping
  read-Quiet s = (refl, refl)

  -- What `recoverMappedResource` does behind the creation.
  abbrev after_creation : String → MirrorResult → M W MirrorResult
  after_creation token result = do
    batching ← is_batching u status_text directory kind native_id
    (if settled u status_text directory kind native_id batching result
        then release_claim u status_text directory kind native_id token
        else pure tt)
    pure result

  if_release :
      (token : String) (result : MirrorResult) (b : Bool) (before s : Store W)
      → Verdict directory kind native_id before s result.ok_
      → Post directory kind native_id before (
          continue
            ((if b then release_claim u status_text directory kind native_id token else pure tt) s)
            (λ _. pure result))
  unfolding release_claim
  if_release token result true before s h =
      Verdict-then directory kind native_id before s
        (record s { claims = release_workos_primary_create directory.id kind token s.claims })
        result.ok_ h (refl, refl)
  if_release token result false before s h = h

  after_creation-Posts :
      (token : String) (m : M W MirrorResult)
      → Posts directory kind native_id m
      → Posts directory kind native_id (m >>= after_creation token)
  after_creation-Posts token m h s = go (m s) (h s)
    where
      go :
          (out : Result Thrown MirrorResult × Store W)
          → Post directory kind native_id s out
          → Post directory kind native_id s (continue out (after_creation token))
      go (err e, mid) k = k
      go (ok result, mid) k = if_release token result _ s mid k

  recover_claimed-Posts :
      (token : String) (existing : IdMapping) (resource : Fields)
      → Posts directory kind native_id
          (recover_claimed u status_text directory kind native_id token existing resource)
  unfolding recover_claimed
  recover_claimed-Posts token existing resource =
      bind-Posts directory kind native_id (read_mapping directory.id kind native_id) _ read-Quiet
        (λ current.
          if-Posts directory kind native_id
            (not (same_mapping u status_text directory kind native_id existing current)) _ _
            (bind-Posts directory kind native_id
              (release_claim u status_text directory kind native_id token) _ (release-Quiet token)
              (λ _. refused-Posts directory kind native_id _ _ _ _))
            (after_creation-Posts token _
              (create_via_post-Posts u status_text directory kind native_id resource)))

  recover_mapped-Posts :
      (existing : IdMapping) (resource : Fields)
      → Posts directory kind native_id
          (recover_mapped_resource u status_text directory kind native_id existing resource)
  unfolding recover_mapped_resource
  recover_mapped-Posts existing resource =
      bind-Posts directory kind native_id (new_token u status_text directory kind native_id) _
        token-Quiet
        (λ token.
          bind-Posts directory kind native_id
            (acquire_claim u status_text directory kind native_id token) _ (acquire-Quiet token)
            (λ granted.
              if-Posts directory kind native_id granted _ _
                (recover_claimed-Posts token existing resource)
                (refused-Posts directory kind native_id _ _ _ _)))

  leave-Exits :
      (m : M W MirrorResult)
      → Posts directory kind native_id m
      → (s : Store W)
      → ExitPost directory kind native_id s (leave u status_text directory kind native_id m s)
  leave-Exits m h s = go (m s) (h s)
    where
      go :
          (out : Result Thrown MirrorResult × Store W)
          → Post directory kind native_id s out
          → ExitPost directory kind native_id s (continue out (λ r. pure (done r)))
      go (ok r, after) k = k
      go (err e, after) k = k

  -- A leg that answers, from any store with the property.
  leaves :
      (P : Store W → Type 0) (m : M W MirrorResult)
      → Posts directory kind native_id m
      → ExitsFrom directory kind native_id P (leave u status_text directory kind native_id m)
  leaves P m h s p = leave-Exits m h s

  goes_on : (P : Store W → Type 0) → ExitsFrom {W = W} directory kind native_id P (pure creates)
  goes_on P s p = (refl, refl)

  abbrev Anywhere : Store W → Type 0
  Anywhere s = Unit

  -- A record and a success.
  record_leaves :
      (workos_id : String) (strategy : Strategy) (l : String) (put : UpstreamResult) (s : Store W)
      → ExitPost directory kind native_id s (
          (record_mapping (mapping_row directory kind native_id workos_id strategy)
              >> leave u status_text directory kind native_id (mirror_ok l put))
            s)
  unfolding record_mapping mirror_ok
  record_leaves workos_id strategy l put s =
      record-Posts directory kind native_id workos_id strategy l put s

  after_first_put-Exits :
      (resource : Fields) (put : UpstreamResult)
      → ExitsFrom directory kind native_id Anywhere
          (after_first_put u status_text directory kind native_id resource put)
  unfolding after_first_put
  after_first_put-Exits resource put =
      if-ExitsFrom directory kind native_id Anywhere (is_success put.status) _ _
        (λ s p.
          record_leaves native_id migrated_id (first_label u status_text directory kind native_id)
            put s)
        (if-ExitsFrom directory kind native_id Anywhere (not (nat_eq put.status 404)) _ _
          (leaves Anywhere
            (mirror_fail u (first_label u status_text directory kind native_id) put
              (status_error status_text "WorkOS migrated-id PUT returned " put.status))
            (fail-Posts directory kind native_id u status_text _ put _))
          (goes_on Anywhere))

  write_first-Exits :
      (resource : Fields) (claimed : Option IdMapping)
      → ExitsFrom directory kind native_id Anywhere
          (write_first u status_text directory kind native_id resource claimed)
  unfolding write_first
  write_first-Exits resource (some claimed) = leaves Anywhere _ (
      mint_conflict-Posts u status_text directory kind native_id
        (first_label u status_text directory kind native_id) native_id claimed.native_id)
  write_first-Exits resource none =
      bind-ExitsFrom directory kind native_id Anywhere
        (put_workos u directory kind native_id resource (some native_id)) _ (λ a b k p. tt)
        (put-Quiet directory kind native_id u status_text native_id resource (some native_id))
        (after_first_put-Exits resource)

  IsMapped-success :
      (b : Bool) (existing : IdMapping) (l : String) (put : UpstreamResult)
      → ExitsFrom {W = W} directory kind native_id (IsMapped directory kind native_id) (
          (if b
            then record_mapping
                (mapping_row directory kind native_id existing.workos_id existing.strategy)
            else pure tt)
          >> leave u status_text directory kind native_id (mirror_ok l put))
  unfolding mirror_ok
  IsMapped-success true existing l put s mapped =
      record_leaves existing.workos_id existing.strategy l put s
  IsMapped-success false existing l put s mapped = inr ((refl, refl), mapped)

  after_mapped_put-Exits :
      (serialize : Bool) (existing : IdMapping) (resource : Fields) (put : UpstreamResult)
      → ExitsFrom directory kind native_id
          (IsMapped directory kind native_id)
          (after_mapped_put u status_text directory kind native_id serialize existing resource put)
  unfolding after_mapped_put
  after_mapped_put-Exits serialize existing resource put =
      let l =
        existing_label u status_text directory kind native_id existing
          (uses_header u status_text directory kind native_id existing) in
      let failure = status_error status_text "WorkOS PUT returned " put.status in
      bind-ExitsFrom directory kind native_id (IsMapped directory kind native_id)
        (is_batching u status_text directory kind native_id) _
        (IsMapped-stable directory kind native_id) (λ s. (refl, refl))
        (λ batching.
          if-ExitsFrom directory kind native_id (IsMapped directory kind native_id)
            (is_success put.status) _ _
            (IsMapped-success (not serialize || batching) existing l put)
            (if-ExitsFrom directory kind native_id (IsMapped directory kind native_id)
              (not (nat_eq put.status 404))
              (leave u status_text directory kind native_id (mirror_fail u l put failure)) _
              (leaves (IsMapped directory kind native_id) (mirror_fail u l put failure)
                (fail-Posts directory kind native_id u status_text l put failure))
              (if-ExitsFrom directory kind native_id (IsMapped directory kind native_id) serialize _
                (pure creates)
                (leaves (IsMapped directory kind native_id) _
                  (recover_mapped-Posts existing resource))
                (goes_on (IsMapped directory kind native_id)))))

  write_mapped-Exits :
      (serialize : Bool) (existing : IdMapping) (resource : Fields) (claimed : Option IdMapping)
      → ExitsFrom directory kind native_id
          (IsMapped directory kind native_id)
          (write_mapped u status_text directory kind native_id serialize existing resource claimed)
  unfolding write_mapped
  write_mapped-Exits serialize existing resource (some claimed) =
      leaves (IsMapped directory kind native_id) _ (
        mint_conflict-Posts u status_text directory kind native_id _ existing.workos_id
          claimed.native_id)
  write_mapped-Exits serialize existing resource none =
      bind-ExitsFrom directory kind native_id (IsMapped directory kind native_id)
        (put_workos u directory kind existing.workos_id resource _) _
        (IsMapped-stable directory kind native_id)
        (put-Quiet directory kind native_id u status_text existing.workos_id resource _)
        (after_mapped_put-Exits serialize existing resource)

  mirror_known-none :
      (serialize : Bool) (resource : Fields)
      → ExitsFrom directory kind native_id Anywhere
          (mirror_known u status_text directory kind native_id serialize resource none)
  unfolding mirror_known
  mirror_known-none serialize resource =
      if-ExitsFrom directory kind native_id Anywhere serialize _ _
        (leaves Anywhere _ (refused-Posts directory kind native_id _ _ _ _))
        (bind-ExitsFrom directory kind native_id Anywhere
          (claimed_by_another directory.id kind native_id native_id) _ (λ a b k p. tt)
          (claimed-Quiet directory kind native_id u status_text native_id)
          (write_first-Exits resource))

  mirror_known-some :
      (serialize : Bool) (resource : Fields) (existing : IdMapping)
      → ExitsFrom directory kind native_id
          (IsMapped directory kind native_id)
          (mirror_known u status_text directory kind native_id serialize resource (some existing))
  unfolding mirror_known
  mirror_known-some serialize resource existing =
      bind-ExitsFrom directory kind native_id (IsMapped directory kind native_id)
        (claimed_by_another directory.id kind existing.workos_id native_id) _
        (IsMapped-stable directory kind native_id)
        (claimed-Quiet directory kind native_id u status_text existing.workos_id)
        (write_mapped-Exits serialize existing resource)

  pub mirror_body-Exits :
      (serialize : Bool) (resource : Fields) (s : Store W)
      → ExitPost directory kind native_id s
          (mirror_body u status_text directory kind native_id serialize resource s)
  unfolding mirror_body read_mapping
  mirror_body-Exits serialize resource s =
      elim (Option-cases (get_mapping directory.id kind native_id s.mappings)) [
        | inl e ↦ rw e (mirror_known-none serialize resource s tt)
        | inr (existing, e) ↦ rw e (mirror_known-some serialize resource existing s (existing, e))
      ]
