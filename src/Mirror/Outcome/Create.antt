-- ===== src/Mirror/Outcome/Create.antt =====
-- `createViaPost` and `resolveCreateRace` of workers/shared/scim.ts: their outcomes.
use scim_bridge.Base.{ℕ, String, true, string_eq, not, Option, none, some, nat_eq}
use scim_bridge.Types.{ResourceType, migrated_id, fallback_post, Directory, IdMapping}
use scim_bridge.Json.{Fields, omit, obj}
use scim_bridge.Scim.Http.{Upstream, UpstreamResult, is_success}
use scim_bridge.Mirror.Effects.{Store}
use scim_bridge.Mirror.{
  recorded, mapping_row, MirrorResult, mirror_ok, mint_conflict, mint_conflict_detail,
  record_mapping, claimed_by_another, scim_fetch, put_workos, mapping_row, collection_url,
  body_options,
}
use scim_bridge.Mirror.Create.{
  post_label, strategy_for, created_if, with_created, lookup_by_name, adopt_found, not_recovered,
  adopt_lookup, recover_by_name, after_retry, resolve_create_race, created_as, after_post,
  create_via_post,
}
use scim_bridge.Mirror.Outcome.{
  Posts, Quiet, Verdict, bind-Posts, if-Posts, refused-Posts, record-Posts, fail-Posts, fetch-Quiet,
  put-Quiet, claimed-Quiet,
}

module _ {W : Type 0} (u : Upstream W) (status_text : ℕ → String) (directory : Directory)
    (kind : ResourceType) (native_id : String) where
  lookup-Quiet :
      (value : String)
      → Quiet directory kind native_id (lookup_by_name u status_text directory kind native_id value)
  unfolding lookup_by_name
  lookup-Quiet value = fetch-Quiet directory kind native_id u status_text _ _

  not_recovered-Posts :
      (create : UpstreamResult)
      → Posts directory kind native_id (not_recovered u status_text directory kind native_id create)
  unfolding not_recovered
  not_recovered-Posts create = fail-Posts directory kind native_id u status_text _ create _

  pub mint_conflict-Posts :
      (l id owner : String) → Posts directory kind native_id (mint_conflict {W = W} l kind id owner)
  unfolding mint_conflict
  mint_conflict-Posts l id owner =
      refused-Posts directory kind native_id l 409 (mint_conflict_detail kind id owner) true

  adopt_found-Posts :
      (resource : Fields) (workos_id : String) (claimed : Option IdMapping)
      → Posts directory kind native_id
          (adopt_found u status_text directory kind native_id resource workos_id claimed)
  unfolding adopt_found
  adopt_found-Posts resource workos_id (some claimed) =
      mint_conflict-Posts _ workos_id claimed.native_id
  adopt_found-Posts resource workos_id none =
      bind-Posts directory kind native_id (put_workos u directory kind workos_id resource none) _
        (put-Quiet directory kind native_id u status_text workos_id resource none)
        (λ sync.
          if-Posts directory kind native_id (is_success sync.status) _ _
            (record-Posts directory kind native_id workos_id fallback_post _ sync)
            (fail-Posts directory kind native_id u status_text _ sync _))

  adopt_lookup-Posts :
      (resource : Fields) (create : UpstreamResult) (found : Option String)
      → Posts directory kind native_id
          (adopt_lookup u status_text directory kind native_id resource create found)
  unfolding adopt_lookup
  adopt_lookup-Posts resource create none = not_recovered-Posts create
  adopt_lookup-Posts resource create (some workos_id) =
      bind-Posts directory kind native_id (claimed_by_another directory.id kind workos_id native_id)
        _ (claimed-Quiet directory kind native_id u status_text workos_id)
        (adopt_found-Posts resource workos_id)

  recover_by_name-Posts :
      (resource : Fields) (create : UpstreamResult) (name : Option String)
      → Posts directory kind native_id
          (recover_by_name u status_text directory kind native_id resource create name)
  unfolding recover_by_name
  recover_by_name-Posts resource create none = not_recovered-Posts create
  recover_by_name-Posts resource create (some value) =
      bind-Posts directory kind native_id
        (lookup_by_name u status_text directory kind native_id value) _ (lookup-Quiet value)
        (λ lookup. adopt_lookup-Posts resource create _)

  after_retry-Posts :
      (resource : Fields) (create reput : UpstreamResult)
      → Posts directory kind native_id
          (after_retry u status_text directory kind native_id resource create reput)
  unfolding after_retry
  after_retry-Posts resource create reput =
      if-Posts directory kind native_id (is_success reput.status) _ _
        (record-Posts directory kind native_id native_id migrated_id _ reput)
        (if-Posts directory kind native_id (not (nat_eq reput.status 404)) _ _
          (fail-Posts directory kind native_id u status_text _ reput _)
          (recover_by_name-Posts resource create _))

  resolve_create_race-Posts :
      (resource : Fields) (create : UpstreamResult)
      → Posts directory kind native_id
          (resolve_create_race u status_text directory kind native_id resource create)
  unfolding resolve_create_race
  resolve_create_race-Posts resource create =
      bind-Posts directory kind native_id
        (put_workos u directory kind native_id resource (some native_id)) _
        (put-Quiet directory kind native_id u status_text native_id resource (some native_id))
        (after_retry-Posts resource create)

  -- The created id is only noted on the result.
  with_created-Verdict :
      (before after : Store W) (id : Option String) (r : MirrorResult)
      → Verdict directory kind native_id before after r.ok_
      → Verdict directory kind native_id before after (with_created id r).ok_
  with_created-Verdict before after none r h = h
  with_created-Verdict before after (some id) r h = h

  created_as-Posts :
      (create : UpstreamResult) (id : Option String)
      → Posts directory kind native_id (created_as u status_text directory kind native_id create id)
  unfolding created_as record_mapping mirror_ok
  created_as-Posts create none s = fail-Posts directory kind native_id u status_text _ create _ s
  created_as-Posts create (some workos_id) s =
      with_created-Verdict s
        (recorded
          (mapping_row directory kind native_id workos_id (strategy_for native_id workos_id)) s.sink
          s)
        (created_if u status_text directory kind native_id create.status workos_id) _
        (record-Posts directory kind native_id workos_id (strategy_for native_id workos_id)
          (post_label kind) create s)

  after_post-Posts :
      (resource : Fields) (create : UpstreamResult)
      → Posts directory kind native_id
          (after_post u status_text directory kind native_id resource create)
  unfolding after_post
  after_post-Posts resource create =
      if-Posts directory kind native_id (is_success create.status) _ _ (created_as-Posts create _) (
        if-Posts directory kind native_id (nat_eq create.status 409) _ _
          (resolve_create_race-Posts resource create)
          (fail-Posts directory kind native_id u status_text _ create _))

  pub create_via_post-Posts :
      (resource : Fields)
      → Posts directory kind native_id
          (create_via_post u status_text directory kind native_id resource)
  unfolding create_via_post
  create_via_post-Posts resource =
      bind-Posts directory kind native_id
        (scim_fetch u (collection_url u directory kind)
          (body_options u directory "POST" (obj (omit "id" resource)) (some native_id)))
        _ (fetch-Quiet directory kind native_id u status_text _ _) (after_post-Posts resource)
