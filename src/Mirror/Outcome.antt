-- ===== src/Mirror/Outcome.antt =====
-- Vocabulary for what `mirrorUpsert` of workers/shared/scim.ts leaves in the tables and in the queue.
pub mod Create
pub mod Upsert
pub mod Returns
use scim_bridge.Base.{
  ℕ, String, ◌≡◌, refl, sym, ◌∙◌, ap, ◌⊎◌, inl, inr, Bool, true, false, not, ◌||◌, Option, none,
  some, List, if◌then◌else◌, arith, Bool-cases, Option-cases, nat_eq,
}
use scim_bridge.Base.Result.{Result, ok, err}
use scim_bridge.Types.{ResourceType, Strategy, migrated_id, fallback_post, Directory, IdMapping}
use scim_bridge.Mappings.{
  Ambiguous, ambiguous, MappingKey, mapping_key, get_mapping, upsert_mapping,
}
use scim_bridge.Json.{Fields, str, obj, set}
use scim_bridge.Scim.Http.{
  Upstream, UpstreamResult, FetchOptions, is_success, Fetched, unreachable, answered, scim_request,
}
use scim_bridge.Mirror.Effects.{Thrown, Store, M, pure, continue, caught, ◌>>=◌, ◌>>◌, catch}
use scim_bridge.Mirror.Upsert.{Exit, done, creates}
use scim_bridge.Mirror.{
  MirrorResult, recorded, mirror_ok, refused, mint_conflict, record_mapping, read_mapping,
  claimed_by_another, claim_answer, scim_fetch, fetched, put_workos, mirror_fail, mapping_row,
  resource_url, body_options,
}

module _ {W : Type 0} (directory : Directory) (kind : ResourceType) (native_id : String) where
  -- The mappings and the queue are as they were.
  abbrev pub Kept : Store W → Store W → Type 0
  Kept before after = (after.mappings ≡ before.mappings) × (after.sink ≡ before.sink)

  -- One mapping of the resource was recorded, in the queue if there is one, and else in the table.
  abbrev pub Wrote : Store W → Store W → Type 0
  Wrote before after =
      (m : IdMapping) × (mapping_key m ≡ (directory.id, (kind, native_id)))
      × (after.mappings ≡ (recorded m before.sink before).mappings)
      × (after.sink ≡ (recorded m before.sink before).sink)

  abbrev pub IsMapped : Store W → Type 0
  IsMapped s = (m : IdMapping) × (get_mapping directory.id kind native_id s.mappings ≡ some m)

  -- A success recorded the mapping, or found the resource mapped; a failure recorded nothing.
  abbrev pub Verdict : Store W → Store W → Bool → Type 0
  Verdict before after true = Wrote before after ⊎ (Kept before after × IsMapped before)
  Verdict before after false = Kept before after

  abbrev pub Post : Store W → Result Thrown MirrorResult × Store W → Type 0
  Post before (ok r, after) = Verdict before after r.ok_
  Post before (err e, after) = Kept before after

  abbrev pub Posts : M W MirrorResult → Type 0
  Posts m = (s : Store W) → Post s (m s)

  abbrev pub Quiet : {A : Type 0} → M W A → Type 0
  Quiet m = (s : Store W) → Kept s (m s).1

  pub Kept-trans : (a b c : Store W) → Kept a b → Kept b c → Kept a c
  Kept-trans a b c h k = (k.0 ∙ h.0, k.1 ∙ h.1)

  pub recorded_after :
      (m : IdMapping) (a b : Store W)
      → Kept a b
      → ((recorded m b.sink b).mappings ≡ (recorded m a.sink a).mappings)
        × ((recorded m b.sink b).sink ≡ (recorded m a.sink a).sink)
  recorded_after m a b (p, q) = ground arith

  Verdict-after :
      (before mid after : Store W) (b : Bool)
      → Kept before mid
      → Verdict mid after b
      → Verdict before after b
  Verdict-after before mid after false k h = Kept-trans before mid after k h
  Verdict-after before mid after true k (inr (l, (m, e))) =
      inr (Kept-trans before mid after k l, (m, rw k.0 at e))
  Verdict-after before mid after true k (inl (m, key, p, q)) =
      let (p', q') = recorded_after m before mid k in inl (m, key, p ∙ p', q ∙ q')

  pub Post-after :
      (before mid : Store W) (out : Result Thrown MirrorResult × Store W)
      → Kept before mid
      → Post mid out
      → Post before out
  Post-after before mid (err e, after) k h = Kept-trans before mid after k h
  Post-after before mid (ok r, after) k h = Verdict-after before mid after r.ok_ k h

  -- What follows an answer and leaves the tables and the queue alone.
  pub Verdict-then :
      (before mid after : Store W) (b : Bool)
      → Verdict before mid b
      → Kept mid after
      → Verdict before after b
  Verdict-then before mid after false h k = Kept-trans before mid after h k
  Verdict-then before mid after true (inr (l, mapped)) k =
      inr (Kept-trans before mid after l k, mapped)
  Verdict-then before mid after true (inl (m, key, p, q)) k = inl (m, key, k.0 ∙ p, k.1 ∙ q)

  abbrev pub ExitPost : Store W → Result Thrown Exit × Store W → Type 0
  ExitPost before (ok (done r), after) = Verdict before after r.ok_
  ExitPost before (ok creates, after) = Kept before after
  ExitPost before (err e, after) = Kept before after

  pub ExitPost-after :
      (before mid : Store W) (out : Result Thrown Exit × Store W)
      → Kept before mid
      → ExitPost mid out
      → ExitPost before out
  ExitPost-after before mid (err e, after) k h = Kept-trans before mid after k h
  ExitPost-after before mid (ok creates, after) k h = Kept-trans before mid after k h
  ExitPost-after before mid (ok (done r), after) k h = Verdict-after before mid after r.ok_ k h

  -- The runs that start from a store with a property that quiet steps keep.
  abbrev pub ExitsFrom : (Store W → Type 0) → M W Exit → Type 0
  ExitsFrom P m = (s : Store W) → P s → ExitPost s (m s)

  pub bind-ExitsFrom :
      {A : Type 0} (P : Store W → Type 0) (m : M W A) (f : A → M W Exit)
      → ((a b : Store W) → Kept a b → P a → P b)
      → Quiet m
      → ((a : A) → ExitsFrom P (f a))
      → ExitsFrom P (m >>= f)
  bind-ExitsFrom P m f stable quiet h s p = go (m s) (quiet s)
    where
      go : (out : Result Thrown _ × Store W) → Kept s out.1 → ExitPost s (continue out f)
      go (err e, mid) k = k
      go (ok a, mid) k = ExitPost-after s mid (f a mid) k (h a mid (stable s mid k p))

  pub if-ExitsFrom :
      (P : Store W → Type 0) (b : Bool) (m n : M W Exit)
      → ExitsFrom P m
      → ExitsFrom P n
      → ExitsFrom P (if b then m else n)
  if-ExitsFrom P true m n hm hn = hm
  if-ExitsFrom P false m n hm hn = hn

  pub IsMapped-stable : (a b : Store W) → Kept a b → IsMapped a → IsMapped b
  IsMapped-stable a b kept (m, e) = (m, ap (get_mapping directory.id kind native_id) kept.0 ∙ e)

  pub bind-Posts :
      {A : Type 0} (m : M W A) (f : A → M W MirrorResult)
      → Quiet m
      → ((a : A) → Posts (f a))
      → Posts (m >>= f)
  bind-Posts m f quiet h s = go (m s) (quiet s)
    where
      go : (out : Result Thrown _ × Store W) → Kept s out.1 → Post s (continue out f)
      go (err e, mid) k = k
      go (ok a, mid) k = Post-after s mid (f a mid) k (h a mid)

  pub if-Posts :
      (b : Bool) (m n : M W MirrorResult) → Posts m → Posts n → Posts (if b then m else n)
  if-Posts true m n hm hn = hm
  if-Posts false m n hm hn = hn

  pub refused-Posts :
      (l : String) (status : ℕ) (error : String) (c : Bool) → Posts (refused l status error c)
  unfolding refused
  refused-Posts l status error c s = (refl, refl)

  -- Recording the resource's mapping and answering with success.
  pub record-Posts :
      (workos_id : String) (strategy : Strategy) (l : String) (result : UpstreamResult)
      → Posts (
          record_mapping (mapping_row directory kind native_id workos_id strategy)
          >> mirror_ok l result)
  unfolding record_mapping mirror_ok
  record-Posts workos_id strategy l result s =
      inl (mapping_row directory kind native_id workos_id strategy, refl, refl, refl)

  module _ (u : Upstream W) (status_text : ℕ → String) where
    pub fail-Posts :
        (l : String) (result : UpstreamResult) (error : String)
        → Posts (mirror_fail u l result error)
    unfolding mirror_fail
    fail-Posts l result error s = (refl, refl)

    fetched-Kept : (s : Store W) (out : Fetched × W) → Kept s (fetched u out s).1
    fetched-Kept s (unreachable message, w) = (refl, refl)
    fetched-Kept s (answered response, w) = (refl, refl)

    pub fetch-Quiet : (url : String) (options : FetchOptions) → Quiet (scim_fetch u url options)
    unfolding scim_fetch
    fetch-Quiet url options s = fetched-Kept s (u.fetch (scim_request url options) s.world)

    pub put-Quiet :
        (id : String) (resource : Fields) (migrated : Option String)
        → Quiet (put_workos u directory kind id resource migrated)
    unfolding put_workos
    put-Quiet id resource migrated =
        fetch-Quiet (resource_url u directory kind id)
          (body_options u directory "PUT" (obj (set "id" (str id) resource)) migrated)

    pub claimed-Quiet :
        (workos_id : String)
        → Quiet {A = Option IdMapping} (claimed_by_another directory.id kind workos_id native_id)
    unfolding claimed_by_another
    claimed-Quiet workos_id s = (refl, refl)
