-- ===== src/Listener/Learn/Stored.antt =====
-- What learning an identity from the bridge stores (`fetchEventNativeId` of
-- workers/native/status-client.ts).
use scim_bridge.Base.{
  String, ◌∙◌, ◌≡◌, refl, ap, Bool, Option, none, some, List, any, ◌==◌, string_eq, pair_eq, lookup,
  lookup-upsert, Bool-cases, inl, inr, eq_of_beq,
}
use scim_bridge.Base.Result.{Result, ok, err, ok_inj}
use scim_bridge.Base.Effects.{continue-Posts, if-Posts}
use scim_bridge.Types.{ResourceType, kind_eq, Directory, IdMapping, Strategy}
use scim_bridge.Mappings.{MappingKey, mapping_key, get_mapping}
use scim_bridge.EventLinks.{EventLink, LinkError, get_event_link, bind_event_link}
use scim_bridge.EventLinks.Owners.{bind_event_link-ok}
use scim_bridge.Json.{Fields, get}
use scim_bridge.Listener.{Rows, Ids, Outside}
use scim_bridge.Listener.Reading.{nonempty}
use scim_bridge.Listener.Config.{base_url, client_token_for}
use scim_bridge.Listener.Answer.{EventMapping}
use scim_bridge.Listener.Learn.{
  insert_mapping, contradicts, store_mapping, after_bind, learn, base_url, ask_bridge, blocks,
  fetch_event_native_id, confirmed_by, conflict,
}

-- The link of a Directory Sync id names the native id.
IsBound : Directory → ResourceType → String → String → List EventLink → Type 0
IsBound directory kind dsync_id n links =
    (row : EventLink) × (get_event_link directory.id kind dsync_id links ≡ some row)
    × (row.native_id ≡ n)

module _ (directory : Directory) (kind : ResourceType) (m : EventMapping) where
  abbrev pub link_of : String → EventLink
  link_of dsync_id = record {
    directory_id = directory.id;
    resource_type = kind;
    dsync_id = dsync_id;
    native_id = m.native_id;
    workos_id = m.workos_scim_id;
  }

  module _ (d : String) (k : ResourceType) (n : String) (row : IdMapping) where
    kept-by_insert :
        (strategy : Strategy) (rows : List IdMapping)
        → get_mapping d k n rows ≡ some row
        → get_mapping d k n (insert_mapping directory kind m strategy rows) ≡ some row
    unfolding get_mapping insert_mapping
    kept-by_insert strategy rows found =
        if-Posts {A = List IdMapping} (λ r. lookup mapping_key (d, (k, n)) r ≡ some row)
          (any (blocks directory kind m) rows) _ _ (λ blocked. found)
          (λ free.
            let fresh : IdMapping = record {
              directory_id = directory.id;
              resource_type = kind;
              native_id = m.native_id;
              workos_id = m.workos_scim_id;
              strategy = strategy;
            } in
            rw (lookup-upsert mapping_key (λ old. old) fresh (d, (k, n)) rows (λ x. refl)) (
              if-Posts {A = Option IdMapping} (λ r. r ≡ some row)
                (◌==◌ {A = MappingKey} (mapping_key fresh) (d, (k, n))) _ _
                (λ same.
                  rw (eq_of_beq {A = MappingKey} (mapping_key fresh) (d, (k, n)) same)
                    (rw found refl))
                (λ other. found)))

    kept-by_store :
        (strategy : Option Strategy) (ids : Ids)
        → get_mapping d k n ids.mappings ≡ some row
        → get_mapping d k n (store_mapping directory kind m strategy ids).1.mappings ≡ some row
    unfolding insert_mapping store_mapping
    kept-by_store none ids found = found
    kept-by_store (some strategy) ids found = kept-by_insert strategy ids.mappings found

    kept-after_bind :
        (r : Result LinkError (Unit {0}) × List EventLink) (ids : Ids)
        → get_mapping d k n ids.mappings ≡ some row
        → get_mapping d k n (after_bind directory kind m r ids).1.mappings ≡ some row
    kept-after_bind (err e, links) ids found = found
    kept-after_bind (ok done, links) ids found =
        kept-by_store m.strategy (record ids { links = links }) found

    kept-by_learn :
        (dsync_id : String) (ids : Ids)
        → get_mapping d k n ids.mappings ≡ some row
        → get_mapping d k n (learn directory kind m dsync_id ids).1.mappings ≡ some row
    unfolding learn
    kept-by_learn dsync_id ids found =
        if-Posts {A = Result String String × Ids} (λ r. get_mapping d k n r.1.mappings ≡ some row)
          (contradicts directory kind m ids.mappings) _ _ (λ clash. found)
          (λ agrees. kept-after_bind (bind_event_link (link_of dsync_id) ids.links) ids found)

  -- A confirmed answer is the native id of the mapping, behind a link that was bound.
  stored-ok :
      (strategy : Option Strategy) (ids : Ids) (n : String)
      → (store_mapping directory kind m strategy ids).0 ≡ ok n
      → (m.native_id ≡ n) × ((store_mapping directory kind m strategy ids).1.links ≡ ids.links)
  unfolding confirmed_by store_mapping
  stored-ok none ids n h = (ok_inj h, refl)
  stored-ok (some strategy) ids n h = (
    elim (Bool-cases
        (confirmed_by directory kind m (insert_mapping directory kind m strategy ids.mappings))) [
          | inl confirmed ↦
              let same : ◌≡◌ {A = Result String String} (ok m.native_id) (ok n) =
                rw confirmed at h in
              ok_inj same
          | inr refuted ↦
              let clash : ◌≡◌ {A = Result String String} (err conflict) (ok n) = rw refuted at h in
              cc
        ],
    refl,
  )

  after_bind-ok :
      (r : Result LinkError (Unit {0}) × List EventLink) (ids : Ids) (n : String)
      → (after_bind directory kind m r ids).0 ≡ ok n
      → (r.0 ≡ ok tt) × (m.native_id ≡ n) × ((after_bind directory kind m r ids).1.links ≡ r.1)
  after_bind-ok (err e, links) ids n h = cc
  after_bind-ok (ok done, links) ids n h =
      let (same, kept) = stored-ok m.strategy (record ids { links = links }) n h in
      (refl, same, kept)

  learn-binds :
      (dsync_id : String) (ids : Ids) (n : String)
      → (learn directory kind m dsync_id ids).0 ≡ ok n
      → IsBound directory kind dsync_id n (learn directory kind m dsync_id ids).1.links
  unfolding learn IsBound
  learn-binds dsync_id ids n =
      if-Posts {A = Result String String × Ids}
        (λ r. r.0 ≡ ok n → IsBound directory kind dsync_id n r.1.links)
        (contradicts directory kind m ids.mappings) _ _ (λ clash h. cc)
        (λ agrees h.
          let (bound, same, links) =
            after_bind-ok (bind_event_link (link_of dsync_id) ids.links) ids n h in
          let (row, found, native, workos) =
            bind_event_link-ok (link_of dsync_id) ids.links bound in
          (row, rw links found, native ∙ same))

module _ {W : Type 0} (o : Outside W) (rows : Rows) (directory : Directory) (kind : ResourceType)
    (resource : Fields) (existing_only : Bool) where
  -- Asking ends without an answer and changes nothing, or with an answer that is then learned.
  fetch-Posts :
      (P : Result String (Option String) × (Ids × W) → Type 0) (ids : Ids) (w : W)
      → ((e : String) → (v : W) → P (err e, (ids, v)))
      → ((m : EventMapping)
          → (v : W)
          → let r = learn directory kind m (o.string_of (get "id" resource)) ids in
            ((e : String) → P (err e, (r.1, v)))
            × ((n : String) → r.0 ≡ ok n → P (ok (some n), (r.1, v))))
      → P (fetch_event_native_id o rows directory kind resource existing_only (ids, w))
  unfolding fetch_event_native_id ask_bridge learn
  fetch-Posts P ids w failed learned =
      let a =
        ask_bridge o rows directory kind resource existing_only (base_url rows)
          (nonempty (client_token_for o rows directory.id)) w in
      continue-Posts P a.0 (ids, a.1) _ (λ e. failed e a.1)
        (λ m answered.
          let r = learn directory kind m (o.string_of (get "id" resource)) ids in
          continue-Posts P r.0 (r.1, a.1) _ (learned m a.1).0 (learned m a.1).1)

  -- Whatever the bridge answers and however learning ends, a native id that had a mapping keeps it.
  pub fetch-keeps_mapping :
      (d : String) (k : ResourceType) (n : String) (row : IdMapping) (ids : Ids) (w : W)
      → get_mapping d k n ids.mappings ≡ some row
      → get_mapping d k n
          (fetch_event_native_id o rows directory kind resource existing_only (ids, w)).1.0.mappings
        ≡ some row
  fetch-keeps_mapping d k n row ids w found =
      fetch-Posts (λ r. get_mapping d k n r.1.0.mappings ≡ some row) ids w (λ e v. found)
        (λ m v.
          let kept =
            kept-by_learn directory kind m d k n row (o.string_of (get "id" resource)) ids found in
          (λ e. kept, λ id same. kept))

  -- A native id that is learned stands, afterwards, in the link of the event's Directory Sync id.
  pub fetch-binds :
      (n : String) (ids : Ids) (w : W)
      → (fetch_event_native_id o rows directory kind resource existing_only (ids, w)).0
        ≡ ok (some n)
      → (row : EventLink) × (get_event_link directory.id kind
            (o.string_of (get "id" resource))
            (fetch_event_native_id o rows directory kind resource existing_only (ids, w)).1.0.links
          ≡ some row)
        × (row.native_id ≡ n)
  unfolding IsBound
  fetch-binds n ids w =
      fetch-Posts
        (λ r.
          r.0 ≡ ok (some n)
          → IsBound directory kind (o.string_of (get "id" resource)) n r.1.0.links)
        ids w (λ e v h. cc)
        (λ m v. (
          λ e h. cc,
          λ id same h.
              let named : id ≡ n = cc in
              learn-binds directory kind m (o.string_of (get "id" resource)) ids n
                (same ∙ ap ok named),
        ))
