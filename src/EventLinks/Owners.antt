-- ===== src/EventLinks/Owners.antt =====
-- The owners that `bindEventLink` of workers/shared/event-links.ts establishes.
use scim_bridge.Base.{
  String, ◌≡◌, ◌≢◌, ◌⊎◌, All, refl, Bool, true, false, Option, none, some, List, [], ◌∷◌, ◌&&◌,
  ◌||◌, ◌==◌, string_eq, find, any, arith, eq_iff, Bool-cases, inl, inr,
}
use scim_bridge.Base.Result.{Result, ok, err}
use scim_bridge.Types.{ResourceType, kind_eq, kind_beq_iff}
use scim_bridge.EventLinks.{
  EventLink, LinkError, empty_id, conflicting_owner, names_dsync, get_event_link, clashes,
  insert_link, has_empty_id, verified, bind_event_link,
}

-- Rows of one directory and resource type differ in each of their three ids.
abbrev pub Apart : EventLink → EventLink → Type 0
Apart a b =
    (a.directory_id ≢ b.directory_id)
    ⊎ ((a.resource_type ≢ b.resource_type)
        ⊎ ((a.dsync_id ≢ b.dsync_id) × (a.native_id ≢ b.native_id) × (a.workos_id ≢ b.workos_id)))

-- Any two rows are apart.
abbrev pub IsOneToOne : List EventLink → Type 0
IsOneToOne [] = Unit
IsOneToOne (row ∷ rows) = All (Apart row) rows × IsOneToOne rows

or-eq-false : (a b : Bool) → (a || b) ≡ false → (a ≡ false) × (b ≡ false)
or-eq-false a b h = ground arith

clashes-Apart : (link row : EventLink) → clashes link row ≡ false → Apart link row
clashes-Apart link row h = ground (
  arith,
  eq_iff row.directory_id link.directory_id,
  kind_beq_iff row.resource_type link.resource_type,
  eq_iff row.dsync_id link.dsync_id,
  eq_iff row.native_id link.native_id,
  eq_iff row.workos_id link.workos_id,
)

any-Apart :
    (link : EventLink) (rows : List EventLink)
    → any (clashes link) rows ≡ false
    → All (Apart link) rows
any-Apart link [] h = tt
any-Apart link (row ∷ rows) h =
    let (here, rest) : (clashes link row ≡ false) × (any (clashes link) rows ≡ false) =
      or-eq-false (clashes link row) (any (clashes link) rows) h in
    (clashes-Apart link row here, any-Apart link rows rest)

insert_link-IsOneToOne :
    (link : EventLink) (rows : List EventLink)
    → IsOneToOne rows
    → IsOneToOne (insert_link link rows)
unfolding insert_link
insert_link-IsOneToOne link rows h = elim (Bool-cases (any (clashes link) rows)) [
  | inl clash ↦ rw clash h
  | inr free ↦ rw free (any-Apart link rows free, h)
]

any-find :
    (p q : EventLink → Bool) (rows : List EventLink) (row : EventLink)
    → ((x : EventLink) → p x ≡ true → q x ≡ true)
    → find p rows ≡ some row
    → any q rows ≡ true
any-find p q [] row imp found = cc
any-find p q (x ∷ xs) row imp found = elim (Bool-cases (p x)) [
  | inl here ↦ rw (imp x here)
  | inr gone ↦ ground (arith, any-find p q xs row imp (rw gone at found))
]

find-holds :
    (p : EventLink → Bool) (rows : List EventLink) (row : EventLink)
    → find p rows ≡ some row
    → p row ≡ true
find-holds p [] row found = cc
find-holds p (x ∷ xs) row found = elim (Bool-cases (p x)) [
  | inl here ↦
      let same : ◌≡◌ {A = Option EventLink} (some x) (some row) = rw here at found in
      cc (here, same)
  | inr gone ↦ find-holds p xs row (rw gone at found)
]

get-insert_link :
    (link : EventLink) (rows : List EventLink) (directory : String) (kind : ResourceType)
    (dsync : String) (row : EventLink)
    → get_event_link directory kind dsync rows ≡ some row
    → get_event_link directory kind dsync (insert_link link rows) ≡ some row
unfolding insert_link get_event_link
get-insert_link link rows directory kind dsync row found =
    elim (Bool-cases (any (clashes link) rows)) [
      | inl clash ↦ rw clash found
      | inr free ↦ elim (Bool-cases (names_dsync directory kind dsync link)) [
        | inl same ↦
            let clash =
              any-find (names_dsync directory kind dsync) (clashes link) rows row
                (λ x h. ground (
                  arith,
                  eq_iff x.directory_id directory,
                  eq_iff link.directory_id directory,
                  eq_iff x.directory_id link.directory_id,
                  kind_beq_iff x.resource_type kind,
                  kind_beq_iff link.resource_type kind,
                  kind_beq_iff x.resource_type link.resource_type,
                  eq_iff x.dsync_id dsync,
                  eq_iff link.dsync_id dsync,
                  eq_iff x.dsync_id link.dsync_id,
                ))
                found in
            cc (clash, free)
        | inr other ↦ rw (free, other) found
      ]
    ]

-- However a bind ends, a Directory Sync id that had a link keeps that link.
pub get-bind_event_link :
    (link : EventLink) (rows : List EventLink) (directory : String) (kind : ResourceType)
    (dsync : String) (row : EventLink)
    → get_event_link directory kind dsync rows ≡ some row
    → get_event_link directory kind dsync (bind_event_link link rows).1 ≡ some row
unfolding bind_event_link
get-bind_event_link link rows directory kind dsync row found =
    elim (Bool-cases (has_empty_id link)) [
      | inl bad ↦ rw bad found
      | inr good ↦ rw good (get-insert_link link rows directory kind dsync row found)
    ]

-- A bind, however it ends, keeps the links one to one: no two rows of one directory and resource type
-- share a Directory Sync id, a native id or a WorkOS id.
pub bind_event_link-IsOneToOne :
    (link : EventLink) (rows : List EventLink)
    → IsOneToOne rows
    → IsOneToOne (bind_event_link link rows).1
unfolding bind_event_link
bind_event_link-IsOneToOne link rows h = elim (Bool-cases (has_empty_id link)) [
  | inl bad ↦ rw bad h
  | inr good ↦ rw good (insert_link-IsOneToOne link rows h)
]

verified-ok :
    (link : EventLink) (o : Option EventLink)
    → verified link o ≡ ok tt
    → (row : EventLink) × (o ≡ some row)
      × (row.native_id ≡ link.native_id)
      × (row.workos_id ≡ link.workos_id)
verified-ok link none h = cc
verified-ok link (some row) h =
    elim (Bool-cases (row.native_id == link.native_id && row.workos_id == link.workos_id)) [
      | inl same ↦ (
        row,
        refl,
        ground (arith, eq_iff row.native_id link.native_id),
        ground (arith, eq_iff row.workos_id link.workos_id, eq_iff row.native_id link.native_id),
      )
      | inr other ↦
          let bad : ◌≡◌ {A = Result LinkError (Unit {0})} (err conflicting_owner) (ok tt) =
            rw other at h in
          cc
    ]

-- A bind that succeeds leaves, under the Directory Sync id, a link to the very native id and WorkOS id
-- that were to be bound.
pub bind_event_link-ok :
    (link : EventLink) (rows : List EventLink)
    → (bind_event_link link rows).0 ≡ ok tt
    → (row : EventLink) × (get_event_link link.directory_id link.resource_type link.dsync_id
          (bind_event_link link rows).1
        ≡ some row)
      × (row.native_id ≡ link.native_id)
      × (row.workos_id ≡ link.workos_id)
unfolding bind_event_link
bind_event_link-ok link rows bound = elim (Bool-cases (has_empty_id link)) [
  | inl bad ↦
      let no : ◌≡◌ {A = Result LinkError (Unit {0})} (err empty_id) (ok tt) = rw bad at bound in cc
  | inr good ↦ rw good (verified-ok link _ (rw good at bound))
]
