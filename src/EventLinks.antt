-- ===== src/EventLinks.antt =====
-- The table `dsync_event_links` (workers/shared/event-links.ts): which native id and WorkOS id a
-- Directory Sync id stands for. Within a directory and resource type each of the three ids is unique.
-- The newest row stands first.
pub mod Owners
use scim_bridge.Base.{
  String, Bool, true, false, Option, none, some, List, [], ◌∷◌, ◌&&◌, ◌||◌, ◌==◌, string_eq, find,
  any, if◌then◌else◌,
}
use scim_bridge.Base.Result.{Result, ok, err}
use scim_bridge.Types.{ResourceType, kind_eq}

-- `EventLink`
pub record EventLink : Type 0 where
  pub directory_id : String
  pub resource_type : ResourceType
  pub dsync_id : String
  pub native_id : String
  pub workos_id : String

-- The two errors that `bindEventLink` throws.
pub data LinkError : Type 0 where
  empty_id conflicting_owner : LinkError

abbrev pub names_dsync : String → ResourceType → String → EventLink → Bool
names_dsync directory kind dsync row =
    row.directory_id == directory && row.resource_type == kind && row.dsync_id == dsync

abbrev pub names_native : String → ResourceType → String → EventLink → Bool
names_native directory kind native row =
    row.directory_id == directory && row.resource_type == kind && row.native_id == native

-- `getEventLink`
unfoldable pub get_event_link : String → ResourceType → String → List EventLink → Option EventLink
get_event_link directory kind dsync rows = find (names_dsync directory kind dsync) rows

-- `getEventLinkByNativeId`
unfoldable pub get_event_link_by_native_id :
    String → ResourceType → String → List EventLink → Option EventLink
get_event_link_by_native_id directory kind native rows =
    find (names_native directory kind native) rows

-- The row violates one of the three constraints against the row to be inserted.
abbrev pub clashes : EventLink → EventLink → Bool
clashes link row =
    row.directory_id == link.directory_id
    && row.resource_type == link.resource_type
    && (row.dsync_id == link.dsync_id
        || row.native_id == link.native_id
        || row.workos_id == link.workos_id)

-- `INSERT … ON CONFLICT DO NOTHING`
unfoldable pub insert_link : EventLink → List EventLink → List EventLink
insert_link link rows = if any (clashes link) rows then rows else link ∷ rows

abbrev pub has_empty_id : EventLink → Bool
has_empty_id link =
    link.directory_id == "" || link.dsync_id == "" || link.native_id == "" || link.workos_id == ""

-- The readback behind the insert.
abbrev pub verified : EventLink → Option EventLink → Result LinkError (Unit {0})
verified link none = err conflicting_owner
verified link (some stored) =
    if stored.native_id == link.native_id && stored.workos_id == link.workos_id
    then ok tt
    else err conflicting_owner

-- `bindEventLink`
unfoldable pub bind_event_link :
    EventLink → List EventLink → Result LinkError (Unit {0}) × List EventLink
bind_event_link link rows =
    let stored = insert_link link rows in
    if has_empty_id link then (err empty_id, rows) else (
      verified link (get_event_link link.directory_id link.resource_type link.dsync_id stored),
      stored,
    )
