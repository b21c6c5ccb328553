-- ===== src/Native.antt =====
-- The native demonstration app's tables and their statements (workers/native/store.ts, class
-- ScimStore). The key of a user or a group is its id, and a user name is unique; a membership is a
-- pair of a group id and a user id. The time columns are left out: only the listing orders by them.
pub mod Stable
pub mod Members
use scim_bridge.Base.{
  String, Bool, true, false, Option, none, some, List, [], ◌∷◌, not, ◌&&◌, ◌==◌, string_eq, pair_eq,
  find, any, distinct, keep, lookup, upsert, remove, if◌then◌else◌,
}

-- `UserRow`
pub record UserRow : Type 0 where
  pub id : String
  pub user_name : String
  pub external_id : Option String
  pub active : Bool
  pub resource : String

-- `GroupRow`
pub record GroupRow : Type 0 where
  pub id : String
  pub display_name : String
  pub external_id : Option String
  pub resource : String

abbrev pub Edge : Type 0
Edge = String × String

-- The tables `native_users`, `native_groups` and `native_group_members`.
pub record Native : Type 0 where
  pub users : List UserRow
  pub groups : List GroupRow
  pub members : List Edge

abbrev pub user_id : UserRow → String
user_id row = row.id

abbrev pub group_id : GroupRow → String
group_id row = row.id

abbrev pub edge_key : Edge → Edge
edge_key e = e

-- `column = ?` on a column that may be null
abbrev pub holds_text : Option String → String → Bool
holds_text none value = false
holds_text (some text) value = text == value

unfoldable pub user_by_id : String → Native → Option UserRow
user_by_id id db = lookup user_id id db.users

unfoldable pub user_by_external_id : String → Native → Option UserRow
user_by_external_id external_id db = find (λ row. holds_text row.external_id external_id) db.users

unfoldable pub group_by_id : String → Native → Option GroupRow
group_by_id id db = lookup group_id id db.groups

unfoldable pub group_by_external_id : String → Native → Option GroupRow
group_by_external_id external_id db = find (λ row. holds_text row.external_id external_id) db.groups

-- SQL's `lower` is a parameter.
module _ (lower : String → String) where
  unfoldable pub user_by_user_name : String → Native → Option UserRow
  user_by_user_name user_name db = find (λ row. lower row.user_name == lower user_name) db.users

  unfoldable pub group_by_display_name : String → Native → Option GroupRow
  group_by_display_name display_name db =
      find (λ row. lower row.display_name == lower display_name) db.groups

-- Another row holds the user name.
abbrev pub takes_user_name : UserRow → UserRow → Bool
takes_user_name user row = row.user_name == user.user_name && not (row.id == user.id)

-- The row that `ON CONFLICT (id) DO UPDATE` leaves.
abbrev pub overwrite_user : UserRow → UserRow → UserRow
overwrite_user user row = record user { id = row.id }

abbrev pub overwrite_group : GroupRow → GroupRow → GroupRow
overwrite_group group row = record group { id = row.id }

-- `upsertUser`; `none` where the statement violates the unique user name
unfoldable pub upsert_user : UserRow → Native → Option Native
upsert_user user db =
    if any (takes_user_name user) db.users
    then none
    else some (record db { users = upsert user_id (overwrite_user user) user db.users })

unfoldable pub clear_memberships : String → Native → Native
clear_memberships id db = record db { members = keep (λ e. not (e.1 == id)) db.members }

unfoldable pub delete_user : String → Native → Native
unfolding clear_memberships
delete_user id db =
    let cleared = clear_memberships id db in
    record cleared { users = remove user_id id cleared.users }

-- `upsertGroup`
unfoldable pub upsert_group : GroupRow → Native → Native
upsert_group group db = record db {
  groups = upsert group_id (overwrite_group group) group db.groups;
}

-- `DELETE … WHERE group_id = ?`
unfoldable pub clear_group : String → Native → Native
clear_group id db = record db { members = keep (λ e. not (e.0 == id)) db.members }

unfoldable pub delete_group : String → Native → Native
unfolding clear_group
delete_group id db =
    let cleared = clear_group id db in record cleared { groups = remove group_id id cleared.groups }

abbrev pub is_member : String → String → Native → Bool
is_member group user db = any (λ e. e == (group, user)) db.members

-- `addMember`, which says whether it added the row
unfoldable pub add_member : String → String → Native → Bool × Native
add_member group user db =
    if is_member group user db
    then (false, db)
    else (true, record db { members = (group, user) ∷ db.members })

-- `removeMember`, which says whether it removed the row
unfoldable pub remove_member : String → String → Native → Bool × Native
remove_member group user db = (
  is_member group user db,
  record db { members = keep (λ e. not (e == (group, user))) db.members },
)

-- The loop of `setMembers`.
unfoldable pub add_members : String → List String → Native → Native
unfolding add_member
add_members group [] db = db
add_members group (user ∷ users) db = add_members group users (add_member group user db).1

unfoldable pub set_members : String → List String → Native → Native
unfolding clear_group add_members
set_members group users db = add_members group (distinct users) (clear_group group db)
