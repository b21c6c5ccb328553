-- ===== src/Native/Stable.antt =====
-- The statements of the native app's tables, as far as a property of the tables needs to know them.
use scim_bridge.Base.{String, string_eq, Bool, true, false, ◌≡◌, any, upsert}
use scim_bridge.Native.{
  overwrite_user, UserRow, GroupRow, Native, user_id, takes_user_name, clear_memberships,
  delete_user, upsert_group, delete_group, add_member, remove_member,
}

-- What a property of the tables needs for every statement of the handlers to keep it; the statement
-- that deletes a user is used under `hard` only.
pub record Stable (hard : Bool) (P : Native → Type 0) : Type 0 where
  pub on_upsert_user :
      (u : UserRow) (db : Native)
      → any (takes_user_name u) db.users ≡ false
      → P db
      → P (record db { users = upsert user_id (overwrite_user u) u db.users })
  pub on_upsert_group : (g : GroupRow) (db : Native) → P db → P (upsert_group g db)
  pub on_clear : (id : String) (db : Native) → P db → P (clear_memberships id db)
  pub on_delete_user : (id : String) (db : Native) → hard ≡ true → P db → P (delete_user id db)
  pub on_delete_group : (id : String) (db : Native) → P db → P (delete_group id db)
  pub on_add : (group user : String) (db : Native) → P db → P (add_member group user db).1
  pub on_remove : (group user : String) (db : Native) → P db → P (remove_member group user db).1
