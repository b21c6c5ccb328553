-- ===== src/Native/Members.antt =====
-- The memberships that the statements leave.
use scim_bridge.Base.{
  ◌≡◌, refl, String, Bool, true, not, ◌&&◌, ◌||◌, List, [], ◌∷◌, ◌++◌, ◌==◌, string_eq, pair_eq,
  any, keep, is_in, add_new, add_all_new, distinct, if◌then◌else◌, arith, eq_iff, Bool-cases, inl,
  inr, eq_of_beq, pair_beq_iff,
}
use mathlib.Core.Path.{subst}
use scim_bridge.Base.Effects.{if-Posts}
use scim_bridge.Native.{Native, Edge, is_member, clear_group, add_member, add_members, set_members}

any-keep_group :
    (g u group : String) (edges : List Edge)
    → any (λ e. e == (g, u)) (keep (λ e. not (e.0 == group)) edges)
      ≡ (not (g == group) && any (λ e. e == (g, u)) edges)
any-keep_group g u group [] = ground arith
any-keep_group g u group (e ∷ edges) =
    ground (arith, eq_iff e.0 g, eq_iff e.0 group, eq_iff g group, any-keep_group g u group edges)

same_edge :
    (g u group user : String) (db : Native)
    → is_member group user db ≡ true
    → (group == g && user == u) ≡ true
    → is_member g u db ≡ true
same_edge g u group user db old same =
    subst (λ (e : Edge). is_member e.0 e.1 db ≡ true) ((pair_beq_iff (group, user) (g, u)).0 same)
      old

is_member-add :
    (g u group user : String) (db : Native)
    → is_member g u (add_member group user db).1 ≡ ((group == g && user == u) || is_member g u db)
unfolding add_member
is_member-add g u group user db =
    if-Posts {A = Bool × Native}
      (λ r. is_member g u r.1 ≡ ((group == g && user == u) || is_member g u db))
      (is_member group user db) _ _
      (λ old. elim (Bool-cases (group == g && user == u)) [
        | inl same ↦ rw (same) (same_edge g u group user db old same)
        | inr other ↦ rw other refl
      ])
      (λ new. refl)

is_in-append : (u x : String) (xs : List String) → is_in u (xs ++ x ∷ []) ≡ (is_in u xs || x == u)
is_in-append u x [] = ground arith
is_in-append u x (y ∷ xs) = ground (arith, is_in-append u x xs)

is_in-add_new : (u x : String) (xs : List String) → is_in u (add_new x xs) ≡ (is_in u xs || x == u)
is_in-add_new u x xs =
    if-Posts {A = List String} (λ r. is_in u r ≡ (is_in u xs || x == u)) (is_in x xs) _ _
      (λ old. elim (Bool-cases (x == u)) [
        | inl same ↦ rw (same, ← eq_of_beq x u same, old) refl
        | inr other ↦ rw other (ground arith)
      ])
      (λ new. is_in-append u x xs)

is_in-add_all :
    (u : String) (xs set : List String) → is_in u (add_all_new xs set) ≡ (is_in u set || is_in u xs)
is_in-add_all u [] set = ground arith
is_in-add_all u (x ∷ xs) set =
    ground (arith, is_in-add_all u xs (add_new x set), is_in-add_new u x set)

is_member-add_members :
    (g u group : String) (users : List String) (db : Native)
    → is_member g u (add_members group users db)
      ≡ ((group == g && is_in u users) || is_member g u db)
unfolding add_members
is_member-add_members g u group [] db = ground arith
is_member-add_members g u group (user ∷ users) db = ground (
  arith,
  is_member-add_members g u group users (add_member group user db).1,
  is_member-add g u group user db,
)

-- `setMembers` leaves in the group exactly the users that it was given, and the members of every
-- other group as they were.
pub is_member-set_members :
    (g u group : String) (users : List String) (db : Native)
    → is_member g u (set_members group users db)
      ≡ (if group == g then is_in u users else is_member g u db)
unfolding set_members clear_group
is_member-set_members g u group users db = ground (
  arith,
  is_member-add_members g u group (distinct users) (clear_group group db),
  any-keep_group g u group db.members,
  is_in-add_all u users [],
  eq_iff group g,
  eq_iff g group,
)
