-- ===== src/Namespace/Agreement.antt =====
-- The check on a native URL against the guard that the proxy applies when it writes.
use scim_bridge.Base.{
  String, ◌≡◌, ◌≢◌, ◌↔◌, refl, sym, false, Option, none, some, List, [], ◌∷◌, string_eq, eq_iff,
  find, arith, find-eq-none_iff, beq-eq-false_of_ne, ◌∙◌, All, Option-cases, inl, inr, ◌⊎◌, ap,
  Bool, true, not, any, ◌==◌, ◌&&◌, ◌||◌, Bool-cases,
}
use scim_bridge.Base.Text.{trim, drop_start, drop_end}
use scim_bridge.Types.{Directory}
use scim_bridge.Scim.Namespace.{
  UrlParser, NativeEndpoint, endpoint, native_namespace_key, token_partition_splits,
  shares_native_namespace, native_namespace_is_shared,
}
use scim_bridge.Namespace.{
  Candidate, conflicts, find_native_namespace_conflict, refuse_conflict, refuse_key, conflict_at,
  check_native_namespace,
}

-- The tokens of two endpoints tell them apart in either order.
pub token_partition_splits_comm :
    (a b : NativeEndpoint) → token_partition_splits a b ≡ token_partition_splits b a
unfolding token_partition_splits
token_partition_splits_comm a b = ground (
  arith,
  eq_iff (trim a.native_token) (trim b.native_token),
  eq_iff (trim b.native_token) (trim a.native_token),
)

-- Whether two directories share a namespace does not depend on which of them asks.
pub shares_native_namespace_comm :
    (parse : UrlParser) (a b : NativeEndpoint)
    → shares_native_namespace parse a b ≡ shares_native_namespace parse b a
unfolding shares_native_namespace
shares_native_namespace_comm parse a b =
    elim (Option-cases (native_namespace_key parse a.native_url)) [
      | inl p ↦ elim (Option-cases (native_namespace_key parse b.native_url)) [
        | inl q ↦ rw (p, q)
        | inr (y, q) ↦ rw (p, q)
      ]
      | inr (x, p) ↦ elim (Option-cases (native_namespace_key parse b.native_url)) [
        | inl q ↦ rw (p, q)
        | inr (y, q) ↦
            rw (p, q) (ground (arith, eq_iff x y, eq_iff y x, token_partition_splits_comm a b))
      ]
    ]

-- A stored native URL: trimmed, and one that the parser reads.
abbrev pub IsReadable : UrlParser → Directory → Type 0
IsReadable parse d =
    (trim d.native_url ≡ d.native_url)
    × ((key : String) × (native_namespace_key parse d.native_url ≡ some key))

-- Another directory, whose native URL is not filled in yet or is readable.
abbrev pub IsOther : UrlParser → Directory → Directory → Type 0
IsOther parse d other = (other.id ≢ d.id) × ((other.native_url ≡ "") ⊎ IsReadable parse other)

-- The endpoint that a directory would be configured with, as the check is given it.
abbrev pub candidate_of : Directory → Candidate
candidate_of d = record {
  native_token = d.native_token;
  native_token_partitioned = d.native_token_partitioned;
}

trim-empty : trim "" ≡ ""
unfolding trim drop_start drop_end
trim-empty = refl

module _ (parse : UrlParser) (d : Directory) where
  -- The test on one directory that `nativeNamespaceIsShared` applies.
  is_sharer : Directory → Bool
  is_sharer other =
      not (other.id == d.id)
      && not (other.native_url == "")
      && shares_native_namespace parse (endpoint d) (endpoint other)

  empty-key : parse "" ≡ none → native_namespace_key parse (trim "") ≡ none
  unfolding native_namespace_key
  empty-key unread = rw trim-empty (rw (unread, native_namespace_key) refl)

  empty-conflicts :
      (key : String) (other : Directory)
      → parse "" ≡ none
      → other.native_url ≡ ""
      → conflicts parse key (endpoint d) other ≡ false
  empty-conflicts key other unread empty =
      let unkeyed : native_namespace_key parse (trim other.native_url) ≡ none =
        ap (λ u. native_namespace_key parse (trim u)) empty ∙ empty-key unread in
      rw unkeyed refl

  empty-is_sharer : (other : Directory) → other.native_url ≡ "" → is_sharer other ≡ false
  unfolding is_sharer
  empty-is_sharer other empty = rw (ap (λ u. u == "") empty) (ground arith)

  readable-conflicts :
      (key : String) (other : Directory)
      → native_namespace_key parse d.native_url ≡ some key
      → other.id ≢ d.id
      → other.native_url ≢ ""
      → IsReadable parse other
      → conflicts parse key (endpoint d) other ≡ is_sharer other
  unfolding shares_native_namespace is_sharer
  readable-conflicts key other h apart full (trimmed, (theirs, k)) =
      rw
        (
          trimmed,
          h,
          k,
          beq-eq-false_of_ne other.id d.id apart,
          beq-eq-false_of_ne other.native_url "" full,
        )
        (ground (arith, eq_iff key theirs, eq_iff theirs key))

  conflicts-is_sharer :
      (key : String) (other : Directory)
      → parse "" ≡ none
      → native_namespace_key parse d.native_url ≡ some key
      → IsOther parse d other
      → conflicts parse key (endpoint d) other ≡ is_sharer other
  conflicts-is_sharer key other unread h (apart, inl empty) =
      empty-conflicts key other unread empty ∙ sym (empty-is_sharer other empty)
  conflicts-is_sharer key other unread h (apart, inr readable) =
      elim (Bool-cases (other.native_url == "")) [
        | inl same ↦
            let empty = (eq_iff other.native_url "").0 same in
            empty-conflicts key other unread empty ∙ sym (empty-is_sharer other empty)
        | inr full ↦
            readable-conflicts key other h apart (λ e. ground (arith, eq_iff other.native_url ""))
              readable
      ]

  or-false_iff :
      (a b : Bool) (p q : Type 0)
      → ((a ≡ false) ↔ p)
      → ((b ≡ false) ↔ q)
      → ((a || b) ≡ false) ↔ (p × q)
  or-false_iff true b p q f g = (λ e. cc, λ (x, y). f.1 x)
  or-false_iff false b p q f g = (λ e. (f.0 refl, g.0 e), λ (x, y). g.1 y)

  any-is_sharer :
      (key : String) (others : List Directory)
      → parse "" ≡ none
      → native_namespace_key parse d.native_url ≡ some key
      → All (IsOther parse d) others
      → (any is_sharer others ≡ false)
        ↔ All (λ o. conflicts parse key (endpoint d) o ≡ false) others
  any-is_sharer key [] unread h rs = (λ u. tt, λ u. refl)
  any-is_sharer key (o ∷ others) unread h (r, rs) =
      let e = conflicts-is_sharer key o unread h r in
      or-false_iff (is_sharer o) (any is_sharer others) _ _ (λ x. e ∙ x, λ x. sym e ∙ x)
        (any-is_sharer key others unread h rs)

  refuse_conflict-eq-none_iff :
      (o : Option Directory) → (refuse_conflict d.native_url (candidate_of d) o ≡ none) ↔ (o ≡ none)
  refuse_conflict-eq-none_iff o = ground arith

  check_lem :
      (others : List Directory)
      → trim d.native_url ≡ d.native_url
      → d.native_url ≢ ""
      → check_native_namespace parse d.native_url others (candidate_of d)
        ≡ refuse_key d.native_url (native_namespace_key parse d.native_url) (
            refuse_conflict d.native_url
              (candidate_of d)
              (conflict_at parse (endpoint d) others (native_namespace_key parse d.native_url)))
  unfolding check_native_namespace find_native_namespace_conflict
  check_lem others trimmed full = rw (trimmed, trimmed, beq-eq-false_of_ne d.native_url "" full)

  check-empty :
      (others : List Directory)
      → trim d.native_url ≡ d.native_url
      → d.native_url ≡ ""
      → check_native_namespace parse d.native_url others (candidate_of d) ≡ none
  unfolding check_native_namespace
  check-empty others trimmed empty = rw (trimmed, empty) refl

  full-eq-none_iff :
      (others : List Directory)
      → trim d.native_url ≡ d.native_url
      → parse "" ≡ none
      → All (IsOther parse d) others
      → d.native_url ≢ ""
      → (check_native_namespace parse d.native_url others (candidate_of d) ≡ none) ↔ (
          ((key : String) × (native_namespace_key parse d.native_url ≡ some key))
          × (native_namespace_is_shared parse d others ≡ false))
  unfolding native_namespace_is_shared is_sharer
  full-eq-none_iff others trimmed unread listed full =
      elim (Option-cases (native_namespace_key parse d.native_url)) [
        | inl bad ↦ rw (check_lem others trimmed full, bad) (λ e. cc, λ both. cc (both.0.1))
        | inr (key, h) ↦
            let found = find (conflicts parse key (endpoint d)) others in
            let nothing = find-eq-none_iff (conflicts parse key (endpoint d)) others in
            let agree = any-is_sharer key others unread h listed in
            let open_ = refuse_conflict-eq-none_iff found in
            rw (check_lem others trimmed full, h)
              (
                λ e. ((key, refl), agree.1 (nothing.0 (open_.0 e))),
                λ both. open_.1 (nothing.1 (agree.0 both.1)),
              )
      ]

  -- The check accepts a directory's trimmed native URL exactly if it is empty, or the bridge can parse
  -- it and `nativeNamespaceIsShared`, the test that guards the writes, says no of the directory as it
  -- would be configured. The listed directories are other ones, each with an empty native URL or with
  -- one that is trimmed and parses, and the empty text is no URL.
  pub check-eq-none_iff :
      (others : List Directory)
      → trim d.native_url ≡ d.native_url
      → parse "" ≡ none
      → All (IsOther parse d) others
      → (check_native_namespace parse d.native_url others (candidate_of d) ≡ none) ↔ (
          (d.native_url ≡ "")
          ⊎ (((key : String) × (native_namespace_key parse d.native_url ≡ some key))
              × (native_namespace_is_shared parse d others ≡ false)))
  check-eq-none_iff others trimmed unread listed = elim (Bool-cases (d.native_url == "")) [
    | inl same ↦
        let empty = (eq_iff d.native_url "").0 same in
        (λ e. inl empty, λ c. check-empty others trimmed empty)
    | inr other ↦
        let full : d.native_url ≢ "" = λ e. ground (arith, eq_iff d.native_url "") in
        let agree = full-eq-none_iff others trimmed unread listed full in
        (λ e. inr (agree.0 e), λ c. elim c [ inl e ↦ absurd (full e) | inr both ↦ agree.1 both ])
  ]
