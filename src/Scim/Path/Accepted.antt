-- ===== src/Scim/Path/Accepted.antt =====
-- What `parseScimPath` of workers/shared/scim.ts accepts.
use Prim.Native.String
use Prim.Native.Char.{code}
use text.Mathlib.TextEquality.{Char-path}
use text.Mathlib.TextLemmas.{nil-append, cons-append}
use scim_bridge.Base.{
  String, ◌≡◌, refl, ap, sym, ◌∙◌, ◌⊎◌, inl, inr, true, false, Option, none, some, List, [], ◌∷◌,
  Option-cases, Bool-cases, if◌then◌else◌, nat_eq, nat_eq_iff, ◌==◌, string_eq, eq_iff,
}
use scim_bridge.Base.Text.{after_prefix, slash_segments}
use scim_bridge.Types.{users, groups}
use scim_bridge.Scim.Path.{
  ScimPath, scim_prefix, is_discovery_root, resource_path, path_of, ends_segment, decode_all,
  parse_scim_path,
}

-- What a path stands for, by its decoded segments: the users or the groups, one of them, or a
-- discovery document and what stands below it.
pub data Names : List String → ScimPath → Type 0 where
  every_user :
      (rest : String)
      → Names
          ("Users" ∷ [])
          (record { kind = some users; id = none; discovery = false; rest = rest })
  one_user :
      (id rest : String)
      → Names
          ("Users" ∷ id ∷ [])
          (record { kind = some users; id = some id; discovery = false; rest = rest })
  every_group :
      (rest : String)
      → Names
          ("Groups" ∷ [])
          (record { kind = some groups; id = none; discovery = false; rest = rest })
  one_group :
      (id rest : String)
      → Names
          ("Groups" ∷ id ∷ [])
          (record { kind = some groups; id = some id; discovery = false; rest = rest })
  document :
      (head : String) (tail : List String) (rest : String)
      → (head ≡ "ServiceProviderConfig") ⊎ ((head ≡ "Schemas") ⊎ (head ≡ "ResourceTypes"))
      → Names (head ∷ tail) (record { kind = none; id = none; discovery = true; rest = rest })

-- The path that was built is the one that was accepted.
Names-built :
    (segments : List String) (built p : ScimPath)
    → Names segments built
    → ◌≡◌ {A = Option ScimPath} (some built) (some p)
    → (p.rest ≡ built.rest) × Names segments p
Names-built segments built p h e =
    let same : built ≡ p = cc in (ap (λ q. q.rest) (sym same), rw same at h)

users-Names :
    (tail : List String) (rest : String) (p : ScimPath)
    → resource_path users tail rest ≡ some p
    → (p.rest ≡ rest) × Names ("Users" ∷ tail) p
users-Names [] rest p h = Names-built ("Users" ∷ []) _ p (every_user rest) h
users-Names (id ∷ []) rest p h = Names-built ("Users" ∷ id ∷ []) _ p (one_user id rest) h
users-Names (_ ∷ _ ∷ _) rest p h = cc

groups-Names :
    (tail : List String) (rest : String) (p : ScimPath)
    → resource_path groups tail rest ≡ some p
    → (p.rest ≡ rest) × Names ("Groups" ∷ tail) p
groups-Names [] rest p h = Names-built ("Groups" ∷ []) _ p (every_group rest) h
groups-Names (id ∷ []) rest p h = Names-built ("Groups" ∷ id ∷ []) _ p (one_group id rest) h
groups-Names (_ ∷ _ ∷ _) rest p h = cc

is_discovery_root-names :
    (head : String)
    → is_discovery_root head ≡ true
    → (head ≡ "ServiceProviderConfig") ⊎ ((head ≡ "Schemas") ⊎ (head ≡ "ResourceTypes"))
is_discovery_root-names head h = elim (Bool-cases (head == "ServiceProviderConfig")) [
  | inl config ↦ inl ((eq_iff head "ServiceProviderConfig").0 config)
  | inr other ↦ elim (Bool-cases (head == "Schemas")) [
    | inl schemas ↦ inr (inl ((eq_iff head "Schemas").0 schemas))
    | inr third ↦ inr (inr ((eq_iff head "ResourceTypes").0 (rw (other, third) at h)))
  ]
]

discovery-Names :
    (head : String) (tail : List String) (rest : String) (p : ScimPath)
    → (if is_discovery_root head
        then some (record { kind = none; id = none; discovery = true; rest = rest })
        else none)
      ≡ some p
    → (p.rest ≡ rest) × Names (head ∷ tail) p
discovery-Names head tail rest p h = elim (Bool-cases (is_discovery_root head)) [
  | inl root ↦
      Names-built (head ∷ tail) _ p (document head tail rest (is_discovery_root-names head root))
        (rw root at h)
  | inr other ↦ let bad : ◌≡◌ {A = Option ScimPath} none (some p) = rw other at h in cc
]

path_of-Names :
    (segments : List String) (rest : String) (p : ScimPath)
    → path_of segments rest ≡ some p
    → (p.rest ≡ rest) × Names segments p
path_of-Names [] rest p h = cc
path_of-Names (head ∷ tail) rest p h = elim (Bool-cases (head == "Users")) [
  | inl user ↦
      let same = (eq_iff head "Users").0 user in rw same (users-Names tail rest p (rw same at h))
  | inr other ↦ elim (Bool-cases (head == "Groups")) [
    | inl group ↦
        let same = (eq_iff head "Groups").0 group in
        rw same (groups-Names tail rest p (rw same at h))
    | inr third ↦ discovery-Names head tail rest p (rw (other, third, path_of) at h)
  ]
]

segments-Names :
    (o : Option (List String)) (rest : String) (p : ScimPath)
    → (elim o [
      | none ↦ none
      | some segments ↦ if ends_segment rest then path_of segments rest else none
    ])
      ≡ some p
    → (ends_segment rest ≡ true)
      × (p.rest ≡ rest)
      × ((segments : List String) × (o ≡ some segments) × Names segments p)
segments-Names none rest p h = cc
segments-Names (some segments) rest p h = elim (Bool-cases (ends_segment rest)) [
  | inl ends ↦
      let (same, named) = path_of-Names segments rest p (rw ends at h) in
      (ends, same, (segments, refl, named))
  | inr inside ↦ let bad : ◌≡◌ {A = Option ScimPath} none (some p) = rw inside at h in cc
]

after_prefix-append : (s t rest : String) → after_prefix s t ≡ some rest → t ≡ String.◌++◌ s rest
unfolding after_prefix
after_prefix-append String.[] t rest h = cc (nil-append rest)
after_prefix-append (String.◌∷◌ c s) String.[] rest h = cc
after_prefix-append (String.◌∷◌ c s) (String.◌∷◌ d t) rest h =
    elim (Bool-cases (nat_eq (code c) (code d))) [
      | inl same ↦ rw (Char-path c d ((nat_eq_iff (code c) (code d)).0 same)) (
          rw (cons-append d s rest)
            (ap (String.◌∷◌ d) (after_prefix-append s t rest (rw same at h))))
      | inr other ↦ let bad : ◌≡◌ {A = Option String} none (some rest) = rw other at h in cc
    ]

-- A path that is accepted is the prefix `/scim/v2` followed, at the end of a segment, by the text that
-- is forwarded. Its segments decode, and are `Users` or `Groups`, alone or with the id that the result
-- has, or begin with a discovery document; the result has the resource type that they name.
pub parse_scim_path-Names :
    (decode : String → Option String) (pathname : String) (p : ScimPath)
    → parse_scim_path decode pathname ≡ some p
    → (pathname ≡ String.◌++◌ "/scim/v2" p.rest)
      × (ends_segment p.rest ≡ true)
      × ((segments : List String) × (decode_all decode (slash_segments p.rest) ≡ some segments)
          × Names segments p)
unfolding parse_scim_path
parse_scim_path-Names decode pathname p h =
    elim (Option-cases (after_prefix scim_prefix pathname)) [
      | inl other ↦ let bad : ◌≡◌ {A = Option ScimPath} none (some p) = rw other at h in cc
      | inr (rest, found) ↦
          let (ends, same, named) =
            segments-Names (decode_all decode (slash_segments rest)) rest p (rw found at h) in
          let (segments, decoded, names) = named in
          (
            rw same (after_prefix-append scim_prefix pathname rest found),
            rw same ends,
            (segments, ap (λ r. decode_all decode (slash_segments r)) same ∙ decoded, names),
          )
    ]
