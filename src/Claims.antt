-- ===== src/Claims.antt =====
-- Single-flight claims (workers/shared/db.ts): the claim on a directory's creates of one resource
-- type, which never expires, and the reconcile lease of a directory, which does.
pub mod Exclusive
pub mod Expiry
use scim_bridge.Base.{
  ℕ, ◌+◌, String, Bool, true, false, Option, none, some, List, [], ◌∷◌, not, ◌&&◌, ◌||◌, ◌==◌,
  string_eq, pair_eq, keep, lookup, upsert, update, leb,
}
use scim_bridge.Types.{ResourceType, kind_eq}

-- A row of `workos_primary_create_claims`, without its start time, which nothing reads.
pub record CreateClaim : Type 0 where
  pub directory_id : String
  pub resource_type : ResourceType
  pub token : String

abbrev pub ClaimKey : Type 0
ClaimKey = String × ResourceType

abbrev pub claim_key : CreateClaim → ClaimKey
claim_key c = (c.directory_id, c.resource_type)

-- The insert changes a row if there is none, or if the row carries the same token, which it leaves.
abbrev pub claimed : CreateClaim → Option CreateClaim → List CreateClaim → Bool × List CreateClaim
claimed c none rows = (true, upsert claim_key (λ x. x) c rows)
claimed c (some held) rows = (held.token == c.token, rows)

unfoldable pub claim_workos_primary_create :
    String → ResourceType → String → List CreateClaim → Bool × List CreateClaim
claim_workos_primary_create directory kind token rows =
    claimed (record { directory_id = directory; resource_type = kind; token = token })
      (lookup claim_key (directory, kind) rows) rows

unfoldable pub release_workos_primary_create :
    String → ResourceType → String → List CreateClaim → List CreateClaim
release_workos_primary_create directory kind token rows =
    keep (λ c. not (claim_key c == (directory, kind) && c.token == token)) rows

-- The two lease columns of a row of `scim_directories`.
pub record Lease : Type 0 where
  pub directory_id : String
  pub reconcile_token : Option String
  pub reconcile_started_at : Option ℕ

abbrev pub lease_key : Lease → String
lease_key l = l.directory_id

-- `RECONCILE_CLAIM_TTL_MS` in the seconds in which both times are stored
abbrev pub reconcile_claim_ttl : ℕ
reconcile_claim_ttl = 1800

-- `reconcile_token IS NULL OR reconcile_started_at IS NULL OR reconcile_started_at <= ?`, the last
-- against `now` less the lifetime
abbrev pub is_free : ℕ → Lease → Bool
is_free now l = elim l.reconcile_token [
  | none ↦ true
  | some t ↦ elim l.reconcile_started_at [
    | none ↦ true
    | some s ↦ leb (s + reconcile_claim_ttl) now
  ]
]

abbrev pub grant : ℕ → String → Lease → Lease
grant now token l = record l { reconcile_token = some token; reconcile_started_at = some now }

-- `Boolean(meta.changes)`: whether the update had a row to change
abbrev pub grantable : ℕ → Option Lease → Bool
grantable now none = false
grantable now (some l) = is_free now l

unfoldable pub claim_reconcile_run : ℕ → String → String → List Lease → Bool × List Lease
claim_reconcile_run now directory token rows = (
  grantable now (lookup lease_key directory rows),
  update (λ l. l.directory_id == directory && is_free now l) (grant now token) rows,
)

abbrev pub held_by : String → Lease → Bool
held_by token l = elim l.reconcile_token [ none ↦ false | some t ↦ t == token ]

abbrev pub ungrant : Lease → Lease
ungrant l = record l { reconcile_token = none; reconcile_started_at = none }

unfoldable pub release_reconcile_run : String → String → List Lease → List Lease
release_reconcile_run directory token rows =
    update (λ l. l.directory_id == directory && held_by token l) ungrant rows
