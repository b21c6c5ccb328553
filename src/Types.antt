-- ===== src/Types.antt =====
-- workers/shared/types.ts: the rows and unions that the workers share.
use scim_bridge.Base.{String, ◌≡◌, ◌↔◌, Bool, true, false, Option, Eq, arith, ℕ}

pub data ResourceType : Type 0 where
  users groups : ResourceType

abbrev pub kind_beq : ResourceType → ResourceType → Bool
kind_beq users users = true
kind_beq groups groups = true
kind_beq _ _ = false

pub kind_beq_iff : (a b : ResourceType) → (kind_beq a b ≡ true) ↔ (a ≡ b)
kind_beq_iff a b = ground arith

instance abbrev pub kind_eq : Eq ResourceType
kind_eq = record { beq = kind_beq; beq_iff = kind_beq_iff }

-- The path segment of a resource type, `Users` or `Groups`.
abbrev pub kind_name : ResourceType → String
kind_name users = "Users"
kind_name groups = "Groups"

pub data Mode : Type 0 where
  passthrough dual_write workos_primary workos_only : Mode

pub native_is_authoritative : Mode → Bool
native_is_authoritative passthrough = true
native_is_authoritative dual_write = true
native_is_authoritative _ = false

pub data Strategy : Type 0 where
  migrated_id fallback_post : Strategy

-- A row of `scim_directories`. The 0/1 columns are Booleans; times are numbers on one clock.
pub record Directory : Type 0 where
  pub id : String
  pub name : String
  pub mode : Mode
  pub proxy_token_hash : String
  pub proxy_token_hint : String
  pub native_url : String
  pub native_token : String
  pub native_token_partitioned : Bool
  pub workos_url : String
  pub workos_token : String
  pub workos_directory_id : Option String
  pub log_persistence : Bool

-- A row of `id_mappings`, without the two time columns, which no modelled code reads.
pub record IdMapping : Type 0 where
  pub directory_id : String
  pub resource_type : ResourceType
  pub native_id : String
  pub workos_id : String
  pub strategy : Strategy

-- A row of `native_write_failures`, with the `sweep_token` that a reconcile stamps on it.
pub record NativeWriteFailure : Type 0 where
  pub directory_id : String
  pub resource_type : ResourceType
  pub resource_key : String
  pub method : String
  pub native_status : Option ℕ
  pub detail : String
  pub attempts : ℕ
  pub first_seen_at : ℕ
  pub last_seen_at : ℕ
  pub sweep_token : Option String
