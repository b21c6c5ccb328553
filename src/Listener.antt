-- ===== src/Listener.antt =====
-- The listener for Directory Sync events (workers/native/listener.ts): the tables that it reads and
-- writes, and what it calls outside.
pub mod Reading
pub mod Resources
pub mod Mapping
pub mod Verify
pub mod Versions
pub mod Scopes
pub mod Config
pub mod Answer
pub mod Learn
pub mod Status
pub mod Resolve
pub mod Steps
pub mod Handlers
pub mod Memberships
pub mod Instruction
pub mod Apply
pub mod Log
pub mod Process
pub mod Signature
pub mod Webhook
use scim_bridge.Base.{ℕ, String, Bool, Option, List}
use scim_bridge.Base.Effects.{Effect}
use scim_bridge.Types.{ResourceType, Directory, IdMapping}
use scim_bridge.EventLinks.{EventLink}
use scim_bridge.Json.{Value, Fields}
use scim_bridge.Native.{Native}
use scim_bridge.Scim.Http.{Upstream}

-- The tables that the handlers of events only read. A row of `poc_config` is a key and a value, and a
-- row of `listener_versions` a scope and a time. Directories stand in the order of their listing,
-- their secrets decrypted.
pub record Rows : Type 0 where
  pub directories : List Directory
  pub config : List (String × String)
  pub versions : List (String × String)

-- The identities that resolving an event reads, and extends by what the bridge answers.
pub record Ids : Type 0 where
  pub mappings : List IdMapping
  pub links : List EventLink

-- `Outcome.action`
pub data Action : Type 0 where
  applied skipped ignored : Action

-- A row of `listener_events`, in the columns that `recordEvent` writes.
pub record LoggedEvent : Type 0 where
  pub event_id : Option String
  pub event_type : String
  pub idp_id : Option String
  pub action : Action
  pub detail : String
  pub payload : Option String

-- `Outcome`
pub record Outcome : Type 0 where
  pub action : Action
  pub detail : String
  pub idp_id : Option String

-- What the listener reads of `ReceivedDirectoryStatus`.
pub record DirectoryStatus : Type 0 where
  pub mode : String
  pub apply_dsync_events : Option Bool

-- The database and the world outside.
pub record Bridge (W : Type 0) : Type 0 where
  pub rows : Rows
  pub ids : Ids
  pub native : Native
  pub events : List LoggedEvent
  pub world : W

-- Code that throws an error's message.
abbrev pub Outer : Type 0 → Type 0 → Type 0
Outer W A = Effect W String A

-- Code that may learn identities.
abbrev pub Learning : Type 0 → Type 0 → Type 0
Learning W A = Effect (Ids × W) String A

-- A handler: it changes the native tables, the identities and the world outside, and reads the other
-- rows.
abbrev pub Handler : Type 0 → Type 0 → Type 0
Handler W A = Effect (Native × (Ids × W)) String A

abbrev pub Listening : Type 0 → Type 0 → Type 0
Listening W A = Effect (Bridge W) String A

-- What the listener calls: the clock, SQL's `lower`, the driver's error for a violated unique
-- column, `String.length` and `String.slice`, the text of a number and `String` of any value,
-- the error of `response.json()` on a body that is no JSON, the hexadecimal HMAC-SHA-256 of a text
-- under a secret, the text of a `URLSearchParams`, the map `remembered` of
-- workers/shared/client-tokens.ts, which the process fills when it starts, and the read of a directory's status (`fetchDirectoryStatus`), which keeps its
-- cache in the world outside.
pub record Outside (W : Type 0) : Type 0 where
  pub upstream : Upstream W
  pub date_now : W → ℕ × W
  pub lower : String → String
  pub unique_violation : String
  pub text_length : String → ℕ
  pub slice_to : ℕ → String → String
  pub number_text : ℕ → String
  pub string_of : Option Value → String
  pub not_json : String → String
  pub hmac_hex : String → String → String
  pub url_query : List (String × String) → String
  pub remembered : String → Option String
  pub fetch_directory_status : Rows → Directory → Option ℕ → Outer W (Option DirectoryStatus)
