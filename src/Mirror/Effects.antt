-- ===== src/Mirror/Effects.antt =====
-- The effects of the mirror in workers/shared/scim.ts: the tables it reads and writes, the queue of a
-- batching caller, the clock of the WorkOS leg, the world outside, and exceptions. What was written
-- before a throw stays written.
use scim_bridge.Base.{ℕ, String, Option, List}
use scim_bridge.Base.Result.{Result, ok, err}
use scim_bridge.Types.{IdMapping}
use scim_bridge.Claims.{CreateClaim}

pub data Thrown : Type 0 where
  fetch_failed : String → Thrown
  mapping_is_ambiguous : Thrown

-- `errorMessage`
abbrev pub error_message : Thrown → String
error_message (fetch_failed message) = message
error_message mapping_is_ambiguous = "SCIM mapping is ambiguous"

-- `sink` is the queue of a batching caller, in the order queued; `elapsed` is `acc.ms`.
pub record Store (W : Type 0) : Type 0 where
  pub mappings : List IdMapping
  pub claims : List CreateClaim
  pub sink : Option (List IdMapping)
  pub elapsed : ℕ
  pub world : W

abbrev pub M : Type 0 → Type 0 → Type 0
M W A = Store W → Result Thrown A × Store W

abbrev pub pure : {W A : Type 0} → A → M W A
pure a s = (ok a, s)

abbrev pub throw : {W A : Type 0} → Thrown → M W A
throw e s = (err e, s)

abbrev pub continue :
    {W A B : Type 0} → Result Thrown A × Store W → (A → M W B) → Result Thrown B × Store W
continue (ok a, s) f = f a s
continue (err e, s) f = (err e, s)

infixl 5 ◌>>=◌ ◌>>◌
abbrev pub ◌>>=◌ : {W A B : Type 0} → M W A → (A → M W B) → M W B
◌>>=◌ m f s = continue (m s) f

abbrev pub ◌>>◌ : {W A B : Type 0} → M W A → M W B → M W B
m >> n = m >>= λ _. n

abbrev pub caught :
    {W A : Type 0} → Result Thrown A × Store W → (Thrown → M W A) → Result Thrown A × Store W
caught (ok a, s) handle = (ok a, s)
caught (err e, s) handle = handle e s

-- `try { … } catch (error) { … }`
abbrev pub catch : {W A : Type 0} → M W A → (Thrown → M W A) → M W A
catch m handle s = caught (m s) handle
