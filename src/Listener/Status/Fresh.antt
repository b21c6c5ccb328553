-- ===== src/Listener/Status/Fresh.antt =====
-- How old a status may be that `fetchDirectoryStatus` of workers/native/status-client.ts answers.
use scim_bridge.Base.{ℕ, ◌+◌, ◌<◌, ◌≤◌, String, ◌≡◌, ◌≢◌, true, Option, none, some, string_eq, ◌⊎◌}
use scim_bridge.Base.Result.{Result, ok}
use scim_bridge.Types.{Directory}
use scim_bridge.Json.{Value}
use scim_bridge.Listener.{Rows, Outside}
use scim_bridge.Listener.Reading.{nonempty}
use scim_bridge.Listener.Config.{base_url, client_token_for}
use scim_bridge.Listener.Status.{CacheEntry, Client, is_since}

-- Confirmed within the five seconds before the clock's time and, where an instant was asked for, no
-- earlier than that.
pub IsFresh : Option ℕ → ℕ → CacheEntry → Type 0
IsFresh none now entry = now < entry.validated_at + 5000
IsFresh (some since) now entry = (since ≤ entry.validated_at) × (now < entry.validated_at + 5000)

-- The bridge could not confirm anything: a failure not long ago keeps it from being asked, there is no
-- address of it or no token for it, or it was asked and failed now, which the back-off records.
pub Unconfirmed : {W : Type 0} → Outside W → Rows → String → ℕ → Client W → Client W → Type 0
Unconfirmed o rows id now c after =
    ((until : ℕ) × (c.failed_until id ≡ some until) × (now < until))
    ⊎ ((base_url rows ≡ none)
        ⊎ ((nonempty (client_token_for o rows id) ≡ none)
            ⊎ (after.failed_until id ≡ some (now + 5000))))

-- What the answer rests on: a fresh entry, or, only where an instant was asked for and the bridge could
-- not confirm anything, the entry that was held.
pub Supports :
    {W : Type 0}
    → Outside W
    → Rows
    → String
    → Option ℕ
    → ℕ
    → Client W
    → Client W
    → CacheEntry
    → Type 0
Supports o rows id since now c after entry =
    IsFresh since now entry
    ⊎ ((since ≢ none) × (c.cache id ≡ some entry) × Unconfirmed o rows id now c after)

module _ {W : Type 0} (id : String) (since : Option ℕ) (now : ℕ) (before : Option CacheEntry)
    (Excuse : Client W → Type 0) where
  -- A status that is answered is that of a fresh entry or, with an excuse, of the one held before.
  Supported : Result String (Option Value) × Client W → Type 0
  Supported r =
      (v : Value)
      → r.0 ≡ ok (some v)
      → (entry : CacheEntry) × (r.1.cache id ≡ some entry)
        × (entry.status ≡ v)
        × (IsFresh since now entry ⊎ ((since ≢ none) × (before ≡ some entry) × Excuse r.1))

module _ {W : Type 0} (o : Outside W) (rows : Rows) (directory : Directory) (since : Option ℕ)
    (now : ℕ) (arrived : is_since since now ≡ true) (before : Option CacheEntry)
    (Excuse : Client W → Type 0)
    (failing : (c : Client W) → c.failed_until directory.id ≡ some (now + 5000) → Excuse c) where
  Good : Result String (Option Value) × Client W → Type 0
  Good r = Supported directory.id since now before Excuse r

module _ {W : Type 0} (o : Outside W) (rows : Rows) (directory : Directory) (since : Option ℕ)
    (now : ℕ) (arrived : is_since since now ≡ true) (first : Client W) where
  Excused : Client W → Type 0
  Excused after = Unconfirmed o rows directory.id now first after
