-- ===== src/Listener/Status.antt =====
-- `fetchDirectoryStatus` of workers/native/status-client.ts: the status of a directory, from the bridge
-- or from what the bridge last confirmed. A status is the JSON value that was received; reading its
-- fields is the caller's. The two maps of the module are functions of a directory's id.
pub mod Fresh
use scim_bridge.Base.{
  ℕ, ◌+◌, String, Bool, true, false, Option, none, some, List, [], ◌∷◌, not, ◌&&◌, ◌==◌, string_eq,
  nat_eq, leb, ltb, if◌then◌else◌,
}
use scim_bridge.Base.Text.{concat}
use scim_bridge.Base.Effects.{Effect}
use scim_bridge.Base.Result.{Result, ok, err}
use scim_bridge.Types.{Directory}
use scim_bridge.Json.{Value}
use scim_bridge.Scim.Http.{HttpRequest, HttpResponse, Fetched, unreachable, answered, is_success}
use scim_bridge.Listener.{Rows, Outside}
use scim_bridge.Listener.Reading.{nonempty}
use scim_bridge.Listener.Config.{base_url, client_token_for}

-- `TTL_MS`
abbrev pub ttl_ms : ℕ
ttl_ms = 5000

-- `CacheEntry`
pub record CacheEntry : Type 0 where
  pub status : Value
  pub etag : Option String
  pub validated_at : ℕ

-- The maps `cache` and `failedUntil`, and the world outside.
pub record Client (W : Type 0) : Type 0 where
  pub cache : String → Option CacheEntry
  pub failed_until : String → Option ℕ
  pub world : W

-- `map.set(key, value)`
abbrev pub with_entry : {A : Type 0} → String → A → (String → Option A) → String → Option A
with_entry key value map k = if key == k then some value else map k

-- The caller's instant, where it names one, is no later than the given one.
abbrev pub is_since : Option ℕ → ℕ → Bool
is_since none at = true
is_since (some since) at = leb since at

-- `isUsable`
unfoldable pub is_usable : CacheEntry → ℕ → Option ℕ → Bool
is_usable entry now validated_since =
    not (leb (entry.validated_at + ttl_ms) now) && is_since validated_since entry.validated_at

abbrev pub StatusRead : Type 0 → Type 0
StatusRead W = Effect (Client W) String (Option Value)

abbrev pub etag_header : Option CacheEntry → List (String × String)
etag_header none = []
etag_header (some entry) = elim (nonempty entry.etag) [
  | none ↦ []
  | some etag ↦ ("If-None-Match", etag) ∷ []
]

-- `staleAnswer`
abbrev pub stale_answer : Option ℕ → Option CacheEntry → Option Value
stale_answer none cached = none
stale_answer (some since) none = none
stale_answer (some since) (some entry) = some entry.status

abbrev pub is_later : Option ℕ → ℕ → Bool
is_later none now = false
is_later (some until) now = ltb now until

module _ {W : Type 0} (o : Outside W) (rows : Rows) (directory : Directory)
    (validated_since : Option ℕ) (now : ℕ) (cached : Option CacheEntry) where
  abbrev pub stale_read : StatusRead W
  stale_read c = (ok (stale_answer validated_since cached), c)

  abbrev pub back_off : StatusRead W
  back_off c =
      stale_read (record c { failed_until = with_entry directory.id (now + ttl_ms) c.failed_until })

  abbrev pub remember : CacheEntry → StatusRead W
  remember entry c =
      (ok (some entry.status), record c { cache = with_entry directory.id entry c.cache })

  -- A response that confirms no entry.
  unfoldable pub read_response : HttpResponse → StatusRead W
  read_response response =
      if not (is_success response.status) then back_off else elim (o.upstream.parse response.text) [
        | none ↦ back_off
        | some status ↦
            remember (record { status = status; etag = response.header "ETag"; validated_at = now })
      ]

  abbrev pub after_response : Option CacheEntry → HttpResponse → StatusRead W
  after_response none response = read_response response
  after_response (some entry) response =
      if nat_eq response.status 304
      then remember (record entry { validated_at = now })
      else read_response response

  abbrev pub after_fetch : Fetched × W → Client W → Result String (Option Value) × Client W
  after_fetch (unreachable message, w) c = back_off (record c { world = w })
  after_fetch (answered response, w) c = after_response cached response (record c { world = w })

  abbrev pub status_request : String → String → HttpRequest
  status_request base token = record {
    url = concat (base ∷ "/status/directories/" ∷ o.upstream.encode directory.id ∷ []);
    method = "GET";
    headers = ("Authorization", concat ("Bearer " ∷ token ∷ [])) ∷ etag_header cached;
    body = none;
  }

  abbrev pub with_token : String → Option String → StatusRead W
  with_token base none = stale_read
  with_token base (some token) =
      λ c. after_fetch (o.upstream.fetch (status_request base token) c.world) c

  abbrev pub with_base : Option String → StatusRead W
  with_base none = stale_read
  with_base (some base) = with_token base (nonempty (client_token_for o rows directory.id))

  -- Behind the cache.
  unfoldable pub revalidate : StatusRead W
  unfolding read_response
  revalidate c =
      if is_later (c.failed_until directory.id) now
      then stale_read c
      else with_base (base_url rows) c

module _ {W : Type 0} (o : Outside W) (rows : Rows) (directory : Directory)
    (validated_since : Option ℕ) where
  abbrev pub read_at : ℕ → Option CacheEntry → StatusRead W
  read_at now none = revalidate o rows directory validated_since now none
  read_at now (some entry) = λ c.
      if is_usable entry now validated_since
      then (ok (some entry.status), c)
      else revalidate o rows directory validated_since now (some entry) c

  -- `fetchDirectoryStatus`
  unfoldable pub fetch_directory_status : StatusRead W
  unfolding revalidate is_usable
  fetch_directory_status c =
      let r = o.date_now c.world in read_at r.0 (c.cache directory.id) (record c { world = r.1 })
