-- ===== src/Scim/Http.antt =====
-- HTTP as `scimFetch` of workers/shared/scim.ts uses it. The network, `JSON.parse`,
-- `JSON.stringify`, `encodeURIComponent`, the URL class and `crypto.randomUUID` are not the
-- program's: they are the fields of `Upstream`, over a type of states of the outside world.
use Prim.Native.String
use Prim.Native.Char.{code}
use scim_bridge.Base.{
  ℕ, zero, suc, String, Bool, true, false, Option, none, some, List, [], ◌∷◌, ◌&&◌, ◌==◌, string_eq,
  upsert, leb, ltb, if◌then◌else◌,
}
use scim_bridge.Base.Text.{is_space, trim, strip_slashes, to_lower, concat}
use scim_bridge.Json.{Value, Fields, get, as_string, parse_json}
use scim_bridge.Scim.Path.{forwardable_headers}
use scim_bridge.Scim.Namespace.{Url, UrlParser}

pub record HttpRequest : Type 0 where
  pub url : String
  pub method : String
  pub headers : List (String × String)
  pub body : Option String

-- A response, with the milliseconds that it took; the text is empty where there is no body.
pub record HttpResponse : Type 0 where
  pub status : ℕ
  pub ms : ℕ
  pub text : String
  pub header : String → Option String

pub data Fetched : Type 0 where
  unreachable : String → Fetched
  answered : HttpResponse → Fetched

pub record Upstream (W : Type 0) : Type 0 where
  pub fetch : HttpRequest → W → Fetched × W
  pub random_uuid : W → String × W
  pub parse : String → Option Value
  pub stringify : Value → String
  pub encode : String → String
  pub parse_url : UrlParser
  -- `url.search = ""; url.hash = ""; url.pathname = path; url.toString()`
  pub url_with_path : Url → String → String

pub record UpstreamResult : Type 0 where
  pub status : ℕ
  pub ms : ℕ
  pub body_text : Option String
  pub content_type : Option String
  pub headers : List (String × String)

abbrev pub is_success : ℕ → Bool
is_success status = leb 200 status && ltb status 300

abbrev pub joined : (Url → String → String) → String → String → Option Url → String
joined with_path base path none = String.◌++◌ (strip_slashes base) path
joined with_path base path (some url) =
    with_path url (String.◌++◌ (strip_slashes url.pathname) path)

unfoldable pub join_scim_url : UrlParser → (Url → String → String) → String → String → String
join_scim_url parse with_path base path = joined with_path base path (parse base)

-- `ScimFetchOptions`
pub record FetchOptions : Type 0 where
  pub method : String
  pub token : String
  pub body : Option String
  pub content_type : Option String
  pub migrated_id : Option String
  pub request_headers : List (String × String)

abbrev header_key : String × String → String
header_key h = to_lower h.0

-- `Headers.set`
abbrev pub set_header : String → String → List (String × String) → List (String × String)
set_header name value headers = upsert header_key (λ h. (h.0, value)) (name, value) headers

abbrev pub set_headers : List (String × String) → List (String × String) → List (String × String)
set_headers [] headers = headers
set_headers ((name, value) ∷ rest) headers = set_headers rest (set_header name value headers)

abbrev pub or_else : String → Option String → String
or_else value none = value
or_else value (some v) = v

abbrev pub content_header :
    Option String → Option String → List (String × String) → List (String × String)
content_header none content_type headers = headers
content_header (some body) content_type headers =
    set_header "Content-Type" (or_else "application/scim+json" content_type) headers

abbrev pub migrated_id_header : String
migrated_id_header = "X-WorkOS-Migrated-Id"

abbrev pub migrated_header : Option String → List (String × String) → List (String × String)
migrated_header none headers = headers
migrated_header (some id) headers = set_header migrated_id_header id headers

unfoldable pub scim_request : String → FetchOptions → HttpRequest
scim_request url o = record {
  url = url;
  method = o.method;
  headers = set_headers o.request_headers (
      migrated_header o.migrated_id (
        content_header o.body o.content_type
          (("Authorization", String.◌++◌ "Bearer " o.token) ∷ [])));
  body = o.body;
}

unfoldable pub upstream_result : HttpResponse → UpstreamResult
upstream_result r = record {
  status = r.status;
  ms = r.ms;
  body_text = if r.text == "" then none else some r.text;
  content_type = r.header "Content-Type";
  headers = forwardable_headers r.header;
}

-- `replace(/\s+/g, " ")`; the flag says that the character before was white space
collapse : Bool → String → String
collapse after String.[] = String.[]
collapse after (String.◌∷◌ c s) = elim (is_space (code c)) [
  | true ↦ elim after [ true ↦ collapse true s | false ↦ String.◌++◌ " " (collapse true s) ]
  | false ↦ String.◌∷◌ c (collapse false s)
]

-- The first characters of a text, and whether any are left.
cap : ℕ → String → String × Bool
cap zero String.[] = (String.[], false)
cap zero (String.◌∷◌ c s) = (String.[], true)
cap (suc n) String.[] = (String.[], false)
cap (suc n) (String.◌∷◌ c s) = let (t, more) = cap n s in (String.◌∷◌ c t, more)

abbrev capped : String × Bool → String
capped (t, more) = if more then String.◌++◌ t "…" else t

abbrev detail_text : Option String → String → String
detail_text none detail = detail
detail_text (some scim_type) detail =
    if scim_type == "" then detail else concat (scim_type ∷ ": " ∷ detail ∷ [])

abbrev detail_of : Option Fields → Option String
detail_of none = none
detail_of (some body) = elim (as_string (get "detail" body)) [
  | none ↦ none
  | some detail ↦
      let line = trim (collapse false (detail_text (as_string (get "scimType" body)) detail)) in
      if line == "" then none else some (capped (cap 200 line))
]

unfoldable pub scim_error_detail : (String → Option Value) → Option String → Option String
unfolding collapse cap
scim_error_detail parse body_text = detail_of (parse_json parse body_text)
