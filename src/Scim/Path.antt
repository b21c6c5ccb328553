-- ===== src/Scim/Path.antt =====
-- Requests as the proxy reads them: `authorizationToken`, `parseScimPath` and the header
-- allowlists of workers/shared/scim.ts. `decodeURIComponent` is a parameter that may throw.
pub mod Accepted
use mathlib.Core.Option
use Prim.Native.Char.{code}
use scim_bridge.Base.{
  String, Bool, true, false, Option, none, some, List, [], ◌∷◌, ◌||◌, ◌==◌, string_eq,
  if◌then◌else◌, nat_eq,
}
use scim_bridge.Base.Text.{
  is_space, is_line_end, some_char, drop_start, trim, to_lower, after_prefix, slash_segments,
}
use scim_bridge.Types.{ResourceType, users, groups}

-- `/^Bearer\s+(.*)$/i` behind the scheme: white space, then a token on one line
abbrev bearer_rest : Option String → Option String
bearer_rest none = none
bearer_rest (some String.[]) = none
bearer_rest (some (String.◌∷◌ c s)) =
    let token = drop_start is_space s in
    if is_space (code c) then (if some_char is_line_end token then none else some token) else none

-- The first six characters, if there are as many, and what stands behind them.
abbrev six : String → String × String
six (String.◌∷◌ a (String.◌∷◌ b (String.◌∷◌ c (String.◌∷◌ d (String.◌∷◌ e (String.◌∷◌ f s)))))) = (
  String.◌∷◌ a (String.◌∷◌ b (String.◌∷◌ c (String.◌∷◌ d (String.◌∷◌ e (String.◌∷◌ f String.[]))))),
  s,
)
six s = (s, String.[])

match_bearer : String → Option String
match_bearer value =
    let (scheme, s) = six value in
    if to_lower scheme == "bearer" then bearer_rest (some s) else none

abbrev token_of : String → Option String → String
token_of value (some token) = trim token
token_of value none = if some_char is_space value then "" else value

abbrev header_text : Option String → String
header_text none = ""
header_text (some h) = h

unfoldable pub authorization_token : Option String → String
unfolding match_bearer is_space is_line_end some_char drop_start trim to_lower
authorization_token header =
    let value = trim (header_text header) in token_of value (match_bearer value)

abbrev pub scim_prefix : String
scim_prefix = "/scim/v2"

pub record ScimPath : Type 0 where
  pub kind : Option ResourceType
  pub id : Option String
  pub discovery : Bool
  pub rest : String

abbrev pub is_discovery_root : String → Bool
is_discovery_root head =
    head == "ServiceProviderConfig" || head == "Schemas" || head == "ResourceTypes"

abbrev pub resource_head : String → Option ResourceType
resource_head head =
    if head == "Users" then some users else if head == "Groups" then some groups else none

abbrev pub resource_path : ResourceType → List String → String → Option ScimPath
resource_path kind [] rest =
    some (record { kind = some kind; id = none; discovery = false; rest = rest })
resource_path kind (id ∷ []) rest =
    some (record { kind = some kind; id = some id; discovery = false; rest = rest })
resource_path kind (_ ∷ _ ∷ _) rest = none

abbrev pub path_of : List String → String → Option ScimPath
path_of [] rest = none
path_of (head ∷ tail) rest = elim (resource_head head) [
  | some kind ↦ resource_path kind tail rest
  | none ↦
      if is_discovery_root head
      then some (record { kind = none; id = none; discovery = true; rest = rest })
      else none
]

-- Behind the prefix a segment must end, at the end of the path or by a slash.
abbrev pub ends_segment : String → Bool
ends_segment String.[] = true
ends_segment (String.◌∷◌ c s) = nat_eq (code c) b'/'

abbrev pub decode_all : (String → Option String) → List String → Option (List String)
decode_all decode [] = some []
decode_all decode (s ∷ ss) = elim (decode s) [
  | none ↦ none
  | some d ↦ Option.map (λ ds. d ∷ ds) (decode_all decode ss)
]

abbrev pub parse_rest : (String → Option String) → Option String → Option ScimPath
parse_rest decode none = none
parse_rest decode (some rest) = elim (decode_all decode (slash_segments rest)) [
  | none ↦ none
  | some segments ↦ if ends_segment rest then path_of segments rest else none
]

unfoldable pub parse_scim_path : (String → Option String) → String → Option ScimPath
parse_scim_path decode pathname = parse_rest decode (after_prefix scim_prefix pathname)

-- Headers are the list of their names and values; `Headers.get` is the parameter `header`.
abbrev pub picked : List String → (String → Option String) → List (String × String)
picked [] header = []
picked (name ∷ names) header = elim (header name) [
  | none ↦ picked names header
  | some value ↦ (name, value) ∷ picked names header
]

abbrev pub forwarded_response_headers : List String
forwarded_response_headers = "Location" ∷ "ETag" ∷ "Retry-After" ∷ []

abbrev pub conditional_request_header_names : List String
conditional_request_header_names =
    "If-Match" ∷ "If-None-Match" ∷ "If-Modified-Since" ∷ "If-Unmodified-Since" ∷ []

unfoldable pub conditional_request_headers : (String → Option String) → List (String × String)
conditional_request_headers header = picked conditional_request_header_names header

unfoldable pub forwardable_headers : (String → Option String) → List (String × String)
forwardable_headers header = picked forwarded_response_headers header
