-- ===== src/Scim/Namespace.antt =====
-- Native SCIM namespaces (workers/shared/scim.ts): which directories address one set of rows. The
-- URL parser is a parameter: it gives the parts of a text, or fails where `new URL` throws.
use Prim.Native.String
use scim_bridge.Base.{
  String, Bool, true, false, Option, none, some, List, not, ◌&&◌, ◌||◌, ◌==◌, string_eq, any,
  if◌then◌else◌,
}
use scim_bridge.Base.Text.{trim, strip_slashes, to_lower, after_prefix}
use scim_bridge.Types.{Directory}

pub record Url : Type 0 where
  pub protocol : String
  pub hostname : String
  pub port : String
  pub pathname : String

abbrev pub UrlParser : Type 0
UrlParser = String → Option Url

-- `isEncryptedSecret` of workers/shared/crypto.ts
unfoldable pub is_encrypted_secret : String → Bool
unfolding after_prefix
is_encrypted_secret value = elim (after_prefix "enc:v1:" value) [ none ↦ false | some rest ↦ true ]

abbrev pub default_port : String → String
default_port protocol =
    if protocol == "https:" then "443" else if protocol == "http:" then "80" else ""

abbrev pub port_suffix : Url → String
port_suffix url =
    if not (url.port == "") && not (url.port == default_port url.protocol)
    then String.◌++◌ ":" url.port
    else ""

-- The key of a URL that parses.
unfoldable pub url_key : Url → String
url_key url = String.◌++◌ (to_lower url.protocol) (
    String.◌++◌ "//" (
      String.◌++◌ (to_lower url.hostname)
        (String.◌++◌ (port_suffix url) (strip_slashes url.pathname))))

unfoldable pub native_namespace_key : UrlParser → String → Option String
native_namespace_key parse base = elim (parse base) [ none ↦ none | some url ↦ some (url_key url) ]

-- `NativeEndpoint`
pub record NativeEndpoint : Type 0 where
  pub native_url : String
  pub native_token : String
  pub native_token_partitioned : Bool

abbrev pub endpoint : Directory → NativeEndpoint
endpoint d = record {
  native_url = d.native_url;
  native_token = d.native_token;
  native_token_partitioned = d.native_token_partitioned;
}

-- `sharesNamespace`
unfoldable pub shares_namespace : UrlParser → String → String → Bool
shares_namespace parse ours theirs = elim (native_namespace_key parse ours) [
  | none ↦ true
  | some a ↦ elim (native_namespace_key parse theirs) [ none ↦ true | some b ↦ a == b ]
]

-- `timingSafeEqual` is equality of texts.
unfoldable pub token_partition_splits : NativeEndpoint → NativeEndpoint → Bool
token_partition_splits a b =
    let ours = trim a.native_token in
    let theirs = trim b.native_token in
    if not a.native_token_partitioned || not b.native_token_partitioned
    then false
    else if ours == "" || theirs == ""
    then false
    else if is_encrypted_secret ours || is_encrypted_secret theirs
    then false
    else not (ours == theirs)

-- By the two keys, and whether the tokens split: a key that is missing counts as shared.
abbrev pub keys_share : Option String → Option String → Bool → Bool
keys_share none theirs splits = true
keys_share (some a) none splits = true
keys_share (some a) (some b) splits = if not (a == b) then false else not splits

unfoldable pub shares_native_namespace : UrlParser → NativeEndpoint → NativeEndpoint → Bool
shares_native_namespace parse a b =
    keys_share (native_namespace_key parse a.native_url) (native_namespace_key parse b.native_url)
      (token_partition_splits a b)

-- `nativeNamespaceIsShared` over the listed directories
unfoldable pub native_namespace_is_shared : UrlParser → Directory → List Directory → Bool
native_namespace_is_shared parse directory directories =
    any
      (λ other.
        not (other.id == directory.id)
        && not (other.native_url == "")
        && shares_native_namespace parse (endpoint directory) (endpoint other))
      directories
