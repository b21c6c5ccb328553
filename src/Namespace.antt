-- ===== src/Namespace.antt =====
-- workers/shared/native-namespace.ts: the check on a native URL where a directory is configured. A
-- refusal is the case that its message reports, with the texts that the message is made of.
pub mod Agreement
use scim_bridge.Base.{
  String, Bool, true, false, Option, none, some, List, not, ◌&&◌, ◌==◌, string_eq, find,
  if◌then◌else◌,
}
use scim_bridge.Base.Text.{trim}
use scim_bridge.Types.{Directory}
use scim_bridge.Scim.Namespace.{
  UrlParser, NativeEndpoint, endpoint, native_namespace_key, token_partition_splits,
}

-- `CandidateEndpoint`
pub record Candidate : Type 0 where
  pub native_token : String
  pub native_token_partitioned : Bool

abbrev pub unattested : Candidate
unattested = record { native_token = ""; native_token_partitioned = false }

abbrev pub candidate_endpoint : String → Candidate → NativeEndpoint
candidate_endpoint url c = record {
  native_url = url;
  native_token = c.native_token;
  native_token_partitioned = c.native_token_partitioned;
}

abbrev pub same_key : String → Option String → Bool
same_key key none = false
same_key key (some other) = other == key

abbrev pub conflicts : UrlParser → String → NativeEndpoint → Directory → Bool
conflicts parse key ours other =
    same_key key (native_namespace_key parse (trim other.native_url))
    && not (token_partition_splits ours (endpoint other))

abbrev pub conflict_at :
    UrlParser → NativeEndpoint → List Directory → Option String → Option Directory
conflict_at parse ours others none = none
conflict_at parse ours others (some key) = find (conflicts parse key ours) others

unfoldable pub find_native_namespace_conflict :
    UrlParser → String → List Directory → Candidate → Option Directory
find_native_namespace_conflict parse native_url others candidate =
    conflict_at parse (candidate_endpoint (trim native_url) candidate) others
      (native_namespace_key parse (trim native_url))

-- The three messages: `unparseableNativeUrlMessage`, `distinctTokenMessage` and
-- `namespaceConflictMessage`, the last two with the directory that holds the namespace.
pub data Refusal : Type 0 where
  unparseable_native_url : String → Refusal
  distinct_token : String → Directory → Refusal
  namespace_conflict : String → Directory → Refusal

abbrev pub refuse_conflict : String → Candidate → Option Directory → Option Refusal
refuse_conflict url candidate none = none
refuse_conflict url candidate (some conflict) =
    if candidate.native_token_partitioned && conflict.native_token_partitioned
    then some (distinct_token url conflict)
    else some (namespace_conflict url conflict)

abbrev pub refuse_key : String → Option String → Option Refusal → Option Refusal
refuse_key url none refusal = some (unparseable_native_url url)
refuse_key url (some key) refusal = refusal

unfoldable pub check_native_namespace :
    UrlParser → String → List Directory → Candidate → Option Refusal
check_native_namespace parse native_url others candidate =
    let trimmed = trim native_url in
    if trimmed == ""
    then none
    else refuse_key trimmed (native_namespace_key parse trimmed) (
        refuse_conflict trimmed candidate
          (find_native_namespace_conflict parse trimmed others candidate))
