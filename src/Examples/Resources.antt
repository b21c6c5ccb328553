-- ===== src/Examples/Resources.antt =====
-- Examples on resources, their ids and native namespaces (workers/shared/scim.ts and
-- workers/shared/native-namespace.ts).
use scim_bridge.Base.{
  String, ◌==◌, string_eq, if◌then◌else◌, ◌≡◌, ◌⊎◌, ◌↔◌, refl, true, false, some, none, List, [],
  ◌∷◌, arith, eq_iff, inl, inr, lookup, upsert,
}
use scim_bridge.Base.Result.{ok}
use scim_bridge.Base.Text.{trim, drop_start, drop_end, is_space}
use scim_bridge.Types.{
  users, groups, migrated_id, fallback_post, IdMapping, Directory, workos_primary,
}
use scim_bridge.Json.{null, str, arr, obj, nil, cons, Fields, end, field}
use scim_bridge.Json.Strip.{strip_nulls, IsClean, strip_nulls-IsClean, strip_nulls-eq_iff}
use scim_bridge.Json.Translate.{translate_resource_ids, translate_list_response}
use scim_bridge.Json.Translate.RoundTrip.{ResourceIds, ResponseIds}
use scim_bridge.Scim.IdMaps.Translation.{
  HasMapping, IsMapped, translate_resource_ids-back, translate_list_response-back,
}
use scim_bridge.Base.Text.{slash_segments, after_prefix}
use scim_bridge.Scim.Path.{ScimPath, parse_scim_path, ends_segment, decode_all}
use scim_bridge.Scim.Path.Accepted.{parse_scim_path-Names, Names}
use scim_bridge.Scim.IdMaps.{
  IdTranslationMaps, load_rows, load_id_maps, load_row, map_get, map_set, checked_get, to_workos,
  to_native,
}
use scim_bridge.Scim.IdMaps.Owner.{
  Stored, checked_get-owner, to_native-to_workos, load_id_maps-strict,
}
use scim_bridge.Scim.Namespace.{UrlParser, native_namespace_key, native_namespace_is_shared}
use scim_bridge.Namespace.{check_native_namespace}
use scim_bridge.Namespace.Agreement.{candidate_of, check-eq-none_iff}

abbrev nested : Fields
nested = field "id" (str "1") (field "nick" null (field "name" (obj (field "family" null end)) end))

strip_nulls-IsClean_example : IsClean (strip_nulls (obj nested))
strip_nulls-IsClean_example = strip_nulls-IsClean (obj nested)

strip_nulls-eq_iff_example :
    (strip_nulls (arr (cons null nil)) ≡ arr (cons null nil)) ↔ IsClean (arr (cons null nil))
strip_nulls-eq_iff_example = strip_nulls-eq_iff (arr (cons null nil))

abbrev ada : IdMapping
ada = record {
  directory_id = "d";
  resource_type = users;
  native_id = "1";
  workos_id = "1";
  strategy = migrated_id;
}

abbrev bob : IdMapping
bob = record {
  directory_id = "d";
  resource_type = users;
  native_id = "2";
  workos_id = "w";
  strategy = fallback_post;
}

abbrev rows : List IdMapping
rows = ada ∷ bob ∷ []

abbrev loaded_maps : IdTranslationMaps
loaded_maps = record {
  for_users = record {
    native_to_workos = ("1", "1") ∷ ("2", "w") ∷ [];
    workos_to_native = ("1", "1") ∷ ("w", "2") ∷ [];
    ambiguous_ids = [];
  };
  for_groups = record { native_to_workos = []; workos_to_native = []; ambiguous_ids = [] };
}

loads : load_id_maps "d" true rows ≡ ok loaded_maps
unfolding load_id_maps load_rows load_row map_get map_set lookup upsert
loads = refl

bob-Stored : Stored rows "d" users "2" "w"
bob-Stored = (bob, inr (inl refl), refl, refl, refl, refl)

checked_get-owner_example :
    Stored rows "d" users "2" "w"
    × ((other : String) → Stored rows "d" users other "w" → other ≡ "2")
unfolding checked_get map_get lookup
checked_get-owner_example = checked_get-owner rows "d" users true loaded_maps loads "w" "2" refl

to_native-to_workos_example : ◌≡◌ {A = String} "2" "2"
unfolding to_workos to_native checked_get map_get lookup
to_native-to_workos_example =
    to_native-to_workos rows "d" users true loaded_maps loads "2" "w" "w" "2" bob-Stored refl refl

load_id_maps-strict_example : ◌≡◌ {A = String} "2" "2"
load_id_maps-strict_example =
    load_id_maps-strict rows "d" users loaded_maps "w" "2" "2" loads bob-Stored bob-Stored

abbrev crew : IdMapping
crew = record {
  directory_id = "d";
  resource_type = groups;
  native_id = "g";
  workos_id = "h";
  strategy = fallback_post;
}

abbrev all_maps : IdTranslationMaps
all_maps = record {
  for_users = loaded_maps.for_users;
  for_groups = record {
    native_to_workos = ("g", "h") ∷ [];
    workos_to_native = ("h", "g") ∷ [];
    ambiguous_ids = [];
  };
}

all_load : load_id_maps "d" true (crew ∷ rows) ≡ ok all_maps
unfolding load_id_maps load_rows load_row map_get map_set lookup upsert
all_load = refl

abbrev team : Fields
team =
    field "id" (str "g") (field "members" (arr (cons (obj (field "value" (str "2") end)) nil)) end)

crew-HasMapping : HasMapping (crew ∷ rows) "d" groups "g"
crew-HasMapping = ("h", (crew, inl refl, refl, refl, refl, refl))

bob-HasMapping : HasMapping (crew ∷ rows) "d" users "2"
bob-HasMapping = ("w", (bob, inr (inr (inl refl)), refl, refl, refl, refl))

translate_resource_ids-back_example :
    (out : Fields) × (translate_resource_ids team groups (to_workos all_maps) ≡ ok out)
    × ResourceIds (IsMapped (crew ∷ rows) "d") groups out
    × (translate_resource_ids out groups (to_native all_maps) ≡ ok team)
translate_resource_ids-back_example =
    translate_resource_ids-back (crew ∷ rows) "d" all_maps all_load groups team
      (crew-HasMapping, (bob-HasMapping, tt))

abbrev listing : Fields
listing = field "Resources" (arr (cons (obj team) nil)) end

translate_list_response-back_example :
    (out : Fields) × (translate_list_response listing groups (to_workos all_maps) ≡ ok out)
    × ResponseIds (IsMapped (crew ∷ rows) "d") groups out
    × (translate_list_response out groups (to_native all_maps) ≡ ok listing)
translate_list_response-back_example =
    translate_list_response-back (crew ∷ rows) "d" all_maps all_load groups listing
      ((crew-HasMapping, (bob-HasMapping, tt)), tt)

abbrev read_url : UrlParser
read_url text =
    if text == ""
    then none
    else some (record { protocol = "https:"; hostname = text; port = ""; pathname = "/scim" })

abbrev acme : Directory
acme = record {
  id = "d";
  name = "Acme";
  mode = workos_primary;
  proxy_token_hash = "";
  proxy_token_hint = "";
  native_url = "acme.test";
  native_token = "t";
  native_token_partitioned = false;
  workos_url = "";
  workos_token = "";
  workos_directory_id = none;
  log_persistence = false;
}

abbrev beta : Directory
beta = record acme { id = "e"; native_url = "beta.test" }

-- A directory whose native URL is not filled in yet.
abbrev unfilled : Directory
unfilled = record acme { id = "f"; native_url = "" }

check-eq-none_iff_example :
    (check_native_namespace read_url "beta.test" (acme ∷ unfilled ∷ []) (candidate_of beta) ≡ none)
    ↔ ((beta.native_url ≡ "")
        ⊎ (((key : String) × (native_namespace_key read_url "beta.test" ≡ some key))
            × (native_namespace_is_shared read_url beta (acme ∷ unfilled ∷ []) ≡ false)))
unfolding trim drop_start drop_end is_space native_namespace_key
check-eq-none_iff_example = check-eq-none_iff read_url beta (acme ∷ unfilled ∷ []) refl refl (
  (λ e. ground (arith, eq_iff "d" "e"), inr (refl, (_, refl))),
  ((λ e. ground (arith, eq_iff "f" "e"), inl refl), tt),
)

abbrev user_path : ScimPath
user_path = record { kind = some users; id = some "1"; discovery = false; rest = "/Users/1" }

parse_scim_path-Names_example :
    (◌≡◌ {A = String} "/scim/v2/Users/1" (Prim.Native.String.◌++◌ "/scim/v2" "/Users/1"))
    × (ends_segment "/Users/1" ≡ true)
    × ((segments : List String) × (decode_all some (slash_segments "/Users/1") ≡ some segments)
        × Names segments user_path)
unfolding parse_scim_path after_prefix slash_segments
parse_scim_path-Names_example = parse_scim_path-Names some "/scim/v2/Users/1" user_path refl
