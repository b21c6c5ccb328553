-- ===== src/Json/Translate.antt =====
-- Id translation in resources (workers/shared/scim.ts). A translator may refuse an id.
pub mod RoundTrip
pub mod Total
pub mod Carried
use scim_bridge.Base.{String, ◌≡◌, false, Option, some, ◌==◌, string_eq, eq_iff, beq_refl, arith}
use scim_bridge.Base.Result.{Result, ok, ◌>>=◌}
use scim_bridge.Types.{ResourceType, users}
use scim_bridge.Mappings.{Ambiguous}
use scim_bridge.Json.{Value, str, arr, obj, Items, nil, cons, Fields, end, field, get, set}

-- `IdTranslator`
abbrev pub Translator : Type 0
Translator = ResourceType → String → Result Ambiguous String

-- The entry of a member list: an object whose `value` is a string is translated as a user id.
abbrev pub translate_reference : Translator → Option Value → Fields → Result Ambiguous Value
translate_reference tr (some (str id)) fs = do t ← tr users id; ok (obj (set "value" (str t) fs))
translate_reference tr _ fs = ok (obj fs)

abbrev pub translate_member : Translator → Value → Result Ambiguous Value
translate_member tr (obj fs) = translate_reference tr (get "value" fs) fs
translate_member tr v = ok v

unfoldable pub translate_member_entries : Translator → Items → Result Ambiguous Items
translate_member_entries tr nil = ok nil
translate_member_entries tr (cons x xs) = do
  y ← translate_member tr x
  ys ← translate_member_entries tr xs
  ok (cons y ys)

abbrev pub translate_own :
    Translator → ResourceType → Option Value → Fields → Result Ambiguous Fields
translate_own tr kind (some (str id)) fs = do t ← tr kind id; ok (set "id" (str t) fs)
translate_own tr kind _ fs = ok fs

abbrev pub translate_members : Translator → Option Value → Fields → Result Ambiguous Fields
translate_members tr (some (arr xs)) fs = do
  ys ← translate_member_entries tr xs
  ok (set "members" (arr ys) fs)
translate_members tr _ fs = ok fs

unfoldable pub translate_resource_ids : Fields → ResourceType → Translator → Result Ambiguous Fields
translate_resource_ids resource kind tr = do
  out ← translate_own tr kind (get "id" resource) resource
  translate_members tr (get "members" out) out

abbrev pub translate_entry : ResourceType → Translator → Value → Result Ambiguous Value
translate_entry kind tr (obj fs) = do out ← translate_resource_ids fs kind tr; ok (obj out)
translate_entry kind tr v = ok v

unfoldable pub translate_entries : ResourceType → Translator → Items → Result Ambiguous Items
translate_entries kind tr nil = ok nil
translate_entries kind tr (cons x xs) = do
  y ← translate_entry kind tr x
  ys ← translate_entries kind tr xs
  ok (cons y ys)

abbrev pub translate_listing :
    ResourceType → Translator → Option Value → Fields → Result Ambiguous Fields
translate_listing kind tr (some (arr xs)) body = do
  ys ← translate_entries kind tr xs
  ok (set "Resources" (arr ys) body)
translate_listing kind tr _ body = ok body

unfoldable pub translate_list_response :
    Fields → ResourceType → Translator → Result Ambiguous Fields
translate_list_response body kind tr = translate_listing kind tr (get "Resources" body) body

pub get-set_self : (key : String) (v : Value) (fs : Fields) → get key (set key v fs) ≡ some v
get-set_self key v end = rw (beq_refl key)
get-set_self key v (field k w fs) =
    ground (arith, eq_iff k key, eq_iff key key, get-set_self key v fs)

pub get-set_ne :
    (key other : String) (v : Value) (fs : Fields)
    → (key == other) ≡ false
    → get other (set key v fs) ≡ get other fs
get-set_ne key other v end h = rw h
get-set_ne key other v (field k w fs) h =
    ground (arith, eq_iff k key, eq_iff k other, eq_iff key other, get-set_ne key other v fs h)

pub set-set_self :
    (key : String) (v w : Value) (fs : Fields) → get key fs ≡ some v → set key v (set key w fs) ≡ fs
set-set_self key v w end h = cc
set-set_self key v w (field k u fs) h =
    ground (arith, eq_iff k key, eq_iff key key, set-set_self key v w fs)
