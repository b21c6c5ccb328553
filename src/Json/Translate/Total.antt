-- ===== src/Json/Translate/Total.antt =====
-- Translating the ids of resources and list responses (workers/shared/scim.ts) by a translator that
-- refuses none.
use scim_bridge.Base.{String, ◌≡◌, refl, Option, some}
use scim_bridge.Base.Result.{ok}
use scim_bridge.Types.{ResourceType, users}
use scim_bridge.Json.{Value, str, arr, obj, Items, nil, cons, Fields, get, set}
use scim_bridge.Json.Translate.{
  Translator, translate_reference, translate_member, translate_member_entries, translate_own,
  translate_members, translate_resource_ids, translate_entry, translate_entries, translate_listing,
  translate_list_response,
}

-- A translator that refuses no id refuses no resource.
module _ (tr : Translator)
    (total : (kind : ResourceType) → (id : String) → (t : String) × (tr kind id ≡ ok t)) where
  member-total : (x : Value) → (y : Value) × (translate_member tr x ≡ ok y)
  member-total (obj fs) = reference-total (get "value" fs) fs
    where
      reference-total :
          (o : Option Value) (fs : Fields) → (y : Value) × (translate_reference tr o fs ≡ ok y)
      reference-total (some (str id)) fs =
          let (t, went) = total users id in (obj (set "value" (str t) fs), rw went refl)
      reference-total _ fs = (obj fs, refl)
  member-total v = (v, refl)

  entries-total : (xs : Items) → (ys : Items) × (translate_member_entries tr xs ≡ ok ys)
  unfolding translate_member_entries
  entries-total nil = (nil, refl)
  entries-total (cons x xs) =
      let (y, first) = member-total x in
      let (ys, rest) = entries-total xs in (cons y ys, rw (first, rest) refl)

  own-total :
      (kind : ResourceType) (o : Option Value) (fs : Fields)
      → (out : Fields) × (translate_own tr kind o fs ≡ ok out)
  own-total kind (some (str id)) fs =
      let (t, went) = total kind id in (set "id" (str t) fs, rw went refl)
  own-total kind _ fs = (fs, refl)

  members-total :
      (o : Option Value) (fs : Fields) → (out : Fields) × (translate_members tr o fs ≡ ok out)
  members-total (some (arr xs)) fs =
      let (ys, went) = entries-total xs in (set "members" (arr ys) fs, rw went refl)
  members-total _ fs = (fs, refl)

  pub resource-total :
      (kind : ResourceType) (fs : Fields)
      → (out : Fields) × (translate_resource_ids fs kind tr ≡ ok out)
  unfolding translate_resource_ids
  resource-total kind fs =
      let (mid, own) = own-total kind (get "id" fs) fs in
      let (out, rest) = members-total (get "members" mid) mid in (out, rw (own, rest) refl)

  item-total : (kind : ResourceType) (x : Value) → (y : Value) × (translate_entry kind tr x ≡ ok y)
  item-total kind (obj fs) = let (out, went) = resource-total kind fs in (obj out, rw went refl)
  item-total kind v = (v, refl)

  items-total :
      (kind : ResourceType) (xs : Items) → (ys : Items) × (translate_entries kind tr xs ≡ ok ys)
  unfolding translate_entries
  items-total kind nil = (nil, refl)
  items-total kind (cons x xs) =
      let (y, first) = item-total kind x in
      let (ys, rest) = items-total kind xs in (cons y ys, rw (first, rest) refl)

  listing-total :
      (kind : ResourceType) (o : Option Value) (fs : Fields)
      → (out : Fields) × (translate_listing kind tr o fs ≡ ok out)
  listing-total kind (some (arr xs)) fs =
      let (ys, went) = items-total kind xs in (set "Resources" (arr ys) fs, rw went refl)
  listing-total kind _ fs = (fs, refl)

  pub response-total :
      (kind : ResourceType) (fs : Fields)
      → (out : Fields) × (translate_list_response fs kind tr ≡ ok out)
  unfolding translate_list_response
  response-total kind fs = listing-total kind (get "Resources" fs) fs
