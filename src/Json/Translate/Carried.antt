-- ===== src/Json/Translate/Carried.antt =====
-- What the ids of a translated resource or list response (workers/shared/scim.ts) are.
use scim_bridge.Base.{String, ◌≡◌, refl, Option, some}
use scim_bridge.Base.Result.{ok, ◌>>=◌, >>=-eq-ok, ok_inj}
use scim_bridge.Types.{ResourceType, users}
use scim_bridge.Json.{Value, str, arr, obj, Items, nil, cons, Fields, get, set}
use scim_bridge.Json.Translate.{
  Translator, translate_reference, translate_member, translate_member_entries, translate_own,
  translate_members, translate_resource_ids, translate_entry, translate_entries, translate_listing,
  translate_list_response, get-set_self, get-set_ne,
}
use scim_bridge.Json.Translate.RoundTrip.{
  OwnId, MemberId, EntryIds, MemberIds, ResourceIds, ItemIds, ListedIds, ListingIds, ResponseIds,
}

-- Where each id with the property `P` is translated to one with the property `Q`.
module _ (P Q : ResourceType → String → Type 0) (there : Translator)
    (carries : (kind : ResourceType)
      → (id t : String) → P kind id
      → there kind id ≡ ok t
      → Q kind t) where
  reference-carried :
      (o : Option Value) (fs : Fields) (y : Value)
      → get "value" fs ≡ o
      → OwnId P users o
      → translate_reference there o fs ≡ ok y
      → MemberId Q y
  reference-carried (some (str id)) fs y e p h =
      let (t, went, done) = >>=-eq-ok (there users id) (λ t. ok (obj (set "value" (str t) fs))) h in
      rw (← ok_inj done) (rw (get-set_self "value" (str t) fs) (carries users id t p went))
  reference-carried _ fs y e p h = rw (← ok_inj h) (rw e tt)

  member-carried : (x y : Value) → MemberId P x → translate_member there x ≡ ok y → MemberId Q y
  member-carried (obj fs) y p h = reference-carried (get "value" fs) fs y refl p h
  member-carried _ y p h = rw (← ok_inj h) tt

  entries-carried :
      (xs ys : Items) → EntryIds P xs → translate_member_entries there xs ≡ ok ys → EntryIds Q ys
  unfolding translate_member_entries
  entries-carried nil ys ps h = rw (← ok_inj h) tt
  entries-carried (cons x xs) ys (p, ps) h =
      let (y, first, h') =
        >>=-eq-ok (translate_member there x)
          (λ y. translate_member_entries there xs >>= λ ys. ok (cons y ys)) h in
      let (ys', rest, done) =
        >>=-eq-ok (translate_member_entries there xs) (λ ys. ok (cons y ys)) h' in
      rw (← ok_inj done) (member-carried x y p first, entries-carried xs ys' ps rest)

  -- The members are carried, and the id stays.
  members-carried :
      (o : Option Value) (fs out : Fields)
      → get "members" fs ≡ o
      → MemberIds P o
      → translate_members there o fs ≡ ok out
      → MemberIds Q (get "members" out) × (get "id" out ≡ get "id" fs)
  members-carried (some (arr xs)) fs out e ps h =
      let (ys, went, done) =
        >>=-eq-ok (translate_member_entries there xs) (λ ys. ok (set "members" (arr ys) fs)) h in
      rw (← ok_inj done) (
        rw (get-set_self "members" (arr ys) fs) (entries-carried xs ys ps went),
        get-set_ne "members" "id" (arr ys) fs refl,
      )
  members-carried _ fs out e ps h = rw (← ok_inj h) (rw e tt, refl)

  -- The id is carried, and the members stay.
  own-carried :
      (kind : ResourceType) (o : Option Value) (fs mid : Fields)
      → get "id" fs ≡ o
      → OwnId P kind o
      → translate_own there kind o fs ≡ ok mid
      → OwnId Q kind (get "id" mid) × (get "members" mid ≡ get "members" fs)
  own-carried kind (some (str id)) fs mid e p h =
      let (t, went, done) = >>=-eq-ok (there kind id) (λ t. ok (set "id" (str t) fs)) h in
      rw (← ok_inj done) (
        rw (get-set_self "id" (str t) fs) (carries kind id t p went),
        get-set_ne "id" "members" (str t) fs refl,
      )
  own-carried kind _ fs mid e p h = rw (← ok_inj h) (rw e tt, refl)

  -- Every id of a translated resource has the property.
  pub resource-carried :
      (kind : ResourceType) (fs out : Fields)
      → ResourceIds P kind fs
      → translate_resource_ids fs kind there ≡ ok out
      → ResourceIds Q kind out
  unfolding translate_resource_ids
  resource-carried kind fs out (p, ps) h =
      let (mid, own, rest) =
        >>=-eq-ok (translate_own there kind (get "id" fs) fs)
          (λ mid. translate_members there (get "members" mid) mid) h in
      let (id, same) = own-carried kind (get "id" fs) fs mid refl p own in
      let (members, kept) = members-carried (get "members" mid) mid out refl (rw same ps) rest in
      (rw kept id, members)

  item-carried :
      (kind : ResourceType) (x y : Value)
      → ItemIds P kind x
      → translate_entry kind there x ≡ ok y
      → ItemIds Q kind y
  item-carried kind (obj fs) y p h =
      let (out, went, done) =
        >>=-eq-ok (translate_resource_ids fs kind there) (λ out. ok (obj out)) h in
      rw (← ok_inj done) (resource-carried kind fs out p went)
  item-carried kind _ y p h = rw (← ok_inj h) tt

  listed-carried :
      (kind : ResourceType) (xs ys : Items)
      → ListedIds P kind xs
      → translate_entries kind there xs ≡ ok ys
      → ListedIds Q kind ys
  unfolding translate_entries
  listed-carried kind nil ys ps h = rw (← ok_inj h) tt
  listed-carried kind (cons x xs) ys (p, ps) h =
      let (y, first, h') =
        >>=-eq-ok (translate_entry kind there x)
          (λ y. translate_entries kind there xs >>= λ ys. ok (cons y ys)) h in
      let (ys', rest, done) =
        >>=-eq-ok (translate_entries kind there xs) (λ ys. ok (cons y ys)) h' in
      rw (← ok_inj done) (item-carried kind x y p first, listed-carried kind xs ys' ps rest)

  listing-carried :
      (kind : ResourceType) (o : Option Value) (fs out : Fields)
      → get "Resources" fs ≡ o
      → ListingIds P kind o
      → translate_listing kind there o fs ≡ ok out
      → ListingIds Q kind (get "Resources" out)
  listing-carried kind (some (arr xs)) fs out e ps h =
      let (ys, went, done) =
        >>=-eq-ok (translate_entries kind there xs) (λ ys. ok (set "Resources" (arr ys) fs)) h in
      rw (← ok_inj done)
        (rw (get-set_self "Resources" (arr ys) fs) (listed-carried kind xs ys ps went))
  listing-carried kind _ fs out e ps h = rw (← ok_inj h) (rw e tt)

  -- Every id of the resources of a translated list response has the property.
  pub response-carried :
      (kind : ResourceType) (fs out : Fields)
      → ResponseIds P kind fs
      → translate_list_response fs kind there ≡ ok out
      → ResponseIds Q kind out
  unfolding translate_list_response
  response-carried kind fs out ps h = listing-carried kind (get "Resources" fs) fs out refl ps h
