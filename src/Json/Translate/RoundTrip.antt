-- ===== src/Json/Translate/RoundTrip.antt =====
-- Translating a resource's ids there and back.
use scim_bridge.Base.{
  String, ◌≡◌, refl, ap, sym, ◌∙◌, false, Option, some, ◌==◌, string_eq, eq_iff, arith,
}
use scim_bridge.Base.Result.{ok, ◌>>=◌, >>=-eq-ok, ok_inj}
use scim_bridge.Types.{ResourceType, users}
use scim_bridge.Json.{Value, str, arr, obj, Items, nil, cons, Fields, end, field, get, set}
use scim_bridge.Json.Translate.{
  Translator, translate_reference, translate_member, translate_member_entries, translate_own,
  translate_members, translate_resource_ids, translate_entry, translate_entries, translate_listing,
  translate_list_response, get-set_self, get-set_ne, set-set_self,
}

set-set_comm :
    (key other : String) (v w : Value) (fs : Fields) {a b : Value}
    → (key == other) ≡ false
    → get key fs ≡ some a
    → get other fs ≡ some b
    → set key v (set other w fs) ≡ set other w (set key v fs)
set-set_comm key other v w end h p q = cc
set-set_comm key other v w (field k u fs) {a} {b} h p q = ground (
  arith,
  eq_iff k key,
  eq_iff k other,
  eq_iff key other,
  set-set_comm key other v w fs {a = a} {b = b} h,
)

-- Every id that the translation of a value reads has the property.
module _ (P : ResourceType → String → Type 0) where
  abbrev pub OwnId : ResourceType → Option Value → Type 0
  OwnId kind (some (str id)) = P kind id
  OwnId kind _ = Unit

  abbrev pub MemberId : Value → Type 0
  MemberId (obj fs) = OwnId users (get "value" fs)
  MemberId _ = Unit

  abbrev pub EntryIds : Items → Type 0
  EntryIds nil = Unit
  EntryIds (cons x xs) = MemberId x × EntryIds xs

  abbrev pub MemberIds : Option Value → Type 0
  MemberIds (some (arr xs)) = EntryIds xs
  MemberIds _ = Unit

  -- A resource's own id and those of its members.
  abbrev pub ResourceIds : ResourceType → Fields → Type 0
  ResourceIds kind fs = OwnId kind (get "id" fs) × MemberIds (get "members" fs)

  abbrev pub ItemIds : ResourceType → Value → Type 0
  ItemIds kind (obj fs) = ResourceIds kind fs
  ItemIds kind _ = Unit

  abbrev pub ListedIds : ResourceType → Items → Type 0
  ListedIds kind nil = Unit
  ListedIds kind (cons x xs) = ItemIds kind x × ListedIds kind xs

  abbrev pub ListingIds : ResourceType → Option Value → Type 0
  ListingIds kind (some (arr xs)) = ListedIds kind xs
  ListingIds kind _ = Unit

  -- Those of the resources of a list response.
  abbrev pub ResponseIds : ResourceType → Fields → Type 0
  ResponseIds kind fs = ListingIds kind (get "Resources" fs)

module _ (P : ResourceType → String → Type 0) (there back : Translator)
    (undoes : (kind : ResourceType)
      → (id t : String) → P kind id
      → there kind id ≡ ok t
      → back kind t ≡ ok id) where
  reference_back :
      (o : Option Value) (fs : Fields) (y : Value)
      → get "value" fs ≡ o
      → OwnId P users o
      → translate_reference there o fs ≡ ok y
      → translate_member back y ≡ ok (obj fs)
  reference_back (some (str id)) fs y e p h =
      let (t, went, done) = >>=-eq-ok (there users id) (λ t. ok (obj (set "value" (str t) fs))) h in
      rw (← ok_inj done, get-set_self "value" (str t) fs)
        (rw (undoes users id t p went, set-set_self "value" (str id) (str t) fs e))
  reference_back _ fs y e p h = rw (← ok_inj h, e)

  member_back :
      (x y : Value)
      → MemberId P x
      → translate_member there x ≡ ok y
      → translate_member back y ≡ ok x
  member_back (obj fs) y p h = reference_back (get "value" fs) fs y refl p h
  member_back x y p h = rw (← ok_inj h)

  entries_back :
      (xs ys : Items)
      → EntryIds P xs
      → translate_member_entries there xs ≡ ok ys
      → translate_member_entries back ys ≡ ok xs
  unfolding translate_member_entries
  entries_back nil ys ps h = rw (← ok_inj h)
  entries_back (cons x xs) ys (p, ps) h =
      let (y, first, h') =
        >>=-eq-ok (translate_member there x)
          (λ y. translate_member_entries there xs >>= λ ys. ok (cons y ys)) h in
      let (ys', rest, done) =
        >>=-eq-ok (translate_member_entries there xs) (λ ys. ok (cons y ys)) h' in
      rw (← ok_inj done) (rw (member_back x y p first, entries_back xs ys' ps rest))

  members_back :
      (o : Option Value) (fs out : Fields)
      → get "members" fs ≡ o
      → MemberIds P o
      → translate_members there o fs ≡ ok out
      → translate_members back (get "members" out) out ≡ ok fs
  members_back (some (arr xs)) fs out e ps h =
      let (ys, went, done) =
        >>=-eq-ok (translate_member_entries there xs) (λ ys. ok (set "members" (arr ys) fs)) h in
      rw (← ok_inj done, get-set_self "members" (arr ys) fs)
        (rw (entries_back xs ys ps went, set-set_self "members" (arr xs) (arr ys) fs e))
  members_back _ fs y e ps h = rw (← ok_inj h, e)

  -- Translating members does not touch the id, and replacing the id does not touch the members.
  members_swap :
      (o : Option Value) (fs out : Fields) (v : Value) {a : Value}
      → get "members" fs ≡ o
      → get "id" fs ≡ some a
      → translate_members there o fs ≡ ok out
      → (get "id" out ≡ some a) × (translate_members there o (set "id" v fs) ≡ ok (set "id" v out))
  members_swap (some (arr xs)) fs out v e i h =
      let (ys, went, done) =
        >>=-eq-ok (translate_member_entries there xs) (λ ys. ok (set "members" (arr ys) fs)) h in
      (
        rw (← ok_inj done) (get-set_ne "members" "id" (arr ys) fs refl ∙ i),
        rw (went, ← ok_inj done) (ap ok (sym (set-set_comm "id" "members" v (arr ys) fs refl i e))),
      )
  members_swap _ fs y v e i h = rw (← ok_inj h) (i, refl)

  plain_back :
      (kind : ResourceType) (fs out : Fields)
      → MemberIds P (get "members" fs)
      → translate_own back kind (get "id" out) out ≡ ok out
      → translate_members there (get "members" fs) fs ≡ ok out
      → translate_resource_ids out kind back ≡ ok fs
  unfolding translate_resource_ids
  plain_back kind fs out ps p h = rw p (members_back (get "members" fs) fs out refl ps h)

  id_kept :
      (o : Option Value) (fs out : Fields)
      → translate_members there o fs ≡ ok out
      → get "id" out ≡ get "id" fs
  id_kept (some (arr xs)) fs out h =
      let (ys, went, done) =
        >>=-eq-ok (translate_member_entries there xs) (λ ys. ok (set "members" (arr ys) fs)) h in
      rw (← ok_inj done) (get-set_ne "members" "id" (arr ys) fs refl)
  id_kept _ fs out h = rw (← ok_inj h)

  own_back :
      (kind : ResourceType) (o : Option Value) (fs mid out : Fields)
      → get "id" fs ≡ o
      → OwnId P kind o
      → MemberIds P (get "members" fs)
      → translate_own there kind o fs ≡ ok mid
      → translate_members there (get "members" mid) mid ≡ ok out
      → translate_resource_ids out kind back ≡ ok fs
  unfolding translate_resource_ids
  own_back kind (some (str id)) fs mid out e p ps h k =
      let (t, went, done) = >>=-eq-ok (there kind id) (λ t. ok (set "id" (str t) fs)) h in
      let here : get "id" mid ≡ some (str t) = rw (← ok_inj done) (get-set_self "id" (str t) fs) in
      let undone : set "id" (str id) mid ≡ fs =
        rw (← ok_inj done) (set-set_self "id" (str id) (str t) fs e) in
      let same : get "members" mid ≡ get "members" fs =
        rw (← ok_inj done) (get-set_ne "id" "members" (str t) fs refl) in
      let (kept, swapped) = members_swap (get "members" mid) mid out (str id) refl here k in
      let k' : translate_members there (get "members" fs) fs ≡ ok (set "id" (str id) out) =
        rw (undone, same) at swapped in
      rw kept (
        rw (undoes kind id t p went)
          (members_back (get "members" fs) fs (set "id" (str id) out) refl ps k'))
  own_back kind _ fs mid out e p ps h k =
      let same : fs ≡ mid = ok_inj h in
      let k' : translate_members there (get "members" fs) fs ≡ ok out = rw (← same) at k in
      plain_back kind fs out ps (rw (id_kept (get "members" fs) fs out k', e)) k'

  -- Where one translator undoes what the other makes of each id of a resource (its own id and its
  -- members'), and the translation of the resource succeeds, the translation back gives it again.
  pub resource-back :
      (kind : ResourceType) (fs out : Fields)
      → ResourceIds P kind fs
      → translate_resource_ids fs kind there ≡ ok out
      → translate_resource_ids out kind back ≡ ok fs
  unfolding translate_resource_ids
  resource-back kind fs out (p, ps) h =
      let (mid, own, rest) =
        >>=-eq-ok (translate_own there kind (get "id" fs) fs)
          (λ mid. translate_members there (get "members" mid) mid) h in
      own_back kind (get "id" fs) fs mid out refl p ps own rest

  entry_back :
      (kind : ResourceType) (x y : Value)
      → ItemIds P kind x
      → translate_entry kind there x ≡ ok y
      → translate_entry kind back y ≡ ok x
  entry_back kind (obj fs) y p h =
      let (out, went, done) =
        >>=-eq-ok (translate_resource_ids fs kind there) (λ out. ok (obj out)) h in
      rw (← ok_inj done) (rw (resource-back kind fs out p went))
  entry_back kind _ y p h = rw (← ok_inj h)

  listing_back :
      (kind : ResourceType) (xs ys : Items)
      → ListedIds P kind xs
      → translate_entries kind there xs ≡ ok ys
      → translate_entries kind back ys ≡ ok xs
  unfolding translate_entries
  listing_back kind nil ys ps h = rw (← ok_inj h)
  listing_back kind (cons x xs) ys (p, ps) h =
      let (y, first, h') =
        >>=-eq-ok (translate_entry kind there x)
          (λ y. translate_entries kind there xs >>= λ ys. ok (cons y ys)) h in
      let (ys', rest, done) =
        >>=-eq-ok (translate_entries kind there xs) (λ ys. ok (cons y ys)) h' in
      rw (← ok_inj done) (rw (entry_back kind x y p first, listing_back kind xs ys' ps rest))

  response_back :
      (kind : ResourceType) (o : Option Value) (fs out : Fields)
      → get "Resources" fs ≡ o
      → ListingIds P kind o
      → translate_listing kind there o fs ≡ ok out
      → translate_listing kind back (get "Resources" out) out ≡ ok fs
  response_back kind (some (arr xs)) fs out e ps h =
      let (ys, went, done) =
        >>=-eq-ok (translate_entries kind there xs) (λ ys. ok (set "Resources" (arr ys) fs)) h in
      rw (← ok_inj done, get-set_self "Resources" (arr ys) fs)
        (rw (listing_back kind xs ys ps went, set-set_self "Resources" (arr xs) (arr ys) fs e))
  response_back kind _ fs y e ps h = rw (← ok_inj h, e)

  -- The same for the resources of a list response.
  pub response-back :
      (kind : ResourceType) (fs out : Fields)
      → ResponseIds P kind fs
      → translate_list_response fs kind there ≡ ok out
      → translate_list_response out kind back ≡ ok fs
  unfolding translate_list_response
  response-back kind fs out ps h = response_back kind (get "Resources" fs) fs out refl ps h
