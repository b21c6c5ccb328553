-- ===== src/Listener/Resources.antt =====
-- The SCIM resources that the listener stores for an event: `userResourceFromEvent`,
-- `groupResourceFromEvent`, `emailsFromEvent` and `parseResource` of workers/native/listener.ts.
use scim_bridge.Base.{
  String, Bool, true, false, Option, none, some, List, [], ◌∷◌, not, ◌==◌, string_eq, find, keep,
  if◌then◌else◌,
}
use scim_bridge.Json.{
  Value, null, bool, str, arr, obj, Items, nil, cons, Fields, get, set, record_of,
}
use scim_bridge.Listener.Reading.{
  ◌<|>◌, string_value, text_at, object_at, or_end, object_or_end, email_entries, head, is_primary,
}

abbrev pub or_null : Option String → Value
or_null none = null
or_null (some s) = str s

abbrev pub items_of : List Fields → Items
items_of [] = nil
items_of (fs ∷ rest) = cons (obj fs) (items_of rest)

-- Two values of type text or missing are the same text.
abbrev pub same_text : Option String → String → Bool
same_text none value = false
same_text (some s) value = s == value

-- The stored entries without the previous primary one, which is the first marked so, or else the
-- first.
abbrev pub drop_first : (Fields → Bool) → List Fields → List Fields
drop_first p [] = []
drop_first p (x ∷ xs) = let rest = drop_first p xs in if p x then xs else x ∷ rest

abbrev pub tail : List Fields → List Fields
tail [] = []
tail (x ∷ xs) = xs

abbrev pub without_previous : List Fields → Option Fields → List Fields
without_previous stored none = tail stored
without_previous stored (some primary) = drop_first is_primary stored

abbrev pub promote : String → List Fields → List Fields
promote email stored =
    let marked = find is_primary stored in
    let same : Fields → Bool = λ entry. same_text (string_value (get "value" entry)) email in
    set "primary" (bool true)
      (set "value" (str email) (or_end (find same stored <|> (marked <|> head stored))))
    ∷ keep (λ entry. not (same entry)) (without_previous stored marked)

abbrev pub emails_or_promote : List Fields → Option String → Option Value → Option (List Fields)
emails_or_promote (e ∷ es) email base = some (e ∷ es)
emails_or_promote [] none base = none
emails_or_promote [] (some email) base = some (promote email (email_entries base))

-- `emailsFromEvent`
unfoldable pub emails_from_event : Fields → Option Value → Option (List Fields)
unfolding text_at
emails_from_event event base =
    emails_or_promote (email_entries (get "emails" event)) (text_at "email" event) base

-- `Array.isArray(schemas) && schemas.length > 0 ? schemas : [schema]`
abbrev pub schemas_or : String → Option Value → Value
schemas_or schema (some (arr (cons x xs))) = arr (cons x xs)
schemas_or schema _ = arr (cons (str schema) nil)

abbrev pub set_if : String → Option String → Fields → Fields
set_if key none fs = fs
set_if key (some s) fs = set key (str s) fs

abbrev pub set_name : Option String → Option String → Fields → Fields → Fields
unfolding object_at
set_name none none base resource = resource
set_name given family base resource =
    set "name"
      (obj (set_if "familyName" family (set_if "givenName" given (object_or_end "name" base))))
      resource

abbrev pub set_emails : Option (List Fields) → Fields → Fields
set_emails none resource = resource
set_emails (some emails) resource = set "emails" (arr (items_of emails)) resource

abbrev pub meta_of : String → Fields → Value
unfolding object_at
meta_of type base = obj (set "resourceType" (str type) (object_or_end "meta" base))

-- `userResourceFromEvent`
unfoldable pub user_resource_from_event :
    String → Option String → String → Bool → Fields → Fields → Fields
unfolding emails_from_event text_at object_at
user_resource_from_event id idp_id user_name active event base =
    let schemas = schemas_or "urn:ietf:params:scim:core:2.0:User" (get "schemas" base) in
    let resource = set "meta" (meta_of "User" base) (
      set "active" (bool active) (
        set "externalId" (or_null idp_id)
          (set "userName" (str user_name) (set "id" (str id) (set "schemas" schemas base))))) in
    let named = set_name (text_at "first_name" event) (text_at "last_name" event) base resource in
    set_emails (emails_from_event event (get "emails" base)) named

-- `groupResourceFromEvent`
unfoldable pub group_resource_from_event : String → Option String → String → Fields → Fields
unfolding object_at
group_resource_from_event id idp_id display_name base =
    let schemas = schemas_or "urn:ietf:params:scim:core:2.0:Group" (get "schemas" base) in
    set "meta" (meta_of "Group" base) (
      set "externalId" (or_null idp_id)
        (set "displayName" (str display_name) (set "id" (str id) (set "schemas" schemas base))))

-- `parseResource`
unfoldable pub parse_resource : (String → Option Value) → String → Fields
parse_resource parse raw = or_end (record_of (parse raw))
