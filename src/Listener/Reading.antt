-- ===== src/Listener/Reading.antt =====
-- The readers of an event's fields in workers/native/listener.ts and workers/shared/event-mapping.ts.
use scim_bridge.Base.{
  String, Bool, true, false, Option, none, some, List, [], ◌∷◌, ◌==◌, string_eq, find,
  if◌then◌else◌,
}
use scim_bridge.Base.Text.{after_prefix}
use scim_bridge.Types.{ResourceType, users, groups}
use scim_bridge.Json.{
  Value, bool, str, arr, obj, Items, nil, cons, Fields, end, get, as_string, record_of,
}

infixl 6 ◌<|>◌
-- `a ?? b`
abbrev pub ◌<|>◌ {ℓ} : {A : Type ℓ} → Option A → Option A → Option A
none <|> b = b
some a <|> b = some a

abbrev pub is_some {ℓ} : {A : Type ℓ} → Option A → Bool
is_some none = false
is_some (some a) = true

abbrev pub nonempty : Option String → Option String
nonempty none = none
nonempty (some s) = if s == "" then none else some s

-- `asString`, `stringValue`
abbrev pub string_value : Option Value → Option String
string_value v = nonempty (as_string v)

-- `asString(object[key])`
unfoldable pub text_at : String → Fields → Option String
text_at key fs = string_value (get key fs)

-- `asObject(object[key])`
unfoldable pub object_at : String → Fields → Option Fields
object_at key fs = record_of (get key fs)

abbrev pub or_end : Option Fields → Fields
or_end none = end
or_end (some fs) = fs

-- `isRecord(object[key]) ? object[key] : {}`
abbrev pub object_or_end : String → Fields → Fields
unfolding object_at
object_or_end key fs = or_end (object_at key fs)

-- `value === text`
abbrev pub is_text : String → Option Value → Bool
is_text text (some (str s)) = s == text
is_text text _ = false

-- `value === true`
abbrev pub is_true : Option Value → Bool
is_true (some (bool b)) = b
is_true _ = false

unfoldable pub starts_with : String → String → Bool
starts_with prefix s = is_some (after_prefix prefix s)

abbrev pub objects_of : Items → List Fields
objects_of nil = []
objects_of (cons (obj fs) xs) = fs ∷ objects_of xs
objects_of (cons _ xs) = objects_of xs

-- `emailEntries`
abbrev pub email_entries : Option Value → List Fields
email_entries (some (arr xs)) = objects_of xs
email_entries _ = []

abbrev pub head : List Fields → Option Fields
head [] = none
head (x ∷ xs) = some x

abbrev pub is_primary : Fields → Bool
is_primary entry = is_true (get "primary" entry)

abbrev pub text_in : String → Option Fields → Option String
text_in key none = none
text_in key (some fs) = string_value (get key fs)

-- `primaryEmail`
unfoldable pub primary_email : Option Value → Option String
primary_email emails =
    let entries = email_entries emails in text_in "value" (find is_primary entries <|> head entries)

-- `userNameFromEvent`
unfoldable pub user_name_from_event : Fields → Option String
unfolding text_at object_at primary_email
user_name_from_event event =
    text_at "username" event
    <|> text_in "username" (object_at "custom_attributes" event)
    <|> primary_email (get "emails" event)
    <|> text_at "email" event

-- `groupKeyFromEvent`
unfoldable pub group_key_from_event : Fields → Option String
unfolding text_at object_at
group_key_from_event group =
    text_in "externalId" (object_at "raw_attributes" group)
    <|> text_at "idp_id" group
    <|> text_at "name" group

-- `eventName`
unfoldable pub event_name : ResourceType → Fields → Option String
unfolding text_at object_at
event_name groups resource = text_at "name" resource
event_name users resource =
    text_at "username" resource
    <|> text_at "username" (object_or_end "custom_attributes" resource)
    <|> text_at "userName" (object_or_end "raw_attributes" resource)
    <|> text_at "email" resource
