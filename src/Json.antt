-- ===== src/Json.antt =====
-- JSON values as the workers handle them: the result of `JSON.parse`, which is not this program's.
-- A number is a natural number, or any other number by its text; an object lists its keys in order.
pub mod Strip
pub mod Translate
use scim_bridge.Base.{
  ℕ, String, Bool, true, false, Option, none, some, ◌==◌, string_eq, if◌then◌else◌,
}

mutual
  pub data Value : Type 0 where
    null : Value
    bool : Bool → Value
    num : ℕ → Value
    other_num : String → Value
    str : String → Value
    arr : Items → Value
    obj : Fields → Value

  pub data Fields : Type 0 where
    end : Fields
    field : String → Value → Fields → Fields

  pub data Items : Type 0 where
    nil : Items
    cons : Value → Items → Items

-- `object[key]`; `none` is `undefined`
abbrev pub get : String → Fields → Option Value
get key end = none
get key (field k v fs) = if k == key then some v else get key fs

-- `{ ...object, [key]: value }`: the key keeps its place, or comes last
abbrev pub set : String → Value → Fields → Fields
set key value end = field key value end
set key value (field k v fs) = if k == key then field k value fs else field k v (set key value fs)

-- `{ [key]: _, ...rest } = object`
abbrev pub omit : String → Fields → Fields
omit key end = end
omit key (field k v fs) = let rest = omit key fs in if k == key then rest else field k v rest

abbrev pub append_items : Items → Items → Items
append_items nil ys = ys
append_items (cons x xs) ys = cons x (append_items xs ys)

-- `typeof value === "string" ? value : null`
abbrev pub as_string : Option Value → Option String
as_string (some (str s)) = some s
as_string _ = none

-- `isRecord`
pub is_record : Value → Bool
is_record (obj fs) = true
is_record _ = false

-- `parseJson`, after the parse: a text that is null, empty, does not parse or is no object gives null
abbrev pub record_of : Option Value → Option Fields
record_of (some (obj fs)) = some fs
record_of _ = none

abbrev pub parse_json : (String → Option Value) → Option String → Option Fields
parse_json parse none = none
parse_json parse (some text) = if text == "" then none else record_of (parse text)
