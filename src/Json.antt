-- ===== src/Json.antt =====
-- Values of `JSON.parse`, and the two readings that the server makes of them: a property of a
-- record of unknown shape, and `String(value)`.
use Prim.Native.String
use mailslot.Base.{
  String, Bool, true, false, Option, none, some, ◌==◌, if◌then◌else◌, Result, ok, err, thrown,
}

-- A number is held by the text that `String(number)` gives.
mutual
  pub data Json : Type 0 where
    null : Json
    bool : Bool → Json
    num : String → Json
    str : String → Json
    arr : Items → Json
    obj : Fields → Json

  pub data Items : Type 0 where
    nil : Items
    cons : Json → Items → Items

  pub data Fields : Type 0 where
    end : Fields
    field : String → Json → Fields → Fields

-- A value or `undefined`; where the code tests with `== null` or `??`, null is as absent.
abbrev pub Value : Type 0
Value = Option Json

unfoldable pub lookup_field : String → Fields → Value
lookup_field name end = none
lookup_field name (field key value rest) =
    if key == name then some value else lookup_field name rest

-- `record[name]`: null has no properties, and only a record has the properties that the server reads.
unfoldable pub property : Json → String → Result Value
unfolding lookup_field
property null name = err (thrown "TypeError: Cannot read properties of null")
property (obj fields) name = ok (lookup_field name fields)
property _ name = ok none

abbrev text_of_bool : Bool → String
text_of_bool true = "true"
text_of_bool false = "false"

-- `String(value)`; an array's items are joined by commas, null among them as the empty text.
unfoldable mutual
  pub json_text : Json → String
  json_text null = "null"
  json_text (bool b) = text_of_bool b
  json_text (num t) = t
  json_text (str s) = s
  json_text (arr items) = joined items
  json_text (obj fields) = "[object Object]"

  pub joined : Items → String
  joined nil = ""
  joined (cons null items) = joined_rest items
  joined (cons v items) = String.◌++◌ (json_text v) (joined_rest items)

  pub joined_rest : Items → String
  joined_rest nil = ""
  joined_rest (cons null items) = String.◌++◌ "," (joined_rest items)
  joined_rest (cons v items) = String.◌++◌ "," (String.◌++◌ (json_text v) (joined_rest items))

-- `String(value ?? fallback)`
unfoldable pub text_or : String → Value → String
unfolding json_text
text_or fallback none = fallback
text_or fallback (some null) = fallback
text_or fallback (some v) = json_text v

-- `typeof value === 'string' ? value : null`
unfoldable pub as_text : Value → Option String
as_text (some (str s)) = some s
as_text _ = none

-- `value == null`
abbrev pub is_nullish : Value → Bool
is_nullish none = true
is_nullish (some null) = true
is_nullish (some _) = false
