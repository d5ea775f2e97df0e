-- ===== src/Runner/Json.antt =====
-- What crates/beater-agent/src/runner.rs uses of `serde_json::Value`.
use temp_js.Prelude.{Str, String, lit, Bool, false, Option, none, some, [], str_eq, if◌then◌else◌}
use temp_js.Journal.Model.{
  Value, null, string, array, object, Values, nil, cons, Fields, end, field,
}

unfoldable pub get_field : Str → Fields → Value
get_field key end = null
get_field key (field k value rest) =
    let found = get_field key rest in if str_eq k key then value else found

-- `value[key]`: null where there is no such field.
unfoldable pub index : Value → String → Value
unfolding get_field
index (object fields) key = get_field (lit key) fields
index _ key = null

abbrev pub as_str : Value → Option Str
as_str (string s) = some s
as_str _ = none

-- `as_str().unwrap_or_default()`
abbrev pub str_or_default : Value → Str
str_or_default (string s) = s
str_or_default _ = []

abbrev pub as_array : Value → Option Values
as_array (array values) = some values
as_array _ = none

-- `as_array().into_iter().flatten()`
abbrev pub elements : Value → Values
elements (array values) = values
elements _ = nil

abbrev pub is_text : Str → Option Str → Bool
is_text s none = false
is_text s (some t) = str_eq t s

unfoldable pub append_values : Values → Values → Values
append_values nil more = more
append_values (cons value rest) more = cons value (append_values rest more)

-- `push`
unfoldable pub push_value : Values → Value → Values
unfolding append_values
push_value values value = append_values values (cons value nil)

-- `json!({"role": role, "content": content})`
abbrev pub message : String → Value → Value
message role content =
    object (field (lit "role") (string (lit role)) (field (lit "content") content end))
