-- ===== src/Journal/Validate/Parameter.antt =====
-- crates/beater-journal/src/lib.rs: identifiers, credential labels and the walk over one parameter.
use temp_js.Prelude.{
  ℕ, ◌-◌, ◌+◌, Str, lit, Bool, true, false, not, ◌&&◌, ◌||◌, List, [], ◌∷◌, length, all, any, leb,
  ltb, ◌==◌, starts_with, contains, is_ascii_alphanumeric, to_ascii_lowercase, select,
}
use temp_js.Result.{Result, ok, ensure, ◌>>=◌, ◌>>◌}
use temp_js.Journal.Model.{
  Value, null, boolean, number, string, array, object, Values, nil, cons, Fields, end, field,
}

abbrev pub max_identifier : ℕ
max_identifier = 128

abbrev pub max_parameter_json : ℕ
max_parameter_json = 8192

abbrev pub max_parameter_depth : ℕ
max_parameter_depth = 16

abbrev pub max_parameter_nodes : ℕ
max_parameter_nodes = 1024

unfoldable pub identifier_byte : ℕ → Bool
identifier_byte b = is_ascii_alphanumeric b || b == b'-' || b == b'_' || b == b'.' || b == b':'

unfoldable pub is_empty : Str → Bool
is_empty [] = true
is_empty (b ∷ s) = false

unfoldable pub valid_identifier : Str → Bool
unfolding is_empty identifier_byte
valid_identifier value =
    not (is_empty value) && leb (length value) max_identifier && all identifier_byte value

abbrev credential_words : List Str
credential_words =
    lit "token"
    ∷ lit "secret"
    ∷ lit "password"
    ∷ lit "credential"
    ∷ lit "apikey"
    ∷ lit "authorization"
    ∷ lit "accesskey"
    ∷ lit "privatekey"
    ∷ []

unfoldable pub credential_label : Str → Bool
credential_label value =
    let normalized = select is_ascii_alphanumeric (to_ascii_lowercase value) in
    any (λ word. contains word normalized) credential_words

-- The white space of three bytes: U+1680, U+2000 to U+200A, U+2028, U+2029, U+202F, U+205F, U+3000.
unfoldable pub white3 : ℕ → ℕ → ℕ → Bool
white3 a b c =
    a == 0xe1 && b == 0x9a && c == 0x80
    || a == 0xe2 && b == 0x80 && (leb 0x80 c && leb c 0x8a || c == 0xa8 || c == 0xa9 || c == 0xaf)
    || a == 0xe2 && b == 0x81 && c == 0x9f
    || a == 0xe3 && b == 0x80 && c == 0x80

-- `str::trim_start`: the bytes of the characters of the property White_Space are dropped.
unfoldable pub trim_start : Str → Str
unfolding white3
trim_start (a ∷ b ∷ c ∷ s) =
    let one = trim_start (b ∷ c ∷ s) in
    let two = trim_start (c ∷ s) in
    let three = trim_start s in
    elim (leb 9 a && leb a 13 || a == 32) [
      | true ↦ one
      | false ↦ elim (a == 0xc2 && (b == 0x85 || b == 0xa0)) [
        | true ↦ two
        | false ↦ elim (white3 a b c) [ true ↦ three | false ↦ a ∷ b ∷ c ∷ s ]
      ]
    ]
trim_start (a ∷ b ∷ []) =
    let one = trim_start (b ∷ []) in
    elim (leb 9 a && leb a 13 || a == 32) [
      | true ↦ one
      | false ↦ elim (a == 0xc2 && (b == 0x85 || b == 0xa0)) [ true ↦ [] | false ↦ a ∷ b ∷ [] ]
    ]
trim_start (a ∷ []) = elim (leb 9 a && leb a 13 || a == 32) [ true ↦ [] | false ↦ a ∷ [] ]
trim_start [] = []

unfoldable pub plain_string : Str → Bool
unfolding trim_start
plain_string value =
    let lowered = to_ascii_lowercase (trim_start value) in
    leb (length value) max_parameter_json
    && not (starts_with (lit "bearer ") lowered)
    && not (starts_with (lit "key=") lowered)

-- The guards on entry to a value, and the count that is left after it.
unfoldable pub enter : ℕ → ℕ → Result ℕ
enter depth remaining = do
  ensure (leb depth max_parameter_depth) "parameter nesting too deep"
  ensure (ltb 0 remaining) "too many parameter values"
  ok (remaining - 1)

-- The object's key is checked before its value.
unfoldable pub check_key : Str → Result (Unit {0})
check_key key = do
  ensure (leb (length key) max_identifier) "parameter object key too long"
  ensure (not (credential_label key)) "credential-labelled parameter key"

unfoldable mutual
  unfolding enter check_key plain_string

  pub validate_parameter_value : Value → ℕ → ℕ → Result ℕ
  validate_parameter_value (object map) depth remaining = do
    left ← enter depth remaining
    validate_fields map (depth + 1) left
  validate_parameter_value (array values) depth remaining = do
    left ← enter depth remaining
    validate_values values (depth + 1) left
  validate_parameter_value (string value) depth remaining = do
    left ← enter depth remaining
    ensure (plain_string value) "explicit credential marker in parameter"
    ok left
  validate_parameter_value null depth remaining = enter depth remaining
  validate_parameter_value (boolean b) depth remaining = enter depth remaining
  validate_parameter_value (number n) depth remaining = enter depth remaining

  pub validate_fields : Fields → ℕ → ℕ → Result ℕ
  validate_fields end depth remaining = ok remaining
  validate_fields (field key value rest) depth remaining = do
    check_key key
    left ← validate_parameter_value value depth remaining
    validate_fields rest depth left

  pub validate_values : Values → ℕ → ℕ → Result ℕ
  validate_values nil depth remaining = ok remaining
  validate_values (cons value rest) depth remaining = do
    left ← validate_parameter_value value depth remaining
    validate_values rest depth left
