-- ===== src/Resume/Canonical.antt =====
-- crates/beater-agent/src/resume_contract.rs: the bounded canonical form of a JSON value.
use temp_js.Prelude.{
  ℕ, suc, ◌+◌, ◌-◌, Str, Bool, true, false, ◌||◌, Option, none, some, List, [], ◌∷◌, ◌++◌, length,
  leb, ltb, str_leb, sort_by, if◌then◌else◌,
}
use temp_js.Journal.Model.{
  Value, null, boolean, number, string, array, object, Values, nil, cons, Fields, end, field,
}

abbrev pub max_descriptor_depth : ℕ
max_descriptor_depth = 32

abbrev pub max_descriptor_nodes : ℕ
max_descriptor_nodes = 16384

abbrev pub max_descriptor_bytes : ℕ
max_descriptor_bytes = 1048576

-- What serde_json writes for a value without parts, and for a key; and the digest of `sha2`.
pub record Formats : Type 0 where
  pub write_scalar : Value → Str
  pub write_key : Str → Str
  pub sha256 : Str → Str

-- The nodes that were counted and the bytes that were written.
abbrev pub Output : Type 0
Output = ℕ × Str

-- A step of `write`, and the empty step.
abbrev pub Writer : Type 0
Writer = Output → Option Output

abbrev pub skip : Writer
skip output = some output

infixl 5 ◌then◌
abbrev pub ◌then◌ : Writer → Writer → Writer
◌then◌ first second output = elim (first output) [ none ↦ none | some next ↦ second next ]

-- `append`, and what `append_json` comes to: it fails when the bytes do not fit.
unfoldable pub append : Str → Writer
append bytes (nodes, out) =
    if leb (length out + length bytes) max_descriptor_bytes
    then some (nodes, out ++ bytes)
    else none

-- The guard on entry to a value, which counts it.
unfoldable pub visit : ℕ → Writer
visit depth (nodes, out) =
    if ltb max_descriptor_depth depth || leb max_descriptor_nodes nodes
    then none
    else some (suc nodes, out)

-- The guard on the number of parts of a value.
unfoldable pub check_parts : ℕ → Writer
check_parts count (nodes, out) =
    if ltb (max_descriptor_nodes - nodes) count then none else some (nodes, out)

abbrev pub value_count : Values → ℕ
value_count nil = 0
value_count (cons value rest) = suc (value_count rest)

abbrev pub field_count : Fields → ℕ
field_count end = 0
field_count (field key value rest) = suc (field_count rest)

-- A key, and how its value is written at a depth.
abbrev pub KeyWriter : Type 0
KeyWriter = Str × (ℕ → Writer)

abbrev pub by_key : KeyWriter → KeyWriter → Bool
by_key left right = str_leb left.0 right.0

module _ (formats : Formats) where
  -- The loop over the sorted keys, after the first.
  unfoldable pub write_fields : List KeyWriter → ℕ → Bool → Writer
  write_fields [] depth first = skip
  write_fields ((key, writer) ∷ rest) depth first =
      (if first then skip else append (b',' ∷ []))
      then append (formats.write_key key)
      then append (b':' ∷ [])
      then writer depth
      then write_fields rest depth false

  unfoldable mutual
    unfolding write_fields

    pub write : Value → ℕ → Writer
    write null depth = visit depth then append (formats.write_scalar null)
    write (boolean b) depth = visit depth then append (formats.write_scalar (boolean b))
    write (number n) depth = visit depth then append (formats.write_scalar (number n))
    write (string s) depth = visit depth then append (formats.write_scalar (string s))
    write (array values) depth =
        visit depth
        then check_parts (value_count values)
        then append (b'[' ∷ [])
        then write_values values (suc depth) true
        then append (b']' ∷ [])
    write (object fields) depth =
        visit depth
        then check_parts (field_count fields)
        then append (b'{' ∷ [])
        then write_fields (sort_by by_key (field_writers fields)) (suc depth) true
        then append (b'}' ∷ [])

    pub write_values : Values → ℕ → Bool → Writer
    write_values nil depth first = skip
    write_values (cons value rest) depth first =
        (if first then skip else append (b',' ∷ []))
        then write value depth
        then write_values rest depth false

    pub field_writers : Fields → List KeyWriter
    field_writers end = []
    field_writers (field key value rest) = (key, write value) ∷ field_writers rest

  unfoldable pub canonical_json : Value → Option Str
  canonical_json value = elim (write value 0 (0, [])) [ none ↦ none | some (nodes, out) ↦ some out ]
