-- ===== src/Audit/Canonical.antt =====
-- crates/beater-journal/src/decision_audit.rs: the canonical bytes of a JSON value, and their digest.
use temp_js.Prelude.{
  ℕ, Str, lit, ℤ, Bool, true, false, Option, none, some, List, [], ◌∷◌, ◌++◌, length, leb, str_leb,
  sort_by, if◌then◌else◌,
}
use temp_js.Result.{Result, ok, err, refused, ensure, ◌>>=◌, ◌>>◌}
use temp_js.Journal.Model.{
  Goal, Value, null, boolean, number, string, array, object, Values, nil, cons, Fields, end, field,
}
use temp_js.Resume.Contract.{hex_text}
use temp_js.Audit.Package.{DecisionPackageV1}

-- What the audit uses of serde_json, of the derived forms of its types, and of `sha2`; not code of the
-- repository.
pub record AuditFormats : Type 0 where
  -- `as_i64` or `as_u64`, as text
  pub integer_text : Str → Option Str
  pub write_string : Str → Str
  pub write_integer : ℤ → Str
  pub sha256 : Str → Str
  pub goal_value : Goal → Value
  pub package_value : DecisionPackageV1 → Value
  pub goal_from_slice : Str → Option Goal
  pub package_from_slice : Str → Option DecisionPackageV1

abbrev pub max_body : ℕ
max_body = 32768

-- A step that pushes on the output.
abbrev pub Push : Type 0
Push = Str → Result Str

abbrev pub push_str : Str → Push
push_str s output = ok (output ++ s)

infixl 5 ◌then◌
abbrev pub ◌then◌ : Push → Push → Push
◌then◌ first second output = first output >>= second

-- A key, and how its value is pushed.
abbrev pub Keyed : Type 0
Keyed = Str × Push

module _ (formats : AuditFormats) where
  abbrev pub push_number : Option Str → Push
  push_number none output = err (refused "ambiguous floating-point value is not accepted")
  push_number (some s) output = ok (output ++ s)

  -- The loop over the ordered keys.
  unfoldable pub push_fields : List Keyed → Bool → Push
  push_fields [] first = λ output. ok output
  push_fields ((key, value) ∷ rest) first =
      push_str (if first then [] else b',' ∷ [])
      then push_str (formats.write_string key)
      then push_str (b':' ∷ [])
      then value
      then push_fields rest false

  unfoldable mutual
    unfolding push_fields

    pub canonical_value : Value → Push
    canonical_value null = push_str (lit "null")
    canonical_value (boolean b) = push_str (if b then lit "true" else lit "false")
    canonical_value (number n) = push_number (formats.integer_text n)
    canonical_value (string s) = push_str (formats.write_string s)
    canonical_value (array values) =
        push_str (b'[' ∷ []) then canonical_values values true then push_str (b']' ∷ [])
    canonical_value (object fields) =
        push_str (b'{' ∷ [])
        then push_fields
            (sort_by (λ (a : Keyed) (b : Keyed). str_leb a.0 b.0) (keyed_values fields)) true
        then push_str (b'}' ∷ [])

    pub canonical_values : Values → Bool → Push
    canonical_values nil first = λ output. ok output
    canonical_values (cons value rest) first =
        push_str (if first then [] else b',' ∷ [])
        then canonical_value value
        then canonical_values rest false

    pub keyed_values : Fields → List Keyed
    keyed_values end = []
    keyed_values (field key value rest) = (key, canonical_value value) ∷ keyed_values rest

  unfoldable pub canonical_bytes : Value → Result Str
  canonical_bytes value = do
    output ← canonical_value value []
    ensure (leb (length output) max_body) "decision body too large"
    ok output

  unfoldable pub digest : Str → Str
  digest bytes = hex_text (formats.sha256 bytes)
