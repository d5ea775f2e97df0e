-- ===== src/Resume/Bounds.antt =====
-- crates/beater-agent/src/resume_contract.rs: the canonical form stays within its bounds.
use temp_js.Prelude.{
  ℕ, suc, ◌+◌, ◌-◌, ◌≤◌, Str, Bool, true, false, ◌||◌, ◌≡◌, refl, subst, inl, inr, Option, none,
  some, List, [], ◌∷◌, length, length-append, leb, ltb, All, All-sort_by, sort_by, arith,
  Bool-cases, if◌then◌else◌,
}
use temp_js.Journal.Model.{
  Value, null, boolean, number, string, array, object, Values, nil, cons, Fields, end, field,
}
use temp_js.Resume.Canonical.{
  max_descriptor_nodes, max_descriptor_bytes, max_descriptor_depth, Formats, Output, Writer, skip,
  ◌then◌, append, visit, check_parts, KeyWriter, by_key, write_fields, write, write_values,
  field_writers, canonical_json,
}

-- Within the bounds on nodes and bytes.
abbrev pub IsBounded : Output → Type 0
IsBounded (nodes, out) = (nodes ≤ max_descriptor_nodes) × (length out ≤ max_descriptor_bytes)

abbrev BoundedResult : Option Output → Type 0
BoundedResult none = Unit
BoundedResult (some o) = IsBounded o

record Bounds (w : Writer) : Type 0 where
  pub at : (o : Output) → IsBounded o → BoundedResult (w o)

Bounds-skip : Bounds skip
Bounds-skip = record { at = λ o h. h }

appended :
    (bytes : Str) (nodes : ℕ) (out : Str)
    → IsBounded (nodes, out)
    → BoundedResult (append bytes (nodes, out))
unfolding append
appended bytes nodes out h =
    elim (Bool-cases (leb (length out + length bytes) max_descriptor_bytes)) [
      | inl fits ↦
          let below : length out + length bytes ≤ max_descriptor_bytes = ground arith in
          rw fits (h.0, omega (arith, length-append out bytes, below))
      | inr above ↦ rw above tt
    ]

Bounds-append : (bytes : Str) → Bounds (append bytes)
Bounds-append bytes = record { at = λ o. appended bytes o.0 o.1 }

visited :
    (depth nodes : ℕ) (out : Str)
    → IsBounded (nodes, out)
    → BoundedResult (visit depth (nodes, out))
unfolding visit
visited depth nodes out h =
    elim (Bool-cases (ltb max_descriptor_depth depth || leb max_descriptor_nodes nodes)) [
      | inl refused ↦ rw refused tt
      | inr fine ↦
          let below : suc nodes ≤ max_descriptor_nodes = ground arith in rw fine (below, h.1)
    ]

Bounds-visit : (depth : ℕ) → Bounds (visit depth)
Bounds-visit depth = record { at = λ o. visited depth o.0 o.1 }

counted :
    (count nodes : ℕ) (out : Str)
    → IsBounded (nodes, out)
    → BoundedResult (check_parts count (nodes, out))
unfolding check_parts
counted count nodes out h = elim (Bool-cases (ltb (max_descriptor_nodes - nodes) count)) [
  | inl refused ↦ rw refused tt
  | inr fine ↦ rw fine h
]

Bounds-check_parts : (count : ℕ) → Bounds (check_parts count)
Bounds-check_parts count = record { at = λ o. counted count o.0 o.1 }

after :
    (r : Option Output) (w : Writer)
    → BoundedResult r
    → Bounds w
    → BoundedResult (elim r [ none ↦ none | some o ↦ w o ])
after none w h k = tt
after (some o) w h k = k.at o h

Bounds-then : (v w : Writer) → Bounds v → Bounds w → Bounds (v then w)
Bounds-then v w h k = record { at = λ o b. after (v o) w (h.at o b) k }

Bounds-comma : (first : Bool) → Bounds (if first then skip else append (b',' ∷ []))
Bounds-comma true = Bounds-skip
Bounds-comma false = Bounds-append (b',' ∷ [])

-- A value with parts, between its brackets.
Bounds-parts :
    (depth count : ℕ) (before behind : Str) (parts : Writer)
    → Bounds parts
    → Bounds (visit depth then check_parts count then append before then parts then append behind)
Bounds-parts depth count before behind parts h =
    Bounds-then _ _
      (Bounds-then _ _
        (Bounds-then _ _ (Bounds-then _ _ (Bounds-visit depth) (Bounds-check_parts count))
          (Bounds-append before))
        h)
      (Bounds-append behind)

module _ (formats : Formats) where
  abbrev BoundsKey : KeyWriter → Type 0
  BoundsKey entry = (depth : ℕ) → Bounds (entry.1 depth)

  Bounds-write_fields :
      (entries : List KeyWriter) (depth : ℕ) (first : Bool)
      → All BoundsKey entries
      → Bounds (write_fields formats entries depth first)
  unfolding write_fields
  Bounds-write_fields [] depth first h = Bounds-skip
  Bounds-write_fields ((key, writer) ∷ rest) depth first h =
      Bounds-then _ _
        (Bounds-then _ _
          (Bounds-then _ _
            (Bounds-then _ _ (Bounds-comma first) (Bounds-append (formats.write_key key)))
            (Bounds-append (b':' ∷ [])))
          (h.0 depth))
        (Bounds-write_fields rest depth false h.1)

  mutual
    unfolding write

    Bounds-write : (value : Value) (depth : ℕ) → Bounds (write formats value depth)
    Bounds-write null depth = Bounds-then _ _ (Bounds-visit depth) (Bounds-append _)
    Bounds-write (boolean b) depth = Bounds-then _ _ (Bounds-visit depth) (Bounds-append _)
    Bounds-write (number n) depth = Bounds-then _ _ (Bounds-visit depth) (Bounds-append _)
    Bounds-write (string s) depth = Bounds-then _ _ (Bounds-visit depth) (Bounds-append _)
    Bounds-write (array values) depth =
        let parts = Bounds-write_values values (suc depth) true in Bounds-parts depth _ _ _ _ parts
    Bounds-write (object fields) depth =
        let parts =
          Bounds-write_fields (sort_by by_key (field_writers formats fields)) (suc depth) true
            (All-sort_by by_key BoundsKey (field_writers formats fields) (Bounds-fields fields)) in
        Bounds-parts depth _ _ _ _ parts

    Bounds-write_values :
        (values : Values) (depth : ℕ) (first : Bool)
        → Bounds (write_values formats values depth first)
    Bounds-write_values nil depth first = Bounds-skip
    Bounds-write_values (cons value rest) depth first =
        Bounds-then _ _ (Bounds-then _ _ (Bounds-comma first) (Bounds-write value depth))
          (Bounds-write_values rest depth false)

    Bounds-fields : (fields : Fields) → All BoundsKey (field_writers formats fields)
    Bounds-fields end = tt
    Bounds-fields (field key value rest) = (Bounds-write value, Bounds-fields rest)

  -- A canonical form has at most 1048576 bytes, whatever the value is.
  pub canonical_json-bounded :
      (value : Value) (out : Str)
      → canonical_json formats value ≡ some out
      → length out ≤ max_descriptor_bytes
  unfolding canonical_json
  canonical_json-bounded value out e =
      by_result (write formats value 0 (0, [])) refl
        ((Bounds-write value 0).at (0, []) (omega arith, omega arith))
    where
      by_result :
          (r : Option Output)
          → write formats value 0 (0, []) ≡ r
          → BoundedResult r
          → length out ≤ max_descriptor_bytes
      by_result none found h = absurd (ground arith)
      by_result (some (nodes, bytes)) found h =
          let same : bytes ≡ out = ground arith in
          subst (λ x. length x ≤ max_descriptor_bytes) same h.1
