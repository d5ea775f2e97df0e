-- ===== src/Resume/Reordered.antt =====
-- crates/beater-agent/src/resume_contract.rs: the canonical form of a JSON value does not depend on
-- the order of keys.
use temp_js.Prelude.{
  ℕ, suc, Str, Bool, true, false, ◌≡◌, ◌≢◌, refl, sym, ap, ap₂, ◌∙◌, inl, inr, List, [], ◌∷◌,
  str_leb, str_leb_total, str_leb_antisym, str_leb_trans, insert_by, insert_by_comm, sort_by,
  if◌then◌else◌, Bool-cases,
}
use temp_js.Journal.Model.{Value, array, object, Values, nil, cons, Fields, end, field}
use temp_js.Resume.Canonical.{
  Formats, KeyWriter, Writer, by_key, canonical_json, write, write_values, write_fields,
  field_writers, field_count, value_count, visit, check_parts, append, skip, ◌then◌,
}
use temp_js.Resume.Contract.{new_contract}

-- Values that differ in the order of keys, in any of their objects.
mutual
  pub data SameJson : Value → Value → Type 0 where
    itself : (value : Value) → SameJson value value
    same_array : {vs ws : Values} → SameValues vs ws → SameJson (array vs) (array ws)
    same_object : {fs gs : Fields} → SameFields fs gs → SameJson (object fs) (object gs)

  pub data SameValues : Values → Values → Type 0 where
    no_values : SameValues nil nil
    same_values :
        {v w : Value} {vs ws : Values}
        → SameJson v w
        → SameValues vs ws
        → SameValues (cons v vs) (cons w ws)

  pub data SameFields : Fields → Fields → Type 0 where
    no_fields : SameFields end end
    same_fields :
        (key : Str) {v w : Value} {fs gs : Fields}
        → SameJson v w
        → SameFields fs gs
        → SameFields (field key v fs) (field key w gs)
    swapped :
        (k l : Str) (v w : Value) (fs : Fields)
        → k ≢ l
        → SameFields (field k v (field l w fs)) (field l w (field k v fs))
    chained : {fs gs hs : Fields} → SameFields fs gs → SameFields gs hs → SameFields fs hs

-- Keys that differ are inserted in either order.
insert_key_comm :
    (a b : KeyWriter) (writers : List KeyWriter)
    → a.0 ≢ b.0
    → insert_by by_key a (insert_by by_key b writers)
      ≡ insert_by by_key b (insert_by by_key a writers)
insert_key_comm a b writers apart =
    let trans : (x y z : KeyWriter) → by_key x y ≡ true → by_key y z ≡ true → by_key x z ≡ true =
      λ x y z h k. str_leb_trans x.0 y.0 z.0 h k in
    elim (Bool-cases (str_leb a.0 b.0)) [
      | inl h ↦ elim (Bool-cases (str_leb b.0 a.0)) [
        | inl k ↦ absurd (apart (str_leb_antisym a.0 b.0 h k))
        | inr k ↦ insert_by_comm by_key trans a b writers h k
      ]
      | inr h ↦ sym (insert_by_comm by_key trans b a writers (str_leb_total a.0 b.0 h) h)
    ]

module _ (formats : Formats) where
  abbrev sorted : Fields → List KeyWriter
  sorted fs = sort_by by_key (field_writers formats fs)

  -- An array, an object and a value of an array, by how their parts are written.
  abbrev write_array : (ℕ → Bool → Writer) → ℕ → ℕ → Writer
  write_array parts count depth =
      visit depth
      then check_parts count
      then append (b'[' ∷ [])
      then parts (suc depth) true
      then append (b']' ∷ [])

  abbrev write_object : List KeyWriter → ℕ → ℕ → Writer
  write_object writers count depth =
      visit depth
      then check_parts count
      then append (b'{' ∷ [])
      then write_fields formats writers (suc depth) true
      then append (b'}' ∷ [])

  abbrev write_next : (ℕ → Writer) → (ℕ → Bool → Writer) → ℕ → Bool → Writer
  write_next writer rest depth first =
      (if first then skip else append (b',' ∷ [])) then writer depth then rest depth false

  mutual
    unfolding write write_values field_writers sort_by

    write-same : {v w : Value} → SameJson v w → write formats v ≡ write formats w
    write-same (itself value) = refl
    write-same (same_array h) =
        let (same, count) = write_values-same h in ap₂ write_array same count
    write-same (same_object h) = let (same, count) = sorted-same h in ap₂ write_object same count

    write_values-same :
        {vs ws : Values}
        → SameValues vs ws
        → (write_values formats vs ≡ write_values formats ws) × (value_count vs ≡ value_count ws)
    write_values-same no_values = (refl, refl)
    write_values-same (same_values h hs) =
        let (same, count) = write_values-same hs in
        (ap₂ write_next (write-same h) same, ap suc count)

    sorted-same :
        {fs gs : Fields}
        → SameFields fs gs
        → (sorted fs ≡ sorted gs) × (field_count fs ≡ field_count gs)
    sorted-same no_fields = (refl, refl)
    sorted-same (same_fields key h hs) =
        let (same, count) = sorted-same hs in
        (ap₂ (λ w rest. insert_by by_key (key, w) rest) (write-same h) same, ap suc count)
    sorted-same (swapped k l v w fs apart) =
        (insert_key_comm (k, write formats v) (l, write formats w) (sorted fs) apart, refl)
    sorted-same (chained h k) =
        let (same, count) = sorted-same h in
        let (same', count') = sorted-same k in (same ∙ same', count ∙ count')

  -- The contract of a tool does not depend on the order in which its descriptor lists the keys of an
  -- object, at any depth: for two descriptors that differ in that order only, `new` answers the same,
  -- also where it refuses both.
  pub new_contract-reordered :
      (name : Str) (idempotent : Bool) (descriptor other : Value)
      → SameJson descriptor other
      → new_contract formats name idempotent descriptor ≡ new_contract formats name idempotent other
  unfolding new_contract canonical_json
  new_contract-reordered name idempotent descriptor other h = rw (write-same h) refl
