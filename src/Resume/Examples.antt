-- ===== src/Resume/Examples.antt =====
-- The theorems on contracts with formats that write short texts.
use temp_js.Prelude.{
  ◌≢◌, zero, suc, ◌++◌, ℕ, Str, lit, true, ◌≡◌, ◌≤◌, ◌<◌, refl, some, [], ◌∷◌, All, length, arith,
  str_leb, insert_by, sort_by,
}
use temp_js.Journal.Model.{Value, null, array, object, nil, cons, end, field}
use temp_js.Journal.Validate
use temp_js.Resume.Canonical
use temp_js.Resume.Canonical.{Formats, canonical_json, max_descriptor_bytes}
use temp_js.Resume.Reordered.{SameJson, same_object, swapped, new_contract-reordered}
use temp_js.Resume.Bounds.{canonical_json-bounded}
use temp_js.Resume.Contract
use temp_js.Resume.Contract.{
  ToolResumeContract, FormatLaws, new_contract, is_valid, new_contract-is_valid,
}

abbrev zeros : ℕ → Str
zeros zero = []
zeros (suc n) = 0 ∷ zeros n

abbrev formats : Formats
formats = record {
  write_scalar = λ v. lit "null";
  write_key = λ key. b'"' ∷ key ++ b'"' ∷ [];
  sha256 = λ bytes. zeros 32;
}

bytes_below : (n : ℕ) → All (λ b. b < 256) (zeros n)
bytes_below zero = tt
bytes_below (suc n) = (omega arith, bytes_below n)

laws : FormatLaws formats
laws = record { digest_length = λ bytes. refl; digest_bytes = λ bytes. bytes_below 32 }

-- Keys are written in order.
abbrev descriptor : Value
descriptor = object (field (lit "b") null (field (lit "a") (array (cons null nil)) end))

abbrev contract : ToolResumeContract
contract = record {
  version = 1;
  name = lit "tool";
  idempotent = true;
  fingerprint = lit "0000000000000000000000000000000000000000000000000000000000000000";
}

runs :
    (canonical_json formats descriptor ≡ some (lit "{\"a\":[null],\"b\":null}"))
    × (new_contract formats (lit "tool") true descriptor ≡ some contract)
unfolding lit str_leb insert_by sort_by Validate.is_empty Canonical.append Canonical.visit
    Canonical.check_parts Canonical.write_fields Canonical.write Canonical.write_values
    Canonical.field_writers Canonical.canonical_json Contract.hex_char Contract.hex_text
    Contract.sha256_hex Contract.new_contract
runs = (refl, refl)

canonical_json-bounded_example : length (lit "{\"a\":[null],\"b\":null}") ≤ max_descriptor_bytes
canonical_json-bounded_example =
    canonical_json-bounded formats descriptor (lit "{\"a\":[null],\"b\":null}") runs.0

new_contract-is_valid_example : is_valid contract ≡ true
new_contract-is_valid_example =
    new_contract-is_valid formats laws (lit "tool") true descriptor contract runs.1

-- The same descriptor with its keys in the other order.
abbrev other_order : Value
other_order = object (field (lit "a") (array (cons null nil)) (field (lit "b") null end))

keys_differ : lit "b" ≢ lit "a"
unfolding lit
keys_differ e = ground (arith, e)

descriptor-SameJson : SameJson descriptor other_order
descriptor-SameJson =
    same_object (swapped (lit "b") (lit "a") null (array (cons null nil)) end keys_differ)

new_contract-reordered_example :
    new_contract formats (lit "tool") true descriptor
    ≡ new_contract formats (lit "tool") true other_order
new_contract-reordered_example =
    new_contract-reordered formats (lit "tool") true descriptor other_order descriptor-SameJson
