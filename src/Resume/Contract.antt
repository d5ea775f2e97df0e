-- ===== src/Resume/Contract.antt =====
-- crates/beater-agent/src/resume_contract.rs: the contract, and what makes one valid.
use temp_js.Prelude.{
  ℕ, ◌+◌, ◌*◌, ◌/◌, ◌-◌, not, ◌%◌, ◌<◌, Str, Bool, true, ◌&&◌, ◌||◌, ◌≡◌, subst, refl, inl, inr,
  Option, none, some, [], ◌∷◌, length, all, All, leb, ltb, ◌==◌, is_ascii_digit, arith,
  Option-cases, if◌then◌else◌,
}
use temp_js.Journal.Model.{Value}
use temp_js.Journal.Validate.{is_empty}
use temp_js.Resume.Canonical.{Formats, canonical_json}

abbrev pub tool_resume_contract_version : ℕ
tool_resume_contract_version = 1

abbrev pub max_tool_name : ℕ
max_tool_name = 256

pub record ToolResumeContract : Type 0 where
  pub version : ℕ
  pub name : Str
  pub idempotent : Bool
  pub fingerprint : Str

-- `format!("{byte:02x}")`
unfoldable pub hex_char : ℕ → ℕ
hex_char digit = if ltb digit 10 then b'0' + digit else b'a' + (digit - 10)

unfoldable pub hex_text : Str → Str
unfolding hex_char
hex_text [] = []
hex_text (byte ∷ digest) = hex_char (byte / 16) ∷ hex_char (byte % 16) ∷ hex_text digest

abbrev pub lower_hex_byte : ℕ → Bool
lower_hex_byte byte = is_ascii_digit byte || leb b'a' byte && leb byte b'f'

unfoldable pub is_valid : ToolResumeContract → Bool
is_valid contract =
    contract.version == tool_resume_contract_version
    && not (is_empty contract.name)
    && leb (length contract.name) max_tool_name
    && length contract.fingerprint == 64
    && all lower_hex_byte contract.fingerprint

module _ (formats : Formats) where
  unfoldable pub sha256_hex : Str → Str
  unfolding hex_text
  sha256_hex bytes = hex_text (formats.sha256 bytes)

  unfoldable pub json_sha256 : Value → Option Str
  unfolding sha256_hex
  json_sha256 value = elim (canonical_json formats value) [
    | none ↦ none
    | some bytes ↦ some (sha256_hex bytes)
  ]

  unfoldable pub new_contract : Str → Bool → Value → Option ToolResumeContract
  unfolding sha256_hex
  new_contract name idempotent descriptor =
      if is_empty name || ltb max_tool_name (length name)
      then none
      else elim (canonical_json formats descriptor) [
        | none ↦ none
        | some bytes ↦ some (record {
          version = tool_resume_contract_version;
          name = name;
          idempotent = idempotent;
          fingerprint = sha256_hex bytes;
        })
      ]

-- What `sha2` documents: a digest of 32 bytes.
pub record FormatLaws (formats : Formats) : Type 0 where
  pub digest_length : (bytes : Str) → length (formats.sha256 bytes) ≡ 32
  pub digest_bytes : (bytes : Str) → All (λ b. b < 256) (formats.sha256 bytes)

hex_char_valid : (digit : ℕ) → digit < 16 → lower_hex_byte (hex_char digit) ≡ true
unfolding hex_char
hex_char_valid digit h = ground arith

hex_text_valid :
    (digest : Str) → All (λ b. b < 256) digest → all lower_hex_byte (hex_text digest) ≡ true
unfolding hex_text
hex_text_valid [] h = refl
hex_text_valid (byte ∷ digest) h =
    ground (arith, hex_char_valid (byte / 16), hex_char_valid (byte % 16), hex_text_valid digest)

length-hex_text : (digest : Str) → length (hex_text digest) ≡ 2 * length digest
unfolding hex_text
length-hex_text [] = refl
length-hex_text (byte ∷ digest) = omega (arith, length-hex_text digest)

fingerprint_valid :
    (digest : Str)
    → length digest ≡ 32
    → All (λ b. b < 256) digest
    → (length (hex_text digest) ≡ 64) × (all lower_hex_byte (hex_text digest) ≡ true)
fingerprint_valid digest h k = (omega (arith, length-hex_text digest, h), hex_text_valid digest k)

-- A contract that `new` returns passes `is_valid`, for every name and every descriptor: the checks
-- of the reader accept whatever the writer makes. It is assumed that a digest is 32 bytes.
pub new_contract-is_valid :
    (formats : Formats) (laws : FormatLaws formats) (name : Str) (idempotent : Bool)
    (descriptor : Value) (contract : ToolResumeContract)
    → new_contract formats name idempotent descriptor ≡ some contract
    → is_valid contract ≡ true
unfolding new_contract is_valid sha256_hex
new_contract-is_valid formats laws name idempotent descriptor contract e =
    elim (Option-cases (canonical_json formats descriptor)) [
      | inl failed ↦ absurd (ground arith)
      | inr (bytes, written) ↦
          let digest = formats.sha256 bytes in
          let (long, hex) =
            fingerprint_valid digest (laws.digest_length bytes) (laws.digest_bytes bytes) in
          let same : record {
            version = 1;
            name = name;
            idempotent = idempotent;
            fingerprint = hex_text digest;
          }
              ≡ contract =
            ground arith in
          subst (λ c. is_valid c ≡ true) same (ground arith)
    ]
