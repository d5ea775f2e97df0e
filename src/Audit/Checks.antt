-- ===== src/Audit/Checks.antt =====
-- crates/beater-journal/src/decision_audit.rs: the checks of a decision package.
use temp_js.Prelude.{
  ℕ, Str, String, ℤ, pos, eq_ℤ, within, Bool, not, ◌&&◌, ◌||◌, Option, none, some, List, [], ◌∷◌,
  ◌++◌, length, all, leb, ◌==◌, str_eq, is_ascii_alphanumeric, if◌then◌else◌,
}
use temp_js.Result.{Result, ok, refused, ensure, or_fail, ◌>>=◌, ◌>>◌}
use temp_js.Journal.Validate.{is_empty, max_revision, valid_identifier, valid_revision}
use temp_js.Audit.Package.{
  VersionedReference, EvidenceReference, GraphContextReference, TypedReference,
  DecisionRevisionReference, DecisionPackageV1,
}
use temp_js.Audit.Canonical.{AuditFormats, canonical_bytes}

abbrev pub decision_version : ℕ
decision_version = 1

abbrev pub max_decision_text : ℕ
max_decision_text = 4096

abbrev pub max_reference : ℕ
max_reference = 512

abbrev pub max_refs : ℕ
max_refs = 64

abbrev pub max_options : ℕ
max_options = 32

abbrev pub reference_byte : ℕ → Bool
reference_byte byte =
    is_ascii_alphanumeric byte
    || byte == b'-'
    || byte == b'_'
    || byte == b'.'
    || byte == b':'
    || byte == b'/'
    || byte == b'@'

unfoldable pub valid_reference : Str → Bool
valid_reference value =
    not (is_empty value) && leb (length value) max_reference && all reference_byte value

unfoldable pub validate_reference : VersionedReference → Result (Unit {0})
unfolding valid_reference
validate_reference reference = do
  ensure (valid_reference reference.locator) "invalid decision reference"
  revision ←
      or_fail reference.revision (refused "exact decision reference requires a revision or digest")
  ensure (valid_reference revision) "invalid decision reference revision"

-- A loop that leaves at the first element that fails.
abbrev pub each {ℓ} : {A : Type ℓ} → (A → Result (Unit {0})) → List A → Result (Unit {0})
each check [] = ok tt
each check (x ∷ xs) = check x >> each check xs

-- The message names the field.
unfoldable pub validate_reference_list : String → List VersionedReference → Result (Unit {0})
unfolding validate_reference
validate_reference_list too_many references = do
  ensure (leb (length references) max_refs) too_many
  each validate_reference references

-- The message names the field.
unfoldable pub validate_typed_references : String → List TypedReference → Result (Unit {0})
unfolding validate_reference
validate_typed_references too_many references = do
  ensure (leb (length references) max_refs) too_many
  each (λ item. validate_reference item.reference) references

unfoldable pub validate_revision_reference :
    DecisionPackageV1 → DecisionRevisionReference → Result (Unit {0})
validate_revision_reference pack reference = do
  ensure (valid_identifier reference.decision_id) "invalid linked decision id"
  ensure (valid_revision reference.revision) "invalid linked decision revision"
  ensure
      (not (str_eq reference.decision_id pack.decision_id)
        || not (eq_ℤ reference.revision pack.revision))
      "decision cannot link to itself"

abbrev pub if_given {ℓ} : {A : Type ℓ} → (A → Result (Unit {0})) → Option A → Result (Unit {0})
if_given check none = ok tt
if_given check (some a) = check a

abbrev pub decision_text : String → Str → Result (Unit {0})
decision_text message text =
    ensure (not (is_empty text) && leb (length text) max_decision_text) message

unfoldable pub validate_evidence : EvidenceReference → Result (Unit {0})
unfolding valid_reference validate_reference
validate_evidence evidence = do
  ensure (valid_reference evidence.reference.locator) "invalid evidence reference"
  if evidence.missing
      then if_given
          (λ revision.
            ensure (valid_reference revision) "invalid missing-evidence reference revision")
          evidence.reference.revision
      else validate_reference evidence.reference

unfoldable pub validate_graph : GraphContextReference → Result (Unit {0})
unfolding valid_reference validate_reference
validate_graph graph = do
  validate_reference graph.reference
  watermark ← or_fail graph.watermark (refused "graph context requires a watermark")
  ensure (valid_reference watermark) "invalid graph watermark"

module _ (formats : AuditFormats) where
  -- The last two types have one value each, so that their tests always pass.
  unfoldable pub validate_package : DecisionPackageV1 → Result (Unit {0})
  unfolding validate_evidence validate_graph validate_reference_list validate_typed_references
      validate_revision_reference
  validate_package pack = do
    ensure (pack.version == decision_version) "unsupported decision package version"
    ensure (valid_identifier pack.decision_id) "invalid decision id"
    ensure (valid_revision pack.revision) "invalid decision revision"
    decision_text "invalid decision question" pack.question
    ensure (leb (length pack.options) max_options && leb (length pack.constraints) max_options)
        "too many decision options or constraints"
    decision_text "invalid decision rationale" pack.rationale
    each (decision_text "invalid decision text") (pack.options ++ pack.constraints)
    validate_reference_list "too many object references" pack.object_references
    ensure (leb (length pack.evidence) max_refs) "too many evidence references"
    each validate_evidence pack.evidence
    if_given validate_graph pack.graph_context
    validate_reference_list "too many policy references" pack.policy_references
    validate_reference_list "too many calculation references" pack.calculation_references
    validate_reference_list "too many model references" pack.model_references
    validate_reference_list "too many producer references" pack.producer_references
    validate_typed_references "too many review references" pack.reviews
    validate_typed_references "too many authorization observation references"
        pack.authorization_observations
    validate_typed_references "too many effect attempt references" pack.effect_attempts
    validate_typed_references "too many acknowledgement references" pack.acknowledgements
    validate_typed_references "too many outcome references" pack.outcomes
    validate_typed_references "too many reconciliation references" pack.reconciliations
    if_given (validate_revision_reference pack) pack.correction_of
    if_given (validate_revision_reference pack) pack.successor_to
    _ ← canonical_bytes formats (formats.package_value pack)
    ok tt

  unfoldable pub validate_decision_package_v1 : DecisionPackageV1 → Result (Unit {0})
  unfolding validate_package
  validate_decision_package_v1 pack = validate_package pack

unfoldable pub validate_decision_append_request : ℤ → Result (Unit {0})
validate_decision_append_request expected_revision =
    ensure (within (pos 0) (pos max_revision) expected_revision)
      "invalid expected decision revision"

unfoldable pub validate_decision_read_request : Str → ℤ → Result (Unit {0})
validate_decision_read_request decision_id expected_revision = do
  ensure (valid_identifier decision_id) "invalid decision id"
  ensure (valid_revision expected_revision) "invalid expected decision revision"
