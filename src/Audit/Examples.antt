-- ===== src/Audit/Examples.antt =====
-- The theorems on decisions with formats that write short texts.
use temp_js.Prelude.{
  ℕ, zero, suc, Str, lit, pos, ◌≡◌, refl, none, some, [], ◌∷◌, ◌++◌, str_eq, is_ascii_alphanumeric,
  starts_with, contains, to_ascii_lowercase, str_leb, insert_by, sort_by, highest,
}
use temp_js.Result.{ok}
use temp_js.Journal.Model.{GoalRunBinding, null}
use temp_js.Journal.Store
use temp_js.Journal.Store.{Db, empty_db, integer, text}
use temp_js.Journal.Runs
use temp_js.Audit.Appending
use temp_js.Audit.Continuing
use temp_js.Audit.Appending.{append_decision_package}
use temp_js.Audit.AppendOnly.{Appends, append_decision_package_sound}
use temp_js.Journal.Validate
use temp_js.Journal.Examples.Data.{scope, goal}
use temp_js.Journal.Examples.Document.{document_serde}
use temp_js.Resume.Contract
use temp_js.Audit.Package.{
  DecisionPackageV1, DecisionAuditEventV1, DecisionAuditProjectionV1, software, recorded_only,
  no_authority,
}
use temp_js.Audit.Canonical
use temp_js.Audit.Canonical.{AuditFormats}
use temp_js.Audit.Checks
use temp_js.Audit.Event
use temp_js.Audit.Tables
use temp_js.Audit.Tables.{AuditEntry, EventEntry, AuditDb}
use temp_js.Audit.Reading
use temp_js.Audit.Reading.{read_decision_projection_in_tx, event_of, projection_of}
use temp_js.Audit.Chain.{IsHistory, read_decision_projection_sound}

abbrev zeros : ℕ → Str
zeros zero = []
zeros (suc n) = 0 ∷ zeros n

abbrev digits : Str
digits = lit "0000000000000000000000000000000000000000000000000000000000000000"

abbrev decision : DecisionPackageV1
decision = record {
  version = 1;
  decision_id = lit "d1";
  revision = pos 1;
  domain = software;
  question = lit "which";
  object_references = record { locator = lit "repo"; revision = some (lit "r1") } ∷ [];
  evidence = [];
  graph_context = none;
  policy_references = [];
  calculation_references = [];
  model_references = [];
  producer_references = [];
  options = lit "this" ∷ lit "that" ∷ [];
  constraints = [];
  rationale = lit "cheaper";
  reviews = [];
  authorization_observations = [];
  effect_attempts = [];
  acknowledgements = [];
  outcomes = [];
  reconciliations = [];
  correction_of = none;
  successor_to = none;
  verification_ceiling = recorded_only;
  execution_authority = no_authority;
}

abbrev formats : AuditFormats
formats = record {
  integer_text = λ n. some n;
  write_string = λ s. b'"' ∷ s ++ b'"' ∷ [];
  write_integer = λ n. lit "1";
  sha256 = λ bytes. zeros 32;
  goal_value = λ g. null;
  package_value = λ p. null;
  goal_from_slice = λ bytes. some goal;
  package_from_slice = λ bytes. some decision;
}

abbrev audit : AuditEntry
audit = record {
  scope = scope;
  decision_id = lit "d1";
  run_id = lit "run";
  goal_id = lit "g1";
  goal_revision = pos 1;
  goal_digest = digits;
  goal_body = lit "null";
  current_revision = pos 1;
  created_at = pos 5;
}

abbrev row : EventEntry
row = record {
  scope = scope;
  decision_id = lit "d1";
  sequence = 1;
  revision = pos 1;
  request_id = lit "q1";
  request_digest = digits;
  package_body = lit "null";
  package_digest = digits;
  predecessor_event_digest = none;
  event_digest = digits;
  created_at = pos 5;
}

abbrev binding : GoalRunBinding
binding = record {
  version = 1;
  run_id = lit "run";
  scope = scope;
  goal_id = lit "g1";
  goal_revision = pos 1;
}

-- A goal, and a run that is bound to it.
abbrev journal : Db
journal = record empty_db {
  runs =
      record {
        id = lit "run";
        agent = lit "a";
        status = lit "running";
        input = lit "go";
        created_at = pos 1;
        updated_at = pos 1;
        goal_binding = text (document_serde.write_binding binding);
      }
      ∷ [];
  goals =
      record {
        scope = scope;
        id = lit "g1";
        revision = integer (pos 1);
        body = text (document_serde.write_goal goal);
        updated_at = pos 1;
      }
      ∷ [];
}

abbrev empty : AuditDb
empty = record { journal = journal; decision_audits = []; decision_audit_events = [] }

abbrev db : AuditDb
db = record { journal = journal; decision_audits = audit ∷ []; decision_audit_events = row ∷ [] }

-- The same history in another database.

abbrev event : DecisionAuditEventV1
event = record {
  scope = scope;
  run_id = lit "run";
  goal_id = lit "g1";
  goal_revision = pos 1;
  goal_digest = digits;
  sequence = 1;
  decision_package = decision;
  request_id = lit "q1";
  request_digest = digits;
  package_digest = digits;
  event_digest = digits;
  predecessor_event_digest = none;
  created_at = pos 5;
}

abbrev projection : DecisionAuditProjectionV1
projection = record {
  scope = scope;
  run_id = lit "run";
  goal_id = lit "g1";
  goal_revision = pos 1;
  goal_digest = digits;
  decision_id = lit "d1";
  current_revision = pos 1;
  verification_ceiling = recorded_only;
  execution_authority = no_authority;
  events = event ∷ [];
}

runs :
    (read_decision_projection_in_tx formats db scope (lit "d1") ≡ ok projection)
    × (append_decision_package formats (lit "run") (pos 0) (lit "q1") decision (pos 5) empty
        ≡ (ok projection, db))
unfolding lit str_eq starts_with contains is_ascii_alphanumeric to_ascii_lowercase str_leb insert_by
    sort_by Store.scope_eq Store.empty_db Validate.lower_hex Validate.valid_playbook_digest
    Validate.validate_scope Validate.valid_text Validate.valid_playbook Validate.validate_parameters
    Validate.validate_each Validate.validate_parameter_value Validate.enter
    Validate.credential_label Validate.validate_goal Validate.valid_identifier Validate.is_empty
    Validate.identifier_byte Contract.hex_char Contract.hex_text Canonical.push_fields
    Canonical.canonical_value Canonical.canonical_values Canonical.keyed_values
    Canonical.canonical_bytes Canonical.digest Checks.valid_reference Checks.validate_reference
    Checks.validate_reference_list Checks.validate_typed_references
    Checks.validate_revision_reference Checks.validate_evidence Checks.validate_graph
    Checks.validate_package Event.valid_digest Event.digest_input Event.request_value
    Event.event_digest Event.verify_decision_audit_event Event.verify_recorded_decision_binding
    Tables.is_decision Tables.of_decision Reading.last_event Reading.recorded_binding
    Reading.event_of Reading.event_rows Reading.projection_of Reading.read_event Reading.read_events
    Reading.read_decision_projection_in_tx Store.insert Store.is_run
    Validate.validate_goal_run_binding Runs.is_goal Runs.goal_matches Runs.columns_match
    Runs.row_matches Runs.goal_run_binding_is_current Runs.gate_goal_run_in_tx Runs.gate_of_cell
    Runs.gate_of_binding Runs.settle Runs.set_status Runs.mark_goal_run_needs_review Tables.clashes
    Tables.transaction Appending.last_digest Continuing.current_decision_binding Continuing.replay
    Continuing.replay_or_next Continuing.continue_decision Continuing.insert_audit
    Continuing.begin_decision Appending.insert_event Appending.set_revision Appending.new_event
    Appending.undigested Appending.append_event Appending.continue_or_begin
    Appending.answer_or_append Appending.append_in_tx Appending.prepare_append
    Appending.append_decision_package highest
runs = (refl, refl)

read_decision_projection_sound_example : IsHistory formats scope (lit "d1") projection
read_decision_projection_sound_example =
    read_decision_projection_sound formats db scope (lit "d1") projection runs.0

append_decision_package_sound_example :
    (read_decision_projection_in_tx formats db scope (lit "d1") ≡ ok projection)
    × Appends formats (lit "d1") (lit "q1") [] (row ∷ [])
append_decision_package_sound_example =
    append_decision_package_sound formats (lit "run") (pos 0) (lit "q1") decision (pos 5) empty db
      projection runs.1
