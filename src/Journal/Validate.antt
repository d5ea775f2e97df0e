-- ===== src/Journal/Validate.antt =====
-- crates/beater-journal/src/lib.rs: the bounds on what the journal accepts.
mod Parameter
pub use Parameter.{max_parameter_depth, max_parameter_nodes, max_parameter_json}
unfoldable pub use Parameter.{
  max_identifier, is_empty, valid_identifier, identifier_byte, credential_label,
  validate_parameter_value, validate_values, validate_fields, enter, check_key, plain_string,
  trim_start,
}
use temp_js.Prelude.{
  ℕ, Str, String, lit, ℤ, pos, within, leb_ℤ, Bool, not, ◌&&◌, ◌||◌, Option, none, some, List, [],
  ◌∷◌, length, all, leb, ltb, ◌==◌, str_eq, is_ascii_digit,
}
use temp_js.Result.{Result, ok, ensure, ◌>>=◌, ◌>>◌}
use temp_js.Journal.Model.{
  Value, GoalScope, PlaybookIdentity, Parameters, Goal, GoalPatch, GoalMutation, Milestone,
  GoalRunBinding, HistoryWindow,
}
use temp_js.Journal.Serde.{Serde}

abbrev pub max_text : ℕ
max_text = 4096

abbrev pub max_parameters : ℕ
max_parameters = 32

abbrev pub max_all_parameter_json : ℕ
max_all_parameter_json = 32768

abbrev pub max_milestones : ℕ
max_milestones = 128

abbrev pub max_evidence : ℕ
max_evidence = 32

abbrev pub max_revision : ℕ
max_revision = 1000000000

abbrev pub goal_run_binding_version : ℕ
goal_run_binding_version = 1

unfoldable pub lower_hex : ℕ → Bool
lower_hex b = is_ascii_digit b || leb b'a' b && leb b b'f'

unfoldable pub valid_playbook_digest : Str → Bool
unfolding lower_hex
valid_playbook_digest value = length value == 64 && all lower_hex value

-- `(1..=MAX_REVISION).contains(&revision)`
abbrev pub valid_revision : ℤ → Bool
valid_revision = within (pos 1) (pos max_revision)

unfoldable pub validate_scope : GoalScope → Result (Unit {0})
validate_scope scope = do
  ensure (valid_identifier scope.organization) "invalid organization scope"
  ensure (valid_identifier scope.project) "invalid project scope"
  ensure (valid_identifier scope.environment) "invalid environment scope"
  ensure (valid_identifier scope.site) "invalid site scope"

unfoldable pub validate_mutation : GoalMutation → Result (Unit {0})
validate_mutation mutation = do
  ensure (valid_identifier mutation.actor) "invalid actor"
  ensure (valid_identifier mutation.request_id) "invalid request identity"
  ensure (valid_identifier mutation.operation) "invalid operation"

unfoldable pub valid_text : Str → Bool
valid_text value = not (is_empty value) && leb (length value) max_text

unfoldable pub valid_playbook : PlaybookIdentity → Bool
unfolding valid_playbook_digest
valid_playbook playbook = valid_identifier playbook.id && valid_playbook_digest playbook.digest

unfoldable pub valid_evidence_reference : Str → Bool
valid_evidence_reference value =
    not (is_empty value)
    && leb (length value) max_identifier
    && all identifier_byte value
    && not (credential_label value)

-- `matches!(preparation, "planned" | "prepared" | "needs_refresh")`
unfoldable pub known_preparation : Str → Bool
known_preparation s =
    str_eq s (lit "planned") || str_eq s (lit "prepared") || str_eq s (lit "needs_refresh")

-- `requires_refresh == (preparation == "needs_refresh")`
abbrev same : Bool → Bool → Bool
same a b = a && b || not a && not b

unfoldable pub validate_milestone_shape : Milestone → Result (Unit {0})
unfolding valid_evidence_reference
validate_milestone_shape milestone = do
  ensure (valid_identifier milestone.id) "invalid milestone id"
  ensure (known_preparation milestone.preparation) "invalid milestone preparation"
  ensure (leb (length milestone.evidence_references) max_evidence) "too many evidence references"
  ensure (same milestone.requires_refresh (str_eq milestone.preparation (lit "needs_refresh")))
      "inconsistent milestone refresh state"
  ensure (leb (length milestone.parameter_dependencies) max_parameters)
      "too many milestone dependencies"
  ensure (all valid_evidence_reference milestone.evidence_references)
      "invalid opaque evidence reference"
  ensure (all valid_identifier milestone.parameter_dependencies) "inconsistent milestone dependency"

unfoldable pub validate_history_window : HistoryWindow → Result (Unit {0})
validate_history_window window = do
  ensure (leb 1 window.limit && leb window.limit 256) "invalid history limit"
  ensure
      (within (pos 0) (pos max_revision) window.after_revision
        && within (pos 0) (pos max_revision) window.through_revision
        && leb_ℤ window.after_revision window.through_revision)
      "invalid history window"

unfoldable pub validate_goal_run_binding : GoalRunBinding → Result (Unit {0})
validate_goal_run_binding binding = do
  ensure (binding.version == goal_run_binding_version) "invalid goal run binding version"
  ensure (valid_identifier binding.run_id) "invalid goal run id"
  validate_scope binding.scope
  ensure (valid_identifier binding.goal_id) "invalid goal run target"
  ensure (valid_revision binding.goal_revision) "invalid goal run revision"

unfoldable pub validate_new_run : Str → Str → Str → Result (Unit {0})
validate_new_run run_id agent input = do
  ensure (valid_identifier run_id) "invalid run id"
  ensure (valid_identifier agent) "invalid run agent"
  ensure (valid_text input) "invalid run input"

module _ ⦃serde : Serde⦄ where
  open serde use {byte_len, write_value, write_parameters}

  -- The loop of `validate_parameters`, with the values that may still be visited.
  unfoldable pub validate_each : Parameters → ℕ → Result ℕ
  validate_each [] remaining = ok remaining
  validate_each ((key, value) ∷ rest) remaining = do
    ensure (valid_identifier key) "invalid parameter key"
    ensure (not (credential_label key)) "credential-labelled parameter key"
    left ← validate_parameter_value value 0 remaining
    ensure (leb (byte_len (write_value value)) max_parameter_json) "parameter too large"
    validate_each rest left

  unfoldable pub validate_parameters : Parameters → Result (Unit {0})
  validate_parameters parameters = do
    ensure (leb (length parameters) max_parameters) "too many goal parameters"
    left ← validate_each parameters max_parameter_nodes
    ensure (leb (byte_len (write_parameters parameters)) max_all_parameter_json)
        "goal parameters too large"

  unfoldable pub validate_goal : Goal → Result (Unit {0})
  validate_goal goal = do
    validate_scope goal.scope
    ensure (valid_identifier goal.id) "invalid goal id"
    ensure (valid_text goal.objective) "invalid objective"
    ensure (valid_playbook goal.playbook) "invalid playbook identity"
    ensure (valid_revision goal.revision) "invalid goal revision"
    validate_parameters goal.parameters

  unfoldable pub validate_patch : GoalPatch → Result (Unit {0})
  validate_patch patch = do
    elim patch.objective [ none ↦ ok tt | some s ↦ ensure (valid_text s) "invalid objective" ]
    elim patch.playbook [
      | none ↦ ok tt
      | some p ↦ ensure (valid_playbook p) "invalid playbook identity"
    ]
    elim patch.parameters [ none ↦ ok tt | some ps ↦ validate_parameters ps ]
