-- ===== src/Journal/Serde.antt =====
-- What the journal uses of serde_json and of SQLite's TEXT values: the written form of the values
-- that it stores, and its parser. Neither is code of the repository.
use temp_js.Prelude.{ℕ, Str, ℤ, Bool, Option}
use temp_js.Journal.Model.{Value, Parameters, Goal, GoalPatch, Milestone, GoalRunBinding}

pub record Serde : Type 1 where
  -- a written JSON document
  pub Text : Type 0
  pub text_eq : Text → Text → Bool
  -- `String::len`, `length(CAST(x AS BLOB))`
  pub byte_len : Text → ℕ
  -- `PartialEq` of `serde_json::Value`
  pub value_eq : Value → Value → Bool
  -- `serde_json::to_string` and `from_str`, at each type that is stored
  pub write_value : Value → Text
  pub read_value : Text → Option Value
  pub write_parameters : Parameters → Text
  pub write_goal : Goal → Text
  pub read_goal : Text → Option Goal
  pub write_milestone : Milestone → Text
  pub read_milestone : Text → Option Milestone
  pub write_binding : GoalRunBinding → Text
  pub read_binding : Text → Option GoalRunBinding
  -- `json!({"expected_revision": …, "patch": …})` and `json!({"expected_revision": …, "milestone": …})`
  pub write_revision_request : ℤ → GoalPatch → Text
  pub write_milestone_request : ℤ → Milestone → Text
  -- `json!({"error": error})`
  pub write_error : Str → Text
