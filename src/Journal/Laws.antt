-- ===== src/Journal/Laws.antt =====
-- What the proofs assume of the serde interface: a document that was written parses back, a goal if
-- the values of its parameters do.
use temp_js.Prelude.{◌≤◌, true, Option, none, some, ◌≡◌, ◌↔◌, All}
use temp_js.Result.{ok}
use temp_js.Journal.Model.{Value, Parameters, Goal, GoalPatch, Milestone, GoalRunBinding}
use temp_js.Journal.Serde.{Serde}
use temp_js.Journal.Validate.{validate_goal, validate_goal_run_binding}

module _ ⦃serde : Serde⦄ where
  open serde use {
    Text, text_eq, value_eq, write_goal, read_goal, write_milestone, read_milestone, write_binding,
    read_binding, byte_len, write_value, read_value,
  }

  -- The value reads back as it was written. A float need not: serde_json is built without its feature
  -- `float_roundtrip`, and its parser may answer a neighbour of the float that was written.
  abbrev pub IsStable : Value → Type 0
  IsStable v = read_value (write_value v) ≡ some v

  abbrev pub IsStableParameters : Parameters → Type 0
  IsStableParameters parameters = All (λ parameter. IsStable parameter.1) parameters

  abbrev pub IsStableGoal : Goal → Type 0
  IsStableGoal g = IsStableParameters g.parameters

  abbrev pub IsStableChange : Option Parameters → Type 0
  IsStableChange none = Unit
  IsStableChange (some parameters) = IsStableParameters parameters

  -- The parameters that a correction sets, if it sets any.
  abbrev pub IsStablePatch : GoalPatch → Type 0
  IsStablePatch patch = IsStableChange patch.parameters

  pub record SerdeLaws : Type 0 where
    pub text_eq_iff : (a b : Text) → (text_eq a b ≡ true) ↔ (a ≡ b)
    pub value_eq_refl : (v : Value) → value_eq v v ≡ true
    -- The depth bound of `validate_goal` keeps a goal below the parser's recursion limit.
    pub goal_round :
        (g : Goal) → validate_goal g ≡ ok tt → IsStableGoal g → read_goal (write_goal g) ≡ some g
    pub milestone_round : (m : Milestone) → read_milestone (write_milestone m) ≡ some m

  -- What is assumed of the bindings of runs.
  pub record BindingLaws : Type 0 where
    pub binding_round :
        (b : GoalRunBinding)
        → validate_goal_run_binding b ≡ ok tt
        → read_binding (write_binding b) ≡ some b
    -- Seven fields of at most 128 bytes that need no escape, and two numbers.
    pub binding_fits :
        (b : GoalRunBinding)
        → validate_goal_run_binding b ≡ ok tt
        → byte_len (write_binding b) ≤ 4096
