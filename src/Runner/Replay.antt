-- ===== src/Runner/Replay.antt =====
-- crates/beater-agent/src/runner.rs: which recorded tool calls may be run again or replayed.
use temp_js.Prelude.{
  Str, lit, ℤ, pos, leb_ℤ, eq_ℤ, Bool, true, false, not, ◌&&◌, Option, none, some, List, [], ◌∷◌,
  ◌++◌, ◌==◌, str_eq, select, if◌then◌else◌,
}
use temp_js.Journal.Model.{Value}
use temp_js.Journal.Serde.{Serde}
use temp_js.Journal.Steps.{StepRow}
use temp_js.Journal.Validate.{is_empty}
use temp_js.Resume.Contract.{ToolResumeContract, is_valid}
use temp_js.Runner.Json.{index, as_str, is_text}

-- serde's derived form of a contract; not code of the repository.
pub record ContractSerde : Type 0 where
  pub write_contract : ToolResumeContract → Value
  pub read_contract : Value → Option ToolResumeContract

unfoldable pub tool_idempotency_key : Str → Str → Option Str
tool_idempotency_key run_id tool_use_id =
    if is_empty tool_use_id
    then none
    else some (lit "beater:" ++ run_id ++ lit ":tool:" ++ tool_use_id)

abbrev pub same : Bool → Bool → Bool
same true b = b
same false b = not b

-- `PartialEq` of contracts
unfoldable pub contract_eq : ToolResumeContract → ToolResumeContract → Bool
contract_eq a b =
    a.version == b.version
    && str_eq a.name b.name
    && same a.idempotent b.idempotent
    && str_eq a.fingerprint b.fingerprint

unfoldable pub same_contract : ToolResumeContract → Option ToolResumeContract → Bool
unfolding contract_eq
same_contract current none = false
same_contract current (some recorded) =
    is_valid recorded && recorded.idempotent && contract_eq recorded current

unfoldable pub usable : Str → Option ToolResumeContract → Option ToolResumeContract
usable name none = none
usable name (some value) =
    if is_valid value && value.idempotent && str_eq value.name name then some value else none

unfoldable pub max_i64 : ℤ
max_i64 = pos 9223372036854775807

module _ ⦃serde : Serde⦄ where
  -- The steps that recorded calls of one tool use.
  unfoldable pub is_call : Str → StepRow → Bool
  is_call tool_use_id step =
      str_eq step.kind (lit "tool_call") && is_text tool_use_id step.tool_use_id

module _ ⦃serde : Serde⦄ (contracts : ContractSerde) where
  open serde use {value_eq}

  -- The first test of the loop, negated: the step is this call.
  unfoldable pub same_request : Str → Str → Value → Str → StepRow → Bool
  unfolding max_i64
  same_request name tool_use_id input key step =
      is_text name step.tool_name
      && is_text name (as_str (index step.request "name"))
      && is_text tool_use_id (as_str (index step.request "tool_use_id"))
      && value_eq (index step.request "input") input
      && is_text key (as_str (index step.request "idempotency_key"))
      && not (leb_ℤ step.attempt (pos 0))
      && not (eq_ℤ step.attempt max_i64)

  -- The body of the loop.
  unfoldable pub step_matches : Str → Str → Value → Str → ToolResumeContract → StepRow → Bool
  unfolding same_request same_contract
  step_matches name tool_use_id input key current step =
      same_request name tool_use_id input key step
      && same_contract current (contracts.read_contract (index step.request "resume_contract"))

  -- The loop, which leaves at the first step that differs.
  unfoldable pub all_match :
      Str → Str → Value → Str → ToolResumeContract → Bool → List StepRow → Bool
  unfolding step_matches
  all_match name tool_use_id input key current found [] = found
  all_match name tool_use_id input key current found (step ∷ steps) =
      let rest = all_match name tool_use_id input key current true steps in
      if step_matches name tool_use_id input key current step then rest else false

  -- Both `let … else` gave a value.
  abbrev pub replay_with :
      Str → Str → Value → List StepRow → Option ToolResumeContract → Option Str → Bool
  replay_with name tool_use_id input steps none key = false
  replay_with name tool_use_id input steps (some contract) none = false
  replay_with name tool_use_id input steps (some contract) (some key) =
      all_match name tool_use_id input key contract false (select (is_call tool_use_id) steps)

  unfoldable pub tool_replay_matches_recorded_contract :
      Str → Str → Str → Value → List StepRow → Option ToolResumeContract → Bool
  tool_replay_matches_recorded_contract run_id name tool_use_id input steps current =
      replay_with name tool_use_id input steps (usable name current)
        (tool_idempotency_key run_id tool_use_id)

  unfoldable pub completed_tool_matches_recorded_contract :
      Str → Str → Str → Value → StepRow → Option ToolResumeContract → Bool
  completed_tool_matches_recorded_contract run_id name tool_use_id input step current =
      str_eq step.status (lit "completed")
      && tool_replay_matches_recorded_contract run_id name tool_use_id input (step ∷ []) current
