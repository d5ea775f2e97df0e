-- ===== src/Runner/Tools.antt =====
-- crates/beater-agent/src/runner.rs: a journaled tool call.
use temp_js.Prelude.{ℕ, Str, lit, ℤ, Bool, true, false, Option, none, some, is_some, if◌then◌else◌}
use temp_js.Result.{
  Result, Error, ok, err, refused, goal_run_needs_review, tool_needs_review, ensure,
}
use temp_js.Journal.Model.{
  Value, string, object, Fields, end, field, GoalRunGate, unbound, current, needs_review,
}
use temp_js.Journal.Serde.{Serde}
use temp_js.Journal.Runs.{gate_goal_run}
use temp_js.Journal.Steps.{start_step, complete_step, fail_step}
use temp_js.Resume.Contract.{ToolResumeContract, is_valid}
use temp_js.Runner.Replay.{ContractSerde, tool_idempotency_key}
use temp_js.Runner.Act.{
  Outside, Registry, DecisionTools, Act, ◌>>=◌, ◌>>◌, pure, raise, given, attempt, journaled,
  execute,
}

abbrev pub is_review_error : Error → Bool
is_review_error goal_run_needs_review = true
is_review_error tool_needs_review = true
is_review_error _ = false

abbrev pub redact {ℓ} : {A : Type ℓ} → Result A → Result A
redact (ok a) = ok a
redact (err e) = if is_review_error e then err e else err (refused "DECISION_AUDIT_REJECTED")

-- `Option::or`
abbrev pub or_else {ℓ} : {A : Type ℓ} → Option A → Option A → Option A
or_else none other = other
or_else (some a) other = some a

-- The request of a tool step.
abbrev pub key_field : Option Str → Fields → Fields
key_field none rest = rest
key_field (some key) rest = field (lit "idempotency_key") (string key) rest

abbrev pub contract_field : ContractSerde → Option ToolResumeContract → Fields
contract_field contracts none = end
contract_field contracts (some contract) =
    field (lit "resume_contract") (contracts.write_contract contract) end

unfoldable pub tool_request :
    ContractSerde → Str → Value → Str → Option Str → Option ToolResumeContract → Value
tool_request contracts name input tool_use_id key contract = object (
    field (lit "name") (string name) (
      field (lit "input") input (
        field (lit "tool_use_id") (string tool_use_id)
          (key_field key (contract_field contracts contract)))))

abbrev pub valid_if_given : Option ToolResumeContract → Bool
valid_if_given none = true
valid_if_given (some contract) = is_valid contract

module _ ⦃serde : Serde⦄ (outside : Outside) (contracts : ContractSerde) (registry : Registry)
    (decisions : DecisionTools) (run_id : Str) where
  -- `redact_private_error`
  abbrev pub redacted : {A : Type 0} → Act A → Act A
  redacted m world = let (r, after) = m world in (redact r, after)

  unfoldable pub start_journaled_tool_call_with_contract :
      Str → Str → Value → ℤ → Option Str → Option ToolResumeContract → Act ℕ
  unfolding tool_request
  start_journaled_tool_call_with_contract name tool_use_id input tries key contract = do
    given (ensure (valid_if_given contract) "invalid tool resume contract")
    journaled outside (
        start_step run_id (lit "tool_call")
          (tool_request contracts name input tool_use_id key contract) (some name)
          (some tool_use_id) tries)

  unfoldable pub complete_journaled_tool_call : ℕ → Str → Act (Unit {0})
  complete_journaled_tool_call seq result =
      journaled outside
        (complete_step run_id seq (object (field (lit "content") (string result) end)))

  unfoldable pub fail_journaled_tool_call : ℕ → Str → Act (Unit {0})
  fail_journaled_tool_call seq error = journaled outside (fail_step run_id seq error)

  -- The private tools want a current binding.
  abbrev pub require_current : GoalRunGate → Result (Unit {0})
  require_current (current binding) = ok tt
  require_current unbound =
      err (refused "runner-private decision tools require a current goal-bound run")
  require_current needs_review = err goal_run_needs_review

  unfoldable pub check_private : Str → Value → Act (Unit {0})
  check_private name input = do
    gate ← redacted (journaled outside (gate_goal_run run_id))
    given (require_current gate)
    redacted (given (decisions.validate name input))

  abbrev pub rejected : GoalRunGate → Result Str
  rejected needs_review = err goal_run_needs_review
  rejected _ = err (refused "DECISION_AUDIT_REJECTED")

  unfoldable pub finish_private : ℕ → Result Str → Act Str
  unfolding complete_journaled_tool_call fail_journaled_tool_call
  finish_private seq (ok projection) = do
    redacted (complete_journaled_tool_call seq projection)
    pure projection
  finish_private seq (err e) = do
    redacted (fail_journaled_tool_call seq (lit "DECISION_AUDIT_REJECTED"))
    gate ← redacted (journaled outside (gate_goal_run run_id))
    given (rejected gate)

  unfoldable pub finish_public : ℕ → Result Str → Act Str
  unfolding complete_journaled_tool_call fail_journaled_tool_call
  finish_public seq (ok result) = do complete_journaled_tool_call seq result; pure result
  finish_public seq (err e) = do fail_journaled_tool_call seq (outside.error_text e); raise e

  unfoldable pub work_private : Str → Str → Value → ℕ → Act Str
  unfolding finish_private
  work_private name tool_use_id input seq = do
    projection ← attempt (journaled outside (decisions.work name run_id tool_use_id input))
    finish_private seq projection

  unfoldable pub work_public : Str → Str → Value → ℕ → Act Str
  unfolding finish_public
  work_public name tool_use_id input seq = do
    outcome ← attempt (
        execute outside (record {
          name = name;
          input = input;
          run_id = run_id;
          tool_use_id = tool_use_id;
          idempotency_key = tool_idempotency_key run_id tool_use_id;
        }))
    finish_public seq outcome

  -- The contract of a tool, private or registered.
  abbrev pub contract_of : Str → Option ToolResumeContract
  contract_of name = or_else (decisions.resume_contract name) (registry.resume_contract name)

  unfoldable pub execute_tool_step : Str → Str → Value → ℤ → Act Str
  unfolding check_private start_journaled_tool_call_with_contract work_private work_public
  execute_tool_step name tool_use_id input tries = do
    if is_some (decisions.resume_contract name) then check_private name input else pure tt
    seq ← redacted (
        start_journaled_tool_call_with_contract name tool_use_id input tries
          (tool_idempotency_key run_id tool_use_id) (contract_of name))
    if is_some (decisions.resume_contract name)
        then work_private name tool_use_id input seq
        else work_public name tool_use_id input seq
