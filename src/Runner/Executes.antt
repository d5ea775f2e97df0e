-- ===== src/Runner/Executes.antt =====
-- crates/beater-agent/src/runner.rs: what a tool step does.
use temp_js.Prelude.{Str, ℤ}
use temp_js.Result.{Result, ok, err}
use temp_js.Journal.Model.{Value}
use temp_js.Journal.Serde.{Serde}
use temp_js.Runner.Replay.{ContractSerde, tool_idempotency_key}
use temp_js.Runner.Act.{execute, Execution, Outside, Registry, DecisionTools, World}
use temp_js.Runner.Tools.{
  start_journaled_tool_call_with_contract, complete_journaled_tool_call, fail_journaled_tool_call,
  check_private, finish_private, finish_public, work_private, work_public, execute_tool_step,
}
use temp_js.Runner.Flows.{Flows, IsFlow, flow_rules}

-- The one tool that a step runs.
abbrev pub call_of : Str → Str → Str → Value → Execution
call_of run_id name tool_use_id input = record {
  name = name;
  input = input;
  run_id = run_id;
  tool_use_id = tool_use_id;
  idempotency_key = tool_idempotency_key run_id tool_use_id;
}

module _ ⦃serde : Serde⦄ (outside : Outside) (contracts : ContractSerde) (registry : Registry)
    (decisions : DecisionTools) (run_id : Str) {R : World → World → Type 0} (flow : IsFlow R) where
  Flows-finish_private :
      (seq : _) (r : Result Str)
      → Flows R (finish_private outside contracts registry decisions run_id seq r)
  unfolding finish_private complete_journaled_tool_call fail_journaled_tool_call
  Flows-finish_private seq (ok s) = search flow_rules depth 12
  Flows-finish_private seq (err e) = search flow_rules depth 12

  Flows-finish_public :
      (seq : _) (r : Result Str)
      → Flows R (finish_public outside contracts registry decisions run_id seq r)
  unfolding finish_public complete_journaled_tool_call fail_journaled_tool_call
  Flows-finish_public seq (ok s) = search flow_rules depth 12
  Flows-finish_public seq (err e) = search flow_rules depth 12

  Flows-work_private :
      (name tool_use_id : Str) (input : Value) (seq : _)
      → Flows R
          (work_private outside contracts registry decisions run_id name tool_use_id input seq)
  unfolding work_private
  Flows-work_private name tool_use_id input seq = search (flow_rules, Flows-finish_private) depth 12

  Flows-work_public :
      (name tool_use_id : Str) (input : Value) (seq : _)
      → Flows R (execute outside (call_of run_id name tool_use_id input))
      → Flows R (work_public outside contracts registry decisions run_id name tool_use_id input seq)
  unfolding work_public
  Flows-work_public name tool_use_id input seq p = search (flow_rules, Flows-finish_public) depth 12

  pub Flows-execute_tool_step :
      (name tool_use_id : Str) (input : Value) (tries : ℤ)
      → Flows R (execute outside (call_of run_id name tool_use_id input))
      → Flows R (
          execute_tool_step outside contracts registry decisions run_id name tool_use_id input
            tries)
  unfolding execute_tool_step check_private start_journaled_tool_call_with_contract
  Flows-execute_tool_step name tool_use_id input tries p =
      search (flow_rules, Flows-work_private, Flows-work_public) depth 16
