-- ===== src/Runner/Rounds.antt =====
-- crates/beater-agent/src/runner.rs: what a round of the loop does.
use temp_js.Prelude.{ℕ, Str, ℤ, Option, none, some, List, [], ◌∷◌}
use temp_js.Result.{Result, ok, err}
use temp_js.Journal.Model.{Value, Values, nil, cons}
use temp_js.Journal.Serde.{Serde}
use temp_js.Journal.Steps.{append_step_partial}
use temp_js.Runner.Json.{as_str, index, push_value}
use temp_js.Runner.Replay.{ContractSerde}
use temp_js.Runner.Act.{Execution, Outside, Registry, DecisionTools, World, execute}
use temp_js.Runner.Loop.{
  Config, kind_or, call_tool, tool_outcome, run_tools, with_results, tool_round, react,
  journal_partials, settle_answer,
}
use temp_js.Runner.Flows.{
  Flows, IsFlow, Flows-bind, Flows-pure, Flows-if, Flows-option, Flows-journaled, flow_rules,
}
use temp_js.Runner.Executes.{call_of, Flows-execute_tool_step}

module _ ⦃serde : Serde⦄ (outside : Outside) (contracts : ContractSerde) (registry : Registry)
    (decisions : DecisionTools) (config : Config) (run_id : Str) where
  module _ {R : World → World → Type 0} (flow : IsFlow R) where
    Flows-tool_outcome :
        (name tool_use_id : Str) (r : Result Str)
        → Flows R
            (tool_outcome outside contracts registry decisions config run_id name tool_use_id r)
    unfolding tool_outcome
    Flows-tool_outcome name tool_use_id (ok content) = Flows-pure flow _
    Flows-tool_outcome name tool_use_id (err e) = search flow_rules depth 12

    pub Flows-call_tool :
        (name tool_use_id : Str) (input : Value) (tries : ℤ)
        → Flows R (execute outside (call_of run_id name tool_use_id input))
        → Flows R (
            call_tool outside contracts registry decisions config run_id name tool_use_id input
              tries)
    unfolding call_tool
    Flows-call_tool name tool_use_id input tries p =
        search (flow_rules, Flows-execute_tool_step, Flows-tool_outcome) depth 12

    module _ (runs : (call : Execution) → Flows R (execute outside call)) where
      Flows-run_tools :
          (blocks results : Values)
          → Flows R (run_tools outside contracts registry decisions config run_id blocks results)
      unfolding run_tools
      Flows-run_tools nil results = Flows-pure flow _
      Flows-run_tools (cons block rest) results =
          Flows-if _ _ _
            (Flows-bind flow _ _ (Flows-call_tool _ _ _ _ (runs _)) (λ outcome.
              Flows-option outcome _ _ (Flows-pure flow _)
                (λ result. Flows-run_tools rest (push_value results result))))
            (Flows-run_tools rest results)

      Flows-with_results :
          (messages : Values) (results : Option Values)
          → Flows R
              (with_results outside contracts registry decisions config run_id messages results)
      Flows-with_results messages none = Flows-pure flow _
      Flows-with_results messages (some results) = Flows-pure flow _

      Flows-tool_round :
          (messages : Values) (content : Value)
          → Flows R (tool_round outside contracts registry decisions config run_id messages content)
      unfolding tool_round
      Flows-tool_round messages content =
          search (flow_rules, Flows-run_tools, Flows-with_results) depth 12

      pub Flows-react :
          (messages : Values) (response : Value)
          → Flows R (react outside contracts registry decisions config run_id messages response)
      unfolding react
      Flows-react messages response = search (flow_rules, Flows-tool_round) depth 16

    pub Flows-journal_partials :
        (seq : ℕ) (partials : List Value)
        → Flows R (journal_partials outside contracts registry decisions config run_id seq partials)
    unfolding journal_partials
    Flows-journal_partials seq [] = Flows-pure flow _
    Flows-journal_partials seq (partial ∷ rest) =
        Flows-bind flow _ _
          (Flows-journaled flow outside
            (append_step_partial run_id seq (kind_or (as_str (index partial "event"))) partial))
          (λ _. Flows-journal_partials seq rest)

    pub Flows-settle_answer :
        (seq : ℕ) (r : Result Value)
        → Flows R (settle_answer outside contracts registry decisions config run_id seq r)
    unfolding settle_answer
    Flows-settle_answer seq (ok response) = search flow_rules depth 12
    Flows-settle_answer seq (err e) = search flow_rules depth 12
