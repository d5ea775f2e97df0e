-- ===== src/Runner/Bounds.antt =====
-- crates/beater-agent/src/runner.rs: how often the loop asks the model.
use temp_js.Prelude.{ℕ, zero, suc, Str, lit, ℤ, pos, ◌≡◌, ◌≤◌, ◌+◌, none, List, ◌++◌, length, arith}
use temp_js.Journal.Model.{Value, Values, GoalRunGate}
use temp_js.Journal.Serde.{Serde}
use temp_js.Journal.Runs.{gate_goal_run}
use temp_js.Journal.Steps.{start_step}
use temp_js.Runner.Replay.{ContractSerde}
use temp_js.Runner.Act.{
  Outside, Registry, DecisionTools, World, given, attempt, journaled, ask_model,
}
use temp_js.Runner.Loop.{
  Config, max_loop_steps, create_message, settle_answer, stream_answer, in_step, with_tools, gated,
  request_tools, request_body, model_step, agent_rounds, agent_loop,
}
use temp_js.Runner.Flows.{
  Flows, Flows-given, Flows-journaled, Flows-pure, Flows-attempt, Flows-option, flow_rules, Asks,
  Quiet-flow, Quiet-execute, Asks-Quiet, Asks-once, Asks-bind, Asks-at_most,
}
use temp_js.Runner.Rounds.{Flows-react, Flows-journal_partials, Flows-settle_answer}

module _ ⦃serde : Serde⦄ (outside : Outside) (contracts : ContractSerde) (registry : Registry)
    (decisions : DecisionTools) (config : Config) (run_id : Str) where
  Asks-create_message :
      (seq : ℕ) (body : Value)
      → Flows (Asks 1) (create_message outside contracts registry decisions config run_id seq body)
  unfolding create_message
  Asks-create_message seq body =
      Asks-bind 1 0 (ask_model outside body)
        (stream_answer outside contracts registry decisions config run_id seq)
        (Asks-once outside body)
        (λ answer.
          Asks-Quiet (stream_answer outside contracts registry decisions config run_id seq answer)
            (search (flow_rules, Quiet-flow, Flows-journal_partials) depth 12))

  Asks-in_step :
      (body : Value) (seq : ℕ)
      → Flows (Asks 1) (in_step outside contracts registry decisions config run_id body seq)
  Asks-in_step body seq =
      Asks-bind 1 0
        (attempt (create_message outside contracts registry decisions config run_id seq body))
        (settle_answer outside contracts registry decisions config run_id seq)
        (Flows-attempt (create_message outside contracts registry decisions config run_id seq body)
          (Asks-create_message seq body))
        (λ answer.
          Asks-Quiet (settle_answer outside contracts registry decisions config run_id seq answer) (
            Flows-settle_answer outside contracts registry decisions config run_id Quiet-flow seq
              answer))

  Asks-with_tools :
      (messages : Values) (tries : ℤ) (tools : Value)
      → Flows
          (Asks 1)
          (with_tools outside contracts registry decisions config run_id messages tries tools)
  Asks-with_tools messages tries tools =
      let body = request_body config tools messages in
      let start = start_step run_id (lit "llm_call") body none none tries in
      Asks-bind 0 1 (journaled outside start)
        (in_step outside contracts registry decisions config run_id body)
        (Asks-Quiet (journaled outside start) (Flows-journaled Quiet-flow outside start))
        (Asks-in_step body)

  Asks-gated :
      (messages : Values) (tries : ℤ) (gate : GoalRunGate)
      → Flows
          (Asks 1)
          (gated outside contracts registry decisions config run_id messages tries gate)
  Asks-gated messages tries gate =
      let tools = request_tools registry.api_tools decisions.tool_definitions gate in
      Asks-bind 0 1 (given tools)
        (with_tools outside contracts registry decisions config run_id messages tries)
        (Asks-Quiet (given tools) (Flows-given Quiet-flow tools)) (Asks-with_tools messages tries)

  Asks-model_step :
      (messages : Values) (tries : ℤ)
      → Flows
          (Asks 1)
          (model_step outside contracts registry decisions config run_id messages tries)
  unfolding model_step
  Asks-model_step messages tries =
      Asks-bind 0 1 (journaled outside (gate_goal_run run_id))
        (gated outside contracts registry decisions config run_id messages tries)
        (Asks-Quiet (journaled outside (gate_goal_run run_id))
          (Flows-journaled Quiet-flow outside (gate_goal_run run_id)))
        (Asks-gated messages tries)

  Asks-agent_rounds :
      (rounds : ℕ) (messages : Values) (tries : ℤ)
      → Flows
          (Asks rounds)
          (agent_rounds outside contracts registry decisions config run_id rounds messages tries)
  unfolding agent_rounds
  Asks-agent_rounds zero messages tries = Asks-Quiet _ (search (flow_rules, Quiet-flow) depth 12)
  Asks-agent_rounds (suc rounds) messages tries =
      Asks-at_most (1 + (0 + rounds)) (suc rounds) _ (omega arith) (
        Asks-bind 1 (0 + rounds) _ _ (Asks-model_step messages tries) (λ response.
          Asks-bind 0 rounds _ _
            (Asks-Quiet _ (
              Flows-react outside contracts registry decisions config run_id Quiet-flow
                (Quiet-execute outside) messages response))
            (λ outcome.
              Flows-option outcome _ _
                (Asks-at_most 0 rounds _ (omega arith) (Asks-Quiet _ (Flows-pure Quiet-flow tt)))
                (λ next. Asks-agent_rounds rounds next (pos 1)))))

  -- `agent_loop` asks the model at most 50 times, whatever the model, the tools and the journal do.
  pub agent_loop-bounded :
      (messages : Values) (tries : ℤ) (world : World)
      → (new : List Value) × ((agent_loop outside contracts registry decisions config run_id
            messages tries world).1.requests
          ≡ world.requests ++ new)
        × (length new ≤ 50)
  unfolding agent_loop
  agent_loop-bounded messages tries world =
      (Asks-agent_rounds max_loop_steps messages tries).at world
