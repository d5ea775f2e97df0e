-- ===== src/Runner/Loop.antt =====
-- crates/beater-agent/src/runner.rs: `agent_loop`.
use temp_js.Prelude.{
  ℕ, zero, suc, Str, String, lit, ℤ, pos, Bool, true, false, Option, none, some, is_some, List, [],
  ◌∷◌, ◌++◌, str_eq, if◌then◌else◌,
}
use temp_js.Result.{Result, Error, ok, err, refused, goal_run_needs_review}
use temp_js.Journal.Model.{
  Value, boolean, number, string, array, object, Values, nil, cons, end, field, GoalRunGate,
  unbound, current, needs_review,
}
use temp_js.Journal.Serde.{Serde}
use temp_js.Journal.Runs.{gate_goal_run, set_run_status}
use temp_js.Journal.Steps.{start_step, complete_step, fail_step, append_step_partial}
use temp_js.Runner.Json.{
  index, as_str, str_or_default, elements, is_text, append_values, push_value, message,
}
use temp_js.Runner.Replay.{ContractSerde}
use temp_js.Runner.Act.{
  Outside, Registry, DecisionTools, Act, ◌>>=◌, ◌>>◌, pure, raise, given, attempt, journaled,
  ask_model,
}
use temp_js.Runner.Tools.{is_review_error, execute_tool_step}

abbrev pub max_tokens : String
max_tokens = "16000"

abbrev pub max_loop_steps : ℕ
max_loop_steps = 50

-- `AgentConfig.system` and `Ctx.model`
pub record Config : Type 0 where
  pub system : Value
  pub model : Str

-- The tools of a request, by the gate.
unfoldable pub request_tools : Value → Values → GoalRunGate → Result Value
request_tools tools definitions needs_review = err goal_run_needs_review
request_tools tools definitions unbound = ok tools
request_tools (array values) definitions (current binding) =
    ok (array (append_values values definitions))
request_tools _ definitions (current binding) =
    err (refused "tool registry returned a non-array definition")

unfoldable pub request_body : Config → Value → Values → Value
request_body config tools messages = object (
    field (lit "model") (string config.model) (
      field (lit "max_tokens") (number (lit max_tokens)) (
        field (lit "system") config.system (
          field (lit "thinking") (object (field (lit "type") (string (lit "adaptive")) end))
            (field (lit "tools") tools (field (lit "messages") (array messages) end))))))

-- A block of a response that calls a tool.
abbrev pub is_tool_use : Value → Bool
is_tool_use block = is_text (lit "tool_use") (as_str (index block "type"))

unfoldable pub result_block : Str → Str → Value
result_block tool_use_id content = object (
    field (lit "type") (string (lit "tool_result"))
      (field (lit "tool_use_id") (string tool_use_id) (field (lit "content") (string content) end)))

unfoldable pub error_block : Str → Str → Value
error_block tool_use_id content = object (
    field (lit "type") (string (lit "tool_result")) (
      field (lit "tool_use_id") (string tool_use_id)
        (field (lit "content") (string content) (field (lit "is_error") (boolean true) end))))

-- `partial["event"].as_str().unwrap_or("stream_event")`
abbrev pub kind_or : Option Str → Str
kind_or none = lit "stream_event"
kind_or (some kind) = kind

module _ ⦃serde : Serde⦄ (outside : Outside) (contracts : ContractSerde) (registry : Registry)
    (decisions : DecisionTools) (config : Config) (run_id : Str) where
  abbrev pub set_status : String → Act (Unit {0})
  set_status status = journaled outside (set_run_status run_id (lit status))

  -- `set_run_status(status)?` and then the error.
  abbrev pub fail_run : {A : Type 0} → String → Error → Act A
  fail_run status e = do set_status status; raise e

  -- The parts of a streamed answer, each journaled as it comes.
  unfoldable pub journal_partials : ℕ → List Value → Act (Unit {0})
  journal_partials seq [] = pure tt
  journal_partials seq (partial ∷ rest) = do
    _ ←
        journaled outside
          (append_step_partial run_id seq (kind_or (as_str (index partial "event"))) partial)
    journal_partials seq rest

  -- `create_message_streaming`: an error of its callback ends it.
  abbrev pub stream_answer : ℕ → List Value × Result Value → Act Value
  stream_answer seq answer = do journal_partials seq answer.0; given answer.1

  unfoldable pub create_message : ℕ → Value → Act Value
  unfolding journal_partials
  create_message seq body = ask_model outside body >>= stream_answer seq

  unfoldable pub settle_answer : ℕ → Result Value → Act Value
  settle_answer seq (ok response) = do
    journaled outside (complete_step run_id seq response)
    pure response
  settle_answer seq (err e) = do
    journaled outside (fail_step run_id seq (outside.error_text e))
    fail_run "failed" e

  -- The step of the call, once its row is there.
  abbrev pub in_step : Value → ℕ → Act Value
  in_step body seq = attempt (create_message seq body) >>= settle_answer seq

  abbrev pub with_tools : Values → ℤ → Value → Act Value
  with_tools messages tries tools =
      let body = request_body config tools messages in
      journaled outside (start_step run_id (lit "llm_call") body none none tries) >>= in_step body

  abbrev pub gated : Values → ℤ → GoalRunGate → Act Value
  gated messages tries gate =
      given (request_tools registry.api_tools decisions.tool_definitions gate)
      >>= with_tools messages tries

  unfoldable pub model_step : Values → ℤ → Act Value
  unfolding request_tools request_body create_message settle_answer
  model_step messages tries = journaled outside (gate_goal_run run_id) >>= gated messages tries

  -- What a failed tool call tells the model.
  abbrev pub error_content : Str → Error → Str
  error_content name e =
      if is_some (decisions.resume_contract name)
      then lit "Error: DECISION_AUDIT_REJECTED"
      else lit "Error: " ++ outside.error_text e

  -- The block of a call; none where the run is parked.
  unfoldable pub tool_outcome : Str → Str → Result Str → Act (Option Value)
  unfolding result_block error_block
  tool_outcome name tool_use_id (ok content) = pure (some (result_block tool_use_id content))
  tool_outcome name tool_use_id (err e) =
      if is_review_error e
      then set_status "needs_review" >> pure none
      else pure (some (error_block tool_use_id (error_content name e)))

  unfoldable pub call_tool : Str → Str → Value → ℤ → Act (Option Value)
  unfolding tool_outcome
  call_tool name tool_use_id input tries = do
    outcome ←
        attempt (
          execute_tool_step outside contracts registry decisions run_id name tool_use_id input
            tries)
    tool_outcome name tool_use_id outcome

  -- The loop over the blocks of a response: the results, none where the run is parked.
  unfoldable pub run_tools : Values → Values → Act (Option Values)
  unfolding call_tool
  run_tools nil results = pure (some results)
  run_tools (cons block rest) results =
      let skipped = run_tools rest results in
      if is_tool_use block
      then call_tool (str_or_default (index block "name")) (str_or_default (index block "id"))
          (index block "input") (pos 1)
        >>= (λ outcome. elim outcome [
          | none ↦ pure none
          | some result ↦ run_tools rest (push_value results result)
        ])
      else skipped

  abbrev pub any_tool_use : Values → Bool
  any_tool_use nil = false
  any_tool_use (cons block rest) = if is_tool_use block then true else any_tool_use rest

  -- What a response asks for: another round with more messages, or the end.
  abbrev pub with_results : Values → Option Values → Act (Option Values)
  with_results messages none = pure none
  with_results messages (some results) =
      pure (some (push_value messages (message "user" (array results))))

  unfoldable pub tool_round : Values → Value → Act (Option Values)
  unfolding run_tools
  tool_round messages content = do
    results ← run_tools (elements content) nil
    if any_tool_use (elements content)
        then with_results messages results
        else fail_run "failed"
            (refused "model returned stop_reason \"tool_use\" with no tool_use blocks")

  unfoldable pub react : Values → Value → Act (Option Values)
  unfolding tool_round
  react messages response =
      let content = index response "content" in
      let next = push_value messages (message "assistant" content) in
      let stop_reason = str_or_default (index response "stop_reason") in
      if str_eq stop_reason (lit "tool_use")
      then tool_round next content
      else if str_eq stop_reason (lit "end_turn")
      then set_status "completed" >> pure none
      else if str_eq stop_reason (lit "pause_turn")
      then pure (some next)
      else if str_eq stop_reason (lit "refusal")
      then fail_run "failed" (refused "model refused")
      else fail_run "failed" (refused "unexpected stop_reason")

  -- The rounds that are left.
  unfoldable pub agent_rounds : ℕ → Values → ℤ → Act (Unit {0})
  unfolding model_step react
  agent_rounds zero messages tries = fail_run "failed" (refused "agent exceeded 50 loop steps")
  agent_rounds (suc rounds) messages tries = model_step messages tries >>= λ response.
      react messages response >>= λ outcome. elim outcome [
        | none ↦ pure tt
        | some next ↦ agent_rounds rounds next (pos 1)
      ]

  unfoldable pub agent_loop : Values → ℤ → Act (Unit {0})
  unfolding agent_rounds
  agent_loop messages tries = agent_rounds max_loop_steps messages tries
