-- ===== src/Runner/Resuming.antt =====
-- crates/beater-agent/src/runner.rs: `resume_owned` and `resume_async`.
use temp_js.Prelude.{
  Str, lit, ℤ, pos, succ_i64, leb_ℤ, Bool, not, ◌&&◌, Option, none, some, List, [], ◌∷◌, str_eq,
  select, if◌then◌else◌,
}
use temp_js.Result.{Result, ok, err, refused, goal_run_needs_review, or_fail}
use temp_js.Journal.Model.{Value, null, string, array, Values, nil, cons}
use temp_js.Journal.Serde.{Serde}
use temp_js.Journal.Store.{RunEntry}
use temp_js.Journal.Steps.{StepRow}
use temp_js.Runner.Json.{index, as_array, str_or_default, elements, is_text, push_value, message}
use temp_js.Runner.Replay.{
  ContractSerde, completed_tool_matches_recorded_contract, tool_replay_matches_recorded_contract,
}
use temp_js.Runner.Act.{Outside, Registry, DecisionTools, Act, ◌>>=◌, ◌>>◌, pure, given}
use temp_js.Runner.Tools.{contract_of}
use temp_js.Runner.Loop.{
  Config, is_tool_use, result_block, set_status, fail_run, call_tool, agent_loop,
}

abbrev pub or_null : Option Value → Value
or_null none = null
or_null (some value) = value

abbrev max_ℤ : ℤ → ℤ → ℤ
max_ℤ a b = if leb_ℤ a b then b else a

-- The blocks that call a tool, of an array.
unfoldable pub tool_uses : Values → Values
tool_uses nil = nil
tool_uses (cons block rest) =
    let others = tool_uses rest in if is_tool_use block then cons block others else others

module _ ⦃serde : Serde⦄ where
  -- `steps.iter().rev().find(|s| s.kind == "llm_call")`
  unfoldable pub last_llm : List StepRow → Option StepRow
  last_llm [] = none
  last_llm (step ∷ steps) =
      let later = last_llm steps in
      elim later [
        | some found ↦ some found
        | none ↦ if str_eq step.kind (lit "llm_call") then some step else none
      ]

  -- The completed steps of a tool use.
  unfoldable pub is_done : Str → StepRow → Bool
  is_done tool_use_id step =
      str_eq step.kind (lit "tool_call")
      && str_eq step.status (lit "completed")
      && is_text tool_use_id step.tool_use_id

  -- The greatest attempt recorded for a tool use, 0 if there is none.
  unfoldable pub prior_attempts : Str → List StepRow → Option ℤ
  prior_attempts tool_use_id [] = none
  prior_attempts tool_use_id (step ∷ steps) =
      let rest = prior_attempts tool_use_id steps in
      if is_text tool_use_id step.tool_use_id
      then elim rest [ none ↦ some step.attempt | some n ↦ some (max_ℤ step.attempt n) ]
      else rest

  abbrev or_zero : Option ℤ → ℤ
  or_zero none = pos 0
  or_zero (some n) = n

  -- The text of a recorded result.
  abbrev pub recorded_content : StepRow → Str
  recorded_content step = str_or_default (index (or_null step.result) "content")

  -- `step.request["messages"]`
  abbrev pub request_messages : StepRow → Result Values
  request_messages step =
      or_fail (as_array (index step.request "messages"))
        (refused "journaled llm_call request has no messages")

  module _ (outside : Outside) (contracts : ContractSerde) (registry : Registry)
      (decisions : DecisionTools) (config : Config) (run_id : Str) where
    -- `set_run_status("needs_review")?; return Ok(())`
    abbrev pub park : {A : Type 0} → Act (Option A)
    park = set_status outside contracts registry decisions config run_id "needs_review" >> pure none

    -- A dangling call: run again under its recorded contract, or parked.
    unfoldable pub rerun_tool : List StepRow → Str → Str → Value → Act (Option Value)
    rerun_tool steps name tool_use_id input =
        if tool_replay_matches_recorded_contract contracts run_id name tool_use_id input steps
          (contract_of outside contracts registry decisions run_id name)
        then call_tool outside contracts registry decisions config run_id name tool_use_id input
            (succ_i64 (or_zero (prior_attempts tool_use_id steps)))
        else park

    -- A completed call: its recorded content, or parked.
    unfoldable pub replay_tool : StepRow → Str → Str → Value → Act (Option Value)
    replay_tool step name tool_use_id input =
        if completed_tool_matches_recorded_contract contracts run_id name tool_use_id input step
          (contract_of outside contracts registry decisions run_id name)
        then pure (some (result_block tool_use_id (recorded_content step)))
        else park

    -- `match done.as_slice()`
    unfoldable pub resume_done :
        List StepRow → List StepRow → Str → Str → Value → Act (Option Value)
    unfolding rerun_tool replay_tool
    resume_done steps [] name tool_use_id input = rerun_tool steps name tool_use_id input
    resume_done steps (step ∷ []) name tool_use_id input = replay_tool step name tool_use_id input
    resume_done steps (step ∷ other ∷ rest) name tool_use_id input = park

    unfoldable pub resume_tool : List StepRow → Value → Act (Option Value)
    unfolding resume_done is_done
    resume_tool steps block =
        let tool_use_id = str_or_default (index block "id") in
        resume_done steps (select (is_done tool_use_id) steps) (str_or_default (index block "name"))
          tool_use_id (index block "input")

    -- The loop over the tool uses.
    unfoldable pub fill_results : List StepRow → Values → Values → Act (Option Values)
    unfolding resume_tool
    fill_results steps nil results = pure (some results)
    fill_results steps (cons block rest) results = do
      outcome ← resume_tool steps block
      elim outcome [
        | none ↦ pure none
        | some result ↦ fill_results steps rest (push_value results result)
      ]

    -- Where the run goes on: its messages and the attempt of the next model call.
    abbrev pub Restart : Type 0
    Restart = Values × ℤ

    abbrev pub restart_with : Values → Option Values → Act (Option Restart)
    restart_with messages none = pure none
    restart_with messages (some results) =
        pure (some (push_value messages (message "user" (array results)), pos 1))

    unfoldable pub resume_tools : List StepRow → Values → Values → Act (Option Restart)
    unfolding fill_results
    resume_tools steps messages nil =
        fail_run outside contracts registry decisions config run_id "failed"
          (refused "stop_reason \"tool_use\" had no tool_use blocks")
    resume_tools steps messages (cons block rest) = do
      results ← fill_results steps (cons block rest) nil
      restart_with messages results

    -- After a completed model call.
    unfoldable pub resume_response : List StepRow → Values → Value → Act (Option Restart)
    unfolding resume_tools tool_uses
    resume_response steps request response =
        let content = index response "content" in
        let messages = push_value request (message "assistant" content) in
        let stop_reason = str_or_default (index response "stop_reason") in
        if str_eq stop_reason (lit "end_turn")
        then set_status outside contracts registry decisions config run_id "completed" >> pure none
        else if str_eq stop_reason (lit "pause_turn")
        then pure (some (messages, pos 1))
        else if not (str_eq stop_reason (lit "tool_use"))
        then fail_run outside contracts registry decisions config run_id "failed"
            (refused "unexpected stop_reason before resume")
        else resume_tools steps messages (tool_uses (elements content))

    unfoldable pub rebuild : RunEntry → List StepRow → Option StepRow → Act (Option Restart)
    unfolding resume_response
    rebuild row steps none = pure (some (cons (message "user" (string row.input)) nil, pos 1))
    rebuild row steps (some step) =
        if not (str_eq step.status (lit "completed"))
        then (do
          messages ← given (request_messages step)
          pure (some (messages, succ_i64 step.attempt)))
        else (do
          response ← given (or_fail step.result (refused "completed step has result"))
          messages ← given (request_messages step)
          resume_response steps messages response)

    unfoldable pub resume_async : RunEntry → List StepRow → Act (Unit {0})
    unfolding rebuild last_llm
    resume_async row steps = do
      restart ← rebuild row steps (last_llm steps)
      elim restart [
        | none ↦ pure tt
        | some (messages, tries) ↦
            set_status outside contracts registry decisions config run_id "running"
            >> agent_loop outside contracts registry decisions config run_id messages tries
      ]

  -- `finish_goal_review`
  abbrev pub reviewed : Result (Unit {0}) → Result (Unit {0})
  reviewed (err goal_run_needs_review) = ok tt
  reviewed r = r

  unfoldable pub finish_goal_review : Act (Unit {0}) → Act (Unit {0})
  finish_goal_review m world = let (r, after) = m world in (reviewed r, after)
