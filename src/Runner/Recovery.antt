-- ===== src/Runner/Recovery.antt =====
-- crates/beater-agent/src/runner.rs: the tools that a resumption runs again.
use temp_js.Prelude.{
  Str, ◌≡◌, refl, inl, inr, Option, none, some, List, [], ◌∷◌, ◌++◌, All, Bool-cases, select,
}
use temp_js.Journal.Model.{Value, Values, nil, cons}
use temp_js.Journal.Serde.{Serde}
use temp_js.Journal.Store.{RunEntry}
use temp_js.Journal.Steps.{StepRow}
use temp_js.Runner.Json.{push_value}
use temp_js.Runner.Replay.{ContractSerde, tool_replay_matches_recorded_contract}
use temp_js.Runner.Replayable.{IsReplayable, tool_replay_matches_iff}
use temp_js.Runner.Act.{Execution, Outside, Registry, DecisionTools, World, Act}
use temp_js.Runner.Tools.{contract_of}
use temp_js.Runner.Loop.{Config}
use temp_js.Runner.Resuming.{
  is_done, last_llm, rerun_tool, replay_tool, resume_done, resume_tool, fill_results, resume_tools,
  restart_with, resume_response, rebuild,
}
use temp_js.Runner.Flows.{
  Flows, IsFlow, Flows-bind, Flows-pure, Flows-option, flow_rules, Runs, Runs-flow, Runs-execute,
}
use temp_js.Runner.Executes.{call_of}
use temp_js.Runner.Rounds.{Flows-call_tool}

module _ ⦃serde : Serde⦄ (outside : Outside) (contracts : ContractSerde) (registry : Registry)
    (decisions : DecisionTools) (config : Config) (run_id : Str) where
  -- A tool that a resumption runs: no completed step of its use is recorded, and it may be run again.
  pub record IsRerun (steps : List StepRow) (call : Execution) : Type 0 where
    pub own : call ≡ call_of run_id call.name call.tool_use_id call.input
    pub not_done : select (is_done call.tool_use_id) steps ≡ []
    pub replayable :
        IsReplayable contracts run_id call.name call.tool_use_id call.input steps
          (contract_of outside contracts registry decisions run_id call.name)

  module _ (steps : List StepRow) where
    abbrev Reruns : {A : Type 0} → Act A → Type 0
    Reruns = Flows (Runs (IsRerun steps))

    IsRerun-flow : IsFlow (Runs (IsRerun steps))
    IsRerun-flow = Runs-flow (IsRerun steps)

    Reruns-rerun_tool :
        (name tool_use_id : Str) (input : Value)
        → select (is_done tool_use_id) steps ≡ []
        → Reruns (
            rerun_tool outside contracts registry decisions config run_id steps name tool_use_id
              input)
    unfolding rerun_tool
    Reruns-rerun_tool name tool_use_id input not_done =
        elim (Bool-cases (
          tool_replay_matches_recorded_contract contracts run_id name tool_use_id input steps
            (contract_of outside contracts registry decisions run_id name))) [
              | inl matches ↦ rw matches (
                  Flows-call_tool outside contracts registry decisions config run_id
                    (Runs-flow (IsRerun steps)) name tool_use_id input _
                    (Runs-execute (IsRerun steps) outside _ (record {
                      own = refl;
                      not_done = not_done;
                      replayable =
                          (tool_replay_matches_iff contracts run_id name tool_use_id input steps
                              _).0
                            matches;
                    })))
              | inr differs ↦ rw differs (search (flow_rules, IsRerun-flow) depth 12)
            ]

    Reruns-resume_done :
        (done : List StepRow) (name tool_use_id : Str) (input : Value)
        → select (is_done tool_use_id) steps ≡ done
        → Reruns (
            resume_done outside contracts registry decisions config run_id steps done name
              tool_use_id input)
    unfolding resume_done replay_tool
    Reruns-resume_done [] name tool_use_id input e = Reruns-rerun_tool name tool_use_id input e
    Reruns-resume_done (step ∷ []) name tool_use_id input e =
        search (flow_rules, IsRerun-flow) depth 12
    Reruns-resume_done (step ∷ other ∷ rest) name tool_use_id input e =
        search (flow_rules, IsRerun-flow) depth 12

    Reruns-resume_tool :
        (block : Value)
        → Reruns (resume_tool outside contracts registry decisions config run_id steps block)
    unfolding resume_tool
    Reruns-resume_tool block = Reruns-resume_done _ _ _ _ refl

    Reruns-fill_results :
        (uses results : Values)
        → Reruns
            (fill_results outside contracts registry decisions config run_id steps uses results)
    unfolding fill_results
    Reruns-fill_results nil results = Flows-pure IsRerun-flow _
    Reruns-fill_results (cons block rest) results =
        Flows-bind IsRerun-flow _ _ (Reruns-resume_tool block) (λ outcome.
          Flows-option outcome _ _ (Flows-pure IsRerun-flow _)
            (λ result. Reruns-fill_results rest (push_value results result)))

    Reruns-restart_with :
        (messages : Values) (results : Option Values)
        → Reruns (restart_with outside contracts registry decisions config run_id messages results)
    Reruns-restart_with messages none = Flows-pure IsRerun-flow _
    Reruns-restart_with messages (some results) = Flows-pure IsRerun-flow _

    Reruns-resume_tools :
        (messages uses : Values)
        → Reruns
            (resume_tools outside contracts registry decisions config run_id steps messages uses)
    unfolding resume_tools
    Reruns-resume_tools messages nil = search (flow_rules, IsRerun-flow) depth 12
    Reruns-resume_tools messages (cons block rest) =
        Flows-bind IsRerun-flow _ _ (Reruns-fill_results (cons block rest) nil)
          (Reruns-restart_with messages)

    Reruns-resume_response :
        (messages : Values) (response : Value)
        → Reruns (
            resume_response outside contracts registry decisions config run_id steps messages
              response)
    unfolding resume_response
    Reruns-resume_response messages response =
        search (flow_rules, IsRerun-flow, Reruns-resume_tools) depth 16

    Reruns-rebuild :
        (row : RunEntry) (last : Option StepRow)
        → Reruns (rebuild outside contracts registry decisions config run_id row steps last)
    unfolding rebuild
    Reruns-rebuild row none = Flows-pure IsRerun-flow _
    Reruns-rebuild row (some step) =
        search (flow_rules, IsRerun-flow, Reruns-resume_response) depth 16

  -- The recovery of a run, before its loop goes on: the tools that it runs are all calls of this run
  -- for which no completed step is recorded and which may be run again, in particular under an
  -- unchanged, idempotent declaration; in whatever state the journal and the tools are.
  pub rebuild-reruns :
      (row : RunEntry) (steps : List StepRow) (world : World)
      → (new : List Execution) × ((rebuild outside contracts registry decisions config run_id row
            steps
            (last_llm steps)
            world).1.executed
          ≡ world.executed ++ new)
        × All (IsRerun steps) new
  rebuild-reruns row steps world = (Reruns-rebuild steps row (last_llm steps)).at world
