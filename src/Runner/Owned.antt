-- ===== src/Runner/Owned.antt =====
-- crates/beater-agent/src/runner.rs: `resume_owned`, for the owner of a run.
use temp_js.Prelude.{Str, lit, str_eq, if◌then◌else◌}
use temp_js.Result.{Result, ensure}
use temp_js.Journal.Model.{Value, GoalRunGate, unbound, current, needs_review}
use temp_js.Journal.Serde.{Serde}
use temp_js.Journal.Store.{RunEntry, Db}
use temp_js.Journal.Runs.{run, gate_goal_run}
use temp_js.Journal.Steps.{steps}
use temp_js.Runner.Json.{index, as_str, is_text}
use temp_js.Runner.Replay.{ContractSerde}
use temp_js.Runner.Act.{Outside, Registry, DecisionTools, Act, ◌>>=◌, ◌>>◌, pure, given, journaled}
use temp_js.Runner.Resuming.{resume_async, finish_goal_review}

-- What is prepared outside of the runner: old browser sessions are closed, and the configuration, the
-- tools and the model of the agent are loaded.
pub record Preparation : Type 0 where
  pub cleanup_stale_browser_sessions : Str → Result (Unit {0})
  pub load_config : Str → Result Value
  pub setup : Value → Result (Value × Registry)
  pub select_model : Value → Result Str

module _ ⦃serde : Serde⦄ where
  abbrev pub reading : {A : Type 0} → (Db → Result A) → Act A
  reading r world = (r world.journal, world)

  module _ (outside : Outside) (contracts : ContractSerde) (decisions : DecisionTools)
      (preparation : Preparation) (run_id : Str) where
    -- The rest, for a run that is to go on.
    unfoldable pub go_on : RunEntry → Act (Unit {0})
    go_on row = do
      given (preparation.cleanup_stale_browser_sessions run_id)
      config_value ← given (preparation.load_config row.agent)
      given (
          ensure (is_text row.agent (as_str (index config_value "name")))
            "resumed agent configuration does not match the saved agent")
      loaded ← given (preparation.setup config_value)
      recorded ← reading (λ db. steps db run_id)
      model ← given (preparation.select_model loaded.0)
      finish_goal_review (
          resume_async outside contracts loaded.1 decisions
            (record { system = index loaded.0 "system"; model = model }) run_id row recorded)

    unfoldable pub after_gate : RunEntry → GoalRunGate → Act (Unit {0})
    unfolding go_on
    after_gate row needs_review = pure tt
    after_gate row unbound = if str_eq row.status (lit "completed") then pure tt else go_on row
    after_gate row (current binding) =
        if str_eq row.status (lit "completed") then pure tt else go_on row

    unfoldable pub resume_owned : Act (Unit {0})
    unfolding after_gate
    resume_owned = do
      row ← reading (λ db. run db run_id)
      gate ← journaled outside (gate_goal_run run_id)
      after_gate row gate
