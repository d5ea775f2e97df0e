-- ===== src/Runner/Recorded.antt =====
-- crates/beater-agent/src/runner.rs: a registered tool runs after its step was recorded.
use temp_js.Prelude.{
  ℕ, suc, Str, lit, ℤ, Bool, true, false, ◌≡◌, refl, Option, none, some, [], ◌∷◌, ◌++◌,
  if◌then◌else◌,
}
use temp_js.Result.{Result, Error, ok, err}
use temp_js.Journal.Model.{Value, string, object, end, field}
use temp_js.Journal.Serde.{Serde}
use temp_js.Journal.Store.{Db}
use temp_js.Journal.Runs.{require_current_goal_run_in_tx}
use temp_js.Journal.Steps.{max_seq, started, complete_step, fail_step, finish}
use temp_js.Journal.Steps.Order.{start_step-gated}
use temp_js.Resume.Contract.{ToolResumeContract}
use temp_js.Runner.Replay.{ContractSerde, tool_idempotency_key}
use temp_js.Runner.Act.{Outside, Registry, DecisionTools, World, Act, proceed}
use temp_js.Runner.Tools.{
  is_review_error, redact, tool_request, valid_if_given, start_journaled_tool_call_with_contract,
  complete_journaled_tool_call, fail_journaled_tool_call, work_public, finish_public,
  execute_tool_step,
}
use temp_js.Runner.Executes.{call_of}

module _ ⦃serde : Serde⦄ (outside : Outside) (contracts : ContractSerde) (registry : Registry)
    (decisions : DecisionTools) (run_id name tool_use_id : Str) (input : Value) (tries : ℤ) where
  abbrev contract : Option ToolResumeContract
  contract = registry.resume_contract name

  abbrev request : Value
  request =
      tool_request contracts name input tool_use_id (tool_idempotency_key run_id tool_use_id)
        contract

  -- The journal with the step of the call, under the next number.
  abbrev pub recorded : World → Db
  recorded world = record world.journal {
    steps =
        world.journal.steps
        ++ started run_id (suc (max_seq run_id world.journal.steps)) (lit "tool_call") request
            (some name) (some tool_use_id) tries (outside.time world.readings)
          ∷ [];
  }

  -- The journal once the outcome of the tool is recorded in the step.
  abbrev pub settled : Result Str → ℕ → ℤ → Db → Db
  settled (ok result) seq now db =
      (complete_step run_id seq (object (field (lit "content") (string result) end)) now db).1
  settled (err e) seq now db = (fail_step run_id seq (outside.error_text e) now db).1

  abbrev outcome : World → Result Str
  outcome world = outside.execute world.executed (call_of run_id name tool_use_id input)

  abbrev gate : World → Result (Unit {0})
  gate world = (require_current_goal_run_in_tx run_id (outside.time world.readings) world.journal).0

  finish_public_lem :
      (r : Result Str) (seq : ℕ) (world : World)
      → finish_public outside contracts registry decisions run_id seq r world ≡ (
        r,
        record world {
          journal = settled r seq (outside.time world.readings) world.journal;
          readings = suc world.readings;
        },
      )
  unfolding finish_public complete_journaled_tool_call fail_journaled_tool_call complete_step
      fail_step finish
  finish_public_lem (ok s) seq world = refl
  finish_public_lem (err e) seq world = refl

  refused_lem :
      {A B : Type 0} (f : A → Act B) (b : Bool) (e e' : Error) (world : World)
      → proceed f (if b then err e else err e') world ≡ ((if b then err e else err e'), world)
  refused_lem f true e e' world = refl
  refused_lem f false e e' world = refl

  module _ (public : decisions.resume_contract name ≡ none)
      (valid : valid_if_given contract ≡ true) where
    -- A step of a registered tool with a valid declaration, or none, in any world in which the gate of
    -- the run passes: the tool runs once, by the call of this name, id, input and idempotency key;
    -- the journal in which it runs holds its step, started, under the next number and with the request
    -- that records the call and its declaration, and is the journal of before otherwise; after it has run, the same step holds its outcome,
    -- which is the answer.
    pub execute_tool_step-recorded :
        (world : World)
        → gate world ≡ ok tt
        → execute_tool_step outside contracts registry decisions run_id name tool_use_id input tries
            world
          ≡ (
            outcome world,
            record world {
              journal =
                  settled
                    (outcome world)
                    (suc (max_seq run_id world.journal.steps))
                    (outside.time (suc world.readings))
                    (recorded world);
              executed = world.executed ++ call_of run_id name tool_use_id input ∷ [];
              journals = world.journals ++ recorded world ∷ [];
              readings = suc (suc world.readings);
            },
          )
    unfolding execute_tool_step start_journaled_tool_call_with_contract work_public
    execute_tool_step-recorded world h =
        let (passes, _) =
          start_step-gated run_id (lit "tool_call") request (some name) (some tool_use_id) tries
            (outside.time world.readings) world.journal in
        rw (public, valid, passes h) (finish_public_lem _ _ _)

    -- When the gate refuses, no tool runs.
    pub execute_tool_step-refused :
        (world : World) (e : Error)
        → gate world ≡ err e
        → execute_tool_step outside contracts registry decisions run_id name tool_use_id input tries
            world
          ≡ (
            redact (err e),
            record world {
              journal =
                  (require_current_goal_run_in_tx run_id
                    (outside.time world.readings)
                    world.journal).1;
              readings = suc world.readings;
            },
          )
    unfolding execute_tool_step start_journaled_tool_call_with_contract work_public
    execute_tool_step-refused world e h =
        let (_, refuses) =
          start_step-gated run_id (lit "tool_call") request (some name) (some tool_use_id) tries
            (outside.time world.readings) world.journal in
        rw (public, valid, (refuses e h).0) (refused_lem _ (is_review_error e) e _ _)
