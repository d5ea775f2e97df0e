-- ===== src/Journal/Goals/Whole.antt =====
-- crates/beater-journal/src/lib.rs: the history of goals over any calls of the journal.
use temp_js.Prelude.{refl, highest, List, All}
use temp_js.Journal.Serde.{Serde}
use temp_js.Journal.Laws.{IsStableGoal, IsStablePatch, SerdeLaws}
use temp_js.Journal.Store.{Db, empty_db}
use temp_js.Journal.RunFrame.{
  create_run-keeps, create_goal_bound_run-keeps, gate_goal_run-keeps, set_run_status-keeps,
}
use temp_js.Journal.StepFrame.{
  IsRunFrame, start_step-keeps, complete_step-keeps, fail_step-keeps, append_step_partial-keeps,
}
use temp_js.Journal.Session.{
  Call, creates_run, creates_bound_run, gates_run, sets_status, starts_step, completes_step,
  fails_step, appends_partial, creates_goal, revises_goal, records_milestone, perform, perform_all,
  perform_all-keeps_under,
}
use temp_js.Journal.Goals.Histories.{Historic, create_goal-Historic}
use temp_js.Journal.Goals.Corrections.{revise_goal-Historic, record_milestone-Historic}

module _ ⦃serde : Serde⦄ where
  -- The parameters that the call sets, if any, read back as they were written.
  abbrev pub IsStableCall : Call → Type 0
  IsStableCall (creates_goal mutation goal now) = IsStableGoal goal
  IsStableCall (revises_goal mutation scope id expected patch now) = IsStablePatch patch
  IsStableCall _ = Unit

module _ ⦃serde : Serde⦄ (laws : SerdeLaws) where
  frame : IsRunFrame Historic
  frame = record { runs = λ db rows h. h; steps = λ db rows h. h; step_partials = λ db rows h. h }

  perform-Historic :
      (db : Db) (call : Call) → IsStableCall call → Historic db → Historic (perform db call)
  unfolding perform
  perform-Historic db (creates_run id agent input now) stable h =
      create_run-keeps frame.runs id agent input now db h
  perform-Historic db (creates_bound_run scope goal_id expected run_id agent input now) stable h =
      create_goal_bound_run-keeps frame.runs scope goal_id expected run_id agent input now db h
  perform-Historic db (gates_run run_id now) stable h =
      gate_goal_run-keeps frame.runs run_id now db h
  perform-Historic db (sets_status id status now) stable h =
      set_run_status-keeps frame.runs id status now db h
  perform-Historic db (starts_step run_id kind request tool_name tool_use_id attempt now) stable h =
      start_step-keeps frame run_id kind request tool_name tool_use_id attempt now db h
  perform-Historic db (completes_step run_id seq result now) stable h =
      complete_step-keeps frame run_id seq result now db h
  perform-Historic db (fails_step run_id seq error now) stable h =
      fail_step-keeps frame run_id seq error now db h
  perform-Historic db (appends_partial run_id seq kind payload now) stable h =
      append_step_partial-keeps frame run_id seq kind payload now db h
  perform-Historic db (creates_goal mutation goal now) stable h =
      create_goal-Historic mutation goal now db stable h
  perform-Historic db (revises_goal mutation scope id expected patch now) stable h =
      revise_goal-Historic laws mutation scope id expected patch now db stable h
  perform-Historic db (records_milestone mutation scope id expected milestone now) stable h =
      record_milestone-Historic laws mutation scope id expected milestone now db h

  empty-Historic : Historic empty_db
  unfolding empty_db highest
  empty-Historic = record {
    goals_held = tt;
    numbered = λ scope id. tt;
    complete = λ scope id. refl;
  }

  pub calls-Historic :
      (db : Db) (calls : List Call)
      → All IsStableCall calls
      → Historic db
      → Historic (perform_all db calls)
  calls-Historic = perform_all-keeps_under IsStableCall Historic perform-Historic

  -- After any calls on a new journal, whether they succeed or fail, every stored goal is valid and
  -- stands under its own scope and id; the revisions recorded of each goal of a scope are 1, 2, 3, …
  -- in the order in which they were stored, and the last of them is the revision of its goal. The values
  -- of the parameters that the calls set are ones that read back as they were written, and a valid goal
  -- of such parameters that was written is assumed to parse back.
  pub perform_all-Historic :
      (calls : List Call) → All IsStableCall calls → Historic (perform_all empty_db calls)
  perform_all-Historic calls stable = calls-Historic empty_db calls stable empty-Historic
