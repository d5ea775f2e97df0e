-- ===== src/Journal/Session/Frames.antt =====
-- crates/beater-journal/src/lib.rs: what every call of the journal keeps.
use temp_js.Prelude.{ℤ, List, All}
use temp_js.Journal.Serde.{Serde}
use temp_js.Journal.Store.{Db}
use temp_js.Journal.Frame.{
  IsFrame, IsStoreFrame, store_frame, create_goal-keeps, revise_goal-keeps, record_milestone-keeps,
}
use temp_js.Journal.RunFrame.{
  create_run-keeps, create_goal_bound_run-keeps, gate_goal_run-keeps, set_run_status-keeps,
}
use temp_js.Journal.StepFrame.{
  IsRunFrame, start_step-keeps, complete_step-keeps, fail_step-keeps, append_step_partial-keeps,
}
use temp_js.Journal.Session.{
  Call, creates_run, creates_bound_run, gates_run, sets_status, starts_step, completes_step,
  fails_step, appends_partial, creates_goal, revises_goal, records_milestone, perform, perform_all,
  perform_all-keeps, perform_all-keeps_under, clock,
}

module _ ⦃serde : Serde⦄ where
  module _ {P : Db → Type 0} (runs : IsRunFrame P) where
    -- One call, of which the predicate may assume the time.
    perform-stores :
        (db : Db) (call : Call) → IsStoreFrame P (clock call) → P db → P (perform db call)
    unfolding perform
    perform-stores db (creates_run id agent input now) goals =
        create_run-keeps runs.runs id agent input now db
    perform-stores db (creates_bound_run scope goal_id expected run_id agent input now) goals =
        create_goal_bound_run-keeps runs.runs scope goal_id expected run_id agent input now db
    perform-stores db (gates_run run_id now) goals = gate_goal_run-keeps runs.runs run_id now db
    perform-stores db (sets_status id status now) goals =
        set_run_status-keeps runs.runs id status now db
    perform-stores db (starts_step run_id kind request tool_name tool_use_id attempt now) goals =
        start_step-keeps runs run_id kind request tool_name tool_use_id attempt now db
    perform-stores db (completes_step run_id seq result now) goals =
        complete_step-keeps runs run_id seq result now db
    perform-stores db (fails_step run_id seq error now) goals =
        fail_step-keeps runs run_id seq error now db
    perform-stores db (appends_partial run_id seq kind payload now) goals =
        append_step_partial-keeps runs run_id seq kind payload now db
    perform-stores db (creates_goal mutation goal now) goals =
        create_goal-keeps now goals mutation goal db
    perform-stores db (revises_goal mutation scope id expected patch now) goals =
        revise_goal-keeps now goals mutation scope id expected patch db
    perform-stores db (records_milestone mutation scope id expected milestone now) goals =
        record_milestone-keeps now goals mutation scope id expected milestone db

    pub perform_all-stores :
        (Q : ℤ → Type 0)
        → ((now : ℤ) → Q now → IsStoreFrame P now)
        → (db : Db) (calls : List Call) → All (λ call. Q (clock call)) calls
        → P db
        → P (perform_all db calls)
    perform_all-stores Q stores =
        perform_all-keeps_under (λ call. Q (clock call)) P
          (λ db call q. perform-stores db call (stores (clock call) q))

    perform-frames : IsFrame P → (db : Db) (call : Call) → P db → P (perform db call)
    perform-frames goals db call = perform-stores db call (store_frame goals (clock call))

  module _ {P : Db → Type 0} (goals : IsFrame P) (runs : IsRunFrame P) where
    pub perform_all-frames : (db : Db) (calls : List Call) → P db → P (perform_all db calls)
    perform_all-frames = perform_all-keeps P (perform-frames runs goals)
