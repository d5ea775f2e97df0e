-- ===== src/Journal/Session.antt =====
-- crates/beater-journal/src/lib.rs: the calls of `Journal` that write, and histories of them.
pub mod Frames
use temp_js.Prelude.{ℕ, Str, ℤ, Option, List, [], ◌∷◌, All}
use temp_js.Journal.Model.{Value, GoalScope, Goal, GoalPatch, GoalMutation, Milestone}
use temp_js.Journal.Serde.{Serde}
use temp_js.Journal.Store.{Db}
use temp_js.Journal.Runs.{create_run, create_goal_bound_run, gate_goal_run, set_run_status}
use temp_js.Journal.Steps.{start_step, complete_step, fail_step, append_step_partial}
use temp_js.Journal.Goals.{create_goal}
use temp_js.Journal.Milestones.{revise_goal}
use temp_js.Journal.Recording.{record_milestone}

pub data Call : Type 0 where
  creates_run : Str → Str → Str → ℤ → Call
  creates_bound_run : GoalScope → Str → ℤ → Str → Str → Str → ℤ → Call
  gates_run : Str → ℤ → Call
  sets_status : Str → Str → ℤ → Call
  starts_step : Str → Str → Value → Option Str → Option Str → ℤ → ℤ → Call
  completes_step : Str → ℕ → Value → ℤ → Call
  fails_step : Str → ℕ → Str → ℤ → Call
  appends_partial : Str → ℕ → Str → Value → ℤ → Call
  creates_goal : GoalMutation → Goal → ℤ → Call
  revises_goal : GoalMutation → GoalScope → Str → ℤ → GoalPatch → ℤ → Call
  records_milestone : GoalMutation → GoalScope → Str → ℤ → Milestone → ℤ → Call

module _ ⦃serde : Serde⦄ where
  -- The database that a call leaves, whether it succeeds or fails.
  unfoldable pub perform : Db → Call → Db
  perform db (creates_run id agent input now) = (create_run id agent input now db).1
  perform db (creates_bound_run scope goal_id expected run_id agent input now) =
      (create_goal_bound_run scope goal_id expected run_id agent input now db).1
  perform db (gates_run run_id now) = (gate_goal_run run_id now db).1
  perform db (sets_status id status now) = (set_run_status id status now db).1
  perform db (starts_step run_id kind request tool_name tool_use_id attempt now) =
      (start_step run_id kind request tool_name tool_use_id attempt now db).1
  perform db (completes_step run_id seq result now) = (complete_step run_id seq result now db).1
  perform db (fails_step run_id seq error now) = (fail_step run_id seq error now db).1
  perform db (appends_partial run_id seq kind payload now) =
      (append_step_partial run_id seq kind payload now db).1
  perform db (creates_goal mutation goal now) = (create_goal mutation goal now db).1
  perform db (revises_goal mutation scope id expected patch now) =
      (revise_goal mutation scope id expected patch now db).1
  perform db (records_milestone mutation scope id expected milestone now) =
      (record_milestone mutation scope id expected milestone now db).1

  unfoldable pub perform_all : Db → List Call → Db
  perform_all db [] = db
  perform_all db (call ∷ calls) = perform_all (perform db call) calls

  -- `Utc::now()` of a call.
  abbrev pub clock : Call → ℤ
  clock (creates_run id agent input now) = now
  clock (creates_bound_run scope goal_id expected run_id agent input now) = now
  clock (gates_run run_id now) = now
  clock (sets_status id status now) = now
  clock (starts_step run_id kind request tool_name tool_use_id attempt now) = now
  clock (completes_step run_id seq result now) = now
  clock (fails_step run_id seq error now) = now
  clock (appends_partial run_id seq kind payload now) = now
  clock (creates_goal mutation goal now) = now
  clock (revises_goal mutation scope id expected patch now) = now
  clock (records_milestone mutation scope id expected milestone now) = now

  -- What each call of some kind keeps, any such calls keep.
  pub perform_all-keeps_under :
      (Q : Call → Type 0) (P : Db → Type 0)
      → ((db : Db) (call : Call) → Q call → P db → P (perform db call))
      → (db : Db) (calls : List Call) → All Q calls
      → P db
      → P (perform_all db calls)
  unfolding perform_all
  perform_all-keeps_under Q P step db [] qs h = h
  perform_all-keeps_under Q P step db (call ∷ calls) qs h =
      perform_all-keeps_under Q P step (perform db call) calls qs.1 (step db call qs.0 h)

  pub perform_all-keeps :
      (P : Db → Type 0)
      → ((db : Db) (call : Call) → P db → P (perform db call))
      → (db : Db) (calls : List Call) → P db
      → P (perform_all db calls)
  unfolding perform_all
  perform_all-keeps P step db [] h = h
  perform_all-keeps P step db (call ∷ calls) h =
      perform_all-keeps P step (perform db call) calls (step db call h)
