-- ===== src/Journal/Goals/Once.antt =====
-- crates/beater-journal/src/lib.rs: a request on goals takes effect once, whatever happens in between.
use temp_js.Prelude.{
  Str, ℤ, ◌≡◌, sym, ap, ◌∙◌, inl, inr, some, List, [], ◌∷◌, ◌++◌, All, find, Option-cases,
  find-append_found,
}
use temp_js.Result.{ok}
use temp_js.Journal.Serde.{Serde}
use temp_js.Journal.Laws.{IsStableGoal, IsStablePatch, SerdeLaws}
use temp_js.Journal.Model.{GoalScope, Goal, GoalPatch, GoalMutation, Milestone}
use temp_js.Journal.Store.{ReplayEntry, Db, empty_db}
use temp_js.Journal.Frame.{IsFrame}
use temp_js.Journal.StepFrame.{IsRunFrame}
use temp_js.Journal.Session.{Call, perform_all}
use temp_js.Journal.Session.Frames.{perform_all-frames}
use temp_js.Journal.Goals.{is_replay, replay_of, create_goal}
use temp_js.Journal.Goals.Whole.{IsStableCall, perform_all-Historic}
use temp_js.Journal.Goals.Replay.{
  Answered, Later, create_goal-Later, revise_goal-Later, record_milestone-Later,
}
use temp_js.Journal.Milestones.{revise_goal}
use temp_js.Journal.Recording.{record_milestone}

module _ ⦃serde : Serde⦄ (laws : SerdeLaws) where
  open serde use {Text}

  replay_of-append :
      (scope : GoalScope) (mutation : GoalMutation) (target : Str) (body : Text) (goal : Goal)
      (rows : List ReplayEntry) (row : ReplayEntry)
      → replay_of body (find (is_replay scope mutation target) rows) ≡ ok (some goal)
      → replay_of body (find (is_replay scope mutation target) (rows ++ row ∷ [])) ≡ ok (some goal)
  unfolding replay_of
  replay_of-append scope mutation target body goal rows row h =
      elim (Option-cases (find (is_replay scope mutation target) rows)) [
        | inl missing ↦ absurd (cc (ap (replay_of body) missing, h))
        | inr (old, found) ↦
            ap (replay_of body)
              (find-append_found (is_replay scope mutation target) rows row old found)
            ∙ ap (replay_of body) (sym found)
            ∙ h
      ]

  module _ (scope : GoalScope) (mutation : GoalMutation) (target : Str) (body : Text)
      (goal : Goal) where
    goals_frame : IsFrame (Answered laws scope mutation target body goal)
    goals_frame = record {
      goals = λ db rows h. h;
      goal_revisions = λ db rows h. h;
      goal_events = λ db rows h. h;
      goal_replays =
          λ db row h. replay_of-append scope mutation target body goal db.goal_replays row h;
      milestones = record {
        goal_milestones = λ db rows h. h;
        goal_milestone_revisions = λ db rows h. h;
      };
    }

    runs_frame : IsRunFrame (Answered laws scope mutation target body goal)
    runs_frame = record {
      runs = λ db rows h. h;
      steps = λ db rows h. h;
      step_partials = λ db rows h. h;
    }

  perform_all-Later : (db : Db) (calls : List Call) → Later laws db (perform_all db calls)
  perform_all-Later db calls s m t b g =
      perform_all-frames (goals_frame s m t b g) (runs_frame s m t b g) db calls

  module _ (before between : List Call) (now now' : ℤ) (answer : Goal) (after : Db) where
    -- A goal that was created in a journal that any calls led to: the same request, sent again after
    -- any further calls, gets the same goal and writes nothing. The values of the
    -- parameters that the calls before it and the request set are ones that read back as they were
    -- written, and a valid goal of such parameters that was written is assumed to parse back.
    pub create_goal-once :
        (mutation : GoalMutation) (goal : Goal)
        → All IsStableCall before
        → IsStableGoal goal
        → create_goal mutation goal now (perform_all empty_db before) ≡ (ok answer, after)
        → create_goal mutation goal now' (perform_all after between)
          ≡ (ok answer, perform_all after between)
    create_goal-once mutation goal stable fixed e =
        create_goal-Later laws mutation goal answer now now' (perform_all empty_db before) after
          (perform_all after between) fixed (perform_all-Historic laws before stable)
          (perform_all-Later after between) e

    -- A correction that succeeded in a journal that any calls led to: the same request, sent again
    -- after any further calls, gets the same goal and writes nothing, also when other corrections
    -- have moved the goal on. The values of the parameters that the calls before it and the request set
    -- are ones that read back as they were written, and a valid goal of such parameters that was
    -- written is assumed to parse back.
    pub revise_goal-once :
        (mutation : GoalMutation) (scope : GoalScope) (id : Str) (expected : ℤ) (patch : GoalPatch)
        → All IsStableCall before
        → IsStablePatch patch
        → revise_goal mutation scope id expected patch now (perform_all empty_db before)
          ≡ (ok answer, after)
        → revise_goal mutation scope id expected patch now' (perform_all after between)
          ≡ (ok answer, perform_all after between)
    revise_goal-once mutation scope id expected patch stable fixed e =
        revise_goal-Later laws mutation scope id expected patch answer now now'
          (perform_all empty_db before) after (perform_all after between) fixed
          (perform_all-Historic laws before stable) (perform_all-Later after between) e

    -- A milestone that was recorded in a journal that any calls led to: the same request, sent again
    -- after any further calls, gets the same goal and writes nothing. The values of
    -- the parameters that the calls before it set are ones that read back as they were written, and a
    -- valid goal of such parameters that was written is assumed to parse back.
    pub record_milestone-once :
        (mutation : GoalMutation) (scope : GoalScope) (id : Str) (expected : ℤ)
        (milestone : Milestone)
        → All IsStableCall before
        → record_milestone mutation scope id expected milestone now (perform_all empty_db before)
          ≡ (ok answer, after)
        → record_milestone mutation scope id expected milestone now' (perform_all after between)
          ≡ (ok answer, perform_all after between)
    record_milestone-once mutation scope id expected milestone stable e =
        record_milestone-Later laws mutation scope id expected milestone answer now now'
          (perform_all empty_db before) after (perform_all after between)
          (perform_all-Historic laws before stable) (perform_all-Later after between) e
