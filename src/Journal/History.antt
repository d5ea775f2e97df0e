-- ===== src/Journal/History.antt =====
-- crates/beater-journal/src/lib.rs: the windows over the revisions of goals and milestones, and the
-- list of runs.
use temp_js.Prelude.{
  ℕ, Str, ℤ, pos, leb_ℤ, Bool, not, ◌&&◌, List, [], ◌∷◌, map, select, take, length, sort_by, str_eq,
}
use temp_js.Result.{Result, ok, ensure, or_fail, malformed, ◌>>=◌, ◌>>◌}
use temp_js.Journal.Model.{GoalScope, Goal, Milestone, HistoryWindow}
use temp_js.Journal.Serde.{Serde}
use temp_js.Journal.Store.{RunEntry, GoalRevisionEntry, MilestoneRevisionEntry, Db, scope_eq}
use temp_js.Journal.Validate.{
  validate_scope, validate_history_window, valid_identifier, max_revision,
}

pub record GoalRevision : Type 0 where
  pub revision : ℤ
  pub goal : Goal
  pub actor : Str
  pub request_id : Str
  pub operation : Str
  pub created_at : ℤ

pub record MilestoneRevision : Type 0 where
  pub goal_revision : ℤ
  pub milestone : Milestone
  pub actor : Str
  pub request_id : Str
  pub operation : Str
  pub event : Str
  pub created_at : ℤ

-- `revision > ?after AND revision <= ?through`
unfoldable pub in_window : HistoryWindow → ℤ → Bool
in_window window revision =
    not (leb_ℤ revision window.after_revision) && leb_ℤ revision window.through_revision

-- The window of `goal_history` and `milestone_history`.
abbrev pub whole_history : ℕ → HistoryWindow
whole_history limit = record {
  after_revision = pos 0;
  through_revision = pos max_revision;
  limit = limit;
}

module _ ⦃serde : Serde⦄ where
  open serde use {read_goal, read_milestone}

  unfoldable pub parse_goal_revisions : List GoalRevisionEntry → Result (List GoalRevision)
  parse_goal_revisions [] = ok []
  parse_goal_revisions (row ∷ rows) = do
    goal ← or_fail (read_goal row.body) malformed
    rest ← parse_goal_revisions rows
    ok (
        record {
          revision = row.revision;
          goal = goal;
          actor = row.actor;
          request_id = row.request_id;
          operation = row.operation;
          created_at = row.created_at;
        }
        ∷ rest)

  unfoldable pub selects_goal_revision : GoalScope → Str → HistoryWindow → GoalRevisionEntry → Bool
  unfolding in_window
  selects_goal_revision scope id window row =
      scope_eq row.scope scope && str_eq row.goal_id id && in_window window row.revision

  -- SELECT … ORDER BY revision LIMIT ?8
  unfoldable pub goal_revision_rows : GoalScope → Str → HistoryWindow → Db → List GoalRevisionEntry
  unfolding selects_goal_revision
  goal_revision_rows scope id window db = take window.limit (
      sort_by (λ a b. leb_ℤ a.revision b.revision)
        (select (selects_goal_revision scope id window) db.goal_revisions))

  unfoldable pub goal_history_window :
      GoalScope → Str → HistoryWindow → Db → Result (List GoalRevision)
  unfolding parse_goal_revisions goal_revision_rows
  goal_history_window scope id window db = do
    validate_scope scope
    ensure (valid_identifier id) "invalid goal id"
    validate_history_window window
    parse_goal_revisions (goal_revision_rows scope id window db)

  unfoldable pub goal_history : GoalScope → Str → ℕ → Db → Result (List GoalRevision)
  unfolding goal_history_window
  goal_history scope id limit = goal_history_window scope id (whole_history limit)

  unfoldable pub parse_milestone_revisions :
      List MilestoneRevisionEntry → Result (List MilestoneRevision)
  parse_milestone_revisions [] = ok []
  parse_milestone_revisions (row ∷ rows) = do
    milestone ← or_fail (read_milestone row.body) malformed
    rest ← parse_milestone_revisions rows
    ok (
        record {
          goal_revision = row.goal_revision;
          milestone = milestone;
          actor = row.actor;
          request_id = row.request_id;
          operation = row.operation;
          event = row.event;
          created_at = row.created_at;
        }
        ∷ rest)

  unfoldable pub selects_milestone_revision :
      GoalScope → Str → Str → HistoryWindow → MilestoneRevisionEntry → Bool
  unfolding in_window
  selects_milestone_revision scope goal_id milestone_id window row =
      scope_eq row.scope scope
      && str_eq row.goal_id goal_id
      && str_eq row.milestone_id milestone_id
      && in_window window row.goal_revision

  unfoldable pub milestone_revision_rows :
      GoalScope → Str → Str → HistoryWindow → Db → List MilestoneRevisionEntry
  unfolding selects_milestone_revision
  milestone_revision_rows scope goal_id milestone_id window db = take window.limit (
      sort_by (λ a b. leb_ℤ a.goal_revision b.goal_revision)
        (select (selects_milestone_revision scope goal_id milestone_id window)
          db.goal_milestone_revisions))

  unfoldable pub milestone_history_window :
      GoalScope → Str → Str → HistoryWindow → Db → Result (List MilestoneRevision)
  unfolding parse_milestone_revisions milestone_revision_rows
  milestone_history_window scope goal_id milestone_id window db = do
    validate_scope scope
    ensure (valid_identifier goal_id && valid_identifier milestone_id)
        "invalid milestone history target"
    validate_history_window window
    parse_milestone_revisions (milestone_revision_rows scope goal_id milestone_id window db)

  unfoldable pub milestone_history :
      GoalScope → Str → Str → ℕ → Db → Result (List MilestoneRevision)
  unfolding milestone_history_window
  milestone_history scope goal_id milestone_id limit =
      milestone_history_window scope goal_id milestone_id (whole_history limit)

  -- SELECT …, (SELECT COUNT(*) FROM steps …) FROM runs ORDER BY created_at DESC
  unfoldable pub list_runs : Db → List (RunEntry × ℕ)
  list_runs db =
      map (λ row. (row, length (select (λ step. str_eq step.run_id row.id) db.steps)))
        (sort_by (λ a b. leb_ℤ b.created_at a.created_at) db.runs)
