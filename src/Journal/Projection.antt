-- ===== src/Journal/Projection.antt =====
-- crates/beater-journal/src/read_projection.rs: read-only views of a goal, its milestones counted.
pub mod Activity
pub mod Sequence
pub mod Cursors
pub mod Pages
pub mod Receipts
pub mod Selected
pub mod Matched
pub mod Complete
pub mod Total
pub mod Reading
pub mod Walk
pub mod Counts
use temp_js.Prelude.{
  ℕ, suc, ◌+◌, ◌-◌, ◌^◌, Str, lit, ℤ, pos, negsuc, succ_ℤ, leb_ℤ, eq_ℤ, within, Bool, true, false,
  not, ◌&&◌, ◌||◌, Option, none, some, List, [], ◌∷◌, all, find, select, take, length, leb, ltb,
  ◌==◌, str_eq, str_leb, sort_by, if◌then◌else◌,
}
use temp_js.Result.{
  Result, ok, err, ensure, or_fail, refused, no_goal, malformed, conversion, ◌>>=◌, ◌>>◌,
}
use temp_js.Journal.Model.{GoalScope, PlaybookIdentity, Goal, Milestone, HistoryWindow}
use temp_js.Journal.Serde.{Serde}
use temp_js.Journal.Store.{
  Cell, integer, text, GoalEntry, GoalRevisionEntry, GoalEventEntry, MilestoneEntry, Db, scope_eq,
}
use temp_js.Journal.Runs.{is_goal}
use temp_js.Journal.Validate.{
  validate_scope, validate_goal, validate_milestone_shape, valid_identifier, valid_revision,
  max_revision, max_milestones,
}
use temp_js.Journal.Milestones.{of_goal}
use temp_js.Journal.Recording.{contains_key}
use temp_js.Journal.History.{goal_revision_rows}

pub record PreparationCounts : Type 0 where
  pub planned : ℕ
  pub prepared : ℕ
  pub needs_refresh : ℕ

pub record GoalSummary : Type 0 where
  pub scope : GoalScope
  pub id : Str
  pub revision : ℤ
  pub playbook : PlaybookIdentity
  pub preparations : PreparationCounts

-- `u32::checked_add(1)`
abbrev pub checked_count : ℕ → Option ℕ
checked_count n = if ltb n 4294967295 then some (suc n) else none

abbrev overflow : Option ℕ → Result ℕ
overflow n = or_fail n (refused "preparation count overflow")

-- The last branch is a panic of the source.
unfoldable pub count : Milestone → PreparationCounts → Result PreparationCounts
count milestone counts =
    if str_eq milestone.preparation (lit "planned")
    then overflow (checked_count counts.planned) >>= (λ n. ok (record counts { planned = n }))
    else if str_eq milestone.preparation (lit "prepared")
    then overflow (checked_count counts.prepared) >>= (λ n. ok (record counts { prepared = n }))
    else if str_eq milestone.preparation (lit "needs_refresh")
    then overflow (checked_count counts.needs_refresh)
      >>= (λ n. ok (record counts { needs_refresh = n }))
    else err (refused "validated milestone preparation")

module _ ⦃serde : Serde⦄ where
  open serde use {read_goal, read_milestone}

  -- SELECT revision,body FROM goals …, the body parsed and checked against the columns.
  unfoldable pub summarised_goal : GoalScope → Str → ℤ → Goal → Result Goal
  summarised_goal scope goal_id stored_revision goal = do
    validate_goal goal
    ensure (scope_eq goal.scope scope && str_eq goal.id goal_id) "corrupt scoped goal row"
    ensure (eq_ℤ goal.revision stored_revision) "corrupt goal revision column"
    ok goal

  unfoldable pub read_columns : GoalScope → Str → Cell → Cell → Result Goal
  unfolding summarised_goal
  read_columns scope goal_id (integer stored_revision) (text body) =
      or_fail (read_goal body) malformed >>= summarised_goal scope goal_id stored_revision
  read_columns scope goal_id _ _ = err conversion

  unfoldable pub read_goal_row : GoalScope → Str → Option GoalEntry → Result Goal
  unfolding read_columns
  read_goal_row scope goal_id none = err (no_goal goal_id)
  read_goal_row scope goal_id (some row) = read_columns scope goal_id row.revision row.body

  unfoldable pub count_row :
      Goal → ℕ → MilestoneEntry → PreparationCounts → Result PreparationCounts
  unfolding count
  count_row goal seen row counts = do
    ensure (leb seen max_milestones) "too many persisted milestones"
    milestone ← or_fail (read_milestone row.body) malformed
    validate_milestone_shape milestone
    ensure (str_eq milestone.id row.milestone_id) "corrupt milestone id column"
    ensure
        (milestone.requires_refresh
          || all (contains_key goal.parameters) milestone.parameter_dependencies)
        "inconsistent current milestone dependency"
    count milestone counts

  -- The loop over the rows; `seen` counts the row at hand.
  unfoldable pub count_rows :
      Goal → ℕ → List MilestoneEntry → PreparationCounts → Result PreparationCounts
  unfolding count_row
  count_rows goal seen [] counts = ok counts
  count_rows goal seen (row ∷ rows) counts =
      count_row goal (suc seen) row counts >>= λ next. count_rows goal (suc seen) rows next

  -- SELECT … FROM goal_milestones … ORDER BY milestone_id LIMIT 129
  unfoldable pub milestone_rows : GoalScope → Str → Db → List MilestoneEntry
  milestone_rows scope goal_id db = take (suc max_milestones) (
      sort_by (λ a b. str_leb a.milestone_id b.milestone_id)
        (select (of_goal scope goal_id) db.goal_milestones))

  abbrev pub no_counts : PreparationCounts
  no_counts = record { planned = 0; prepared = 0; needs_refresh = 0 }

  abbrev pub summary_of : Goal → PreparationCounts → GoalSummary
  summary_of goal counts = record {
    scope = goal.scope;
    id = goal.id;
    revision = goal.revision;
    playbook = goal.playbook;
    preparations = counts;
  }

  unfoldable pub goal_summary : Db → GoalScope → Str → Result GoalSummary
  unfolding read_goal_row count_rows milestone_rows
  goal_summary db scope goal_id = do
    validate_scope scope
    ensure (valid_identifier goal_id) "invalid goal id"
    goal ← read_goal_row scope goal_id (find (is_goal scope goal_id) db.goals)
    counts ← count_rows goal 0 (milestone_rows scope goal_id db) no_counts
    ok (summary_of goal counts)
