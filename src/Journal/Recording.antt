-- ===== src/Journal/Recording.antt =====
-- crates/beater-journal/src/lib.rs: `record_milestone` and `milestones`.
use temp_js.Prelude.{
  Str, lit, ℤ, Bool, ◌&&◌, Option, none, some, List, all, find, select, length, ltb, is_some,
  if◌then◌else◌,
}
use temp_js.Result.{Result, ok, err, ensure, malformed}
use temp_js.Journal.Model.{GoalScope, Parameters, Goal, GoalMutation, Milestone}
use temp_js.Journal.Serde.{Serde}
use temp_js.Journal.Store.{MilestoneEntry, Db, Tx, Op, transaction, lift, ◌>>=◌, ◌>>◌, pure, gets}
use temp_js.Journal.Goals.{
  replay_or_conflict, or_replay, current_goal, check_expected, next_revision, store_goal_revision,
}
use temp_js.Journal.Milestones.{
  get_parameter, invalidated, of_goal, is_milestone, store_milestone_revision, milestones_in_tx,
}
use temp_js.Journal.Validate.{
  validate_scope, validate_mutation, validate_milestone_shape, valid_identifier, valid_revision,
  max_milestones,
}

-- `goal.parameters.contains_key(key)`
unfoldable pub contains_key : Parameters → Str → Bool
contains_key parameters key = is_some (get_parameter key parameters)

-- A milestone that must be refreshed stays so.
unfoldable pub keep_refresh : Milestone → Milestone → Milestone
keep_refresh previous milestone =
    if previous.requires_refresh then invalidated milestone else milestone

module _ ⦃serde : Serde⦄ where
  open serde use {Text, read_milestone, write_milestone_request}

  -- A new milestone must find room; one that exists must not.
  unfoldable pub check_room : GoalScope → Str → Option MilestoneEntry → Db → Result (Unit {0})
  check_room scope id none db =
      ensure (ltb (length (select (of_goal scope id) db.goal_milestones)) max_milestones)
        "too many milestones"
  check_room scope id (some row) db = ok tt

  unfoldable pub merge_previous : Milestone → Option MilestoneEntry → Result Milestone
  unfolding keep_refresh
  merge_previous milestone none = ok milestone
  merge_previous milestone (some row) = elim (read_milestone row.body) [
    | none ↦ err malformed
    | some previous ↦ ok (keep_refresh previous milestone)
  ]

  unfoldable pub record_current :
      GoalMutation → GoalScope → Str → ℤ → Milestone → Text → ℤ → Tx Goal
  unfolding contains_key check_room merge_previous
  record_current mutation scope id expected_revision milestone request_body now = do
    goal ← current_goal scope id
    lift (check_expected expected_revision goal.revision)
    lift (
        ensure (all (contains_key goal.parameters) milestone.parameter_dependencies)
          "inconsistent milestone dependency")
    existing ← gets (λ db. find (is_milestone scope id milestone.id) db.goal_milestones)
    λ db. lift (check_room scope id existing db) db
    merged ← lift (merge_previous milestone existing)
    revision ← lift (next_revision goal.revision)
    let next = record goal { revision = revision }
    store_milestone_revision scope id revision merged mutation (lit "recorded") now
    store_goal_revision next mutation (lit "milestone_recorded") request_body now
    pure next

  unfoldable pub record_milestone : GoalMutation → GoalScope → Str → ℤ → Milestone → ℤ → Op Goal
  record_milestone mutation scope id expected_revision milestone now = transaction (do
    lift (validate_mutation mutation)
    lift (validate_scope scope)
    lift (
        ensure (valid_identifier id && valid_revision expected_revision) "invalid milestone target")
    lift (validate_milestone_shape milestone)
    let request_body = write_milestone_request expected_revision milestone
    replay ← replay_or_conflict scope mutation id request_body
    or_replay replay
        (record_current mutation scope id expected_revision milestone request_body now))

  unfoldable pub milestones : GoalScope → Str → Op (List Milestone)
  milestones scope id = transaction (do
    lift (validate_scope scope)
    lift (ensure (valid_identifier id) "invalid goal id")
    milestones_in_tx scope id)
