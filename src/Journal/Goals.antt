-- ===== src/Journal/Goals.antt =====
-- crates/beater-journal/src/lib.rs: goals, their revisions and the replay of requests.
pub mod Stored
pub mod Held
pub mod Revisions
pub mod Histories
pub mod Corrections
pub mod Whole
pub mod Replay
pub mod Once
pub mod Winner
use temp_js.Prelude.{
  Str, lit, ℤ, pos, succ_ℤ, leb_ℤ, eq_ℤ, Bool, true, false, not, ◌&&◌, Option, none, some, [], ◌∷◌,
  ◌++◌, find, str_eq, if◌then◌else◌,
}
use temp_js.Result.{
  Result, ok, err, ensure, or_fail, refused, revision_conflict, no_goal, malformed, conversion,
}
use temp_js.Journal.Model.{GoalScope, Goal, GoalMutation}
use temp_js.Journal.Serde.{Serde}
use temp_js.Journal.Store.{
  Cell, null, other, integer, text, GoalEntry, GoalRevisionEntry, GoalEventEntry, ReplayEntry, Db,
  Tx, Op, transaction, lift, ◌>>=◌, ◌>>◌, pure, insert, upsert, scope_eq,
}
use temp_js.Journal.Runs.{is_goal}
use temp_js.Journal.Validate.{
  validate_scope, validate_mutation, validate_goal, valid_identifier, max_revision,
}

module _ ⦃serde : Serde⦄ where
  open serde use {
    Text, text_eq, value_eq, write_goal, read_goal, write_milestone, read_milestone,
    write_revision_request, write_milestone_request,
  }

  unfoldable pub is_replay : GoalScope → GoalMutation → Str → ReplayEntry → Bool
  is_replay scope mutation target row =
      scope_eq row.scope scope
      && str_eq row.actor mutation.actor
      && str_eq row.operation mutation.operation
      && str_eq row.target target
      && str_eq row.request_id mutation.request_id

  unfoldable pub replay_of : Text → Option ReplayEntry → Result (Option Goal)
  replay_of request_body none = ok none
  replay_of request_body (some row) =
      if text_eq row.request_body request_body
      then elim (read_goal row.response_body) [ none ↦ err malformed | some goal ↦ ok (some goal) ]
      else err (refused "idempotency key conflicts with different request content")

  unfoldable pub replay_or_conflict : GoalScope → GoalMutation → Str → Text → Tx (Option Goal)
  unfolding replay_of
  replay_or_conflict scope mutation target request_body db =
      lift (replay_of request_body (find (is_replay scope mutation target) db.goal_replays)) db

  -- The rows that `store_goal_revision` writes.
  unfoldable pub goal_row : Goal → ℤ → GoalEntry
  goal_row goal now = record {
    scope = goal.scope;
    id = goal.id;
    revision = integer goal.revision;
    body = text (write_goal goal);
    updated_at = now;
  }

  unfoldable pub revision_row : Goal → GoalMutation → ℤ → GoalRevisionEntry
  revision_row goal mutation now = record {
    scope = goal.scope;
    goal_id = goal.id;
    revision = goal.revision;
    body = write_goal goal;
    actor = mutation.actor;
    request_id = mutation.request_id;
    operation = mutation.operation;
    created_at = now;
  }

  unfoldable pub event_row : Goal → Str → ℤ → GoalEventEntry
  event_row goal event now = record {
    scope = goal.scope;
    goal_id = goal.id;
    revision = goal.revision;
    event = event;
    created_at = now;
  }

  unfoldable pub replay_row : Goal → GoalMutation → Text → ℤ → ReplayEntry
  replay_row goal mutation request_body now = record {
    scope = goal.scope;
    actor = mutation.actor;
    operation = mutation.operation;
    target = goal.id;
    request_id = mutation.request_id;
    request_body = request_body;
    response_body = write_goal goal;
    created_at = now;
  }

  -- ON CONFLICT DO UPDATE SET revision, body, updated_at
  unfoldable pub overwrite : GoalEntry → GoalEntry → GoalEntry
  overwrite row old = record old {
    revision = row.revision;
    body = row.body;
    updated_at = row.updated_at;
  }

  -- The four statements of `store_goal_revision`, in order.
  unfoldable pub put_goal : Goal → ℤ → Db → Db
  put_goal goal now db = record db {
    goals =
        upsert (is_goal goal.scope goal.id) (overwrite (goal_row goal now)) (goal_row goal now)
          db.goals;
  }

  unfoldable pub is_goal_revision : Goal → GoalRevisionEntry → Bool
  is_goal_revision goal row =
      scope_eq row.scope goal.scope && str_eq row.goal_id goal.id && eq_ℤ row.revision goal.revision

  unfoldable pub insert_goal_revision : Goal → GoalMutation → ℤ → Tx (Unit {0})
  insert_goal_revision goal mutation now db =
      elim (insert (is_goal_revision goal) (revision_row goal mutation now) db.goal_revisions) [
        | ok rows ↦ ok (tt, record db { goal_revisions = rows })
        | err e ↦ err e
      ]

  unfoldable pub put_goal_event : Goal → Str → ℤ → Db → Db
  put_goal_event goal event now db = record db {
    goal_events = db.goal_events ++ event_row goal event now ∷ [];
  }

  unfoldable pub insert_replay : Goal → GoalMutation → Text → ℤ → Tx (Unit {0})
  insert_replay goal mutation request_body now db =
      elim (insert (is_replay goal.scope mutation goal.id)
        (replay_row goal mutation request_body now) db.goal_replays) [
          | ok rows ↦ ok (tt, record db { goal_replays = rows })
          | err e ↦ err e
        ]

  abbrev pub modify : (Db → Db) → Tx (Unit {0})
  modify f db = ok (tt, f db)

  unfoldable pub store_goal_revision : Goal → GoalMutation → Str → Text → ℤ → Tx (Unit {0})
  store_goal_revision goal mutation event request_body now = do
    modify (put_goal goal now)
    insert_goal_revision goal mutation now
    modify (put_goal_event goal event now)
    insert_replay goal mutation request_body now

  -- SELECT body FROM goals …, read as text and parsed.
  unfoldable pub goal_of_row : Str → Option GoalEntry → Result Goal
  goal_of_row id none = err (no_goal id)
  goal_of_row id (some row) = elim row.body [
    | text body ↦ or_fail (read_goal body) malformed
    | null ↦ err conversion
    | other ↦ err conversion
    | integer n ↦ err conversion
  ]

  unfoldable pub current_goal : GoalScope → Str → Tx Goal
  unfolding goal_of_row
  current_goal scope id db = lift (goal_of_row id (find (is_goal scope id) db.goals)) db

  -- `Journal::goal`
  unfoldable pub goal : GoalScope → Str → Tx Goal
  goal scope id = do
    lift (validate_scope scope)
    lift (ensure (valid_identifier id) "invalid goal id")
    current_goal scope id

  unfoldable pub cell_exists : Cell → Result Bool
  cell_exists (integer n) = ok true
  cell_exists _ = err conversion

  -- SELECT revision FROM goals …: an absent row, or a row whose revision is read.
  unfoldable pub revision_exists : Option GoalEntry → Result Bool
  revision_exists none = ok false
  revision_exists (some row) = cell_exists row.revision

  -- An answered request returns its answer; a new one runs the body.
  abbrev pub or_replay : Option Goal → Tx Goal → Tx Goal
  or_replay (some replay) body = pure replay
  or_replay none body = body

  unfoldable pub create_new : GoalMutation → Goal → ℤ → Tx Goal
  unfolding revision_exists
  create_new mutation goal now = do
    exists ← λ db. lift (revision_exists (find (is_goal goal.scope goal.id) db.goals)) db
    lift (ensure (not exists) "goal already exists")
    store_goal_revision goal mutation (lit "created") (write_goal goal) now
    pure goal

  unfoldable pub create_goal : GoalMutation → Goal → ℤ → Op Goal
  create_goal mutation goal now = transaction (do
    lift (validate_mutation mutation)
    lift (validate_goal goal)
    lift (ensure (eq_ℤ goal.revision (pos 1)) "initial goal revision must be one")
    replay ← replay_or_conflict goal.scope mutation goal.id (write_goal goal)
    or_replay replay (create_new mutation goal now))

  -- `checked_add(1).filter(|revision| *revision <= MAX_REVISION)`
  unfoldable pub next_revision : ℤ → Result ℤ
  next_revision revision =
      if leb_ℤ (succ_ℤ revision) (pos max_revision)
      then ok (succ_ℤ revision)
      else err (refused "goal revision limit reached")

  unfoldable pub check_expected : ℤ → ℤ → Result (Unit {0})
  check_expected expected current =
      if eq_ℤ current expected then ok tt else err (revision_conflict expected current)
