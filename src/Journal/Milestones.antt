-- ===== src/Journal/Milestones.antt =====
-- crates/beater-journal/src/lib.rs: milestones, and the corrections that invalidate them.
use temp_js.Prelude.{
  Str, lit, ℤ, eq_ℤ, Bool, true, false, not, ◌&&◌, ◌||◌, Option, none, some, List, [], ◌∷◌, ◌++◌,
  map, any, select, str_eq, str_leb, sort_by, if◌then◌else◌,
}
use temp_js.Result.{Result, ok, err, ensure, or_fail, malformed}
use temp_js.Result
use temp_js.Journal.Model.{
  Value, GoalScope, PlaybookIdentity, Parameters, Goal, GoalPatch, GoalMutation, Milestone,
}
use temp_js.Journal.Serde.{Serde}
use temp_js.Journal.Store.{
  MilestoneEntry, MilestoneRevisionEntry, Db, Tx, Op, transaction, lift, ◌>>=◌, ◌>>◌, pure, insert,
  upsert, scope_eq,
}
use temp_js.Journal.Goals.{
  replay_or_conflict, or_replay, current_goal, check_expected, next_revision, store_goal_revision,
}
use temp_js.Journal.Validate.{
  validate_scope, validate_mutation, validate_goal, validate_patch, valid_identifier,
  valid_revision,
}

unfoldable pub get_parameter : Str → Parameters → Option Value
get_parameter key [] = none
get_parameter key ((k, v) ∷ rest) = if str_eq k key then some v else get_parameter key rest

abbrev pub keys : Parameters → List Str
keys = map (λ entry. entry.0)

abbrev pub member : Str → List Str → Bool
member s = any (λ t. str_eq t s)

unfoldable pub playbook_eq : PlaybookIdentity → PlaybookIdentity → Bool
playbook_eq a b = str_eq a.id b.id && str_eq a.digest b.digest

-- The fields that a correction gives replace the goal's.
unfoldable pub or_keep {ℓ} : {A : Type ℓ} → Option A → A → A
or_keep none old = old
or_keep (some new) old = new

unfoldable pub apply_patch : Goal → GoalPatch → Goal
unfolding or_keep
apply_patch old patch = record old {
  objective = or_keep patch.objective old.objective;
  playbook = or_keep patch.playbook old.playbook;
  parameters = or_keep patch.parameters old.parameters;
}

unfoldable pub invalidated : Milestone → Milestone
invalidated milestone = record milestone {
  requires_refresh = true;
  preparation = lit "needs_refresh";
}

module _ ⦃serde : Serde⦄ where
  open serde use {
    Text, value_eq, write_milestone, read_milestone, write_revision_request,
    write_milestone_request,
  }

  unfoldable pub value_at_eq : Option Value → Option Value → Bool
  value_at_eq none none = true
  value_at_eq (some a) (some b) = value_eq a b
  value_at_eq _ _ = false

  -- `old.objective != next.objective || old.playbook != next.playbook`
  unfoldable pub all_changed : Goal → Goal → Bool
  unfolding playbook_eq
  all_changed old next =
      not (str_eq old.objective next.objective) || not (playbook_eq old.playbook next.playbook)

  unfoldable pub differs_at : Goal → Goal → Str → Bool
  unfolding value_at_eq get_parameter
  differs_at old next key =
      not (value_at_eq (get_parameter key old.parameters) (get_parameter key next.parameters))

  unfoldable pub changed_keys : Goal → Goal → List Str
  unfolding differs_at
  changed_keys old next = select (differs_at old next) (keys old.parameters ++ keys next.parameters)

  -- `all || !dependencies.is_disjoint(&changed)`
  unfoldable pub is_affected : Goal → Goal → Milestone → Bool
  unfolding all_changed changed_keys
  is_affected old next milestone =
      all_changed old next
      || any (λ d. member d (changed_keys old next)) milestone.parameter_dependencies

  unfoldable pub of_goal : GoalScope → Str → MilestoneEntry → Bool
  of_goal scope goal_id row = scope_eq row.scope scope && str_eq row.goal_id goal_id

  unfoldable pub is_milestone : GoalScope → Str → Str → MilestoneEntry → Bool
  unfolding of_goal
  is_milestone scope goal_id milestone_id row =
      of_goal scope goal_id row && str_eq row.milestone_id milestone_id

  unfoldable pub is_milestone_revision : GoalScope → Str → Str → ℤ → MilestoneRevisionEntry → Bool
  is_milestone_revision scope goal_id milestone_id goal_revision row =
      scope_eq row.scope scope
      && str_eq row.goal_id goal_id
      && str_eq row.milestone_id milestone_id
      && eq_ℤ row.goal_revision goal_revision

  unfoldable pub put_milestone : GoalScope → Str → Milestone → ℤ → Db → Db
  unfolding is_milestone
  put_milestone scope goal_id milestone now db =
      let body = write_milestone milestone in
      record db {
        goal_milestones =
            upsert (is_milestone scope goal_id milestone.id)
              (λ old. record old { body = body; created_at = now })
              (record {
                scope = scope;
                goal_id = goal_id;
                milestone_id = milestone.id;
                body = body;
                created_at = now;
              })
              db.goal_milestones;
      }

  unfoldable pub insert_milestone_revision :
      GoalScope → Str → ℤ → Milestone → GoalMutation → Str → ℤ → Tx (Unit {0})
  unfolding is_milestone_revision
  insert_milestone_revision scope goal_id goal_revision milestone mutation event now db =
      let row : MilestoneRevisionEntry = record {
        scope = scope;
        goal_id = goal_id;
        milestone_id = milestone.id;
        goal_revision = goal_revision;
        body = write_milestone milestone;
        actor = mutation.actor;
        request_id = mutation.request_id;
        operation = mutation.operation;
        event = event;
        created_at = now;
      } in
      elim (insert (is_milestone_revision scope goal_id milestone.id goal_revision) row
        db.goal_milestone_revisions) [
          | ok rows ↦ ok (tt, record db { goal_milestone_revisions = rows })
          | err e ↦ err e
        ]

  unfoldable pub store_milestone_revision :
      GoalScope → Str → ℤ → Milestone → GoalMutation → Str → ℤ → Tx (Unit {0})
  store_milestone_revision scope goal_id goal_revision milestone mutation event now db =
      insert_milestone_revision scope goal_id goal_revision milestone mutation event now
        (put_milestone scope goal_id milestone now db)

  unfoldable pub parse_milestones : List MilestoneEntry → Result (List Milestone)
  parse_milestones [] = ok []
  parse_milestones (row ∷ rows) =
      Result.◌>>=◌ (or_fail (read_milestone row.body) malformed)
        λ milestone. Result.◌>>=◌ (parse_milestones rows) λ rest. ok (milestone ∷ rest)

  unfoldable pub milestones_in_tx : GoalScope → Str → Tx (List Milestone)
  unfolding parse_milestones of_goal
  milestones_in_tx scope id db =
      lift
        (parse_milestones (
          sort_by (λ a b. str_leb a.milestone_id b.milestone_id)
            (select (of_goal scope id) db.goal_milestones)))
        db

  -- The loop of `revise_goal`.
  unfoldable pub invalidate :
      GoalScope → Str → Goal → Goal → GoalMutation → ℤ → List Milestone → Tx (Unit {0})
  invalidate scope id old next mutation now [] = pure tt
  invalidate scope id old next mutation now (milestone ∷ rest) = do
    if is_affected old next milestone
        then store_milestone_revision scope id next.revision (invalidated milestone) mutation
            (lit "invalidated") now
        else pure tt
    invalidate scope id old next mutation now rest

  unfoldable pub revise_current :
      GoalMutation → GoalScope → Str → ℤ → GoalPatch → Text → ℤ → Tx Goal
  unfolding apply_patch
  revise_current mutation scope id expected_revision patch request_body now = do
    old ← current_goal scope id
    lift (check_expected expected_revision old.revision)
    revision ← lift (next_revision old.revision)
    let next = record (apply_patch old patch) { revision = revision }
    lift (validate_goal next)
    milestones ← milestones_in_tx scope id
    invalidate scope id old next mutation now milestones
    store_goal_revision next mutation (lit "revised") request_body now
    pure next

  unfoldable pub revise_goal : GoalMutation → GoalScope → Str → ℤ → GoalPatch → ℤ → Op Goal
  revise_goal mutation scope id expected_revision patch now = transaction (do
    lift (validate_mutation mutation)
    lift (validate_scope scope)
    lift (
        ensure (valid_identifier id && valid_revision expected_revision)
          "invalid correction target")
    lift (validate_patch patch)
    let request_body = write_revision_request expected_revision patch
    replay ← replay_or_conflict scope mutation id request_body
    or_replay replay (revise_current mutation scope id expected_revision patch request_body now))
