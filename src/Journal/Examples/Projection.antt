-- ===== src/Journal/Examples/Projection.antt =====
-- The theorems on the read projections at a concrete journal.
use temp_js.Prelude.{
  ◌<◌, lit, pos, ◌≡◌, refl, none, some, true, List, [], ◌∷◌, length, str_eq, starts_with, contains,
  is_ascii_alphanumeric, to_ascii_lowercase, str_leb, insert_by, sort_by, arith,
}
use temp_js.Result.{ok}
use temp_js.Journal.Store
use temp_js.Journal.Store.{Db, empty_db}
use temp_js.Journal.Runs
use temp_js.Journal.Validate
use temp_js.Journal.Validate.{validate_scope, valid_identifier}
use temp_js.Journal.Goals
use temp_js.Journal.Milestones
use temp_js.Journal.Recording
use temp_js.Journal.History
use temp_js.Journal.Session
use temp_js.Journal.Session.{
  Call, clock, creates_goal, revises_goal, records_milestone, perform_all,
}
use temp_js.Journal.Goals.Revisions.{revision_of}
use temp_js.Journal.Projection
use temp_js.Journal.Projection.{GoalSummary, goal_summary}
use temp_js.Journal.Projection.Activity
use temp_js.Journal.Projection.Activity.{
  GoalActivityCursor, GoalActivityReceipt, GoalActivityPage, choose_cursor, goal_activity_page,
}
use temp_js.Journal.Projection.Counts.{IsSummary, goal_summary_sound}
use temp_js.Journal.Projection.Pages.{IsAnswer, goal_activity_page_sound}
use temp_js.Journal.Projection.Sequence.{Consecutive}
use temp_js.Journal.Projection.Receipts.{Receipted, perform_all-Receipted}
use temp_js.Journal.Projection.Walk.{read_all, read_all_complete}
use temp_js.Journal.Projection.Reading.{goal_activity_page_total}
use temp_js.Journal.Examples.Data.{scope, goal, mutation, before, milestone}
use temp_js.Journal.Examples.Document.{document_serde, document_laws}

abbrev calls : List Call
calls =
    creates_goal (mutation (lit "r1")) goal (pos 10)
    ∷ records_milestone (mutation (lit "r2")) scope (lit "g1") (pos 1) milestone (pos 20)
    ∷ []

abbrev db : Db
db = perform_all empty_db calls

abbrev cursor : GoalActivityCursor
cursor = record {
  scope = scope;
  goal_id = lit "g1";
  after_revision = pos 1;
  through_revision = pos 2;
}

abbrev page : GoalActivityPage
page = record {
  scope = scope;
  goal_id = lit "g1";
  snapshot_revision = pos 2;
  returned_after_revision = pos 1;
  returned_through_revision = pos 2;
  reached_snapshot = true;
  receipts =
      record { revision = pos 2; event = lit "milestone_recorded"; created_at = pos 20 } ∷ [];
  next_cursor = none;
}

abbrev summary : GoalSummary
summary = record {
  scope = scope;
  id = lit "g1";
  revision = pos 2;
  playbook = goal.playbook;
  preparations = record { planned = 1; prepared = 0; needs_refresh = 0 };
}

runs :
    (goal_activity_page db scope (lit "g1") (some cursor) ≡ ok page)
    × (goal_summary db scope (lit "g1") ≡ ok summary)
    × (revision_of db scope (lit "g1") ≡ 2)
    × (validate_scope scope ≡ ok tt)
    × (valid_identifier (lit "g1") ≡ true)
    × (choose_cursor scope (lit "g1") (pos (revision_of db scope (lit "g1"))) (some cursor)
        ≡ ok cursor)
unfolding lit str_eq starts_with contains is_ascii_alphanumeric to_ascii_lowercase str_leb insert_by
    sort_by Store.scope_eq Store.insert Store.upsert Store.transaction Store.empty_db Store.is_run
    Store.is_step Validate.lower_hex Validate.valid_playbook_digest Validate.validate_scope
    Validate.validate_mutation Validate.valid_text Validate.valid_playbook
    Validate.validate_parameters Validate.validate_each Validate.validate_parameter_value
    Validate.enter Validate.validate_goal Validate.validate_patch Validate.valid_identifier
    Validate.is_empty Validate.identifier_byte Validate.credential_label
    Validate.validate_milestone_shape Validate.known_preparation Validate.valid_evidence_reference
    Validate.validate_new_run Validate.validate_goal_run_binding Runs.is_goal Runs.insert_run
    Runs.new_run Runs.goal_matches Runs.columns_match Runs.row_matches
    Runs.goal_run_binding_is_current Runs.create_goal_bound_run Runs.gate_goal_run
    Runs.gate_goal_run_in_tx Runs.gate_of_cell Runs.gate_of_binding Runs.settle Runs.set_status
    Runs.mark_goal_run_needs_review Goals.is_replay Goals.replay_of Goals.replay_or_conflict
    Goals.goal_row Goals.revision_row Goals.event_row Goals.replay_row Goals.overwrite
    Goals.put_goal Goals.is_goal_revision Goals.insert_goal_revision Goals.put_goal_event
    Goals.insert_replay Goals.store_goal_revision Goals.goal_of_row Goals.current_goal
    Goals.cell_exists Goals.revision_exists Goals.create_new Goals.next_revision
    Goals.check_expected Goals.create_goal Milestones.get_parameter Milestones.playbook_eq
    Milestones.or_keep Milestones.apply_patch Milestones.parse_milestones
    Milestones.milestones_in_tx Milestones.of_goal Milestones.is_milestone
    Milestones.is_milestone_revision Milestones.put_milestone Milestones.insert_milestone_revision
    Milestones.store_milestone_revision Milestones.invalidated Milestones.invalidate
    Milestones.is_affected Milestones.all_changed Milestones.changed_keys Milestones.differs_at
    Milestones.value_at_eq Milestones.revise_current Milestones.revise_goal Session.perform
    Session.perform_all Recording.contains_key Recording.keep_refresh Recording.check_room
    Recording.merge_previous Recording.record_current Recording.record_milestone History.in_window
    History.selects_goal_revision History.goal_revision_rows Projection.count
    Projection.summarised_goal Projection.read_columns Projection.read_goal_row Projection.count_row
    Projection.count_rows Projection.milestone_rows Projection.goal_summary
    Activity.valid_goal_event Activity.validate_cursor Activity.choose_cursor Activity.last_revision
    Activity.page_of Activity.current_revision Activity.read_revisions Activity.is_event
    Activity.receipt_of Activity.read_receipts Activity.read_page Activity.goal_activity_page
runs = (refl, refl, refl, refl, refl, refl)

goal_activity_page_sound_example : IsAnswer db scope (lit "g1") (some cursor) page
goal_activity_page_sound_example =
    goal_activity_page_sound db scope (lit "g1") (some cursor) page runs.0

goal_summary_sound_example : IsSummary db scope (lit "g1") summary
goal_summary_sound_example = goal_summary_sound db scope (lit "g1") summary runs.1

perform_all-Receipted_example : Receipted db
perform_all-Receipted_example = perform_all-Receipted calls (refl, (refl, tt))

exists : 0 < revision_of db scope (lit "g1")
exists = omega (arith, runs.2)

goal_activity_page_total_example :
    (page : GoalActivityPage) × (goal_activity_page
        (perform_all empty_db calls)
        scope
        (lit "g1")
        (some cursor)
      ≡ ok page)
goal_activity_page_total_example =
    goal_activity_page_total scope (lit "g1") document_laws calls (some cursor) cursor runs.3 runs.4
      ((refl, tt), (tt, tt)) (refl, (refl, tt)) exists runs.5

read_all_complete_example :
    (receipts : List GoalActivityReceipt) × (read_all scope
        (lit "g1")
        1
        (λ k. before)
        (perform_all empty_db calls)
        none
      ≡ ok receipts)
    × Consecutive {A = GoalActivityReceipt} (λ r. r.revision) 0 receipts
    × (length receipts ≡ revision_of (perform_all empty_db calls) scope (lit "g1"))
read_all_complete_example =
    read_all_complete scope (lit "g1") document_laws calls (λ k. before) 1 runs.3 runs.4
      ((refl, tt), (tt, tt)) (λ k. ((refl, tt), tt)) (refl, (refl, tt)) (λ k. (refl, tt)) exists
      (omega (arith, runs.2))
