-- ===== src/Journal/Examples/Goals.antt =====
-- The theorems on goals at concrete databases.
use temp_js.Prelude.{
  lit, pos, ◌≡◌, ◌≤◌, refl, ap, some, [], All, find, str_eq, starts_with, contains,
  is_ascii_alphanumeric, to_ascii_lowercase, str_leb, insert_by, sort_by,
}
use temp_js.Result.{ok}
use temp_js.Journal.Model.{Goal, GoalRunBinding, current, needs_review}
use temp_js.Journal.Store
use temp_js.Journal.Store.{text, RunEntry, Db, empty_db, is_run}
use temp_js.Journal.Runs
use temp_js.Journal.Validate
use temp_js.Journal.Goals
use temp_js.Journal.Milestones
use temp_js.Journal.Recording
use temp_js.Journal.Session
use temp_js.Journal.Goals.{create_goal}
use temp_js.Journal.Milestones.{revise_goal}
use temp_js.Journal.Session.{Call, creates_goal, revises_goal, perform_all}
use temp_js.Journal.Recording.{record_milestone}
use temp_js.Journal.Runs.{set_run_status, create_goal_bound_run, gate_goal_run, set_status}
use temp_js.Journal.Gate.{NamesCurrentGoal, gate_goal_run-current}
use temp_js.Journal.RunFrame.{create_goal_bound_run-keeps}
use temp_js.Journal.Status.{MayRun, set_run_status-guarded}
use temp_js.Journal.Bound.{create_goal_bound_run-current, revise_goal-revokes}
use temp_js.Journal.Goals.Revisions.{revision_of}
use temp_js.Journal.Goals.Histories.{Historic}
use temp_js.Journal.Goals.Whole.{IsStableCall, perform_all-Historic}
use temp_js.Journal.Goals.Once.{create_goal-once, revise_goal-once, record_milestone-once}
use temp_js.Journal.Goals.Winner.{IsFresh, revision_monotone, revise_goal-one_winner}
use temp_js.Journal.Examples.Data.{scope, goal, mutation, patch, before, milestone}
use temp_js.Journal.Examples.Document.{document_serde, document_laws, document_binding_laws}
use temp_js.Journal.Examples.Document

abbrev revised : Goal
revised = record goal { objective = lit "cancel"; revision = pos 2 }

abbrev advanced : Goal
advanced = record goal { revision = pos 2 }

abbrev binding : GoalRunBinding
binding = record {
  version = 1;
  run_id = lit "run";
  scope = scope;
  goal_id = lit "g1";
  goal_revision = pos 1;
}

-- The journal with the goal, and that journal after the correction.
abbrev held : Db
held = perform_all empty_db before

abbrev corrected : Db
corrected = (revise_goal (mutation (lit "r2")) scope (lit "g1") (pos 1) patch (pos 20) held).1

-- The journal with the goal and a run that is bound to it.
abbrev bound : Db
bound =
    (create_goal_bound_run scope (lit "g1") (pos 1) (lit "run") (lit "agent") (lit "hi") (pos 15)
      held).1

abbrev row : RunEntry
row = Runs.new_run (lit "run") (lit "agent") (lit "hi") (pos 15) (text (Document.binding binding))

-- What runs on these journals return.
runs :
    ((create_goal (mutation (lit "r1")) goal (pos 10) empty_db).0 ≡ ok goal)
    × ((revise_goal (mutation (lit "r2")) scope (lit "g1") (pos 1) patch (pos 20) held).0
        ≡ ok revised)
    × ((record_milestone (mutation (lit "r2")) scope (lit "g1") (pos 1) milestone (pos 20) held).0
        ≡ ok advanced)
    × ((create_goal_bound_run scope
          (lit "g1")
          (pos 1)
          (lit "run")
          (lit "agent")
          (lit "hi")
          (pos 15)
          held).0
        ≡ ok binding)
    × IsFresh (mutation (lit "r2")) scope (lit "g1") held
    × IsFresh (mutation (lit "r3")) scope (lit "g1") corrected
    × (find (is_run (lit "run")) bound.runs ≡ some row)
    × IsFresh (mutation (lit "r2")) scope (lit "g1") bound
    × ((revise_goal (mutation (lit "r2")) scope (lit "g1") (pos 1) patch (pos 20) bound).0
        ≡ ok revised)
    × (Validate.validate_goal_run_binding binding ≡ ok tt)
unfolding lit str_eq starts_with contains is_ascii_alphanumeric to_ascii_lowercase str_leb insert_by
    sort_by Store.scope_eq Store.insert Store.upsert Store.transaction Store.empty_db Store.is_run
    Store.is_step Validate.lower_hex Validate.valid_playbook_digest Validate.validate_scope
    Validate.validate_mutation Validate.valid_text Validate.valid_playbook
    Validate.validate_parameters Validate.validate_each Validate.validate_parameter_value
    Validate.enter Validate.validate_goal Validate.validate_patch Validate.valid_identifier
    Validate.is_empty Validate.identifier_byte Validate.credential_label
    Validate.validate_milestone_shape Validate.known_preparation Validate.valid_evidence_reference
    Validate.validate_new_run Validate.validate_goal_run_binding Runs.is_goal Runs.insert_run
    Runs.new_run Runs.goal_matches Runs.columns_match Runs.row_matches
    Runs.goal_run_binding_is_current Runs.create_goal_bound_run Runs.gate_goal_run
    Runs.gate_goal_run_in_tx Runs.gate_of_cell Runs.gate_of_binding Runs.settle Runs.set_status
    Runs.mark_goal_run_needs_review Goals.is_replay Goals.replay_of Goals.replay_or_conflict
    Goals.goal_row Goals.revision_row Goals.event_row Goals.replay_row Goals.overwrite
    Goals.put_goal Goals.is_goal_revision Goals.insert_goal_revision Goals.put_goal_event
    Goals.insert_replay Goals.store_goal_revision Goals.goal_of_row Goals.current_goal
    Goals.cell_exists Goals.revision_exists Goals.create_new Goals.next_revision
    Goals.check_expected Goals.create_goal Milestones.get_parameter Milestones.playbook_eq
    Milestones.or_keep Milestones.apply_patch Milestones.parse_milestones
    Milestones.milestones_in_tx Milestones.of_goal Milestones.is_milestone
    Milestones.is_milestone_revision Milestones.put_milestone Milestones.insert_milestone_revision
    Milestones.store_milestone_revision Milestones.invalidated Milestones.invalidate
    Milestones.is_affected Milestones.all_changed Milestones.changed_keys Milestones.differs_at
    Milestones.value_at_eq Milestones.revise_current Milestones.revise_goal Session.perform
    Session.perform_all Recording.contains_key Recording.keep_refresh Recording.check_room
    Recording.merge_previous Recording.record_current Recording.record_milestone
runs = (refl, refl, refl, refl, refl, refl, refl, refl, refl, refl)

-- The number of the parameter reads back as it was written.
stable : All IsStableCall before
stable = ((refl, tt), tt)

reached : Historic held
reached = perform_all-Historic document_laws before stable

created :
    create_goal (mutation (lit "r1")) goal (pos 10) empty_db
    ≡ (ok goal, (create_goal (mutation (lit "r1")) goal (pos 10) empty_db).1)
created = ap (λ r. (r, (create_goal (mutation (lit "r1")) goal (pos 10) empty_db).1)) runs.0

revises :
    revise_goal (mutation (lit "r2")) scope (lit "g1") (pos 1) patch (pos 20) held
    ≡ (ok revised, corrected)
revises = ap (λ r. (r, corrected)) runs.1

abbrev recorded : Db
recorded =
    (record_milestone (mutation (lit "r2")) scope (lit "g1") (pos 1) milestone (pos 20) held).1

records :
    record_milestone (mutation (lit "r2")) scope (lit "g1") (pos 1) milestone (pos 20) held
    ≡ (ok advanced, recorded)
records = ap (λ r. (r, recorded)) runs.2

binds :
    create_goal_bound_run scope
      (lit "g1")
      (pos 1)
      (lit "run")
      (lit "agent")
      (lit "hi")
      (pos 15)
      held
    ≡ (ok binding, bound)
binds = ap (λ r. (r, bound)) runs.3

perform_all-Historic_example : Historic held
perform_all-Historic_example = perform_all-Historic document_laws before stable

create_goal-once_example :
    create_goal
      (mutation (lit "r1"))
      goal
      (pos 99)
      (perform_all (create_goal (mutation (lit "r1")) goal (pos 10) empty_db).1 before)
    ≡ (ok goal, perform_all (create_goal (mutation (lit "r1")) goal (pos 10) empty_db).1 before)
unfolding Session.perform_all
create_goal-once_example =
    create_goal-once document_laws [] before (pos 10) (pos 99) goal
      (create_goal (mutation (lit "r1")) goal (pos 10) empty_db).1 (mutation (lit "r1")) goal tt
      (refl, tt) created

revise_goal-once_example :
    revise_goal
      (mutation (lit "r2"))
      scope
      (lit "g1")
      (pos 1)
      patch
      (pos 99)
      (perform_all corrected before)
    ≡ (ok revised, perform_all corrected before)
revise_goal-once_example =
    revise_goal-once document_laws before before (pos 20) (pos 99) revised corrected
      (mutation (lit "r2")) scope (lit "g1") (pos 1) patch stable tt revises

record_milestone-once_example :
    record_milestone
      (mutation (lit "r2"))
      scope
      (lit "g1")
      (pos 1)
      milestone
      (pos 99)
      (perform_all recorded before)
    ≡ (ok advanced, perform_all recorded before)
record_milestone-once_example =
    record_milestone-once document_laws before before (pos 20) (pos 99) advanced recorded
      (mutation (lit "r2")) scope (lit "g1") (pos 1) milestone stable records

revision_monotone_example :
    revision_of held scope (lit "g1") ≤ revision_of (perform_all held before) scope (lit "g1")
revision_monotone_example =
    revision_monotone document_laws scope (lit "g1") held before stable reached

revise_goal-one_winner_example : ¬ (
    revise_goal
      (mutation (lit "r3"))
      scope
      (lit "g1")
      (pos 1)
      patch
      (pos 30)
      (perform_all corrected [])
    ≡ (ok revised, corrected))
unfolding Session.perform_all
revise_goal-one_winner_example =
    revise_goal-one_winner document_laws before [] scope (lit "g1") (pos 1) (mutation (lit "r2"))
      (mutation (lit "r3")) patch patch (pos 20) (pos 30) revised corrected stable tt tt tt runs.4
      revises runs.5 revised corrected

create_goal_bound_run-current_example :
    gate_goal_run (lit "run") (pos 16) bound ≡ (ok (current binding), bound)
create_goal_bound_run-current_example =
    create_goal_bound_run-current document_binding_laws scope (lit "g1") (pos 1) (lit "run")
      (lit "agent") (lit "hi") (pos 15) (pos 16) held bound binding binds

gate_goal_run-current_example :
    (lit "run" ≡ lit "run") × NamesCurrentGoal bound binding × (bound ≡ bound)
gate_goal_run-current_example =
    gate_goal_run-current (lit "run") (pos 16) bound bound binding
      create_goal_bound_run-current_example

abbrev moved : Db
moved = (revise_goal (mutation (lit "r2")) scope (lit "g1") (pos 1) patch (pos 20) bound).1

revise_goal-revokes_example :
    gate_goal_run (lit "run") (pos 21) moved
    ≡ (ok needs_review, set_status (lit "run") (lit "needs_review") (pos 21) moved)
unfolding Runs.new_run
revise_goal-revokes_example =
    revise_goal-revokes document_binding_laws document_laws (mutation (lit "r2")) patch binding
      (pos 20) (pos 21) bound moved revised (lit "run") row tt
      (create_goal_bound_run-keeps {P = Historic} (λ db rows h. h) scope (lit "g1") (pos 1)
        (lit "run") (lit "agent") (lit "hi") (pos 15) held reached)
      runs.7 runs.6 runs.9 refl (ap (λ r. (r, moved)) runs.8)

abbrev completed : Db
completed = (set_run_status (lit "run") (lit "completed") (pos 17) bound).1

completes : (set_run_status (lit "run") (lit "completed") (pos 17) bound).0 ≡ ok tt
unfolding lit str_eq starts_with contains is_ascii_alphanumeric to_ascii_lowercase str_leb insert_by
    sort_by Store.scope_eq Store.insert Store.upsert Store.transaction Store.empty_db Store.is_run
    Store.is_step Validate.lower_hex Validate.valid_playbook_digest Validate.validate_scope
    Validate.validate_mutation Validate.valid_text Validate.valid_playbook
    Validate.validate_parameters Validate.validate_each Validate.validate_parameter_value
    Validate.enter Validate.validate_goal Validate.validate_patch Validate.valid_identifier
    Validate.is_empty Validate.identifier_byte Validate.credential_label Validate.validate_new_run
    Validate.validate_goal_run_binding Runs.is_goal Runs.insert_run Runs.new_run Runs.goal_matches
    Runs.columns_match Runs.row_matches Runs.goal_run_binding_is_current Runs.create_goal_bound_run
    Runs.gate_goal_run Runs.gate_goal_run_in_tx Runs.gate_of_cell Runs.gate_of_binding Runs.settle
    Runs.set_status Runs.mark_goal_run_needs_review Runs.set_run_status
    Runs.require_current_goal_run_in_tx Goals.is_replay Goals.replay_of Goals.replay_or_conflict
    Goals.goal_row Goals.revision_row Goals.event_row Goals.replay_row Goals.overwrite
    Goals.put_goal Goals.is_goal_revision Goals.insert_goal_revision Goals.put_goal_event
    Goals.insert_replay Goals.store_goal_revision Goals.goal_of_row Goals.current_goal
    Goals.cell_exists Goals.revision_exists Goals.create_new Goals.next_revision
    Goals.check_expected Goals.create_goal Milestones.get_parameter Milestones.playbook_eq
    Milestones.or_keep Milestones.apply_patch Milestones.parse_milestones
    Milestones.milestones_in_tx Milestones.of_goal Milestones.is_milestone
    Milestones.is_milestone_revision Milestones.put_milestone Milestones.insert_milestone_revision
    Milestones.store_milestone_revision Milestones.invalidated Milestones.invalidate
    Milestones.is_affected Milestones.all_changed Milestones.changed_keys Milestones.differs_at
    Milestones.value_at_eq Milestones.revise_current Milestones.revise_goal Session.perform
    Session.perform_all
completes = refl

set_run_status-guarded_example :
    (row : RunEntry) × (find (is_run (lit "run")) bound.runs ≡ some row)
    × MayRun bound (lit "run") row.goal_binding
    × (completed ≡ set_status (lit "run") (lit "completed") (pos 17) bound)
unfolding lit str_eq
set_run_status-guarded_example =
    set_run_status-guarded (lit "run") (lit "completed") (pos 17) bound refl completed
      (ap (λ r. (r, completed)) completes)
