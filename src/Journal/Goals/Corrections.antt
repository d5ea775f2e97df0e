-- ===== src/Journal/Goals/Corrections.antt =====
-- crates/beater-journal/src/lib.rs: `revise_goal` and `record_milestone` keep the history of goals.
use temp_js.Prelude.{
  suc, Option, none, some, subst, ap, Str, lit, ℤ, ◌&&◌, ◌≡◌, sym, ◌∙◌, all, find, eq_ℤ_iff, arith,
}
use temp_js.Result.{ok, ensure}
use temp_js.Journal.Serde.{Serde}
use temp_js.Journal.Laws.{
  IsStableParameters, IsStableChange, IsStableGoal, IsStablePatch, SerdeLaws,
}
use temp_js.Journal.Model.{Parameters, GoalScope, Goal, GoalPatch, GoalMutation, Milestone}
use temp_js.Journal.Store.{Db, Tx, lift, ◌>>=◌, gets}
use temp_js.Journal.Runs.{is_goal}
use temp_js.Journal.Validate.{
  validate_goal, validate_mutation, validate_scope, validate_patch, validate_milestone_shape,
  valid_identifier, valid_revision,
}
use temp_js.Journal.Keeps.{Keeps-read, Keeps-gets}
use temp_js.Journal.Leads.{Leads, Leads-bind, Leads-check, Leads-read, Leads-given}
use temp_js.Journal.Frame.{Keeps-invalidate, Keeps-store_milestone_revision}
use temp_js.Journal.Goals.{goal_of_row, current_goal, next_revision, check_expected}
use temp_js.Journal.Goals.Held.{magnitude, valid-revision, validate_goal-revision}
use temp_js.Journal.Goals.Histories.{
  Historic, At, At-frame, put, Leads-put, stored-Historic, Leads-replay_then, method,
  next_revision_sound, goal_of_row_sound,
}
use temp_js.Journal.Milestones.{
  or_keep, apply_patch, is_milestone, revise_current, milestones_in_tx, invalidate, revise_goal,
  store_milestone_revision,
}
use temp_js.Journal.Recording.{
  contains_key, check_room, merge_previous, record_current, record_milestone,
}

module _ ⦃serde : Serde⦄ (laws : SerdeLaws) where
  open serde use {Text, write_revision_request, write_milestone_request}

  -- What `current_goal` finds.
  abbrev pub Found : GoalScope → Str → Goal → Type 0
  Found scope id old =
      (validate_goal old ≡ ok tt) × (old.scope ≡ scope) × (old.id ≡ id) × IsStableGoal old

  Leads-current_goal :
      {Q : Goal → Db → Type 0} (scope : GoalScope) (id : Str) (f : Goal → Tx Goal)
      → ((old : Goal) → Found scope id old → Leads (At scope id (magnitude old.revision)) Q (f old))
      → Leads Historic Q (current_goal scope id >>= f)
  unfolding current_goal
  Leads-current_goal scope id f k =
      Leads-read (λ old db. Found scope id old × At scope id (magnitude old.revision) db)
        (λ db. goal_of_row id (find (is_goal scope id) db.goals)) f
        (λ db old h e.
          let (valid, own_scope, own_id, same, stable) =
            goal_of_row_sound laws scope id db.goals old h.goals_held e in
          ((valid, own_scope, own_id, stable), (h, same)))
        (λ old. Leads-given (Found scope id old) (f old) (k old))

  -- What a correction needs of what it stores: a valid goal of its key, at the revision after the
  -- expected one, is stored over the expected one.
  abbrev pub Corrects :
      (Goal → Db → Type 0) → GoalMutation → GoalScope → Str → ℤ → Str → Text → ℤ → Type 0
  Corrects Q mutation scope id expected event body now =
      (next : Goal)
      → Found scope id next
      → magnitude next.revision ≡ suc (magnitude expected)
      → Leads (At scope id (magnitude expected)) Q (put next mutation event body now)

  pub expected_sound :
      (expected current : ℤ) → check_expected expected current ≡ ok tt → current ≡ expected
  unfolding check_expected
  expected_sound expected current e = ground (arith, eq_ℤ_iff current expected)

  -- The rest of a correction, once the current goal is the expected one.
  Leads-stores :
      (Q : Goal → Db → Type 0) (mutation : GoalMutation) (scope : GoalScope) (id : Str)
      (expected : ℤ) (event : Str) (body : Text) (now : ℤ) (old next : Goal)
      → Corrects Q mutation scope id expected event body now
      → check_expected expected old.revision ≡ ok tt
      → Found scope id next
      → magnitude next.revision ≡ suc (magnitude old.revision)
      → Leads (At scope id (magnitude old.revision)) Q (put next mutation event body now)
  Leads-stores Q mutation scope id expected event body now old next stores checked found step =
      let same = expected_sound expected old.revision checked in
      subst (λ r. Leads (At scope id (magnitude r)) Q (put next mutation event body now)) (sym same)
        (stores next found (step ∙ ap (λ r. suc (magnitude r)) same))

  apply_patch-IsStableGoal :
      (old : Goal) (patch : GoalPatch)
      → IsStableGoal old
      → IsStablePatch patch
      → IsStableGoal (apply_patch old patch)
  unfolding apply_patch or_keep
  apply_patch-IsStableGoal old patch h k = go patch.parameters k
    where
      go :
          (p : Option Parameters) → IsStableChange p → IsStableParameters (or_keep p old.parameters)
      go none k = h
      go (some changed) k = k

  pub Leads-revise_current :
      (Q : Goal → Db → Type 0) (mutation : GoalMutation) (scope : GoalScope) (id : Str)
      (expected : ℤ) (patch : GoalPatch) (body : Text) (now : ℤ)
      → IsStablePatch patch
      → Corrects Q mutation scope id expected (lit "revised") body now
      → Leads Historic Q (revise_current mutation scope id expected patch body now)
  unfolding revise_current milestones_in_tx apply_patch
  Leads-revise_current Q mutation scope id expected patch body now fixed stores =
      Leads-current_goal scope id _ λ old found.
        let (valid_old, own_scope, own_id, stable) = found in
        Leads-check (check_expected expected old.revision) _ λ _ checked.
          Leads-check (next_revision old.revision) _ λ revision step.
            let next = record (apply_patch old patch) { revision = revision } in
            Leads-check (validate_goal next) _ λ _ valid.
              Leads-bind (milestones_in_tx scope id) _ (Keeps-read _) λ milestones.
                Leads-bind (invalidate scope id old next mutation now milestones) _
                  (Keeps-invalidate (At-frame scope id (magnitude old.revision)) scope id old next
                    mutation now milestones)
                  λ _.
                    Leads-stores Q mutation scope id expected (lit "revised") body now old next
                      stores checked
                      (valid, own_scope, own_id, apply_patch-IsStableGoal old patch stable fixed)
                      (next_revision_sound old.revision revision (valid-revision old valid_old)
                        step).0

  pub Leads-record_current :
      (Q : Goal → Db → Type 0) (mutation : GoalMutation) (scope : GoalScope) (id : Str)
      (expected : ℤ) (milestone : Milestone) (body : Text) (now : ℤ)
      → Corrects Q mutation scope id expected (lit "milestone_recorded") body now
      → Leads Historic Q (record_current mutation scope id expected milestone body now)
  unfolding record_current
  Leads-record_current Q mutation scope id expected milestone body now stores =
      Leads-current_goal scope id _ λ old found.
        let (valid_old, own_scope, own_id, stable) = found in
        Leads-check (check_expected expected old.revision) _ λ _ checked.
          Leads-check
            (ensure (all (contains_key old.parameters) milestone.parameter_dependencies) _) _
            λ _ _.
              Leads-bind (gets (λ db. find (is_milestone scope id milestone.id) db.goal_milestones))
                _ (Keeps-gets _)
                λ existing.
                  Leads-bind (λ db. lift (check_room scope id existing db) db) _ (Keeps-read _)
                    λ _. Leads-check (merge_previous milestone existing) _ λ merged _.
                      Leads-check (next_revision old.revision) _ λ revision step.
                        let (next, bounded) =
                          next_revision_sound old.revision revision (valid-revision old valid_old)
                            step in
                        Leads-bind
                          (store_milestone_revision scope id revision merged mutation
                            (lit "recorded") now)
                          _
                          (Keeps-store_milestone_revision
                            (At-frame scope id (magnitude old.revision)) scope id revision merged
                            mutation (lit "recorded") now)
                          λ _.
                            Leads-stores Q mutation scope id expected (lit "milestone_recorded")
                              body now old (record old { revision = revision }) stores checked
                              (
                                validate_goal-revision old revision valid_old bounded,
                                own_scope,
                                own_id,
                                stable,
                              )
                              next

  Corrects-Historic :
      (mutation : GoalMutation) (scope : GoalScope) (id : Str) (expected : ℤ) (event : Str)
      (body : Text) (now : ℤ)
      → Corrects (λ _. Historic) mutation scope id expected event body now
  Corrects-Historic mutation scope id expected event body now next
        (valid, own_scope, own_id, stable) step =
      Leads-put (λ _. Historic) next mutation event body now
        (λ db h _.
          stored-Historic scope id (magnitude expected) next mutation event body now db own_scope
            own_id valid stable step h)

  pub revise_goal-Historic :
      (mutation : GoalMutation) (scope : GoalScope) (id : Str) (expected : ℤ) (patch : GoalPatch)
      (now : ℤ) (db : Db)
      → IsStablePatch patch
      → Historic db
      → Historic (revise_goal mutation scope id expected patch now db).1
  unfolding revise_goal
  revise_goal-Historic mutation scope id expected patch now db fixed =
      method _
        (Leads-check (validate_mutation mutation) _ λ _ _.
          Leads-check (validate_scope scope) _ λ _ _.
            Leads-check (ensure (valid_identifier id && valid_revision expected) _) _ λ _ _.
              Leads-check (validate_patch patch) _ λ _ _.
                let body = write_revision_request expected patch in
                Leads-replay_then scope mutation id body _ (
                  Leads-revise_current (λ _. Historic) mutation scope id expected patch body now
                    fixed (Corrects-Historic mutation scope id expected (lit "revised") body now)))
        db

  pub record_milestone-Historic :
      (mutation : GoalMutation) (scope : GoalScope) (id : Str) (expected : ℤ)
      (milestone : Milestone) (now : ℤ) (db : Db)
      → Historic db
      → Historic (record_milestone mutation scope id expected milestone now db).1
  unfolding record_milestone
  record_milestone-Historic mutation scope id expected milestone now = method _ (
      Leads-check (validate_mutation mutation) _ λ _ _. Leads-check (validate_scope scope) _ λ _ _.
        Leads-check (ensure (valid_identifier id && valid_revision expected) _) _ λ _ _.
          Leads-check (validate_milestone_shape milestone) _ λ _ _.
            let body = write_milestone_request expected milestone in
            Leads-replay_then scope mutation id body _ (
              Leads-record_current (λ _. Historic) mutation scope id expected milestone body now
                (Corrects-Historic mutation scope id expected (lit "milestone_recorded") body now)))
