-- ===== src/Journal/Goals/Winner.antt =====
-- crates/beater-journal/src/lib.rs: of corrections that expect the same revision, one succeeds.
use temp_js.Prelude.{
  ℕ, suc, ◌≤◌, Str, lit, ℤ, Bool, ◌&&◌, ◌≡◌, sym, ap, ◌∙◌, subst, inl, inr, none, List, [], ◌∷◌,
  ◌++◌, All, find, arith, Bool-cases, highest, highest-append_own, highest-append_other,
}
use temp_js.Result.{ok, ensure}
use temp_js.Journal.Serde.{Serde}
use temp_js.Journal.Laws.{IsStableGoal, IsStablePatch, SerdeLaws}
use temp_js.Journal.Model.{GoalScope, Goal, GoalPatch, GoalMutation}
use temp_js.Journal.Store.{Db, empty_db}
use temp_js.Journal.Runs.{is_goal}
use temp_js.Journal.Validate.{
  validate_goal, validate_mutation, validate_scope, validate_patch, valid_identifier,
  valid_revision,
}
use temp_js.Journal.Frame.{IsFrame}
use temp_js.Journal.StepFrame.{IsRunFrame}
use temp_js.Journal.Session.{Call, perform_all}
use temp_js.Journal.Session.Frames.{perform_all-frames}
use temp_js.Journal.Leads.{bind_ok, Leads-ok, transaction_sound}
use temp_js.Journal.Goals.{is_replay, replay_of, current_goal, goal_of_row, check_expected}
use temp_js.Journal.Goals.Held.{magnitude, revision-upsert_self}
use temp_js.Journal.Goals.Stored.{stored}
use temp_js.Journal.Goals.Revisions.{of_goal, number, revision_of}
use temp_js.Journal.Goals.Histories.{Historic, Leads-put, goal_of_row_sound}
use temp_js.Journal.Goals.Corrections.{
  Corrects, expected_sound, Leads-revise_current, revise_goal-Historic,
}
use temp_js.Journal.Goals.Whole.{IsStableCall, perform_all-Historic, calls-Historic}
use temp_js.Journal.Goals.Replay.{answer}
use temp_js.Journal.Milestones.{revise_goal, revise_current}

module _ ⦃serde : Serde⦄ where
  open serde use {Text, write_revision_request}

  -- No correction was answered under this key.
  abbrev pub IsFresh : GoalMutation → GoalScope → Str → Db → Type 0
  IsFresh mutation scope id db = find (is_replay scope mutation id) db.goal_replays ≡ none

  -- What a correction has stored.
  pub record IsRevised (scope : GoalScope) (id : Str) (expected : ℤ) (next : Goal) (after : Db)
      : Type 0 where
    pub found :
        (validate_goal next ≡ ok tt) × (next.scope ≡ scope) × (next.id ≡ id) × IsStableGoal next
    pub step : magnitude next.revision ≡ suc (magnitude expected)
    pub stored_revision : revision_of after scope id ≡ suc (magnitude expected)

  module _ (laws : SerdeLaws) (mutation : GoalMutation) (scope : GoalScope) (id : Str)
      (expected : ℤ) (patch : GoalPatch) (now : ℤ) where
    abbrev request_body : Text
    request_body = write_revision_request expected patch

    revise_current-expected :
        (db after : Db) (g : Goal)
        → Historic db
        → revise_current mutation scope id expected patch request_body now db ≡ ok (g, after)
        → revision_of db scope id ≡ magnitude expected
    unfolding revise_current current_goal
    revise_current-expected db after g h e =
        let (old, read, rest) =
          bind_ok (goal_of_row id (find (is_goal scope id) db.goals)) _ db _ e in
        let (u, checked, _) = bind_ok (check_expected expected old.revision) _ db _ rest in
        let (_, _, _, same, _) = goal_of_row_sound laws scope id db.goals old h.goals_held read in
        same ∙ ap magnitude (expected_sound laws expected old.revision checked)

    stores_revision :
        Corrects laws
          (IsRevised scope id expected)
          mutation
          scope
          id
          expected
          (lit "revised")
          request_body
          now
    stores_revision next (valid, own_scope, own_id, stable) step =
        Leads-put (IsRevised scope id expected) next mutation (lit "revised") request_body now
          (λ db _ _. record {
            found = (valid, own_scope, own_id, stable);
            step = step;
            stored_revision =
                subst
                  (λ s.
                    revision_of (stored next mutation (lit "revised") request_body now db) s id
                    ≡ suc (magnitude expected))
                  own_scope
                  (subst
                    (λ i.
                      revision_of (stored next mutation (lit "revised") request_body now db)
                        next.scope i
                      ≡ suc (magnitude expected))
                    own_id (revision-upsert_self next now db.goals ∙ step));
          })

    runs_fresh :
        (db after : Db) (g : Goal)
        → IsFresh mutation scope id db
        → revise_goal mutation scope id expected patch now db ≡ (ok g, after)
        → revise_current mutation scope id expected patch request_body now db ≡ ok (g, after)
    unfolding revise_goal replay_of
    runs_fresh db after g fresh e =
        let (_, _, e1) =
          bind_ok (validate_mutation mutation) _ db _ (transaction_sound _ db after g e) in
        let (_, _, e2) = bind_ok (validate_scope scope) _ db _ e1 in
        let (_, _, e3) =
          bind_ok (ensure (valid_identifier id && valid_revision expected) _) _ db _ e2 in
        let (_, _, e4) = bind_ok (validate_patch patch) _ db _ e3 in
        sym (
          answer laws scope mutation id request_body
            (revise_current mutation scope id expected patch request_body now) db (ok none)
            (ap (replay_of request_body) fresh))
        ∙ e4

    pub revise_goal-advances :
        (db after : Db) (g : Goal)
        → IsStablePatch patch
        → Historic db
        → IsFresh mutation scope id db
        → revise_goal mutation scope id expected patch now db ≡ (ok g, after)
        → (revision_of db scope id ≡ magnitude expected) × IsRevised scope id expected g after
    revise_goal-advances db after g fixed h fresh e =
        let run = runs_fresh db after g fresh e in
        (
          revise_current-expected db after g h run,
          Leads-ok _
              (Leads-revise_current laws (IsRevised scope id expected) mutation scope id expected
                patch request_body now fixed stores_revision)
              db after g h run,
        )

  highest_grows :
      {A : Type 0} (own : A → Bool) (number : A → ℕ) (n : ℕ) (rows : List A) (row : A)
      → n ≤ highest own number rows
      → n ≤ highest own number (rows ++ row ∷ [])
  highest_grows own number n rows row h = elim (Bool-cases (own row)) [
    | inl e ↦ omega (arith, h, highest-append_own own number rows row e)
    | inr e ↦ omega (arith, h, highest-append_other own number rows row e)
  ]

  module _ (scope : GoalScope) (id : Str) (n : ℕ) where
    abbrev Above : Db → Type 0
    Above db = n ≤ highest (of_goal scope id) number db.goal_revisions

    goals_frame : IsFrame Above
    goals_frame = record {
      goals = λ db rows h. h;
      goal_revisions =
          λ db row h. highest_grows (of_goal scope id) number n db.goal_revisions row h;
      goal_events = λ db rows h. h;
      goal_replays = λ db row h. h;
      milestones = record {
        goal_milestones = λ db rows h. h;
        goal_milestone_revisions = λ db rows h. h;
      };
    }

    runs_frame : IsRunFrame Above
    runs_frame = record {
      runs = λ db rows h. h;
      steps = λ db rows h. h;
      step_partials = λ db rows h. h;
    }

    Above-revision : (db : Db) → Historic db → Above db → n ≤ revision_of db scope id
    Above-revision db h above = omega (arith, above, h.complete scope id)

    revision-Above : (db : Db) → Historic db → n ≤ revision_of db scope id → Above db
    revision-Above db h above = omega (arith, above, h.complete scope id)

  module _ (laws : SerdeLaws) where
    -- The revision of a goal never decreases, whatever calls follow on a journal whose goals have
    -- their histories (`Historic`). The values of the parameters that the calls set are ones that read
    -- back as they were written, and a valid goal of such parameters that was written is assumed to
    -- parse back.
    pub revision_monotone :
        (scope : GoalScope) (id : Str) (db : Db) (calls : List Call)
        → All IsStableCall calls
        → Historic db
        → revision_of db scope id ≤ revision_of (perform_all db calls) scope id
    revision_monotone scope id db calls stable h =
        let n = revision_of db scope id in
        Above-revision scope id n (perform_all db calls) (calls-Historic laws db calls stable h) (
          perform_all-frames (goals_frame scope id n) (runs_frame scope id n) db calls
            (revision-Above scope id n db h (omega arith)))

    -- Two corrections of a goal that expect the same revision, the first on a journal that any calls
    -- led to, the second after any further calls, each under a key that was not answered before:
    -- when the first has succeeded, the second does not. The values of the parameters that the calls and
    -- the corrections set are ones that read back as they were written, and a valid goal of such
    -- parameters that was written is assumed to parse back.
    pub revise_goal-one_winner :
        (before between : List Call) (scope : GoalScope) (id : Str) (expected : ℤ)
        (first second : GoalMutation) (patch patch' : GoalPatch) (now now' : ℤ) (answer : Goal)
        (after : Db)
        → All IsStableCall before
        → All IsStableCall between
        → IsStablePatch patch
        → IsStablePatch patch'
        → IsFresh first scope id (perform_all empty_db before)
        → revise_goal first scope id expected patch now (perform_all empty_db before)
          ≡ (ok answer, after)
        → IsFresh second scope id (perform_all after between)
        → (other : Goal) (last : Db)
        → ¬ (
            revise_goal second scope id expected patch' now' (perform_all after between)
            ≡ (ok other, last))
    revise_goal-one_winner before between scope id expected first second patch patch' now now'
          answer after stable later fixed fixed' fresh e fresh' other last e' =
        let db = perform_all empty_db before in
        let h = perform_all-Historic laws before stable in
        let h' =
          subst Historic (ap (λ r. r.1) e)
            (revise_goal-Historic laws first scope id expected patch now db fixed h) in
        let (_, won) =
          revise_goal-advances laws first scope id expected patch now db after answer fixed h fresh
            e in
        let (late, _) =
          revise_goal-advances laws second scope id expected patch' now' (perform_all after between)
            last other fixed' (calls-Historic laws after between later h') fresh' e' in
        let mono = revision_monotone scope id after between later h' in
        omega (arith, won.stored_revision, late, mono)
