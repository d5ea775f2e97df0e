-- ===== src/Journal/Bound.antt =====
-- crates/beater-journal/src/lib.rs: a goal-bound run from its creation to the next correction.
use temp_js.Prelude.{
  suc, ◌≤◌, String, Str, lit, ℤ, Bool, true, false, ◌≡◌, refl, sym, ap, subst, ◌∙◌, inl, inr, some,
  [], ◌∷◌, ◌++◌, any, find, arith, Bool-cases, str_eq_refl, find-none, find-append_self,
}
use temp_js.Result.{Result, ok, ensure}
use temp_js.Journal.Serde.{Serde}
use temp_js.Journal.Laws.{IsStablePatch, SerdeLaws, BindingLaws}
use temp_js.Journal.Model.{
  GoalScope, Goal, GoalPatch, GoalMutation, GoalRunBinding, current, needs_review,
}
use temp_js.Journal.Store.{text, RunEntry, Db, ◌>>=◌, pure, insert, is_run}
use temp_js.Journal.Validate.{
  validate_scope, validate_goal_run_binding, validate_new_run, valid_identifier, valid_revision,
  goal_run_binding_version,
}
use temp_js.Journal.Runs.{
  new_run, insert_run, create_goal_bound_run, goal_run_binding_is_current, gate_of_cell,
  gate_of_binding, gate_goal_run, set_status, settle,
}
use temp_js.Journal.Leads.{transaction_sound, bind_ok}
use temp_js.Journal.Frame.{IsFrame, store_frame, revise_goal-keeps}
use temp_js.Journal.Gate.{
  NamesCurrentGoal, gate_goal_run_lem, is_ok_unit, gate_goal_run_fails_closed,
}
use temp_js.Journal.Milestones.{revise_goal}
use temp_js.Journal.Goals.Held.{magnitude, row_revision, cell_revision}
use temp_js.Journal.Goals.Revisions.{revision_of}
use temp_js.Journal.Goals.Histories.{Historic}
use temp_js.Journal.Goals.Winner.{IsFresh, revise_goal-advances}

module _ ⦃serde : Serde⦄ (laws : BindingLaws) where
  open serde use {Text, read_binding, write_binding, byte_len}

  gate_of_own :
      (db : Db) (b : GoalRunBinding)
      → goal_run_binding_is_current db b ≡ true
      → validate_goal_run_binding b ≡ ok tt
      → byte_len (write_binding b) ≤ 4096
      → gate_of_cell db b.run_id (text (write_binding b)) ≡ current b
  unfolding gate_of_cell gate_of_binding
  gate_of_own db b holds valid fits =
      rw (laws.binding_round b valid, str_eq_refl b.run_id, holds) (ground arith)

  is_run-own :
      (b : GoalRunBinding) (agent input : Str) (now : ℤ)
      → is_run b.run_id (new_run b.run_id agent input now (text (write_binding b))) ≡ true
  unfolding is_run new_run
  is_run-own b agent input now = str_eq_refl b.run_id

  inserted :
      (row : RunEntry) (b b' : GoalRunBinding) (db after : Db)
      → (insert_run row >>= λ _. pure b) db ≡ ok (b', after)
      → (b ≡ b')
        × (after ≡ record db { runs = db.runs ++ row ∷ [] })
        × (any (is_run row.id) db.runs ≡ false)
  unfolding insert_run insert
  inserted row b b' db after e = elim (Bool-cases (any (is_run row.id) db.runs)) [
    | inl taken ↦ absurd (ground arith)
    | inr free ↦
        let same : ◌≡◌ {A = Result (GoalRunBinding × Db)}
            (ok (b, record db { runs = db.runs ++ row ∷ [] })) (ok (b', after)) =
          ground arith in
        (cc same, cc same, free)
  ]

  passed : (b : Bool) (message : String) → ensure b message ≡ ok tt → b ≡ true
  passed true message e = refl
  passed false message e = cc

  gate_of_created :
      (db : Db) (b : GoalRunBinding) (agent input : Str) (now now' : ℤ)
      → any (is_run b.run_id) db.runs ≡ false
      → goal_run_binding_is_current db b ≡ true
      → let after = record db {
        runs = db.runs ++ new_run b.run_id agent input now (text (write_binding b)) ∷ [];
      } in
        gate_goal_run b.run_id now' after ≡ (ok (current b), after)
  unfolding goal_run_binding_is_current new_run settle
  gate_of_created db b agent input now now' free holds =
      let row = new_run b.run_id agent input now (text (write_binding b)) in
      let after = record db { runs = db.runs ++ row ∷ [] } in
      let found =
        find-append_self (is_run b.run_id) db.runs row (find-none _ db.runs free)
          (is_run-own b agent input now) in
      let valid : validate_goal_run_binding b ≡ ok tt =
        is_ok_unit (validate_goal_run_binding b) (ground arith) in
      let open_gate = gate_of_own after b holds valid (laws.binding_fits b valid) in
      gate_goal_run_lem b.run_id now' after row found ∙ rw open_gate

  -- A goal-bound run that was created, on any journal: its gate, at any time before the next call,
  -- answers that its binding is current and writes nothing. It is assumed that a valid binding
  -- that was written parses back and that it takes at most 4096 bytes.
  pub create_goal_bound_run-current :
      (scope : GoalScope) (goal_id : Str) (expected : ℤ) (run_id agent input : Str) (now now' : ℤ)
      (db after : Db) (b : GoalRunBinding)
      → create_goal_bound_run scope goal_id expected run_id agent input now db ≡ (ok b, after)
      → gate_goal_run run_id now' after ≡ (ok (current b), after)
  unfolding create_goal_bound_run new_run
  create_goal_bound_run-current scope goal_id expected run_id agent input now now' db after b e =
      let binding : GoalRunBinding = record {
        version = goal_run_binding_version;
        run_id = run_id;
        scope = scope;
        goal_id = goal_id;
        goal_revision = expected;
      } in
      let row = new_run run_id agent input now (text (write_binding binding)) in
      let (_, _, e1) = bind_ok (validate_scope scope) _ db _ (transaction_sound _ db after b e) in
      let (_, _, e2) = bind_ok (ensure (valid_identifier goal_id) _) _ db _ e1 in
      let (_, _, e3) = bind_ok (ensure (valid_revision expected) _) _ db _ e2 in
      let (_, _, e4) = bind_ok (validate_new_run run_id agent input) _ db _ e3 in
      let (_, tested, e5) = bind_ok (ensure (goal_run_binding_is_current db binding) _) _ db _ e4 in
      let (same, moved, free) = inserted row binding b db after e5 in
      rw (moved, sym same)
        (gate_of_created db binding agent input now now' free (passed _ _ tested))

  bound_frame :
      (run_id : Str) (row : RunEntry) → IsFrame (λ db. find (is_run run_id) db.runs ≡ some row)
  bound_frame run_id row = record {
    goals = λ db rows h. h;
    goal_revisions = λ db row h. h;
    goal_events = λ db rows h. h;
    goal_replays = λ db row h. h;
    milestones = record {
      goal_milestones = λ db rows h. h;
      goal_milestone_revisions = λ db rows h. h;
    };
  }

  stale :
      (db : Db) (b : GoalRunBinding)
      → revision_of db b.scope b.goal_id ≡ suc (magnitude b.goal_revision)
      → ¬ NamesCurrentGoal db b
  stale db b moved c =
      let same : revision_of db b.scope b.goal_id ≡ magnitude b.goal_revision =
        ap row_revision c.found ∙ ap cell_revision c.stored_revision in
      omega (arith, moved, same)

  -- A correction revokes the runs that are bound to the revision it replaces: on a journal whose
  -- goals have their histories (`Historic`), when a correction succeeds under a key that was not
  -- answered before, then the gate of any run whose column holds a valid, written binding to that
  -- goal at the expected revision answers `needs_review`, and marks the run so. The values of the
  -- parameters that the correction sets are ones that read back as they were written; a valid goal of
  -- such parameters and a valid binding that were written are assumed to parse back.
  pub revise_goal-revokes :
      (goal_laws : SerdeLaws) (mutation : GoalMutation) (patch : GoalPatch) (b : GoalRunBinding)
      (now now' : ℤ) (db after : Db) (answer : Goal) (run_id : Str) (row : RunEntry)
      → IsStablePatch patch
      → Historic db
      → IsFresh mutation b.scope b.goal_id db
      → find (is_run run_id) db.runs ≡ some row
      → validate_goal_run_binding b ≡ ok tt
      → row.goal_binding ≡ text (write_binding b)
      → revise_goal mutation b.scope b.goal_id b.goal_revision patch now db ≡ (ok answer, after)
      → gate_goal_run run_id now' after
        ≡ (ok needs_review, set_status run_id (lit "needs_review") now' after)
  revise_goal-revokes goal_laws mutation patch b now now' db after answer run_id row fixed h fresh
        found valid bound e =
      let (_, revised) =
        revise_goal-advances goal_laws mutation b.scope b.goal_id b.goal_revision patch now db after
          answer fixed h fresh e in
      let there : find (is_run run_id) after.runs ≡ some row =
        subst (λ d. find (is_run run_id) d.runs ≡ some row) (ap (λ r. r.1) e)
          (revise_goal-keeps now (store_frame (bound_frame run_id row) now) mutation b.scope
            b.goal_id b.goal_revision patch db found) in
      gate_goal_run_fails_closed run_id now' after row there (λ is_null. cc (bound, is_null))
        (λ raw c same parsed.
          let own : b ≡ c = cc (bound, same, parsed, laws.binding_round b valid) in
          subst (λ c. ¬ NamesCurrentGoal after c) own (stale after b revised.stored_revision))
