-- ===== src/Journal/Gate.antt =====
-- crates/beater-journal/src/lib.rs: what the gate of a goal-bound run decides.
use temp_js.Prelude.{
  ◌≤◌, Str, lit, ℤ, eq_ℤ, eq_ℤ_iff, true, ◌≡◌, ◌≢◌, ◌↔◌, inl, inr, refl, sym, ap, ◌∙◌, none, some,
  find, str_eq, str_eq_iff, str_eq_refl, arith, Bool-cases, Option-cases,
}
use temp_js.Result.{Result, ok, err, is_ok, no_run}
use temp_js.Journal.Model.{
  GoalScope, Goal, GoalRunBinding, GoalRunGate, unbound, current, needs_review,
}
use temp_js.Journal.Serde.{Serde}
use temp_js.Journal.Store.{
  Cell, null, other, integer, text, RunEntry, GoalEntry, Db, transaction, is_run, scope_eq,
}
use temp_js.Journal.Runs.{
  is_goal, goal_matches, columns_match, row_matches, goal_run_binding_is_current, gate_of_cell,
  settle, gate_goal_run_in_tx, gate_goal_run, set_status,
}
use temp_js.Journal.Validate.{validate_goal, validate_goal_run_binding}

pub scope_eq_iff : (a b : GoalScope) → (scope_eq a b ≡ true) ↔ (a ≡ b)
unfolding scope_eq
scope_eq_iff a b = ground (
  arith,
  str_eq_iff a.organization b.organization,
  str_eq_iff a.project b.project,
  str_eq_iff a.environment b.environment,
  str_eq_iff a.site b.site,
)

pub scope_eq_refl : (a : GoalScope) → scope_eq a a ≡ true
scope_eq_refl a = (scope_eq_iff a a).1 refl

eq_ℤ_refl : (a : ℤ) → eq_ℤ a a ≡ true
eq_ℤ_refl a = (eq_ℤ_iff a a).1 refl

module _ ⦃serde : Serde⦄ where
  open serde use {Text, byte_len, read_goal, read_binding}

  -- The binding names a valid goal that the store holds at exactly that scope, id and revision.
  pub record NamesCurrentGoal (db : Db) (binding : GoalRunBinding) : Type 0 where
    pub row : GoalEntry
    pub body : Text
    pub goal : Goal
    pub found : find (is_goal binding.scope binding.goal_id) db.goals ≡ some row
    pub stored_revision : row.revision ≡ integer binding.goal_revision
    pub stored_body : row.body ≡ text body
    pub fits : byte_len body ≤ 65536
    pub parsed : read_goal body ≡ some goal
    pub valid : validate_goal goal ≡ ok tt
    pub same_scope : goal.scope ≡ binding.scope
    pub same_id : goal.id ≡ binding.goal_id
    pub same_revision : goal.revision ≡ binding.goal_revision

  pub is_ok_unit : (r : Result (Unit {0})) → is_ok r ≡ true → r ≡ ok tt
  is_ok_unit (ok tt) h = refl
  is_ok_unit (err e) h = cc

  goal_matches_sound :
      (b : GoalRunBinding) (n : ℤ) (g : Goal)
      → goal_matches b n (some g) ≡ true
      → (validate_goal g ≡ ok tt)
        × (g.scope ≡ b.scope)
        × (g.id ≡ b.goal_id)
        × (g.revision ≡ n)
        × (n ≡ b.goal_revision)
  unfolding goal_matches
  goal_matches_sound b n g h =
      let facts : (is_ok (validate_goal g) ≡ true)
          × (scope_eq g.scope b.scope ≡ true)
          × (str_eq g.id b.goal_id ≡ true)
          × (eq_ℤ g.revision n ≡ true)
          × (eq_ℤ n b.goal_revision ≡ true) =
        ground arith in
      (
        is_ok_unit (validate_goal g) facts.0,
        (scope_eq_iff _ _).0 facts.1,
        (str_eq_iff _ _).0 facts.2,
        (eq_ℤ_iff _ _).0 facts.3,
        (eq_ℤ_iff _ _).0 facts.4,
      )

  columns_match_sound :
      (b : GoalRunBinding) (revision body : Cell)
      → columns_match b revision body ≡ true
      → (n : ℤ) × (t : Text) × (g : Goal) × (revision ≡ integer n)
        × (body ≡ text t)
        × (byte_len t ≤ 65536)
        × (read_goal t ≡ some g)
        × (goal_matches b n (some g) ≡ true)
  unfolding columns_match
  columns_match_sound b (integer n) (text t) h = elim (Option-cases (read_goal t)) [
    | inl missing ↦ absurd (ground arith)
    | inr (g, parsed) ↦ (n, t, g, refl, refl, ground arith, parsed, ground arith)
  ]
  columns_match_sound b _ _ h = cc

  row_matches_sound :
      (db : Db) (b : GoalRunBinding) (row : GoalEntry)
      → find (is_goal b.scope b.goal_id) db.goals ≡ some row
      → columns_match b row.revision row.body ≡ true
      → NamesCurrentGoal db b
  row_matches_sound db b row found h =
      let (n, t, g, revision, body, fits, parsed, matched) = columns_match_sound b _ _ h in
      let (valid, scope, id, stored, expected) = goal_matches_sound b n g matched in
      record {
        row = row;
        body = t;
        goal = g;
        found = found;
        stored_revision = revision ∙ ap integer expected;
        stored_body = body;
        fits = fits;
        parsed = parsed;
        valid = valid;
        same_scope = scope;
        same_id = id;
        same_revision = stored ∙ expected;
      }

  pub is_current_sound :
      (db : Db) (b : GoalRunBinding)
      → goal_run_binding_is_current db b ≡ true
      → NamesCurrentGoal db b
  unfolding goal_run_binding_is_current
  is_current_sound db b h = elim (Option-cases (find (is_goal b.scope b.goal_id) db.goals)) [
    | inl missing ↦ absurd (ground arith)
    | inr (row, found) ↦ row_matches_sound db b row found (ground arith)
  ]

  -- The other direction, for a binding that passes its own validation.
  pub is_current_complete :
      (db : Db) (b : GoalRunBinding)
      → validate_goal_run_binding b ≡ ok tt
      → NamesCurrentGoal db b
      → goal_run_binding_is_current db b ≡ true
  unfolding goal_run_binding_is_current
  is_current_complete db b v c =
      rw
        (
          v, c.found, row_matches, c.stored_revision, c.stored_body, columns_match, c.parsed,
          c.valid, c.same_scope, c.same_id, c.same_revision,
        )
        (simp (scope_eq_refl, str_eq_refl, eq_ℤ_refl) (ground (arith, c.fits)))

  -- `gate_goal_run` answers from the run's row alone.
  pub gate_goal_run_lem :
      (run_id : Str) (now : ℤ) (db : Db) (row : RunEntry)
      → find (is_run run_id) db.runs ≡ some row
      → gate_goal_run run_id now db ≡ (
        ok (gate_of_cell db run_id row.goal_binding),
        settle run_id now (gate_of_cell db run_id row.goal_binding) db,
      )
  unfolding gate_goal_run gate_goal_run_in_tx transaction
  gate_goal_run_lem run_id now db row found = rw (found, transaction, gate_goal_run_in_tx)

  pub gate_of_cell-current :
      (db : Db) (run_id : Str) (cell : Cell) (b : GoalRunBinding)
      → gate_of_cell db run_id cell ≡ current b
      → (raw : Text) × (cell ≡ text raw)
        × (read_binding raw ≡ some b)
        × (b.run_id ≡ run_id)
        × (goal_run_binding_is_current db b ≡ true)
  unfolding gate_of_cell
  gate_of_cell-current db run_id null b h = cc
  gate_of_cell-current db run_id other b h = cc
  gate_of_cell-current db run_id (integer n) b h = cc
  gate_of_cell-current db run_id (text raw) b h = elim (Option-cases (read_binding raw)) [
    | inl missing ↦ absurd (ground arith)
    | inr (c, parsed) ↦
        let (same, own, holds) : (c ≡ b)
            × (c.run_id ≡ run_id)
            × (goal_run_binding_is_current db c ≡ true) =
          ground (arith, str_eq_iff c.run_id run_id) in
        (
          raw,
          refl,
          parsed ∙ ap some same,
          ap (λ b. b.run_id) (sym same) ∙ own,
          ap (goal_run_binding_is_current db) (sym same) ∙ holds,
        )
  ]

  settle-current :
      (run_id : Str) (now : ℤ) (db : Db) (gate : GoalRunGate)
      → gate ≢ needs_review
      → settle run_id now gate db ≡ db
  unfolding settle
  settle-current run_id now db unbound h = refl
  settle-current run_id now db (current b) h = refl
  settle-current run_id now db needs_review h = absurd (h refl)

  pub gate_goal_run-missing :
      (run_id : Str) (now : ℤ) (db : Db)
      → find (is_run run_id) db.runs ≡ none
      → gate_goal_run run_id now db ≡ (err (no_run run_id), db)
  unfolding gate_goal_run gate_goal_run_in_tx transaction
  gate_goal_run-missing run_id now db missing = rw (missing, transaction, gate_goal_run_in_tx)

  -- If the gate answers that a binding is current, then the binding is this run's, it names the
  -- valid goal that the store holds at exactly its scope, id and revision, and nothing was written.
  pub gate_goal_run-current :
      (run_id : Str) (now : ℤ) (db after : Db) (b : GoalRunBinding)
      → gate_goal_run run_id now db ≡ (ok (current b), after)
      → (b.run_id ≡ run_id) × NamesCurrentGoal db b × (after ≡ db)
  gate_goal_run-current run_id now db after b h =
      elim (Option-cases (find (is_run run_id) db.runs)) [
        | inl missing ↦ absurd (cc (gate_goal_run-missing run_id now db missing))
        | inr (row, found) ↦
            let gate = gate_of_cell db run_id row.goal_binding in
            let same : gate ≡ current b = cc (gate_goal_run_lem run_id now db row found) in
            let moved : after ≡ settle run_id now gate db =
              cc (gate_goal_run_lem run_id now db row found) in
            let (_, _, _, own, holds) = gate_of_cell-current db run_id row.goal_binding b same in
            (
              own,
              is_current_sound db b holds,
              moved ∙ settle-current run_id now db gate (λ e. cc (e, same)),
            )
      ]

  gate_of_cell-review :
      (db : Db) (run_id : Str) (cell : Cell)
      → cell ≢ null
      → ((raw : Text) (b : GoalRunBinding)
          → cell ≡ text raw
          → read_binding raw ≡ some b
          → ¬ NamesCurrentGoal db b)
      → gate_of_cell db run_id cell ≡ needs_review
  unfolding gate_of_cell
  gate_of_cell-review db run_id null bound stale = absurd (bound refl)
  gate_of_cell-review db run_id other bound stale = refl
  gate_of_cell-review db run_id (integer n) bound stale = refl
  gate_of_cell-review db run_id (text raw) bound stale = elim (Option-cases (read_binding raw)) [
    | inl missing ↦ ground arith
    | inr (b, parsed) ↦ elim (Bool-cases (goal_run_binding_is_current db b)) [
      | inl holds ↦ absurd (stale raw b refl parsed (is_current_sound db b holds))
      | inr fails ↦ ground arith
    ]
  ]

  -- A bound run whose binding does not name the current goal is refused: for any column that is
  -- not NULL and does not hold such a binding the gate answers `needs_review`, and all it writes
  -- is that status on the run.
  pub gate_goal_run_fails_closed :
      (run_id : Str) (now : ℤ) (db : Db) (row : RunEntry)
      → find (is_run run_id) db.runs ≡ some row
      → row.goal_binding ≢ null
      → ((raw : Text) (b : GoalRunBinding)
          → row.goal_binding ≡ text raw
          → read_binding raw ≡ some b
          → ¬ NamesCurrentGoal db b)
      → gate_goal_run run_id now db
        ≡ (ok needs_review, set_status run_id (lit "needs_review") now db)
  unfolding settle
  gate_goal_run_fails_closed run_id now db row found bound stale = cc (
    gate_goal_run_lem run_id now db row found,
    gate_of_cell-review db run_id row.goal_binding bound stale,
  )
