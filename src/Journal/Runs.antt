-- ===== src/Journal/Runs.antt =====
-- crates/beater-journal/src/lib.rs: the operations on runs, and the gate of a goal-bound run.
use temp_js.Prelude.{
  Str, lit, ℤ, eq_ℤ, Bool, false, ◌&&◌, ◌||◌, Option, none, some, leb, find, update, str_eq,
  if◌then◌else◌,
}
use temp_js.Result.{Result, ok, err, ensure, is_ok, no_run, goal_run_needs_review}
use temp_js.Journal.Model.{
  GoalScope, Goal, GoalRunBinding, GoalRunGate, unbound, current, needs_review,
}
use temp_js.Journal.Serde.{Serde}
use temp_js.Journal.Store.{
  Cell, null, integer, text, RunEntry, GoalEntry, Db, Tx, Op, transaction, and_then, lift, ◌>>=◌,
  ◌>>◌, pure, gets, insert, is_run, scope_eq,
}
use temp_js.Journal.Validate.{
  validate_scope, validate_goal, validate_goal_run_binding, validate_new_run, valid_identifier,
  valid_revision, goal_run_binding_version,
}

module _ ⦃serde : Serde⦄ where
  open serde use {Text, byte_len, read_goal, read_binding, write_binding}

  unfoldable pub is_goal : GoalScope → Str → GoalEntry → Bool
  is_goal scope id row = scope_eq row.scope scope && str_eq row.id id

  unfoldable pub insert_run : RunEntry → Tx (Unit {0})
  insert_run row db = elim (insert (is_run row.id) row db.runs) [
    | ok runs ↦ ok (tt, record db { runs = runs })
    | err e ↦ err e
  ]

  unfoldable pub new_run : Str → Str → Str → ℤ → Cell → RunEntry
  new_run id agent input now binding = record {
    id = id;
    agent = agent;
    status = lit "running";
    input = input;
    created_at = now;
    updated_at = now;
    goal_binding = binding;
  }

  unfoldable pub create_run : Str → Str → Str → ℤ → Op (Unit {0})
  create_run id agent input now = transaction (insert_run (new_run id agent input now null))

  -- What a parsed goal must say for the binding to be current.
  unfoldable pub goal_matches : GoalRunBinding → ℤ → Option Goal → Bool
  goal_matches binding stored_revision none = false
  goal_matches binding stored_revision (some goal) =
      is_ok (validate_goal goal)
      && scope_eq goal.scope binding.scope
      && str_eq goal.id binding.goal_id
      && eq_ℤ goal.revision stored_revision
      && eq_ℤ stored_revision binding.goal_revision

  -- The columns of the goal's row: an integer, and a text of at most 65536 bytes.
  unfoldable pub columns_match : GoalRunBinding → Cell → Cell → Bool
  unfolding goal_matches
  columns_match binding (integer stored_revision) (text body) =
      leb (byte_len body) 65536 && goal_matches binding stored_revision (read_goal body)
  columns_match binding _ _ = false

  unfoldable pub row_matches : GoalRunBinding → Option GoalEntry → Bool
  unfolding columns_match
  row_matches binding none = false
  row_matches binding (some row) = columns_match binding row.revision row.body

  unfoldable pub goal_run_binding_is_current : Db → GoalRunBinding → Bool
  unfolding row_matches
  goal_run_binding_is_current db binding =
      is_ok (validate_goal_run_binding binding)
      && row_matches binding (find (is_goal binding.scope binding.goal_id) db.goals)

  unfoldable pub create_goal_bound_run :
      GoalScope → Str → ℤ → Str → Str → Str → ℤ → Op GoalRunBinding
  create_goal_bound_run scope goal_id expected_revision run_id agent input now = transaction (do
    lift (validate_scope scope)
    lift (ensure (valid_identifier goal_id) "invalid goal run target")
    lift (ensure (valid_revision expected_revision) "invalid expected goal revision")
    lift (validate_new_run run_id agent input)
    let binding : GoalRunBinding = record {
      version = goal_run_binding_version;
      run_id = run_id;
      scope = scope;
      goal_id = goal_id;
      goal_revision = expected_revision;
    }
    is_current ← gets (λ db. goal_run_binding_is_current db binding)
    lift (ensure is_current "goal revision conflict or corrupt goal")
    insert_run (new_run run_id agent input now (text (write_binding binding)))
    pure binding)

  unfoldable pub set_status : Str → Str → ℤ → Db → Db
  set_status run_id status now db = record db {
    runs = update (is_run run_id) (λ row. record row { status = status; updated_at = now }) db.runs;
  }

  unfoldable pub mark_goal_run_needs_review : Str → ℤ → Db → Db
  unfolding set_status
  mark_goal_run_needs_review run_id now db = set_status run_id (lit "needs_review") now db

  -- What the column `goal_binding` of the run says.
  unfoldable pub gate_of_binding : Db → Str → Option GoalRunBinding → GoalRunGate
  gate_of_binding db run_id none = needs_review
  gate_of_binding db run_id (some binding) =
      if str_eq binding.run_id run_id && goal_run_binding_is_current db binding
      then current binding
      else needs_review

  unfoldable pub gate_of_cell : Db → Str → Cell → GoalRunGate
  unfolding gate_of_binding
  gate_of_cell db run_id null = unbound
  gate_of_cell db run_id (text raw) =
      if leb (byte_len raw) 4096 then gate_of_binding db run_id (read_binding raw) else needs_review
  gate_of_cell db run_id _ = needs_review

  -- Every way to `needs_review` marks the run.
  unfoldable pub settle : Str → ℤ → GoalRunGate → Db → Db
  unfolding mark_goal_run_needs_review
  settle run_id now needs_review db = mark_goal_run_needs_review run_id now db
  settle run_id now _ db = db

  unfoldable pub gate_goal_run_in_tx : Str → ℤ → Tx GoalRunGate
  unfolding gate_of_cell settle
  gate_goal_run_in_tx run_id now db = elim (find (is_run run_id) db.runs) [
    | none ↦ err (no_run run_id)
    | some row ↦
        let gate = gate_of_cell db run_id row.goal_binding in ok (gate, settle run_id now gate db)
  ]

  unfoldable pub gate_goal_run : Str → ℤ → Op GoalRunGate
  gate_goal_run run_id now = transaction (gate_goal_run_in_tx run_id now)

  abbrev pub refuse_review : GoalRunGate → Result (Unit {0})
  refuse_review needs_review = err goal_run_needs_review
  refuse_review _ = ok tt

  -- An error leaves the database as the gate left it: the callers commit it.
  unfoldable pub require_current_goal_run_in_tx : Str → ℤ → Op (Unit {0})
  require_current_goal_run_in_tx run_id now db = elim (gate_goal_run_in_tx run_id now db) [
    | ok (gate, after) ↦ (refuse_review gate, after)
    | err e ↦ (err e, db)
  ]

  abbrev pub gated_status : Str → Bool
  gated_status status = str_eq status (lit "running") || str_eq status (lit "completed")

  unfoldable pub set_run_status : Str → Str → ℤ → Op (Unit {0})
  set_run_status id status now db =
      if gated_status status
      then and_then (require_current_goal_run_in_tx id now)
          (λ _ after. (ok tt, set_status id status now after)) db
      else (ok tt, set_status id status now db)

  -- A reader: the whole row stands for the columns that `RunRow` copies.
  unfoldable pub run : Db → Str → Result RunEntry
  run db id = elim (find (is_run id) db.runs) [ none ↦ err (no_run id) | some row ↦ ok row ]
