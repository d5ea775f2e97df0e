-- ===== src/Journal/Requires.antt =====
-- crates/beater-journal/src/lib.rs: `require_current_goal_run_in_tx`, and what the gate writes.
use temp_js.Prelude.{Str, ℤ, ◌≡◌, inl, inr, refl, none, some, find, Option-cases}
use temp_js.Result.{ok, err, no_run}
use temp_js.Journal.Model.{GoalRunGate, unbound, current, needs_review}
use temp_js.Journal.Serde.{Serde}
use temp_js.Journal.Store.{RunEntry, Db, is_run}
use temp_js.Journal.Runs.{
  gate_of_cell, settle, gate_goal_run_in_tx, require_current_goal_run_in_tx, set_status,
  refuse_review,
}

module _ ⦃serde : Serde⦄ where
  -- The callers of the gate: how `require_current_goal_run_in_tx` passes its answer on.
  pub require_lem :
      (run_id : Str) (now : ℤ) (db : Db) (row : RunEntry)
      → find (is_run run_id) db.runs ≡ some row
      → require_current_goal_run_in_tx run_id now db ≡ (
        refuse_review (gate_of_cell db run_id row.goal_binding),
        settle run_id now (gate_of_cell db run_id row.goal_binding) db,
      )
  unfolding require_current_goal_run_in_tx gate_goal_run_in_tx
  require_lem run_id now db row found =
      rw (found, require_current_goal_run_in_tx, gate_goal_run_in_tx)

  pub require-missing :
      (run_id : Str) (now : ℤ) (db : Db)
      → find (is_run run_id) db.runs ≡ none
      → require_current_goal_run_in_tx run_id now db ≡ (err (no_run run_id), db)
  unfolding require_current_goal_run_in_tx gate_goal_run_in_tx
  require-missing run_id now db missing =
      rw (missing, require_current_goal_run_in_tx, gate_goal_run_in_tx)

  settle-passes :
      (run_id : Str) (now : ℤ) (db : Db) (gate : GoalRunGate)
      → refuse_review gate ≡ ok tt
      → settle run_id now gate db ≡ db
  unfolding settle
  settle-passes run_id now db unbound h = refl
  settle-passes run_id now db (current b) h = refl
  settle-passes run_id now db needs_review h = cc

  -- What the gate writes: at most the status of the run.
  pub settle-frame :
      (run_id : Str) (now : ℤ) (db : Db) (gate : GoalRunGate)
      → settle run_id now gate db ≡ record db { runs = (settle run_id now gate db).runs }
  unfolding settle set_status
  settle-frame run_id now db unbound = refl
  settle-frame run_id now db (current b) = refl
  settle-frame run_id now db needs_review = refl

  pub require-frame :
      (run_id : Str) (now : ℤ) (db : Db)
      → (require_current_goal_run_in_tx run_id now db).1
        ≡ record db { runs = (require_current_goal_run_in_tx run_id now db).1.runs }
  require-frame run_id now db = elim (Option-cases (find (is_run run_id) db.runs)) [
    | inl missing ↦ rw (require-missing run_id now db missing)
    | inr (row, found) ↦
        rw (require_lem run_id now db row found)
          (settle-frame run_id now db (gate_of_cell db run_id row.goal_binding))
  ]

  pub require-passes :
      (run_id : Str) (now : ℤ) (db : Db)
      → (require_current_goal_run_in_tx run_id now db).0 ≡ ok tt
      → require_current_goal_run_in_tx run_id now db ≡ (ok tt, db)
  require-passes run_id now db h = elim (Option-cases (find (is_run run_id) db.runs)) [
    | inl missing ↦ absurd (cc (require-missing run_id now db missing))
    | inr (row, found) ↦
        let gate = gate_of_cell db run_id row.goal_binding in
        let e = require_lem run_id now db row found in
        let passed : refuse_review gate ≡ ok tt = cc e in
        rw (e, passed, settle-passes run_id now db gate passed)
  ]
