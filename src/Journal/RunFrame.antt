-- ===== src/Journal/RunFrame.antt =====
-- crates/beater-journal/src/lib.rs: the operations on runs write only the table of runs.
use temp_js.Prelude.{Str, ℤ, sym, subst, List, find, inl, inr, Option-cases, Bool-cases}
use temp_js.Result.{ok}
use temp_js.Journal.Model.{GoalScope}
use temp_js.Journal.Serde.{Serde}
use temp_js.Journal.Store.{RunEntry, Db, is_run}
use temp_js.Journal.Keeps.{Keeps, keeps_rules, after_rows, transaction-keeps, and_then-keeps}
use temp_js.Journal.Runs.{
  insert_run, create_run, create_goal_bound_run, gate_goal_run, set_run_status, set_status,
  require_current_goal_run_in_tx, gate_of_cell, settle, gated_status,
}
use temp_js.Journal.Gate.{gate_goal_run_lem, gate_goal_run-missing}
use temp_js.Journal.Requires.{require-frame, settle-frame}

module _ ⦃serde : Serde⦄ where
  module _ {P : Db → Type 0}
      (frame : (db : Db) (rows : List RunEntry) → P db → P (record db { runs = rows })) where
    Keeps-insert_run : (row : RunEntry) → Keeps P (insert_run row)
    unfolding insert_run
    Keeps-insert_run row = record {
      at = λ db h. after_rows P (λ rows. record db { runs = rows }) tt (λ rows. frame db rows h) _;
    }

    pub create_run-keeps :
        (id agent input : Str) (now : ℤ) (db : Db) → P db → P (create_run id agent input now db).1
    unfolding create_run
    create_run-keeps id agent input now = transaction-keeps _ (Keeps-insert_run _)

    pub create_goal_bound_run-keeps :
        (scope : GoalScope) (goal_id : Str) (expected : ℤ) (run_id agent input : Str) (now : ℤ)
        (db : Db)
        → P db
        → P (create_goal_bound_run scope goal_id expected run_id agent input now db).1
    unfolding create_goal_bound_run
    create_goal_bound_run-keeps scope goal_id expected run_id agent input now =
        transaction-keeps _ (search (keeps_rules, Keeps-insert_run) depth 16)

    pub gate_goal_run-keeps :
        (run_id : Str) (now : ℤ) (db : Db) → P db → P (gate_goal_run run_id now db).1
    gate_goal_run-keeps run_id now db h = elim (Option-cases (find (is_run run_id) db.runs)) [
      | inl missing ↦ rw (gate_goal_run-missing run_id now db missing) h
      | inr (row, found) ↦
          let gate = gate_of_cell db run_id row.goal_binding in
          rw (gate_goal_run_lem run_id now db row found) (
            subst P (sym (settle-frame run_id now db gate))
              (frame db (settle run_id now gate db).runs h))
    ]

    require-keeps :
        (run_id : Str) (now : ℤ) (db : Db)
        → P db
        → P (require_current_goal_run_in_tx run_id now db).1
    require-keeps run_id now db h =
        subst P (sym (require-frame run_id now db))
          (frame db (require_current_goal_run_in_tx run_id now db).1.runs h)

    pub set_run_status-keeps :
        (id status : Str) (now : ℤ) (db : Db) → P db → P (set_run_status id status now db).1
    unfolding set_run_status set_status
    set_run_status-keeps id status now db h = elim (Bool-cases (gated_status status)) [
      | inr free ↦ rw free (frame db _ h)
      | inl gated ↦ rw gated (
          and_then-keeps P (require_current_goal_run_in_tx id now)
            (λ _ after. (ok tt, set_status id status now after)) db (require-keeps id now db h)
            (λ _ after k. frame after _ k))
    ]
