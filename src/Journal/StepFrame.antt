-- ===== src/Journal/StepFrame.antt =====
-- crates/beater-journal/src/lib.rs: the operations on steps write only the tables of runs and steps.
use temp_js.Prelude.{
  Str, ℤ, ℕ, ◌≡◌, sym, subst, refl, Option, List, any, inl, inr, Bool-cases, ◌==◌, ◌&&◌,
}
use temp_js.Result.{Result, ok, err}
use temp_js.Journal.Serde.{Serde}
use temp_js.Journal.Model.{Value}
use temp_js.Journal.Store.{RunEntry, StepEntry, PartialEntry, Db, insert, is_step}
use temp_js.Journal.Runs.{require_current_goal_run_in_tx}
use temp_js.Journal.Requires.{require-frame}
use temp_js.Journal.Keeps.{AfterOk, transaction-keeps}
use temp_js.Journal.Steps.{
  start_step, finish, complete_step, fail_step, is_part, insert_partial, append_step_partial,
}
use temp_js.Journal.Steps.Order.{start_step-gated}

module _ ⦃serde : Serde⦄ where
  -- A predicate that does not depend on the tables of runs, steps and parts.
  pub record IsRunFrame (P : Db → Type 0) : Type 0 where
    pub runs : (db : Db) (rows : List RunEntry) → P db → P (record db { runs = rows })
    pub steps : (db : Db) (rows : List StepEntry) → P db → P (record db { steps = rows })
    pub step_partials :
        (db : Db) (rows : List PartialEntry) → P db → P (record db { step_partials = rows })

  module _ {P : Db → Type 0} (frame : IsRunFrame P) where
    pub start_step-keeps :
        (run_id kind : Str) (request : Value) (tool_name tool_use_id : Option Str) (attempt now : ℤ)
        (db : Db)
        → P db
        → P (start_step run_id kind request tool_name tool_use_id attempt now db).1
    start_step-keeps run_id kind request tool_name tool_use_id attempt now db h =
        by_gate (require_current_goal_run_in_tx run_id now db).0 refl
      where
        by_gate :
            (r : Result (Unit {0}))
            → (require_current_goal_run_in_tx run_id now db).0 ≡ r
            → P (start_step run_id kind request tool_name tool_use_id attempt now db).1
        by_gate (ok tt) e =
            let lem = start_step-gated run_id kind request tool_name tool_use_id attempt now db in
            rw (lem.0 e) (frame.steps db _ h)
        by_gate (err x) e =
            let lem = start_step-gated run_id kind request tool_name tool_use_id attempt now db in
            rw ((lem.1 x e).0) (subst P (sym (require-frame run_id now db)) (frame.runs db _ h))

    pub complete_step-keeps :
        (run_id : Str) (seq : ℕ) (result : Value) (now : ℤ) (db : Db)
        → P db
        → P (complete_step run_id seq result now db).1
    unfolding complete_step finish
    complete_step-keeps run_id seq result now db h = frame.steps db _ h

    pub fail_step-keeps :
        (run_id : Str) (seq : ℕ) (error : Str) (now : ℤ) (db : Db)
        → P db
        → P (fail_step run_id seq error now db).1
    unfolding fail_step finish
    fail_step-keeps run_id seq error now db h = frame.steps db _ h

    insert_partial-keeps : (row : PartialEntry) (db : Db) → P db → AfterOk P (insert_partial row db)
    unfolding insert_partial insert
    insert_partial-keeps row db h = elim (Bool-cases (any (is_step row.run_id row.seq) db.steps)) [
      | inr orphan ↦ rw orphan tt
      | inl own ↦
          elim (Bool-cases (
            any (λ r. is_part row.run_id row.seq r && r.ordinal == row.ordinal) db.step_partials)) [
              | inl taken ↦ rw (own, taken) tt
              | inr free ↦ rw (own, free) (frame.step_partials db _ h)
            ]
    ]

    pub append_step_partial-keeps :
        (run_id : Str) (seq : ℕ) (kind : Str) (payload : Value) (now : ℤ) (db : Db)
        → P db
        → P (append_step_partial run_id seq kind payload now db).1
    unfolding append_step_partial
    append_step_partial-keeps run_id seq kind payload now =
        transaction-keeps _ (record { at = λ db. insert_partial-keeps _ db })
