-- ===== src/Journal/Steps/Order.antt =====
-- crates/beater-journal/src/lib.rs: `start_step` allocates fresh, increasing numbers behind the gate.
use temp_js.Prelude.{
  ℕ, suc, ◌<◌, Str, ℤ, false, ◌≡◌, refl, ap, ◌∙◌, Option, List, [], ◌∷◌, ◌++◌, any, highest, arith,
}
use temp_js.Result.{Error, ok, err}
use temp_js.Journal.Model.{Value}
use temp_js.Journal.Serde.{Serde}
use temp_js.Journal.Store.{StepEntry, Db, insert, is_step}
use temp_js.Journal.Runs.{require_current_goal_run_in_tx}
use temp_js.Journal.Requires.{require-passes, require-frame}
use temp_js.Journal.Keeps.{and_then-ok, and_then-err, transaction-ok}
use temp_js.Journal.Steps.{max_seq, started, insert_step, allocate_step, start_step}

module _ ⦃serde : Serde⦄ where
  fresh_above :
      (run_id : Str) (n : ℕ) (rows : List StepEntry)
      → max_seq run_id rows < n
      → any (is_step run_id n) rows ≡ false
  unfolding max_seq highest is_step
  fresh_above run_id n [] h = refl
  fresh_above run_id n (row ∷ rows) h = ground (arith, fresh_above run_id n rows)

  pub insert_step-fresh :
      (row : StepEntry) (db : Db)
      → any (is_step row.run_id row.seq) db.steps ≡ false
      → insert_step row db ≡ ok (row.seq, record db { steps = db.steps ++ row ∷ [] })
  unfolding insert_step insert
  insert_step-fresh row db h = rw (h, insert, insert_step)

  -- `start_step` behind the gate: when the gate passes it inserts a row `started` under the next
  -- number, which no step of the run has, and changes nothing else; when the gate refuses, its error
  -- is returned with what the gate wrote, and no step is added.
  pub start_step-gated :
      (run_id kind : Str) (request : Value) (tool_name tool_use_id : Option Str) (attempt now : ℤ)
      (db : Db)
      → ((require_current_goal_run_in_tx run_id now db).0 ≡ ok tt
          → start_step run_id kind request tool_name tool_use_id attempt now db ≡ (
            ok (suc (max_seq run_id db.steps)),
            record db {
              steps =
                  db.steps
                  ++ started run_id
                      (suc (max_seq run_id db.steps))
                      kind
                      request
                      tool_name
                      tool_use_id
                      attempt
                      now
                    ∷ [];
            },
          ))
        × ((e : Error)
            → (require_current_goal_run_in_tx run_id now db).0 ≡ err e
            → (start_step run_id kind request tool_name tool_use_id attempt now db
                ≡ (err e, (require_current_goal_run_in_tx run_id now db).1))
              × ((start_step run_id kind request tool_name tool_use_id attempt now db).1.steps
                  ≡ db.steps))
  unfolding start_step allocate_step started
  start_step-gated run_id kind request tool_name tool_use_id attempt now db =
      let gate = require_current_goal_run_in_tx run_id now in
      let next =
        λ (u : Unit {0}). allocate_step run_id kind request tool_name tool_use_id attempt now in
      (
        (λ h.
            and_then-ok gate next db db tt (require-passes run_id now db h)
            ∙ transaction-ok (insert_step _) db _ _ (
                insert_step-fresh
                  (started run_id (suc (max_seq run_id db.steps)) kind request tool_name tool_use_id
                    attempt now)
                  db (fresh_above run_id (suc (max_seq run_id db.steps)) db.steps (omega arith)))),
        (λ e h.
            let refused = and_then-err gate next db e h in
            (
              refused,
              ap (λ r. r.1.steps) refused ∙ ap (λ d. d.steps) (require-frame run_id now db),
            )),
      )
