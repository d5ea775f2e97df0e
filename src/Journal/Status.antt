-- ===== src/Journal/Status.antt =====
-- crates/beater-journal/src/lib.rs: a run is resumed or completed only behind the gate.
use temp_js.Prelude.{
  Str, ℤ, true, ◌≡◌, ◌⊎◌, refl, sym, ap, ◌∙◌, inl, inr, some, find, arith, Option-cases,
}
use temp_js.Result.{Result, Error, ok, err}
use temp_js.Journal.Model.{GoalRunBinding, GoalRunGate, unbound, current, needs_review}
use temp_js.Journal.Serde.{Serde}
use temp_js.Journal.Store.{Cell, null, other, integer, text, RunEntry, Db, and_then, is_run}
use temp_js.Journal.Runs.{
  gate_of_cell, refuse_review, require_current_goal_run_in_tx, gated_status, set_status,
  set_run_status,
}
use temp_js.Journal.Gate.{NamesCurrentGoal, is_current_sound, gate_of_cell-current}
use temp_js.Journal.Requires.{require_lem, require-missing, require-passes}
use temp_js.Journal.Keeps.{and_then-ok, and_then-err}

module _ ⦃serde : Serde⦄ where
  open serde use {Text, byte_len, read_binding}

  gate_of_cell-unbound :
      (db : Db) (run_id : Str) (cell : Cell) → gate_of_cell db run_id cell ≡ unbound → cell ≡ null
  unfolding gate_of_cell
  gate_of_cell-unbound db run_id null e = refl
  gate_of_cell-unbound db run_id other e = cc
  gate_of_cell-unbound db run_id (integer n) e = cc
  gate_of_cell-unbound db run_id (text raw) e = elim (Option-cases (read_binding raw)) [
    | inl missing ↦ absurd (ground arith)
    | inr (b, parsed) ↦ absurd (ground arith)
  ]

  -- A run may go on: its column is NULL, or it holds the written binding of this run to the goal that
  -- is current.
  abbrev pub MayRun : Db → Str → Cell → Type 0
  MayRun db id cell =
      (cell ≡ null)
      ⊎ ((raw : Text) × (b : GoalRunBinding) × (cell ≡ text raw)
          × (read_binding raw ≡ some b)
          × (b.run_id ≡ id)
          × NamesCurrentGoal db b)

  allowed :
      (db : Db) (id : Str) (cell : Cell) (gate : GoalRunGate)
      → gate_of_cell db id cell ≡ gate
      → refuse_review gate ≡ ok tt
      → MayRun db id cell
  allowed db id cell unbound e h = inl (gate_of_cell-unbound db id cell e)
  allowed db id cell (current b) e h =
      let (raw, held, parsed, own, holds) = gate_of_cell-current db id cell b e in
      inr (raw, b, held, parsed, own, is_current_sound db b holds)
  allowed db id cell needs_review e h = cc

  module _ (id status : Str) (now : ℤ) (db : Db) (gated : gated_status status ≡ true) where
    runs_gate :
        set_run_status id status now db
        ≡ and_then
            (require_current_goal_run_in_tx id now)
            (λ _ after. (ok tt, set_status id status now after))
            db
    unfolding set_run_status
    runs_gate = rw (gated, set_run_status)

    gate_refuses :
        (after : Db) (e : Error)
        → set_run_status id status now db ≡ (ok tt, after)
        → ¬ ((require_current_goal_run_in_tx id now db).0 ≡ err e)
    gate_refuses after e done failed = cc (
      done,
      runs_gate,
      and_then-err (require_current_goal_run_in_tx id now)
          (λ _ after. (ok tt, set_status id status now after)) db e failed,
    )

    gate_passes :
        (after : Db) (r : Result (Unit {0}))
        → (require_current_goal_run_in_tx id now db).0 ≡ r
        → set_run_status id status now db ≡ (ok tt, after)
        → (require_current_goal_run_in_tx id now db).0 ≡ ok tt
    gate_passes after (ok tt) e done = e
    gate_passes after (err x) e done = absurd (gate_refuses after x done e)

    -- A run becomes running or completed only if it may run: when the call succeeds, the run exists,
    -- its column is NULL or holds a binding of this run that names the valid goal that the store holds at
    -- exactly its scope, id and revision, and all that was written is the status.
    pub set_run_status-guarded :
        (after : Db)
        → set_run_status id status now db ≡ (ok tt, after)
        → (row : RunEntry) × (find (is_run id) db.runs ≡ some row)
          × MayRun db id row.goal_binding
          × (after ≡ set_status id status now db)
    set_run_status-guarded after done =
        let passed = gate_passes after _ refl done in
        let written =
          sym done
          ∙ runs_gate
          ∙ and_then-ok (require_current_goal_run_in_tx id now)
              (λ _ after. (ok tt, set_status id status now after)) db db tt
              (require-passes id now db passed) in
        elim (Option-cases (find (is_run id) db.runs)) [
          | inl missing ↦ absurd (cc (passed, require-missing id now db missing))
          | inr (row, found) ↦ (
            row,
            found,
            allowed db id row.goal_binding _ refl
                (sym (ap (λ r. r.0) (require_lem id now db row found)) ∙ passed),
            ap (λ r. r.1) written,
          )
        ]
