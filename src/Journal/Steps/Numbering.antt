-- ===== src/Journal/Steps/Numbering.antt =====
-- crates/beater-journal/src/lib.rs: over any history the steps of a run are numbered 1, 2, 3, …, and
-- so are the streamed parts of each step.
use temp_js.Prelude.{
  ℕ, suc, Str, lit, ℤ, Bool, true, ◌&&◌, ◌≡◌, inl, inr, refl, sym, ap, ◌∙◌, Option, subst₂, ap₂,
  List, [], ◌∷◌, ◌++◌, any, All, All-imp, All-append, update, str_eq, ◌==◌, arith, Bool-cases,
  IsNumbered, IsNumbered-append, IsNumbered-update, highest, str_eq_iff,
}
use temp_js.Result.{Result, ok, err}
use temp_js.Journal.Serde.{Serde}
use temp_js.Journal.Model.{Value}
use temp_js.Journal.Store.{StepEntry, PartialEntry, RunEntry, Db, insert, is_step, empty_db}
use temp_js.Journal.Runs.{require_current_goal_run_in_tx}
use temp_js.Journal.Requires.{require-frame}
use temp_js.Journal.Keeps.{AfterOk, transaction-keeps}
use temp_js.Journal.Frame.{
  IsFrame, store_frame, create_goal-keeps, revise_goal-keeps, record_milestone-keeps,
}
use temp_js.Journal.RunFrame.{
  create_run-keeps, create_goal_bound_run-keeps, gate_goal_run-keeps, set_run_status-keeps,
}
use temp_js.Journal.Session.{
  Call, creates_run, creates_bound_run, gates_run, sets_status, starts_step, completes_step,
  fails_step, appends_partial, creates_goal, revises_goal, records_milestone, perform, perform_all,
  perform_all-keeps,
}
use temp_js.Journal.Steps.{
  max_seq, max_ordinal, started, start_step, finish, complete_step, fail_step, is_part,
  insert_partial, append_step_partial,
}
use temp_js.Journal.Steps.Order.{start_step-gated}

module _ ⦃serde : Serde⦄ where
  open serde use {Text}

  abbrev step_of : Str → StepEntry → Bool
  step_of run_id row = str_eq row.run_id run_id

  -- What holds of the tables of steps and parts.
  pub record NumberedRows (steps : List StepEntry) (partials : List PartialEntry) : Type 0 where
    pub steps_numbered : (run_id : Str) → IsNumbered (step_of run_id) (λ row. row.seq) 0 steps
    pub partials_numbered :
        (run_id : Str) (seq : ℕ) → IsNumbered (is_part run_id seq) (λ row. row.ordinal) 0 partials
    pub partials_owned : All (λ p. any (is_step p.run_id p.seq) steps ≡ true) partials

  abbrev pub Numbered : Db → Type 0
  Numbered db = NumberedRows db.steps db.step_partials

  same_rows :
      (db after : Db)
      → after.steps ≡ db.steps
      → after.step_partials ≡ db.step_partials
      → Numbered db
      → Numbered after
  same_rows db after e f h = subst₂ NumberedRows (sym e) (sym f) h

  any-append :
      (p : StepEntry → Bool) (rows : List StepEntry) (row : StepEntry)
      → any p rows ≡ true
      → any p (rows ++ row ∷ []) ≡ true
  any-append p [] row h = cc
  any-append p (r ∷ rows) row h = ground (arith, any-append p rows row)

  append_step-Numbered :
      (db : Db) (row : StepEntry)
      → row.seq ≡ suc (max_seq row.run_id db.steps)
      → Numbered db
      → Numbered (record db { steps = db.steps ++ row ∷ [] })
  unfolding max_seq
  append_step-Numbered db row next h = record {
    steps_numbered = λ run_id.
        IsNumbered-append (step_of run_id) (λ row. row.seq) db.steps row (h.steps_numbered run_id)
          (λ own.
            next
            ∙ ap (λ r. suc (highest (step_of r) (λ row. row.seq) db.steps))
                ((str_eq_iff row.run_id run_id).0 own));
    partials_numbered = h.partials_numbered;
    partials_owned =
        All-imp _ _ db.step_partials (λ p. any-append (is_step p.run_id p.seq) db.steps row)
          h.partials_owned;
  }

  start_step-Numbered :
      (run_id kind : Str) (request : Value) (tool_name tool_use_id : Option Str) (attempt now : ℤ)
      (db : Db)
      → Numbered db
      → Numbered (start_step run_id kind request tool_name tool_use_id attempt now db).1
  start_step-Numbered run_id kind request tool_name tool_use_id attempt now db h =
      by_gate (require_current_goal_run_in_tx run_id now db).0 refl
    where
      by_gate :
          (r : Result (Unit {0}))
          → (require_current_goal_run_in_tx run_id now db).0 ≡ r
          → Numbered (start_step run_id kind request tool_name tool_use_id attempt now db).1
      by_gate (ok tt) e =
          let lem = start_step-gated run_id kind request tool_name tool_use_id attempt now db in
          rw (lem.0 e) (unfold started in append_step-Numbered db _ refl h)
      by_gate (err x) e =
          let lem = start_step-gated run_id kind request tool_name tool_use_id attempt now db in
          rw ((lem.1 x e).0) (
            same_rows db (require_current_goal_run_in_tx run_id now db).1
              (ap (λ d. d.steps) (require-frame run_id now db))
              (ap (λ d. d.step_partials) (require-frame run_id now db)) h)

  any-update :
      (p q : StepEntry → Bool) (f : StepEntry → StepEntry)
      → ((row : StepEntry) → p (f row) ≡ p row)
      → (rows : List StepEntry) → any p (update q f rows) ≡ any p rows
  any-update p q f same [] = refl
  any-update p q f same (row ∷ rows) = ground (arith, same row, any-update p q f same rows)

  finish-Numbered :
      (run_id : Str) (seq : ℕ) (status : Str) (result : Text) (now : ℤ) (db : Db)
      → Numbered db
      → Numbered (finish run_id seq status result now db).1
  unfolding finish is_step
  finish-Numbered run_id seq status result now db h = record {
    steps_numbered = λ r.
        IsNumbered-update (step_of r) (λ row. row.seq) (is_step run_id seq) _ (λ row. refl)
          (λ row. refl) 0 db.steps (h.steps_numbered r);
    partials_numbered = h.partials_numbered;
    partials_owned =
        All-imp _ _ db.step_partials
          (λ p own.
            any-update (is_step p.run_id p.seq) (is_step run_id seq) _ (λ row. refl) db.steps ∙ own)
          h.partials_owned;
  }

  is_part_sound :
      (run_id : Str) (seq : ℕ) (row : PartialEntry)
      → is_part run_id seq row ≡ true
      → (row.run_id ≡ run_id) × (row.seq ≡ seq)
  unfolding is_part
  is_part_sound run_id seq row e = ground (arith, str_eq_iff row.run_id run_id)

  append_partial-Numbered :
      (db : Db) (row : PartialEntry)
      → row.ordinal ≡ suc (max_ordinal row.run_id row.seq db.step_partials)
      → any (is_step row.run_id row.seq) db.steps ≡ true
      → Numbered db
      → Numbered (record db { step_partials = db.step_partials ++ row ∷ [] })
  unfolding max_ordinal
  append_partial-Numbered db row next own h = record {
    steps_numbered = h.steps_numbered;
    partials_numbered = λ run_id seq.
        IsNumbered-append (is_part run_id seq) (λ row. row.ordinal) db.step_partials row
          (h.partials_numbered run_id seq)
          (λ e.
            let (same_run, same_seq) = is_part_sound run_id seq row e in
            next
            ∙ ap₂ (λ r n. suc (highest (is_part r n) (λ row. row.ordinal) db.step_partials))
                same_run same_seq);
    partials_owned = All-append _ db.step_partials (row ∷ []) h.partials_owned (own, tt);
  }

  insert_partial-Numbered :
      (db : Db) (row : PartialEntry)
      → row.ordinal ≡ suc (max_ordinal row.run_id row.seq db.step_partials)
      → Numbered db
      → AfterOk Numbered (insert_partial row db)
  unfolding insert_partial insert
  insert_partial-Numbered db row next h =
      elim (Bool-cases (any (is_step row.run_id row.seq) db.steps)) [
        | inr orphan ↦ rw orphan tt
        | inl own ↦
            elim (Bool-cases (
              any (λ r. is_part row.run_id row.seq r && r.ordinal == row.ordinal)
                db.step_partials)) [
                  | inl taken ↦ rw (own, taken) tt
                  | inr free ↦ rw (own, free) (append_partial-Numbered db row next own h)
                ]
      ]

  append_step_partial-Numbered :
      (run_id : Str) (seq : ℕ) (kind : Str) (payload : Value) (now : ℤ) (db : Db)
      → Numbered db
      → Numbered (append_step_partial run_id seq kind payload now db).1
  unfolding append_step_partial
  append_step_partial-Numbered run_id seq kind payload now =
      transaction-keeps _ (record { at = λ db. insert_partial-Numbered db _ refl })

  goals_frame : IsFrame Numbered
  goals_frame = record {
    goals = λ db rows h. h;
    goal_revisions = λ db rows h. h;
    goal_events = λ db rows h. h;
    goal_replays = λ db rows h. h;
    milestones = record {
      goal_milestones = λ db rows h. h;
      goal_milestone_revisions = λ db rows h. h;
    };
  }

  runs_frame : (db : Db) (rows : List RunEntry) → Numbered db → Numbered (record db { runs = rows })
  runs_frame db rows h = h

  -- Every call of the journal keeps the numbering.
  perform-Numbered : (db : Db) (call : Call) → Numbered db → Numbered (perform db call)
  unfolding perform complete_step fail_step
  perform-Numbered db (creates_run id agent input now) h =
      create_run-keeps runs_frame id agent input now db h
  perform-Numbered db (creates_bound_run scope goal_id expected run_id agent input now) h =
      create_goal_bound_run-keeps runs_frame scope goal_id expected run_id agent input now db h
  perform-Numbered db (gates_run run_id now) h = gate_goal_run-keeps runs_frame run_id now db h
  perform-Numbered db (sets_status id status now) h =
      set_run_status-keeps runs_frame id status now db h
  perform-Numbered db (starts_step run_id kind request tool_name tool_use_id attempt now) h =
      start_step-Numbered run_id kind request tool_name tool_use_id attempt now db h
  perform-Numbered db (completes_step run_id seq result now) h =
      finish-Numbered run_id seq (lit "completed") _ now db h
  perform-Numbered db (fails_step run_id seq error now) h =
      finish-Numbered run_id seq (lit "failed") _ now db h
  perform-Numbered db (appends_partial run_id seq kind payload now) h =
      append_step_partial-Numbered run_id seq kind payload now db h
  perform-Numbered db (creates_goal mutation goal now) h =
      create_goal-keeps now (store_frame goals_frame now) mutation goal db h
  perform-Numbered db (revises_goal mutation scope id expected patch now) h =
      revise_goal-keeps now (store_frame goals_frame now) mutation scope id expected patch db h
  perform-Numbered db (records_milestone mutation scope id expected milestone now) h =
      record_milestone-keeps now (store_frame goals_frame now) mutation scope id expected milestone
        db h

  empty-Numbered : Numbered empty_db
  unfolding empty_db
  empty-Numbered = record {
    steps_numbered = λ run_id. tt;
    partials_numbered = λ run_id seq. tt;
    partials_owned = tt;
  }

  -- After any calls on a new journal, whether they succeed or fail, the steps of each run are
  -- numbered 1, 2, 3, … in the order in which they were started, the parts of each step likewise,
  -- and every part belongs to a step that exists.
  pub perform_all-Numbered : (calls : List Call) → Numbered (perform_all empty_db calls)
  perform_all-Numbered calls =
      perform_all-keeps Numbered perform-Numbered empty_db calls empty-Numbered
