-- ===== src/Journal/Steps.antt =====
-- crates/beater-journal/src/lib.rs: the lifecycle of steps and of their streamed parts.
pub mod Order
pub mod Numbering
use temp_js.Prelude.{
  ℕ, suc, Str, lit, ℤ, Bool, ◌&&◌, Option, none, some, List, [], ◌∷◌, any, update, select, leb,
  ◌==◌, str_eq, sort_by, highest, if◌then◌else◌,
}
use temp_js.Result.{Result, ok, err, constraint, malformed, or_fail, ◌>>=◌}
use temp_js.Journal.Model.{Value}
use temp_js.Journal.Serde.{Serde}
use temp_js.Journal.Store.{
  StepEntry, PartialEntry, Db, Tx, Op, transaction, and_then, insert, is_step,
}
use temp_js.Journal.Runs.{require_current_goal_run_in_tx}

module _ ⦃serde : Serde⦄ where
  open serde use {Text, write_value, read_value, write_error}

  -- SELECT COALESCE(MAX(seq), 0) FROM steps WHERE run_id = ?1
  unfoldable pub max_seq : Str → List StepEntry → ℕ
  max_seq run_id = highest (λ row. str_eq row.run_id run_id) (λ row. row.seq)

  unfoldable pub started : Str → ℕ → Str → Value → Option Str → Option Str → ℤ → ℤ → StepEntry
  started run_id seq kind request tool_name tool_use_id attempt now = record {
    run_id = run_id;
    seq = seq;
    kind = kind;
    status = lit "started";
    request = write_value request;
    result = none;
    tool_name = tool_name;
    tool_use_id = tool_use_id;
    attempt = attempt;
    started_at = now;
    finished_at = none;
  }

  unfoldable pub insert_step : StepEntry → Tx ℕ
  insert_step row db = elim (insert (is_step row.run_id row.seq) row db.steps) [
    | ok steps ↦ ok (row.seq, record db { steps = steps })
    | err e ↦ err e
  ]

  unfoldable pub allocate_step : Str → Str → Value → Option Str → Option Str → ℤ → ℤ → Op ℕ
  allocate_step run_id kind request tool_name tool_use_id attempt now db =
      let seq = suc (max_seq run_id db.steps) in
      transaction (insert_step (started run_id seq kind request tool_name tool_use_id attempt now))
        db

  -- A failed gate is committed; a failed insert is rolled back.
  unfoldable pub start_step : Str → Str → Value → Option Str → Option Str → ℤ → ℤ → Op ℕ
  start_step run_id kind request tool_name tool_use_id attempt now =
      and_then (require_current_goal_run_in_tx run_id now)
        λ _. allocate_step run_id kind request tool_name tool_use_id attempt now

  unfoldable pub finish : Str → ℕ → Str → Text → ℤ → Op (Unit {0})
  finish run_id seq status result now db = (
    ok tt,
    record db {
      steps =
          update (is_step run_id seq)
            (λ row. record row { status = status; result = some result; finished_at = some now })
            db.steps;
    },
  )

  unfoldable pub complete_step : Str → ℕ → Value → ℤ → Op (Unit {0})
  unfolding finish
  complete_step run_id seq result now = finish run_id seq (lit "completed") (write_value result) now

  unfoldable pub fail_step : Str → ℕ → Str → ℤ → Op (Unit {0})
  unfolding finish
  fail_step run_id seq error now = finish run_id seq (lit "failed") (write_error error) now

  unfoldable pub is_part : Str → ℕ → PartialEntry → Bool
  is_part run_id seq row = str_eq row.run_id run_id && row.seq == seq

  -- SELECT COALESCE(MAX(ordinal), 0) FROM step_partials WHERE run_id = ?1 AND seq = ?2
  unfoldable pub max_ordinal : Str → ℕ → List PartialEntry → ℕ
  unfolding is_part
  max_ordinal run_id seq = highest (is_part run_id seq) (λ row. row.ordinal)

  -- The foreign key of `step_partials` names a row of `steps`.
  unfoldable pub insert_partial : PartialEntry → Tx ℕ
  unfolding is_part
  insert_partial row db =
      if any (is_step row.run_id row.seq) db.steps
      then elim (insert (λ r. is_part row.run_id row.seq r && r.ordinal == row.ordinal) row
          db.step_partials) [
            | ok partials ↦ ok (row.ordinal, record db { step_partials = partials })
            | err e ↦ err e
          ]
      else err constraint

  unfoldable pub append_step_partial : Str → ℕ → Str → Value → ℤ → Op ℕ
  append_step_partial run_id seq kind payload now = transaction λ db.
      insert_partial
        (record {
          run_id = run_id;
          seq = seq;
          ordinal = suc (max_ordinal run_id seq db.step_partials);
          kind = kind;
          payload = write_value payload;
          created_at = now;
        })
        db

  pub record StepRow : Type 0 where
    pub seq : ℕ
    pub kind : Str
    pub status : Str
    pub request : Value
    pub result : Option Value
    pub tool_name : Option Str
    pub tool_use_id : Option Str
    pub attempt : ℤ

  unfoldable pub read_result : Option Text → Result (Option Value)
  read_result none = ok none
  read_result (some t) = do v ← or_fail (read_value t) malformed; ok (some v)

  unfoldable pub read_step : StepEntry → Result StepRow
  unfolding read_result
  read_step row = do
    request ← or_fail (read_value row.request) malformed
    result ← read_result row.result
    ok (record {
      seq = row.seq;
      kind = row.kind;
      status = row.status;
      request = request;
      result = result;
      tool_name = row.tool_name;
      tool_use_id = row.tool_use_id;
      attempt = row.attempt;
    })

  unfoldable pub read_steps : List StepEntry → Result (List StepRow)
  unfolding read_step
  read_steps [] = ok []
  read_steps (row ∷ rows) = do ok ((← read_step row) ∷ (← read_steps rows))

  -- SELECT … FROM steps WHERE run_id = ?1 ORDER BY seq, then the parse of each row
  unfoldable pub steps : Db → Str → Result (List StepRow)
  unfolding read_steps
  steps db run_id =
      read_steps
        (sort_by (λ a b. leb a.seq b.seq) (select (λ row. str_eq row.run_id run_id) db.steps))

  pub record StepPartialRow : Type 0 where
    pub seq : ℕ
    pub ordinal : ℕ
    pub kind : Str
    pub payload : Value
    pub created_at : ℤ

  unfoldable pub read_partials : List PartialEntry → Result (List StepPartialRow)
  read_partials [] = ok []
  read_partials (row ∷ rows) = do
    payload ← or_fail (read_value row.payload) malformed
    rest ← read_partials rows
    ok (
        record {
          seq = row.seq;
          ordinal = row.ordinal;
          kind = row.kind;
          payload = payload;
          created_at = row.created_at;
        }
        ∷ rest)

  -- SELECT … FROM step_partials WHERE run_id = ?1 AND seq = ?2 ORDER BY ordinal
  unfoldable pub step_partials : Db → Str → ℕ → Result (List StepPartialRow)
  unfolding read_partials
  step_partials db run_id seq =
      read_partials
        (sort_by (λ a b. leb a.ordinal b.ordinal) (select (is_part run_id seq) db.step_partials))
