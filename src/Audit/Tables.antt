-- ===== src/Audit/Tables.antt =====
-- crates/beater-journal/src/decision_audit.rs: the tables of `initialize_decision_audit` beside those of
-- the journal, and transactions on both.
use temp_js.Prelude.{ℕ, Str, ℤ, Bool, ◌&&◌, ◌||◌, Option, List, ◌==◌, eq_ℤ, str_eq}
use temp_js.Result.{Result, ok, err}
use temp_js.Journal.Model.{GoalScope}
use temp_js.Journal.Serde.{Serde}
use temp_js.Journal.Store
use temp_js.Journal.Store.{Db, scope_eq}

pub record AuditEntry : Type 0 where
  pub scope : GoalScope
  pub decision_id : Str
  pub run_id : Str
  pub goal_id : Str
  pub goal_revision : ℤ
  pub goal_digest : Str
  pub goal_body : Str
  pub current_revision : ℤ
  pub created_at : ℤ

pub record EventEntry : Type 0 where
  pub scope : GoalScope
  pub decision_id : Str
  pub sequence : ℕ
  pub revision : ℤ
  pub request_id : Str
  pub request_digest : Str
  pub package_body : Str
  pub package_digest : Str
  pub predecessor_event_digest : Option Str
  pub event_digest : Str
  pub created_at : ℤ

unfoldable pub is_decision : GoalScope → Str → AuditEntry → Bool
is_decision scope decision_id row = scope_eq row.scope scope && str_eq row.decision_id decision_id

unfoldable pub of_decision : GoalScope → Str → EventEntry → Bool
of_decision scope decision_id row = scope_eq row.scope scope && str_eq row.decision_id decision_id

-- The primary key and the two UNIQUE constraints of the events.
unfoldable pub clashes : EventEntry → EventEntry → Bool
unfolding of_decision
clashes new row =
    of_decision new.scope new.decision_id row
    && (row.sequence == new.sequence
        || eq_ℤ row.revision new.revision
        || str_eq row.request_id new.request_id)

module _ ⦃serde : Serde⦄ where
  -- The database with the tables of the audit, which are created when they are missing.
  pub record AuditDb : Type 0 where
    pub journal : Db
    pub decision_audits : List AuditEntry
    pub decision_audit_events : List EventEntry

  abbrev pub AuditTx : Type 0 → Type 0
  AuditTx A = AuditDb → Result (A × AuditDb)

  abbrev pub AuditOp : Type 0 → Type 0
  AuditOp A = AuditDb → Result A × AuditDb

  abbrev pub close : {A : Type 0} → AuditDb → Result (A × AuditDb) → Result A × AuditDb
  close db (ok (a, after)) = (ok a, after)
  close db (err e) = (err e, db)

  -- `unchecked_transaction` to `commit`; an error abandons what was written.
  unfoldable pub transaction : {A : Type 0} → AuditTx A → AuditOp A
  transaction body db = close db (body db)

  abbrev pub answer : {A : Type 0} → AuditDb → Result A → Result (A × AuditDb)
  answer db (ok a) = ok (a, db)
  answer db (err e) = err e

  abbrev pub lift : {A : Type 0} → Result A → AuditTx A
  lift r db = answer db r

  abbrev pub query : {A : Type 0} → (AuditDb → Result A) → AuditTx A
  query f db = answer db (f db)

  abbrev pub follow : {A B : Type 0} → (A → AuditTx B) → Result (A × AuditDb) → Result (B × AuditDb)
  follow f (ok (a, after)) = f a after
  follow f (err e) = err e

  infixl 5 ◌>>=◌ ◌>>◌
  abbrev pub ◌>>=◌ : {A B : Type 0} → AuditTx A → (A → AuditTx B) → AuditTx B
  ◌>>=◌ m f db = follow f (m db)

  abbrev pub ◌>>◌ : {B : Type 0} → AuditTx (Unit {0}) → AuditTx B → AuditTx B
  m >> k = m >>= λ _. k

  abbrev pub pure : {A : Type 0} → A → AuditTx A
  pure a db = ok (a, db)

  abbrev pub gets : {A : Type 0} → (AuditDb → A) → AuditTx A
  gets f db = ok (f db, db)

  -- A transaction of the journal's own, in the same one.
  abbrev pub with_journal : {A : Type 0} → AuditDb → Result (A × Db) → Result (A × AuditDb)
  with_journal db (ok (a, after)) = ok (a, record db { journal = after })
  with_journal db (err e) = err e

  abbrev pub on_journal : {A : Type 0} → Store.Tx A → AuditTx A
  on_journal m db = with_journal db (m db.journal)
