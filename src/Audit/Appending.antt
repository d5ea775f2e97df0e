-- ===== src/Audit/Appending.antt =====
-- crates/beater-journal/src/decision_audit.rs: decisions that are appended under a current goal, and
-- read under one.
use temp_js.Prelude.{
  ℕ, suc, Str, ℤ, pos, eq_ℤ, within, ◌&&◌, Option, none, some, List, [], ◌∷◌, find, update, highest,
  str_eq,
}
use temp_js.Result.{Result, ok, err, ensure}
use temp_js.Journal.Model.{GoalScope}
use temp_js.Journal.Serde.{Serde}
use temp_js.Journal.Store.{insert}
use temp_js.Journal.Validate.{valid_identifier, valid_revision, max_revision}
use temp_js.Audit.Package.{DecisionPackageV1, DecisionAuditEventV1, DecisionAuditProjectionV1}
use temp_js.Audit.Canonical.{AuditFormats, canonical_bytes, digest}
use temp_js.Audit.Checks.{validate_package}
use temp_js.Audit.Event.{event_digest, digest_of, request_value}
use temp_js.Audit.Tables.{
  AuditEntry, EventEntry, AuditDb, AuditTx, AuditOp, transaction, lift, ◌>>=◌, ◌>>◌, pure, gets,
  query, is_decision, of_decision, clashes,
}
use temp_js.Audit.Reading.{event_rows, read_decision_projection_in_tx}
use temp_js.Audit.Continuing.{
  Append, Bound, current_decision_binding, continue_decision, begin_decision,
}

-- The digest of the row with the highest sequence, of rows in the order of their sequences.
unfoldable pub last_digest : List EventEntry → Option Str
last_digest [] = none
last_digest (row ∷ []) = some row.event_digest
last_digest (row ∷ next ∷ rest) = last_digest (next ∷ rest)

module _ ⦃serde : Serde⦄ (formats : AuditFormats) where
  abbrev pub with_events : AuditDb → Result (List EventEntry) → Result (Unit {0} × AuditDb)
  with_events db (ok rows) = ok (tt, record db { decision_audit_events = rows })
  with_events db (err e) = err e

  unfoldable pub insert_event : EventEntry → AuditTx (Unit {0})
  insert_event row db = with_events db (insert (clashes row) row db.decision_audit_events)

  unfoldable pub set_revision : GoalScope → Str → ℤ → AuditTx (Unit {0})
  set_revision scope decision_id revision db = ok (
    tt,
    record db {
      decision_audits =
          update (is_decision scope decision_id) (λ row. record row { current_revision = revision })
            db.decision_audits;
    },
  )

  -- The row of the event without its digest.
  unfoldable pub new_event : Append → GoalScope → ℕ → Option Str → EventEntry
  new_event request scope sequence predecessor = record {
    scope = scope;
    decision_id = request.decision_package.decision_id;
    sequence = sequence;
    revision = request.decision_package.revision;
    request_id = request.request_id;
    request_digest = request.request_digest;
    package_body = request.package_bytes;
    package_digest = digest formats request.package_bytes;
    predecessor_event_digest = predecessor;
    event_digest = [];
    created_at = request.now;
  }

  -- The event that the digest is of.
  unfoldable pub undigested : Append → Bound → EventEntry → DecisionAuditEventV1
  undigested request (binding, goal_digest, goal_body) row = record {
    scope = binding.scope;
    run_id = request.run_id;
    goal_id = binding.goal_id;
    goal_revision = binding.goal_revision;
    goal_digest = goal_digest;
    sequence = row.sequence;
    decision_package = request.decision_package;
    request_id = row.request_id;
    request_digest = row.request_digest;
    package_digest = row.package_digest;
    event_digest = [];
    predecessor_event_digest = row.predecessor_event_digest;
    created_at = row.created_at;
  }

  unfoldable pub append_event : Append → Bound → AuditTx DecisionAuditProjectionV1
  unfolding last_digest new_event undigested insert_event set_revision
  append_event request (binding, goal_digest, goal_body) = do
    let decision_id = request.decision_package.decision_id
    predecessor ←
        gets (λ db. last_digest (event_rows binding.scope decision_id db.decision_audit_events))
    sequence ← gets (λ db. suc (
        highest (of_decision binding.scope decision_id) (λ row. row.sequence)
          db.decision_audit_events))
    let row = new_event request binding.scope sequence predecessor
    digested ←
        lift (event_digest formats (undigested request (binding, goal_digest, goal_body) row))
    insert_event (record row { event_digest = digested })
    set_revision binding.scope decision_id request.decision_package.revision
    query (λ db. read_decision_projection_in_tx formats db binding.scope decision_id)

  unfoldable pub continue_or_begin :
      Append → Bound → Option AuditEntry → AuditTx (Option DecisionAuditProjectionV1)
  unfolding continue_decision begin_decision
  continue_or_begin request bound (some audit) = continue_decision formats request bound audit
  continue_or_begin request bound none = begin_decision formats request bound

  unfoldable pub answer_or_append :
      Append → Bound → Option DecisionAuditProjectionV1 → AuditTx DecisionAuditProjectionV1
  unfolding append_event
  answer_or_append request bound (some projection) = pure projection
  answer_or_append request bound none = append_event request bound

  unfoldable pub append_in_tx : Append → AuditTx DecisionAuditProjectionV1
  unfolding current_decision_binding continue_or_begin answer_or_append
  append_in_tx request = do
    bound ← current_decision_binding formats request.run_id request.now
    existing ← gets (λ db.
        find (is_decision bound.0.scope request.decision_package.decision_id) db.decision_audits)
    replayed ← continue_or_begin request bound existing
    answer_or_append request bound replayed

  -- What is checked and computed before the transaction.
  unfoldable pub prepare_append : Str → ℤ → Str → DecisionPackageV1 → ℤ → AuditTx Append
  prepare_append run_id expected_revision request_id pack now = do
    lift (
        ensure (valid_identifier run_id && valid_identifier request_id)
          "invalid decision append identity")
    lift (
        ensure (within (pos 0) (pos max_revision) expected_revision)
          "invalid expected decision revision")
    lift (validate_package formats pack)
    package_bytes ← lift (canonical_bytes formats (formats.package_value pack))
    request_digest ←
        lift (digest_of formats (request_value formats run_id expected_revision request_id pack))
    pure (record {
      run_id = run_id;
      expected_revision = expected_revision;
      request_id = request_id;
      decision_package = pack;
      package_bytes = package_bytes;
      request_digest = request_digest;
      now = now;
    })

  unfoldable pub append_decision_package :
      Str → ℤ → Str → DecisionPackageV1 → ℤ → AuditOp DecisionAuditProjectionV1
  unfolding prepare_append append_in_tx
  append_decision_package run_id expected_revision request_id pack now =
      transaction (prepare_append run_id expected_revision request_id pack now >>= append_in_tx)

  unfoldable pub current_goal_run_decision_audit :
      Str → Str → ℤ → ℤ → AuditOp DecisionAuditProjectionV1
  unfolding current_decision_binding
  current_goal_run_decision_audit run_id decision_id expected_revision now = transaction (do
    lift (ensure (valid_identifier run_id) "invalid decision read run id")
    lift (ensure (valid_identifier decision_id) "invalid decision id")
    lift (ensure (valid_revision expected_revision) "invalid expected decision revision")
    bound ← current_decision_binding formats run_id now
    projection ← query (λ db. read_decision_projection_in_tx formats db bound.0.scope decision_id)
    lift (
        ensure
          (str_eq projection.run_id run_id
            && str_eq projection.goal_id bound.0.goal_id
            && eq_ℤ projection.goal_revision bound.0.goal_revision)
          "decision read is not bound to the current goal revision")
    lift (
        ensure (eq_ℤ projection.current_revision expected_revision)
          "decision read revision changed; exact historical replay is unavailable")
    pure projection)
