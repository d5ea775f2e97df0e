-- ===== src/Audit/Reading.antt =====
-- crates/beater-journal/src/decision_audit.rs: the history of a decision, read and checked.
use temp_js.Prelude.{
  ℕ, suc, Str, pos, eq_ℤ, Bool, true, false, ◌&&◌, Option, none, some, List, [], ◌∷◌, find, select,
  length, leb, ◌==◌, str_eq, sort_by,
}
use temp_js.Result.{Result, ok, refused, ensure, or_fail, ◌>>=◌, ◌>>◌}
use temp_js.Journal.Model.{GoalScope}
use temp_js.Journal.Serde.{Serde}
use temp_js.Journal.Validate.{validate_scope, valid_identifier, valid_revision}
use temp_js.Audit.Package.{
  DecisionPackageV1, DecisionAuditEventV1, DecisionAuditProjectionV1, RecordedDecisionBinding,
}
use temp_js.Audit.Canonical.{AuditFormats, canonical_bytes, digest}
use temp_js.Audit.Checks.{validate_package}
use temp_js.Audit.Event.{verify_decision_audit_event, verify_recorded_decision_binding}
use temp_js.Audit.Tables.{AuditEntry, EventEntry, AuditDb, is_decision, of_decision}

-- `PartialEq` of `Option<String>`
abbrev pub opt_eq : Option Str → Option Str → Bool
opt_eq none none = true
opt_eq (some a) (some b) = str_eq a b
opt_eq _ _ = false

-- `events.last()`
unfoldable pub last_event : List DecisionAuditEventV1 → Option DecisionAuditEventV1
last_event [] = none
last_event (event ∷ []) = some event
last_event (event ∷ next ∷ rest) = last_event (next ∷ rest)

unfoldable pub recorded_binding : GoalScope → Str → AuditEntry → RecordedDecisionBinding
recorded_binding scope decision_id row = record {
  scope = scope;
  decision_id = decision_id;
  run_id = row.run_id;
  goal_id = row.goal_id;
  goal_revision = row.goal_revision;
  goal_digest = row.goal_digest;
  goal_body = row.goal_body;
}

unfoldable pub event_of :
    GoalScope → AuditEntry → EventEntry → DecisionPackageV1 → DecisionAuditEventV1
event_of scope audit row pack = record {
  scope = scope;
  run_id = audit.run_id;
  goal_id = audit.goal_id;
  goal_revision = audit.goal_revision;
  goal_digest = audit.goal_digest;
  sequence = row.sequence;
  decision_package = pack;
  request_id = row.request_id;
  request_digest = row.request_digest;
  package_digest = row.package_digest;
  event_digest = row.event_digest;
  predecessor_event_digest = row.predecessor_event_digest;
  created_at = row.created_at;
}

-- SELECT … FROM decision_audit_events … ORDER BY sequence
unfoldable pub event_rows : GoalScope → Str → List EventEntry → List EventEntry
event_rows scope decision_id rows =
    sort_by (λ (a : EventEntry) (b : EventEntry). leb a.sequence b.sequence)
      (select (of_decision scope decision_id) rows)

unfoldable pub projection_of :
    GoalScope
    → Str
    → AuditEntry
    → List DecisionAuditEventV1
    → DecisionAuditEventV1
    → DecisionAuditProjectionV1
projection_of scope decision_id audit events last = record {
  scope = scope;
  run_id = audit.run_id;
  goal_id = audit.goal_id;
  goal_revision = audit.goal_revision;
  goal_digest = audit.goal_digest;
  decision_id = decision_id;
  current_revision = audit.current_revision;
  verification_ceiling = last.decision_package.verification_ceiling;
  execution_authority = last.decision_package.execution_authority;
  events = events;
}

module _ ⦃serde : Serde⦄ (formats : AuditFormats) where
  -- A row of the loop, under the number that is expected and the digest of the event before it.
  unfoldable pub read_event :
      GoalScope → Str → AuditEntry → ℕ → Option Str → EventEntry → Result DecisionAuditEventV1
  unfolding event_of
  read_event scope decision_id audit expected predecessor row = do
    ensure (row.sequence == expected && eq_ℤ row.revision (pos expected))
        "decision history is missing, duplicate, or gapped"
    ensure (opt_eq row.predecessor_event_digest predecessor) "decision predecessor link mismatch"
    ensure (str_eq (digest formats row.package_body) row.package_digest)
        "decision package digest mismatch"
    pack ←
        or_fail (formats.package_from_slice row.package_body) (refused "corrupt decision package")
    validate_package formats pack
    ensure (str_eq pack.decision_id decision_id && eq_ℤ pack.revision row.revision)
        "decision package identity mismatch"
    bytes ← canonical_bytes formats (formats.package_value pack)
    ensure (str_eq bytes row.package_body) "decision package is not canonical"
    verify_decision_audit_event formats (event_of scope audit row pack)
    ok (event_of scope audit row pack)

  -- The loop, from the number of the last event that was read.
  unfoldable pub read_events :
      GoalScope
      → Str
      → AuditEntry
      → ℕ
      → Option Str
      → List EventEntry
      → Result (List DecisionAuditEventV1)
  unfolding read_event
  read_events scope decision_id audit seen predecessor [] = ok []
  read_events scope decision_id audit seen predecessor (row ∷ rows) =
      read_event scope decision_id audit (suc seen) predecessor row >>= λ event.
      read_events scope decision_id audit (suc seen) (some event.event_digest) rows >>= λ events.
      ok (event ∷ events)

  unfoldable pub read_decision_projection_in_tx :
      AuditDb → GoalScope → Str → Result DecisionAuditProjectionV1
  unfolding recorded_binding read_events event_rows last_event projection_of
  read_decision_projection_in_tx db scope decision_id = do
    audit ←
        or_fail (find (is_decision scope decision_id) db.decision_audits)
          (refused "no decision in scope")
    verify_recorded_decision_binding formats (recorded_binding scope decision_id audit)
    ensure (valid_revision audit.current_revision) "corrupt decision revision"
    events ←
        read_events scope decision_id audit 0 none
          (event_rows scope decision_id db.decision_audit_events)
    ensure (eq_ℤ (pos (length events)) audit.current_revision)
        "decision history is missing, duplicate, or truncated"
    last ← or_fail (last_event events) (refused "empty decision history")
    ok (projection_of scope decision_id audit events last)

  unfoldable pub decision_audit : AuditDb → GoalScope → Str → Result DecisionAuditProjectionV1
  unfolding read_decision_projection_in_tx
  decision_audit db scope decision_id = do
    validate_scope scope
    ensure (valid_identifier decision_id) "invalid decision id"
    read_decision_projection_in_tx db scope decision_id
