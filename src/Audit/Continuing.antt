-- ===== src/Audit/Continuing.antt =====
-- crates/beater-journal/src/decision_audit.rs: the current binding of a run, and the decision that it
-- continues or begins.
use temp_js.Prelude.{
  ℕ, Str, ℤ, pos, succ_i64, eq_ℤ, ◌&&◌, Option, none, some, List, find, select, length, ltb, str_eq,
}
use temp_js.Result.{
  Result, ok, err, refused, goal_run_needs_review, malformed, conversion, ensure, or_fail,
}
use temp_js.Journal.Model.{
  GoalScope, Goal, GoalRunBinding, GoalRunGate, unbound, current, needs_review,
}
use temp_js.Journal.Serde.{Serde}
use temp_js.Journal.Store.{insert, text, scope_eq, GoalEntry}
use temp_js.Journal.Runs.{is_goal, gate_goal_run_in_tx}
use temp_js.Journal.Validate.{validate_goal}
use temp_js.Audit.Package.{DecisionPackageV1, DecisionAuditProjectionV1}
use temp_js.Audit.Canonical.{AuditFormats, canonical_bytes, digest}
use temp_js.Audit.Event.{verify_recorded_decision_binding}
use temp_js.Audit.Tables.{
  AuditEntry, EventEntry, AuditDb, AuditTx, lift, ◌>>=◌, ◌>>◌, pure, gets, query, on_journal,
  is_decision, of_decision,
}
use temp_js.Audit.Reading.{recorded_binding, read_decision_projection_in_tx}

abbrev pub max_decisions_per_scope : ℕ
max_decisions_per_scope = 10000

-- What an append was asked for, and the digests of it.
pub record Append : Type 0 where
  pub run_id : Str
  pub expected_revision : ℤ
  pub request_id : Str
  pub decision_package : DecisionPackageV1
  pub package_bytes : Str
  pub request_digest : Str
  pub now : ℤ

-- A binding, with the digest and the bytes of its goal.
abbrev pub Bound : Type 0
Bound = GoalRunBinding × Str × Str

module _ ⦃serde : Serde⦄ (formats : AuditFormats) where
  open serde use {read_goal}

  abbrev pub gate_binding : GoalRunGate → Result GoalRunBinding
  gate_binding (current binding) = ok binding
  gate_binding unbound = err (refused "decision audit requires a current goal-bound run")
  gate_binding needs_review = err goal_run_needs_review

  -- SELECT body FROM goals …, parsed.
  abbrev pub body_goal : Option GoalEntry → Result Goal
  body_goal none = err (refused "Query returned no rows")
  body_goal (some row) = elim row.body [
    | text body ↦ or_fail (read_goal body) malformed
    | _ ↦ err conversion
  ]

  unfoldable pub current_decision_binding : Str → ℤ → AuditTx Bound
  current_decision_binding run_id now = do
    gate ← on_journal (gate_goal_run_in_tx run_id now)
    binding ← lift (gate_binding gate)
    goal ← query (λ db. body_goal (find (is_goal binding.scope binding.goal_id) db.journal.goals))
    lift (validate_goal goal)
    lift (
        ensure
          (scope_eq goal.scope binding.scope
            && str_eq goal.id binding.goal_id
            && eq_ℤ goal.revision binding.goal_revision)
          "bound goal changed")
    body ← lift (canonical_bytes formats (formats.goal_value goal))
    pure (binding, digest formats body, body)

  -- The request was answered before.
  unfoldable pub replay :
      Append → GoalScope → EventEntry → AuditTx (Option DecisionAuditProjectionV1)
  replay request scope row = do
    lift (
        ensure (str_eq row.request_digest request.request_digest)
          "decision request id replay has different content")
    projection ←
        query (λ db.
          read_decision_projection_in_tx formats db scope request.decision_package.decision_id)
    pure (some projection)

  -- A replay, or the next revision.
  unfoldable pub replay_or_next :
      Append
      → GoalScope
      → AuditEntry
      → Option EventEntry
      → AuditTx (Option DecisionAuditProjectionV1)
  unfolding replay
  replay_or_next request scope audit (some row) = replay request scope row
  replay_or_next request scope audit none = do
    lift (
        ensure
          (eq_ℤ request.expected_revision audit.current_revision
            && eq_ℤ request.decision_package.revision (succ_i64 audit.current_revision))
          "decision revision conflict")
    pure none

  -- The decision exists: it goes on under the same run and goal only.
  unfoldable pub continue_decision :
      Append → Bound → AuditEntry → AuditTx (Option DecisionAuditProjectionV1)
  unfolding replay_or_next
  continue_decision request (binding, goal_digest, goal_body) audit = do
    lift (
        ensure
          (str_eq audit.run_id request.run_id
            && str_eq audit.goal_id binding.goal_id
            && eq_ℤ audit.goal_revision binding.goal_revision
            && str_eq audit.goal_digest goal_digest)
          "decision audit continuity binding mismatch")
    lift (
        verify_recorded_decision_binding formats
          (recorded_binding binding.scope request.decision_package.decision_id audit))
    found ← gets (λ db.
        find
          (λ row.
            of_decision binding.scope request.decision_package.decision_id row
            && str_eq row.request_id request.request_id)
          db.decision_audit_events)
    replay_or_next request binding.scope audit found

  abbrev pub with_audits : AuditDb → Result (List AuditEntry) → Result (Unit {0} × AuditDb)
  with_audits db (ok rows) = ok (tt, record db { decision_audits = rows })
  with_audits db (err e) = err e

  unfoldable pub insert_audit : AuditEntry → AuditTx (Unit {0})
  insert_audit row db =
      with_audits db (insert (is_decision row.scope row.decision_id) row db.decision_audits)

  abbrev pub new_audit : Append → Bound → AuditEntry
  new_audit request (binding, goal_digest, goal_body) = record {
    scope = binding.scope;
    decision_id = request.decision_package.decision_id;
    run_id = request.run_id;
    goal_id = binding.goal_id;
    goal_revision = binding.goal_revision;
    goal_digest = goal_digest;
    goal_body = goal_body;
    current_revision = pos 0;
    created_at = request.now;
  }

  -- The first revision of a decision.
  unfoldable pub begin_decision : Append → Bound → AuditTx (Option DecisionAuditProjectionV1)
  unfolding insert_audit
  begin_decision request (binding, goal_digest, goal_body) = do
    lift (
        ensure
          (eq_ℤ request.expected_revision (pos 0) && eq_ℤ request.decision_package.revision (pos 1))
          "first decision revision must be one")
    count ←
        gets (λ db. length (select (λ row. scope_eq row.scope binding.scope) db.decision_audits))
    lift (ensure (ltb count max_decisions_per_scope) "too many decisions in scope")
    insert_audit (new_audit request (binding, goal_digest, goal_body))
    pure none
