-- ===== src/Audit/Appended.antt =====
-- crates/beater-journal/src/decision_audit.rs: what an append reads, and that it keeps the events until it adds one.
use temp_js.Prelude.{
  ◌≡◌, sym, ap, ◌∙◌, subst, Str, ℤ, Option, none, some, List, find, select, length, ltb, pos, ◌&&◌,
  str_eq, eq_ℤ, succ_i64,
}
use temp_js.Result.{ensure, Result, ok, err}
use temp_js.Journal.Model.{GoalScope}
use temp_js.Journal.Serde.{Serde}
use temp_js.Journal.Store.{insert, scope_eq}
use temp_js.Journal.Runs.{gate_goal_run_in_tx, is_goal}
use temp_js.Journal.Validate.{validate_goal}
use temp_js.Audit.Package.{DecisionAuditProjectionV1}
use temp_js.Audit.Canonical.{AuditFormats, canonical_bytes, digest}
use temp_js.Audit.Tables.{
  AuditEntry, EventEntry, AuditDb, is_decision, of_decision, lift, query, on_journal,
}
use temp_js.Audit.Event.{verify_recorded_decision_binding}
use temp_js.Audit.Reading.{recorded_binding, read_decision_projection_in_tx}
use temp_js.Audit.Appending.{continue_or_begin}
use temp_js.Audit.Continuing.{
  Append, Bound, gate_binding, body_goal, current_decision_binding, replay, replay_or_next,
  continue_decision, insert_audit, begin_decision, with_audits, new_audit, max_decisions_per_scope,
}
use temp_js.Audit.Flows.{
  Kept, Kept-bind, Kept-pure, Kept-lift, Kept-query, Kept-on_journal, tx_bind_sound, query_sound,
}

module _ ⦃serde : Serde⦄ (formats : AuditFormats) where
  -- The answer of an earlier request is what is read now.
  abbrev pub Reads : GoalScope → Str → DecisionAuditProjectionV1 → AuditDb → Type 0
  Reads scope decision_id projection db =
      read_decision_projection_in_tx formats db scope decision_id ≡ ok projection

  abbrev pub ReadsIfAny : GoalScope → Str → Option DecisionAuditProjectionV1 → AuditDb → Type 0
  ReadsIfAny scope decision_id none db = Unit
  ReadsIfAny scope decision_id (some projection) db = Reads scope decision_id projection db

  pub Kept-current_decision_binding :
      (run_id : Str) (now : ℤ) → Kept (current_decision_binding formats run_id now)
  unfolding current_decision_binding
  Kept-current_decision_binding run_id now =
      Kept-bind (on_journal (gate_goal_run_in_tx run_id now)) _ (Kept-on_journal _) λ gate.
        Kept-bind (lift (gate_binding formats gate)) _ (Kept-lift _) λ binding.
          Kept-bind
            (query (λ db.
              body_goal formats (find (is_goal binding.scope binding.goal_id) db.journal.goals)))
            _ (Kept-query _)
            λ goal. Kept-bind (lift (validate_goal goal)) _ (Kept-lift _) λ _.
              Kept-bind
                (lift (
                  ensure
                    (scope_eq goal.scope binding.scope
                      && str_eq goal.id binding.goal_id
                      && eq_ℤ goal.revision binding.goal_revision)
                    "bound goal changed"))
                _ (Kept-lift _)
                λ _.
                  Kept-bind (lift (canonical_bytes formats (formats.goal_value goal))) _
                    (Kept-lift _) λ body. Kept-pure (binding, digest formats body, body)

  module _ (request : Append) where
    abbrev pub id : Str
    id = request.decision_package.decision_id

    replay_lem :
        (scope : GoalScope) (row : EventEntry) (db after : AuditDb)
        (o : Option DecisionAuditProjectionV1)
        → replay formats request scope row db ≡ ok (o, after)
        → ReadsIfAny scope id o after × (after.decision_audit_events ≡ db.decision_audit_events)
    unfolding replay
    replay_lem scope row db after o e =
        let same_request =
          ensure (str_eq row.request_digest request.request_digest)
            "decision request id replay has different content" in
        let read = λ (x : AuditDb). read_decision_projection_in_tx formats x scope id in
        let (_, mid, first, e1) = tx_bind_sound (lift same_request) _ db after o e in
        let (projection, left, answered, e2) = tx_bind_sound (query read) _ mid after o e1 in
        let found = query_sound read mid left projection answered in
        let kept = Kept-query read mid left projection answered in
        let here : some projection ≡ o = cc e2 in
        let still : left ≡ after = cc e2 in
        (
          subst (λ x. ReadsIfAny scope id x after) here
              (subst (λ x. Reads scope id projection x) still found),
          ap (λ x. x.decision_audit_events) (sym still)
              ∙ kept
              ∙ Kept-lift same_request db mid _ first,
        )

    replay_or_next_lem :
        (scope : GoalScope) (audit : AuditEntry) (found : Option EventEntry) (db after : AuditDb)
        (o : Option DecisionAuditProjectionV1)
        → replay_or_next formats request scope audit found db ≡ ok (o, after)
        → ReadsIfAny scope id o after × (after.decision_audit_events ≡ db.decision_audit_events)
    unfolding replay_or_next
    replay_or_next_lem scope audit (some row) db after o e = replay_lem scope row db after o e
    replay_or_next_lem scope audit none db after o e =
        let next =
          ensure
            (eq_ℤ request.expected_revision audit.current_revision
              && eq_ℤ request.decision_package.revision (succ_i64 audit.current_revision))
            "decision revision conflict" in
        let (_, mid, first, e1) = tx_bind_sound (lift next) _ db after o e in
        let here : none ≡ o = cc e1 in
        let still : mid ≡ after = cc e1 in
        (
          subst (λ x. ReadsIfAny scope id x after) here tt,
          ap (λ x. x.decision_audit_events) (sym still) ∙ Kept-lift next db mid _ first,
        )

    continue_decision_lem :
        (bound : Bound) (audit : AuditEntry) (db after : AuditDb)
        (o : Option DecisionAuditProjectionV1)
        → continue_decision formats request bound audit db ≡ ok (o, after)
        → ReadsIfAny bound.0.scope id o after
          × (after.decision_audit_events ≡ db.decision_audit_events)
    unfolding continue_decision
    continue_decision_lem (binding, goal_digest, goal_body) audit db after o e =
        let continuous =
          ensure
            (str_eq audit.run_id request.run_id
              && str_eq audit.goal_id binding.goal_id
              && eq_ℤ audit.goal_revision binding.goal_revision
              && str_eq audit.goal_digest goal_digest)
            "decision audit continuity binding mismatch" in
        let recorded =
          verify_recorded_decision_binding formats (recorded_binding binding.scope id audit) in
        let lookup = λ (x : AuditDb).
          find (λ row. of_decision binding.scope id row && str_eq row.request_id request.request_id)
            x.decision_audit_events in
        let (_, m1, first, e1) = tx_bind_sound (lift continuous) _ db after o e in
        let (_, m2, second, e2) = tx_bind_sound (lift recorded) _ m1 after o e1 in
        let (reads, kept) = replay_or_next_lem binding.scope audit (lookup m2) m2 after o e2 in
        (reads, kept ∙ Kept-lift recorded m1 m2 _ second ∙ Kept-lift continuous db m1 _ first)

    inserted :
        (row : AuditEntry) (rows : Result (List AuditEntry)) (db after : AuditDb) (u : Unit {0})
        → with_audits formats db rows ≡ ok (u, after)
        → after.decision_audit_events ≡ db.decision_audit_events
    inserted row (ok rows) db after u e =
        let same : record db { decision_audits = rows } ≡ after = cc e in
        ap (λ x. x.decision_audit_events) (sym same)
    inserted row (err error) db after u e = absurd (cc e)

    Kept-insert_audit : (row : AuditEntry) → Kept (insert_audit formats row)
    unfolding insert_audit
    Kept-insert_audit row db after u e =
        inserted row (insert (is_decision row.scope row.decision_id) row db.decision_audits) db
          after u e

    begin_decision_lem :
        (bound : Bound) (db after : AuditDb) (o : Option DecisionAuditProjectionV1)
        → begin_decision formats request bound db ≡ ok (o, after)
        → ReadsIfAny bound.0.scope id o after
          × (after.decision_audit_events ≡ db.decision_audit_events)
    unfolding begin_decision
    begin_decision_lem (binding, goal_digest, goal_body) db after o e =
        let first_revision =
          ensure
            (eq_ℤ request.expected_revision (pos 0)
              && eq_ℤ request.decision_package.revision (pos 1))
            "first decision revision must be one" in
        let counted = λ (x : AuditDb).
          length (select (λ row. scope_eq row.scope binding.scope) x.decision_audits) in
        let row = new_audit formats request (binding, goal_digest, goal_body) in
        let (_, m1, first, e1) = tx_bind_sound (lift first_revision) _ db after o e in
        let room =
          ensure (ltb (counted m1) max_decisions_per_scope) "too many decisions in scope" in
        let (_, m3, third, e3) = tx_bind_sound (lift room) _ m1 after o e1 in
        let (_, m4, fourth, e4) = tx_bind_sound (insert_audit formats row) _ m3 after o e3 in
        let here : none ≡ o = cc e4 in
        let still : m4 ≡ after = cc e4 in
        (
          subst (λ x. ReadsIfAny binding.scope id x after) here tt,
          ap (λ x. x.decision_audit_events) (sym still)
              ∙ Kept-insert_audit row m3 m4 _ fourth
              ∙ Kept-lift room m1 m3 _ third
              ∙ Kept-lift first_revision db m1 _ first,
        )

    pub continue_or_begin_lem :
        (bound : Bound) (existing : Option AuditEntry) (db after : AuditDb)
        (o : Option DecisionAuditProjectionV1)
        → continue_or_begin formats request bound existing db ≡ ok (o, after)
        → ReadsIfAny bound.0.scope id o after
          × (after.decision_audit_events ≡ db.decision_audit_events)
    unfolding continue_or_begin
    continue_or_begin_lem bound (some audit) db after o e =
        continue_decision_lem bound audit db after o e
    continue_or_begin_lem bound none db after o e = begin_decision_lem bound db after o e
