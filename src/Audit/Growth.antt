-- ===== src/Audit/Growth.antt =====
-- crates/beater-journal/src/decision_audit.rs: the event that an append adds.
use temp_js.Prelude.{
  ◌≡◌, refl, sym, ap, ◌∙◌, subst, ◌⊎◌, inl, inr, Option, none, some, List, [], ◌∷◌, ◌++◌, any, find,
  subst₂, update, suc, highest, Bool, true, false, if◌then◌else◌,
}
use temp_js.Result.{ok, err, constraint}
use temp_js.Journal.Model.{GoalScope}
use temp_js.Journal.Serde.{Serde}
use temp_js.Journal.Store.{insert}
use temp_js.Audit.Package.{DecisionAuditProjectionV1}
use temp_js.Audit.Canonical.{AuditFormats}
use temp_js.Audit.Tables.{AuditEntry, EventEntry, AuditDb, clashes, is_decision, of_decision, lift}
use temp_js.Audit.Event.{event_digest}
use temp_js.Audit.Reading.{event_rows, read_decision_projection_in_tx}
use temp_js.Audit.Appending.{
  insert_event, set_revision, with_events, new_event, undigested, last_digest, append_event,
  continue_or_begin, answer_or_append, append_in_tx,
}
use temp_js.Audit.Continuing.{Append, Bound, current_decision_binding}
use temp_js.Audit.Flows.{Kept-lift, Kept-query, tx_bind_sound, query_sound}
use temp_js.Audit.Appended.{Reads, ReadsIfAny, Kept-current_decision_binding, continue_or_begin_lem}

module _ ⦃serde : Serde⦄ (formats : AuditFormats) where
  module _ (request : Append) where
    -- The events after: those before, or one more, of the decision that was asked for.
    abbrev pub OneMore : List EventEntry → List EventEntry → Type 0
    OneMore rows rows' =
        (rows' ≡ rows)
        ⊎ ((row : EventEntry) × (row.decision_id ≡ request.decision_package.decision_id)
            × (row.request_id ≡ request.request_id)
            × (rows' ≡ rows ++ row ∷ []))

    added :
        (row : EventEntry) (db after : AuditDb) (u : Unit {0}) (clash : Bool)
        → with_events formats db
            (if clash then err constraint else ok (db.decision_audit_events ++ row ∷ []))
          ≡ ok (u, after)
        → after.decision_audit_events ≡ db.decision_audit_events ++ row ∷ []
    added row db after u true e = absurd (cc e)
    added row db after u false e =
        let same : record db { decision_audit_events = db.decision_audit_events ++ row ∷ [] }
            ≡ after =
          cc e in
        ap (λ x. x.decision_audit_events) (sym same)

    insert_event_lem :
        (row : EventEntry) (db after : AuditDb) (u : Unit {0})
        → insert_event formats row db ≡ ok (u, after)
        → after.decision_audit_events ≡ db.decision_audit_events ++ row ∷ []
    unfolding insert_event insert
    insert_event_lem row db after u e =
        added row db after u (any (clashes row) db.decision_audit_events) e

    append_event_lem :
        (bound : Bound) (db after : AuditDb) (projection : DecisionAuditProjectionV1)
        → append_event formats request bound db ≡ ok (projection, after)
        → Reads formats bound.0.scope request.decision_package.decision_id projection after
          × OneMore db.decision_audit_events after.decision_audit_events
    unfolding append_event set_revision new_event
    append_event_lem (binding, goal_digest, goal_body) db after projection e =
        let sequence = suc (
          highest (of_decision binding.scope request.decision_package.decision_id)
            (λ (row : EventEntry). row.sequence) db.decision_audit_events) in
        let predecessor = last_digest (
          event_rows binding.scope request.decision_package.decision_id db.decision_audit_events) in
        let row = new_event formats request binding.scope sequence predecessor in
        let digested =
          event_digest formats (undigested formats request (binding, goal_digest, goal_body) row) in
        let read = λ (x : AuditDb).
          read_decision_projection_in_tx formats x binding.scope
            request.decision_package.decision_id in
        let (found, m1, first, e1) = tx_bind_sound (lift digested) _ db after projection e in
        let written : EventEntry = record row { event_digest = found } in
        let (_, m2, second, e2) =
          tx_bind_sound (insert_event formats written) _ m1 after projection e1 in
        let m3 : AuditDb = record m2 {
          decision_audits =
              update (is_decision binding.scope request.decision_package.decision_id)
                (λ (old : AuditEntry). record old {
                  current_revision = request.decision_package.revision;
                })
                m2.decision_audits;
        } in
        let kept = Kept-query read m3 after projection e2 in
        let one = insert_event_lem written m1 m2 _ second in
        (
          query_sound read m3 after projection e2,
          inr (
            written,
            refl,
            refl,
            kept ∙ one ∙ ap (λ rows. rows ++ written ∷ []) (Kept-lift digested db m1 found first),
          ),
        )

    answer_or_append_lem :
        (bound : Bound) (replayed : Option DecisionAuditProjectionV1) (db after : AuditDb)
        (projection : DecisionAuditProjectionV1)
        → ReadsIfAny formats bound.0.scope request.decision_package.decision_id replayed db
        → answer_or_append formats request bound replayed db ≡ ok (projection, after)
        → Reads formats bound.0.scope request.decision_package.decision_id projection after
          × OneMore db.decision_audit_events after.decision_audit_events
    unfolding answer_or_append
    answer_or_append_lem bound (some answer) db after projection reads e =
        let here : answer ≡ projection = cc e in
        let still : db ≡ after = cc e in
        (
          subst₂ (λ p x. Reads formats bound.0.scope request.decision_package.decision_id p x) here
              still reads,
          inl (ap (λ x. x.decision_audit_events) (sym still)),
        )
    answer_or_append_lem bound none db after projection reads e =
        append_event_lem bound db after projection e

    pub append_in_tx_lem :
        (db after : AuditDb) (projection : DecisionAuditProjectionV1)
        → append_in_tx formats request db ≡ ok (projection, after)
        → (scope : GoalScope) × Reads formats scope request.decision_package.decision_id projection
            after
          × OneMore db.decision_audit_events after.decision_audit_events
    unfolding append_in_tx
    append_in_tx_lem db after projection e =
        let (bound, m1, first, e1) =
          tx_bind_sound (current_decision_binding formats request.run_id request.now) _ db after
            projection e in
        let existing =
          find (is_decision bound.0.scope request.decision_package.decision_id)
            m1.decision_audits in
        let (replayed, m2, second, e2) =
          tx_bind_sound (continue_or_begin formats request bound existing) _ m1 after projection
            e1 in
        let (reads, kept) =
          continue_or_begin_lem formats request bound existing m1 m2 replayed second in
        let (answered, events) = answer_or_append_lem bound replayed m2 after projection reads e2 in
        let before =
          kept
          ∙ Kept-current_decision_binding formats request.run_id request.now db m1 bound first in
        (
          bound.0.scope,
          answered,
          subst (λ rows. OneMore rows after.decision_audit_events) before events,
        )
