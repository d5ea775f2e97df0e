-- ===== src/Audit/AppendOnly.antt =====
-- crates/beater-journal/src/decision_audit.rs: an append answers what is read next, and only adds.
use temp_js.Prelude.{
  ◌≡◌, sym, ap, ◌∙◌, subst, subst₂, ◌⊎◌, Str, ℤ, pos, ◌&&◌, within, List, [], ◌∷◌, ◌++◌,
}
use temp_js.Result.{ok, ensure}
use temp_js.Journal.Serde.{Serde}
use temp_js.Journal.Validate.{valid_identifier, max_revision}
use temp_js.Audit.Package.{DecisionPackageV1, DecisionAuditProjectionV1}
use temp_js.Audit.Canonical.{AuditFormats, canonical_bytes}
use temp_js.Audit.Checks.{validate_package}
use temp_js.Audit.Event.{digest_of, request_value}
use temp_js.Audit.Tables.{EventEntry, AuditDb, lift, ◌>>=◌}
use temp_js.Audit.Reading.{read_decision_projection_in_tx}
use temp_js.Audit.Appending.{append_in_tx, prepare_append, append_decision_package}
use temp_js.Audit.Continuing.{Append}
use temp_js.Audit.Chain.{read_decision_projection_sound}
use temp_js.Audit.Growth.{append_in_tx_lem}
use temp_js.Audit.Flows.{Kept-lift, tx_bind_sound, transaction_sound}

module _ ⦃serde : Serde⦄ (formats : AuditFormats) where
  prepare_append_sound :
      (run_id : Str) (expected_revision : ℤ) (request_id : Str) (pack : DecisionPackageV1) (now : ℤ)
      (db mid : AuditDb) (request : Append)
      → prepare_append formats run_id expected_revision request_id pack now db ≡ ok (request, mid)
      → (request.decision_package ≡ pack)
        × (request.request_id ≡ request_id)
        × (mid.decision_audit_events ≡ db.decision_audit_events)
  unfolding prepare_append
  prepare_append_sound run_id expected_revision request_id pack now db mid request e =
      let named =
        ensure (valid_identifier run_id && valid_identifier request_id)
          "invalid decision append identity" in
      let bounded =
        ensure (within (pos 0) (pos max_revision) expected_revision)
          "invalid expected decision revision" in
      let valid = validate_package formats pack in
      let written = canonical_bytes formats (formats.package_value pack) in
      let digested =
        digest_of formats (request_value formats run_id expected_revision request_id pack) in
      let (_, m1, first, e1) = tx_bind_sound (lift named) _ db mid request e in
      let (_, m2, second, e2) = tx_bind_sound (lift bounded) _ m1 mid request e1 in
      let (_, m3, third, e3) = tx_bind_sound (lift valid) _ m2 mid request e2 in
      let (bytes, m4, fourth, e4) = tx_bind_sound (lift written) _ m3 mid request e3 in
      let (found, m5, fifth, e5) = tx_bind_sound (lift digested) _ m4 mid request e4 in
      let made : record {
        run_id = run_id;
        expected_revision = expected_revision;
        request_id = request_id;
        decision_package = pack;
        package_bytes = bytes;
        request_digest = found;
        now = now;
      }
          ≡ request =
        cc e5 in
      let still : m5 ≡ mid = cc e5 in
      (
        ap (λ r. r.decision_package) (sym made),
        ap (λ r. r.request_id) (sym made),
        ap (λ x. x.decision_audit_events) (sym still)
            ∙ Kept-lift digested m4 m5 found fifth
            ∙ Kept-lift written m3 m4 bytes fourth
            ∙ Kept-lift valid m2 m3 _ third
            ∙ Kept-lift bounded m1 m2 _ second
            ∙ Kept-lift named db m1 _ first,
      )

  -- The events that an append of `request_id` to a decision may leave: those before, or one more.
  abbrev pub Appends : Str → Str → List EventEntry → List EventEntry → Type 0
  Appends decision_id request_id rows rows' =
      (rows' ≡ rows)
      ⊎ ((row : EventEntry) × (row.decision_id ≡ decision_id)
          × (row.request_id ≡ request_id)
          × (rows' ≡ rows ++ row ∷ []))

  -- An append that succeeds, on any tables, answers what a reader of the decision gets next, and the
  -- history only grows: every event that was recorded is still there, unchanged and in its place, and
  -- at most one is new, an event of this decision under this request.
  pub append_decision_package_sound :
      (run_id : Str) (expected_revision : ℤ) (request_id : Str) (pack : DecisionPackageV1) (now : ℤ)
      (db after : AuditDb) (projection : DecisionAuditProjectionV1)
      → append_decision_package formats run_id expected_revision request_id pack now db
        ≡ (ok projection, after)
      → (read_decision_projection_in_tx formats after projection.scope pack.decision_id
          ≡ ok projection)
        × Appends pack.decision_id request_id db.decision_audit_events after.decision_audit_events
  unfolding append_decision_package
  append_decision_package_sound run_id expected_revision request_id pack now db after projection e =
      let prepare = prepare_append formats run_id expected_revision request_id pack now in
      let e' = transaction_sound (prepare >>= append_in_tx formats) db after projection e in
      let (request, mid, prepared, e1) =
        tx_bind_sound prepare (append_in_tx formats) db after projection e' in
      let (same, same_id, kept) =
        prepare_append_sound run_id expected_revision request_id pack now db mid request prepared in
      let (scope, reads, events) = append_in_tx_lem formats request mid after projection e1 in
      let scoped =
        read_decision_projection_sound formats after scope request.decision_package.decision_id
          projection reads in
      let read : read_decision_projection_in_tx formats after projection.scope pack.decision_id
          ≡ ok projection =
        subst₂ (λ s p. read_decision_projection_in_tx formats after s p.decision_id ≡ ok projection)
          (sym scoped.scoped) same reads in
      let named : Appends pack.decision_id request_id mid.decision_audit_events
          after.decision_audit_events =
        subst₂
          (λ p r. Appends p.decision_id r mid.decision_audit_events after.decision_audit_events)
          same same_id events in
      (
        read,
        subst (λ rows. Appends pack.decision_id request_id rows after.decision_audit_events) kept
            named,
      )
