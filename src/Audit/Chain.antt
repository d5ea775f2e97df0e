-- ===== src/Audit/Chain.antt =====
-- crates/beater-journal/src/decision_audit.rs: what a history that was read holds.
use temp_js.Prelude.{
  ℕ, suc, ◌<◌, ◌≡◌, refl, sym, ap, ◌∙◌, subst, Str, pos, eq_ℤ, eq_ℤ_iff, true, ◌&&◌, Option, none,
  some, List, [], ◌∷◌, find, length, ◌==◌, ==_iff, str_eq, str_eq_iff, arith,
}
use temp_js.Result.{ok, refused, ensure, or_fail, bind_sound, ensure_sound}
use temp_js.Journal.Model.{GoalScope}
use temp_js.Journal.Serde.{Serde}
use temp_js.Journal.Validate.{valid_revision}
use temp_js.Audit.Package.{DecisionPackageV1, DecisionAuditEventV1, DecisionAuditProjectionV1}
use temp_js.Audit.Canonical.{AuditFormats, canonical_bytes, digest}
use temp_js.Audit.Checks.{validate_package}
use temp_js.Audit.Event.{verify_decision_audit_event, verify_recorded_decision_binding}
use temp_js.Audit.Tables.{AuditEntry, EventEntry, AuditDb, is_decision}
use temp_js.Audit.Reading.{
  opt_eq, read_event, read_events, event_of, event_rows, last_event, projection_of,
  recorded_binding, read_decision_projection_in_tx,
}

opt_eq_sound : (a b : Option Str) → opt_eq a b ≡ true → a ≡ b
opt_eq_sound none none h = refl
opt_eq_sound none (some b) h = absurd (cc h)
opt_eq_sound (some a) none h = absurd (cc h)
opt_eq_sound (some a) (some b) h = ap some ((str_eq_iff a b).0 h)

module _ (formats : AuditFormats) where
  -- Events that are numbered from `n` on, each with the digest of the one before it and with digests
  -- that are recomputed from what it says.
  abbrev pub Chained : Str → ℕ → Option Str → List DecisionAuditEventV1 → Type 0
  Chained decision_id n previous [] = Unit
  Chained decision_id n previous (event ∷ events) =
      (event.sequence ≡ suc n)
      × (event.predecessor_event_digest ≡ previous)
      × (event.decision_package.decision_id ≡ decision_id)
      × (verify_decision_audit_event formats event ≡ ok tt)
      × Chained decision_id (suc n) (some event.event_digest) events

module _ ⦃serde : Serde⦄ (formats : AuditFormats) (scope : GoalScope) (decision_id : Str)
    (audit : AuditEntry) where
  -- The tests of a row that was read, and the event made of it.
  read_event_sound :
      (expected : ℕ) (previous : Option Str) (row : EventEntry) (event : DecisionAuditEventV1)
      → read_event formats scope decision_id audit expected previous row ≡ ok event
      → (pack : DecisionPackageV1) × (event_of scope audit row pack ≡ event)
        × (row.sequence ≡ expected)
        × (row.predecessor_event_digest ≡ previous)
        × (pack.decision_id ≡ decision_id)
        × (verify_decision_audit_event formats (event_of scope audit row pack) ≡ ok tt)
  unfolding read_event
  read_event_sound expected previous row event e =
      let (_, numbered, e1) =
        bind_sound (ensure (row.sequence == expected && eq_ℤ row.revision (pos expected)) _) _ event
          e in
      let (_, linked, e2) =
        bind_sound (ensure (opt_eq row.predecessor_event_digest previous) _) _ event e1 in
      let (_, digested, e3) =
        bind_sound (ensure (str_eq (digest formats row.package_body) row.package_digest) _) _ event
          e2 in
      let (pack, parsed, e4) =
        bind_sound
          (or_fail (formats.package_from_slice row.package_body)
            (refused "corrupt decision package"))
          _ event e3 in
      let (_, valid, e5) = bind_sound (validate_package formats pack) _ event e4 in
      let (_, identified, e6) =
        bind_sound
          (ensure (str_eq pack.decision_id decision_id && eq_ℤ pack.revision row.revision) _) _
          event e5 in
      let (bytes, written, e7) =
        bind_sound (canonical_bytes formats (formats.package_value pack)) _ event e6 in
      let (_, canonical, e8) = bind_sound (ensure (str_eq bytes row.package_body) _) _ event e7 in
      let (_, verified, e9) =
        bind_sound (verify_decision_audit_event formats (event_of scope audit row pack)) _ event
          e8 in
      (
        pack,
        cc e9,
        (==_iff row.sequence expected).0 (ground (arith, ensure_sound _ _ numbered)),
        opt_eq_sound _ _ (ensure_sound _ _ linked),
        (str_eq_iff _ _).0 (ground (arith, ensure_sound _ _ identified)),
        verified,
      )

  read_events_sound :
      (n : ℕ) (previous : Option Str) (rows : List EventEntry) (events : List DecisionAuditEventV1)
      → read_events formats scope decision_id audit n previous rows ≡ ok events
      → Chained formats decision_id n previous events
  unfolding read_events event_of
  read_events_sound n previous [] events e =
      let same : [] ≡ events = cc e in subst (Chained formats decision_id n previous) same tt
  read_events_sound n previous (row ∷ rows) events e =
      let (event, found, e1) =
        bind_sound (read_event formats scope decision_id audit (suc n) previous row) _ events e in
      let (others, read, e2) =
        bind_sound
          (read_events formats scope decision_id audit (suc n) (some event.event_digest) rows) _
          events e1 in
      let (pack, made, sequence, link, named, verified) =
        read_event_sound (suc n) previous row event found in
      let same : event ∷ others ≡ events = cc e2 in
      subst (Chained formats decision_id n previous) same (
        ap (λ x. x.sequence) (sym made) ∙ sequence,
        ap (λ x. x.predecessor_event_digest) (sym made) ∙ link,
        ap (λ x. x.decision_package.decision_id) (sym made) ∙ named,
        subst (λ x. verify_decision_audit_event formats x ≡ ok tt) made verified,
        read_events_sound (suc n) (some event.event_digest) rows others read,
      )

module _ ⦃serde : Serde⦄ (formats : AuditFormats) where
  -- What an answered history holds.
  pub record IsHistory (scope : GoalScope) (decision_id : Str)
      (projection : DecisionAuditProjectionV1) : Type 0 where
    pub scoped : projection.scope ≡ scope
    pub named : projection.decision_id ≡ decision_id
    pub chained : Chained formats decision_id 0 none projection.events
    pub whole : projection.current_revision ≡ pos (length projection.events)
    pub positive : 0 < length projection.events

  -- A history that is answered, on any tables: it is of the decision that was asked for, and holds an
  -- event for each of its revisions, 1, 2, 3, ..., up to the current one, none missing and at least
  -- one; the first has no predecessor, each later one names the digest of the event before it, and
  -- each passes the checks of an event, by which its three digests are those of what it says.
  pub read_decision_projection_sound :
      (db : AuditDb) (scope : GoalScope) (decision_id : Str)
      (projection : DecisionAuditProjectionV1)
      → read_decision_projection_in_tx formats db scope decision_id ≡ ok projection
      → IsHistory scope decision_id projection
  unfolding read_decision_projection_in_tx projection_of
  read_decision_projection_sound db scope decision_id projection e =
      let (audit, found, e1) =
        bind_sound
          (or_fail (find (is_decision scope decision_id) db.decision_audits)
            (refused "no decision in scope"))
          _ projection e in
      let (_, bound, e2) =
        bind_sound
          (verify_recorded_decision_binding formats (recorded_binding scope decision_id audit)) _
          projection e1 in
      let (_, valid, e3) =
        bind_sound (ensure (valid_revision audit.current_revision) "corrupt decision revision") _
          projection e2 in
      let (events, read, e4) =
        bind_sound
          (read_events formats scope decision_id audit 0 none
            (event_rows scope decision_id db.decision_audit_events))
          _ projection e3 in
      let (_, counted, e5) =
        bind_sound
          (ensure (eq_ℤ (pos (length events)) audit.current_revision)
            "decision history is missing, duplicate, or truncated")
          _ projection e4 in
      let (last, ended, e6) =
        bind_sound (or_fail (last_event events) (refused "empty decision history")) _ projection
          e5 in
      let same : projection_of scope decision_id audit events last ≡ projection = cc e6 in
      let whole : pos (length events) ≡ audit.current_revision =
        (eq_ℤ_iff _ _).0 (ensure_sound _ _ counted) in
      let in_range : valid_revision (pos (length events)) ≡ true =
        subst (λ r. valid_revision r ≡ true) (sym whole) (ensure_sound _ _ valid) in
      subst (λ p. IsHistory scope decision_id p) same
        (record {
          scoped = refl;
          named = refl;
          chained =
              read_events_sound formats scope decision_id audit 0 none
                (event_rows scope decision_id db.decision_audit_events) events read;
          whole = sym whole;
          positive = ground (arith, in_range);
        })
