-- ===== src/Audit/Digested.antt =====
-- crates/beater-journal/src/decision_audit.rs: the digests of the events that are read.
use temp_js.Prelude.{◌-◌, ◌≡◌, pos, str_eq}
use temp_js.Result.{Result, ok, ◌>>=◌, ◌>>◌, ensure}
use temp_js.Journal.Serde.{Serde}
use temp_js.Audit.Package.{DecisionAuditEventV1}
use temp_js.Audit.Canonical.{AuditFormats}
use temp_js.Audit.Event.{digest_of, request_value, event_digest}

module _ (formats : AuditFormats) where
  -- The digests that an event carries are those of its package, of the request that it answers, and of
  -- its own content.
  pub record IsDigested (event : DecisionAuditEventV1) : Type 0 where
    pub package_sent :
        digest_of formats (formats.package_value event.decision_package) ≡ ok event.package_digest
    pub request_sent :
        digest_of formats (
          request_value formats event.run_id
            (pos (event.sequence - 1))
            event.request_id
            event.decision_package)
        ≡ ok event.request_digest
    pub content_sent : event_digest formats event ≡ ok event.event_digest

  -- The checks of `verify_decision_audit_event` on the digests, its last.
  abbrev digest_checks : DecisionAuditEventV1 → Result (Unit {0})
  digest_checks event = do
    package_digest ← digest_of formats (formats.package_value event.decision_package)
    ensure (str_eq package_digest event.package_digest) "event package digest mismatch"
    request_digest ← digest_of formats (
        request_value formats event.run_id (pos (event.sequence - 1)) event.request_id
          event.decision_package)
    ensure (str_eq request_digest event.request_digest) "event request digest mismatch"
    computed ← event_digest formats event
    ensure (str_eq computed event.event_digest) "event digest mismatch"
