-- ===== src/Audit/Event.antt =====
-- crates/beater-journal/src/decision_audit.rs: the digest of an event, and the checks of an event and of
-- a recorded binding.
use temp_js.Prelude.{
  ℕ, Str, lit, ℤ, pos, leb_ℤ, eq_ℤ, Bool, ◌&&◌, ◌||◌, ◌-◌, Option, none, some, length, all, leb,
  ltb, ◌==◌, str_eq,
}
use temp_js.Result.{Result, ok, refused, ensure, or_fail, ◌>>=◌, ◌>>◌}
use temp_js.Journal.Model.{
  GoalScope, Value, null, number, string, array, object, nil, cons, end, field,
}
use temp_js.Journal.Store.{scope_eq}
use temp_js.Journal.Serde.{Serde}
use temp_js.Journal.Validate.{
  validate_scope, validate_goal, valid_identifier, valid_revision, lower_hex,
}
use temp_js.Audit.Package.{DecisionPackageV1, DecisionAuditEventV1, RecordedDecisionBinding}
use temp_js.Audit.Canonical.{AuditFormats, canonical_bytes, digest}
use temp_js.Audit.Checks.{validate_package}

unfoldable pub valid_digest : Str → Bool
unfolding lower_hex
valid_digest value = length value == 64 && all lower_hex value

-- `byte.is_ascii_hexdigit()`
abbrev pub hexdigit : ℕ → Bool
hexdigit byte =
    leb b'0' byte && leb byte b'9'
    || leb b'a' byte && leb byte b'f'
    || leb b'A' byte && leb byte b'F'

-- The first event has no predecessor; a later one names the digest of one.
abbrev pub valid_predecessor : Option Str → ℕ → Bool
valid_predecessor none sequence = sequence == 1
valid_predecessor (some previous) sequence = ltb 1 sequence && valid_digest previous

module _ (formats : AuditFormats) where
  abbrev pub integer_value : ℤ → Value
  integer_value n = number (formats.write_integer n)

  abbrev pub scope_value : GoalScope → Value
  scope_value scope = object (
      field (lit "organization") (string scope.organization) (
        field (lit "project") (string scope.project) (
          field (lit "environment") (string scope.environment)
            (field (lit "site") (string scope.site) end))))

  abbrev pub optional_value : Option Str → Value
  optional_value none = null
  optional_value (some s) = string s

  -- `EventDigestInput`, as JSON.
  unfoldable pub digest_input : DecisionAuditEventV1 → Value
  digest_input event = object (
      field (lit "domain") (string (lit "TEMPERA_DECISION_AUDIT_EVENT_V1")) (
        field (lit "scope") (scope_value event.scope) (
          field (lit "run_id") (string event.run_id) (
            field (lit "goal_id") (string event.goal_id) (
              field (lit "goal_revision") (integer_value event.goal_revision) (
                field (lit "goal_digest") (string event.goal_digest) (
                  field (lit "decision_id") (string event.decision_package.decision_id) (
                    field (lit "sequence") (integer_value (pos event.sequence)) (
                      field (lit "request_id") (string event.request_id) (
                        field (lit "request_digest") (string event.request_digest) (
                          field (lit "package_digest") (string event.package_digest) (
                            field (lit "predecessor_event_digest")
                              (optional_value event.predecessor_event_digest)
                              (field (lit "created_at") (integer_value event.created_at)
                                end)))))))))))))

  -- The tuple of a request, as JSON.
  unfoldable pub request_value : Str → ℤ → Str → DecisionPackageV1 → Value
  request_value run_id expected_revision request_id pack = array (
      cons (string run_id) (
        cons (integer_value expected_revision)
          (cons (string request_id) (cons (formats.package_value pack) nil))))

  abbrev pub digest_of : Value → Result Str
  digest_of value = do bytes ← canonical_bytes formats value; ok (digest formats bytes)

  unfoldable pub event_digest : DecisionAuditEventV1 → Result Str
  unfolding digest_input
  event_digest event = digest_of (digest_input event)

  unfoldable pub verify_decision_audit_event : DecisionAuditEventV1 → Result (Unit {0})
  unfolding valid_digest request_value event_digest
  verify_decision_audit_event event = do
    validate_scope event.scope
    ensure (valid_identifier event.run_id && valid_identifier event.goal_id)
        "invalid event binding identity"
    ensure (valid_revision event.goal_revision && leb_ℤ (pos 0) event.created_at)
        "invalid event coordinates"
    validate_package formats event.decision_package
    ensure
        (valid_revision (pos event.sequence)
          && eq_ℤ event.decision_package.revision (pos event.sequence))
        "invalid event sequence or package revision"
    ensure (valid_digest event.goal_digest && valid_digest event.request_digest)
        "invalid event binding digest"
    ensure (valid_predecessor event.predecessor_event_digest event.sequence)
        "invalid event predecessor"
    ensure (valid_identifier event.request_id) "invalid event request id"
    package_digest ← digest_of (formats.package_value event.decision_package)
    ensure (str_eq package_digest event.package_digest) "event package digest mismatch"
    request_digest ← digest_of (
        request_value event.run_id (pos (event.sequence - 1)) event.request_id
          event.decision_package)
    ensure (str_eq request_digest event.request_digest) "event request digest mismatch"
    computed ← event_digest event
    ensure (str_eq computed event.event_digest) "event digest mismatch"

  unfoldable pub verify_recorded_decision_binding :
      ⦃serde : Serde⦄ → RecordedDecisionBinding → Result (Unit {0})
  verify_recorded_decision_binding binding = do
    validate_scope binding.scope
    ensure (valid_identifier binding.run_id && valid_identifier binding.goal_id)
        "corrupt decision binding identity"
    ensure (valid_revision binding.goal_revision) "corrupt decision goal revision"
    ensure (length binding.goal_digest == 64 && all hexdigit binding.goal_digest)
        "corrupt decision goal digest"
    goal ←
        or_fail (formats.goal_from_slice binding.goal_body)
          (refused "corrupt recorded decision goal snapshot")
    validate_goal goal
    ensure
        (scope_eq goal.scope binding.scope
          && str_eq goal.id binding.goal_id
          && eq_ℤ goal.revision binding.goal_revision)
        "recorded decision goal snapshot mismatch"
    bytes ← canonical_bytes formats (formats.goal_value goal)
    ensure (str_eq bytes binding.goal_body) "recorded decision goal snapshot is not canonical"
    ensure (str_eq (digest formats binding.goal_body) binding.goal_digest)
        "recorded decision goal digest mismatch"
    ensure (valid_identifier binding.decision_id) "invalid decision id"
