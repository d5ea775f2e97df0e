-- ===== src/Audit/Package.antt =====
-- crates/beater-journal/src/decision_audit.rs: the types of a decision and of its history.
use temp_js.Prelude.{ℕ, Str, ℤ, Bool, Option, List}
use temp_js.Journal.Model.{GoalScope}

pub data DecisionDomain : Type 0 where
  software supply payments operations : DecisionDomain

pub data VerificationCeiling : Type 0 where
  recorded_only : VerificationCeiling

-- The constructor is `None` in the source.
pub data ExecutionAuthority : Type 0 where
  no_authority : ExecutionAuthority

pub record VersionedReference : Type 0 where
  pub locator : Str
  pub revision : Option Str

pub record EvidenceReference : Type 0 where
  pub reference : VersionedReference
  pub missing : Bool

pub record GraphContextReference : Type 0 where
  pub reference : VersionedReference
  pub watermark : Option Str

-- `typed_reference!`: six types that differ in their names.
pub record TypedReference : Type 0 where
  pub reference : VersionedReference

pub record DecisionRevisionReference : Type 0 where
  pub decision_id : Str
  pub revision : ℤ

pub record DecisionPackageV1 : Type 0 where
  pub version : ℕ
  pub decision_id : Str
  pub revision : ℤ
  pub domain : DecisionDomain
  pub question : Str
  pub object_references : List VersionedReference
  pub evidence : List EvidenceReference
  pub graph_context : Option GraphContextReference
  pub policy_references : List VersionedReference
  pub calculation_references : List VersionedReference
  pub model_references : List VersionedReference
  pub producer_references : List VersionedReference
  pub options : List Str
  pub constraints : List Str
  pub rationale : Str
  pub reviews : List TypedReference
  pub authorization_observations : List TypedReference
  pub effect_attempts : List TypedReference
  pub acknowledgements : List TypedReference
  pub outcomes : List TypedReference
  pub reconciliations : List TypedReference
  pub correction_of : Option DecisionRevisionReference
  pub successor_to : Option DecisionRevisionReference
  pub verification_ceiling : VerificationCeiling
  pub execution_authority : ExecutionAuthority

pub record DecisionAuditEventV1 : Type 0 where
  pub scope : GoalScope
  pub run_id : Str
  pub goal_id : Str
  pub goal_revision : ℤ
  pub goal_digest : Str
  pub sequence : ℕ
  pub decision_package : DecisionPackageV1
  pub request_id : Str
  pub request_digest : Str
  pub package_digest : Str
  pub event_digest : Str
  pub predecessor_event_digest : Option Str
  pub created_at : ℤ

pub record DecisionAuditProjectionV1 : Type 0 where
  pub scope : GoalScope
  pub run_id : Str
  pub goal_id : Str
  pub goal_revision : ℤ
  pub goal_digest : Str
  pub decision_id : Str
  pub current_revision : ℤ
  pub verification_ceiling : VerificationCeiling
  pub execution_authority : ExecutionAuthority
  pub events : List DecisionAuditEventV1

pub record RecordedDecisionBinding : Type 0 where
  pub scope : GoalScope
  pub decision_id : Str
  pub run_id : Str
  pub goal_id : Str
  pub goal_revision : ℤ
  pub goal_digest : Str
  pub goal_body : Str
