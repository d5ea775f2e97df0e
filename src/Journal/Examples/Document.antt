-- ===== src/Journal/Examples/Document.antt =====
-- A serde whose documents are the values themselves.
use temp_js.Prelude.{Str, ℤ, Bool, true, false, none, some, ◌≡◌, ◌↔◌, refl, arith}
use native.Mathlib.Decide.{ℕ_discrete}
use temp_js.Journal.Model.{Value, Parameters, Goal, GoalPatch, Milestone, GoalRunBinding}
use temp_js.Journal.Serde.{Serde}
use temp_js.Journal.Laws.{SerdeLaws, BindingLaws}

pub data Document : Type 0 where
  value : Value → Document
  parameters : Parameters → Document
  goal : Goal → Document
  milestone : Milestone → Document
  binding : GoalRunBinding → Document
  revision_request : ℤ → GoalPatch → Document
  milestone_request : ℤ → Milestone → Document
  failure : Str → Document

pub Document-discrete : Discrete Document
Document-discrete = hlevel ℕ_discrete

pub Value-discrete : Discrete Value
Value-discrete = hlevel ℕ_discrete

abbrev pub decided {ℓ} : {A : Type ℓ} → Dec A → Bool
decided (yes p) = true
decided (no p) = false

decided_iff {ℓ} : {A : Type ℓ} (d : Dec A) → (decided d ≡ true) ↔ A
decided_iff (yes p) = ((λ e. p), (λ a. refl))
decided_iff (no p) = ((λ e. absurd (cc e)), (λ a. absurd (p a)))

instance abbrev pub document_serde : Serde
document_serde = record {
  Text = Document;
  text_eq = λ a b. decided (Document-discrete a b);
  byte_len = λ d. 1;
  value_eq = λ a b. decided (Value-discrete a b);
  write_value = value;
  read_value = λ d. elim d [ value v ↦ some v | _ ↦ none ];
  write_parameters = parameters;
  write_goal = goal;
  read_goal = λ d. elim d [ goal g ↦ some g | _ ↦ none ];
  write_milestone = milestone;
  read_milestone = λ d. elim d [ milestone m ↦ some m | _ ↦ none ];
  write_binding = binding;
  read_binding = λ d. elim d [ binding b ↦ some b | _ ↦ none ];
  write_revision_request = revision_request;
  write_milestone_request = milestone_request;
  write_error = failure;
}

pub document_laws : SerdeLaws
document_laws = record {
  text_eq_iff = λ a b. decided_iff (Document-discrete a b);
  value_eq_refl = λ v. (decided_iff (Value-discrete v v)).1 refl;
  goal_round = λ g h stable. refl;
  milestone_round = λ m. refl;
}

pub document_binding_laws : BindingLaws
document_binding_laws = record { binding_round = λ b h. refl; binding_fits = λ b h. omega arith }
