-- ===== src/Journal/Model.antt =====
-- crates/beater-journal/src/lib.rs: the types of the journal.
use temp_js.Prelude.{ℕ, Str, ℤ, Bool, Option, List}

-- `serde_json::Value`. A number is the text that serde_json writes of it; what a text reads back as is
-- the reader's, and may be another number.
mutual
  pub data Value : Type 0 where
    null : Value
    boolean : Bool → Value
    number : Str → Value
    string : Str → Value
    array : Values → Value
    object : Fields → Value

  pub data Values : Type 0 where
    nil : Values
    cons : Value → Values → Values

  pub data Fields : Type 0 where
    end : Fields
    field : Str → Value → Fields → Fields

pub record GoalScope : Type 0 where
  pub organization : Str
  pub project : Str
  pub environment : Str
  pub site : Str

pub record PlaybookIdentity : Type 0 where
  pub id : Str
  pub digest : Str

-- A `BTreeMap<String, Value>`, in the order of its keys.
abbrev pub Parameters : Type 0
Parameters = List (Str × Value)

pub record Goal : Type 0 where
  pub id : Str
  pub scope : GoalScope
  pub revision : ℤ
  pub objective : Str
  pub playbook : PlaybookIdentity
  pub parameters : Parameters

pub record GoalPatch : Type 0 where
  pub objective : Option Str
  pub playbook : Option PlaybookIdentity
  pub parameters : Option Parameters

pub record GoalMutation : Type 0 where
  pub actor : Str
  pub request_id : Str
  pub operation : Str

pub record Milestone : Type 0 where
  pub id : Str
  pub preparation : Str
  pub evidence_references : List Str
  pub parameter_dependencies : List Str
  pub requires_refresh : Bool

pub record GoalRunBinding : Type 0 where
  pub version : ℕ
  pub run_id : Str
  pub scope : GoalScope
  pub goal_id : Str
  pub goal_revision : ℤ

pub data GoalRunGate : Type 0 where
  unbound : GoalRunGate
  current : GoalRunBinding → GoalRunGate
  needs_review : GoalRunGate

pub record HistoryWindow : Type 0 where
  pub after_revision : ℤ
  pub through_revision : ℤ
  pub limit : ℕ
