-- ===== src/Journal/Store.antt =====
-- crates/beater-journal/src/lib.rs: the tables of `Journal::open`, the statements over them, and
-- transactions. The order of rows is that of insertion.
use temp_js.Prelude.{
  ℕ, Str, ℤ, Bool, ◌&&◌, Option, List, [], ◌∷◌, ◌++◌, any, update, str_eq, ◌==◌, if◌then◌else◌,
}
use temp_js.Result.{Result, ok, err, constraint}
use temp_js.Journal.Model.{GoalScope}
use temp_js.Journal.Serde.{Serde}

-- The comparison of the four columns of a scope.
unfoldable pub scope_eq : GoalScope → GoalScope → Bool
scope_eq a b =
    str_eq a.organization b.organization
    && str_eq a.project b.project
    && str_eq a.environment b.environment
    && str_eq a.site b.site

-- INSERT into a table whose primary key `same` compares with the new row's.
unfoldable pub insert {ℓ} : {A : Type ℓ} → (A → Bool) → A → List A → Result (List A)
insert same row rows = if any same rows then err constraint else ok (rows ++ row ∷ [])

-- INSERT … ON CONFLICT DO UPDATE
unfoldable pub upsert {ℓ} : {A : Type ℓ} → (A → Bool) → (A → A) → A → List A → List A
upsert same change row rows = if any same rows then update same change rows else rows ++ row ∷ []

module _ ⦃serde : Serde⦄ where
  open serde use {Text}

  -- A column that the code reads by its `typeof`; `other` is a REAL or a BLOB.
  pub data Cell : Type 0 where
    null other : Cell
    integer : ℤ → Cell
    text : Text → Cell

  pub record RunEntry : Type 0 where
    pub id : Str
    pub agent : Str
    pub status : Str
    pub input : Str
    pub created_at : ℤ
    pub updated_at : ℤ
    pub goal_binding : Cell

  pub record StepEntry : Type 0 where
    pub run_id : Str
    pub seq : ℕ
    pub kind : Str
    pub status : Str
    pub request : Text
    pub result : Option Text
    pub tool_name : Option Str
    pub tool_use_id : Option Str
    pub attempt : ℤ
    pub started_at : ℤ
    pub finished_at : Option ℤ

  pub record PartialEntry : Type 0 where
    pub run_id : Str
    pub seq : ℕ
    pub ordinal : ℕ
    pub kind : Str
    pub payload : Text
    pub created_at : ℤ

  pub record GoalEntry : Type 0 where
    pub scope : GoalScope
    pub id : Str
    pub revision : Cell
    pub body : Cell
    pub updated_at : ℤ

  pub record GoalRevisionEntry : Type 0 where
    pub scope : GoalScope
    pub goal_id : Str
    pub revision : ℤ
    pub body : Text
    pub actor : Str
    pub request_id : Str
    pub operation : Str
    pub created_at : ℤ

  pub record GoalEventEntry : Type 0 where
    pub scope : GoalScope
    pub goal_id : Str
    pub revision : ℤ
    pub event : Str
    pub created_at : ℤ

  pub record ReplayEntry : Type 0 where
    pub scope : GoalScope
    pub actor : Str
    pub operation : Str
    pub target : Str
    pub request_id : Str
    pub request_body : Text
    pub response_body : Text
    pub created_at : ℤ

  pub record MilestoneEntry : Type 0 where
    pub scope : GoalScope
    pub goal_id : Str
    pub milestone_id : Str
    pub body : Text
    pub created_at : ℤ

  pub record MilestoneRevisionEntry : Type 0 where
    pub scope : GoalScope
    pub goal_id : Str
    pub milestone_id : Str
    pub goal_revision : ℤ
    pub body : Text
    pub actor : Str
    pub request_id : Str
    pub operation : Str
    pub event : Str
    pub created_at : ℤ

  pub record Db : Type 0 where
    pub runs : List RunEntry
    pub steps : List StepEntry
    pub step_partials : List PartialEntry
    pub goals : List GoalEntry
    pub goal_revisions : List GoalRevisionEntry
    pub goal_events : List GoalEventEntry
    pub goal_replays : List ReplayEntry
    pub goal_milestones : List MilestoneEntry
    pub goal_milestone_revisions : List MilestoneRevisionEntry

  -- Inside a transaction: an error abandons what was written.
  abbrev pub Tx : Type 0 → Type 0
  Tx A = Db → Result (A × Db)

  -- A method of `Journal`: its result, beside the database that it leaves.
  abbrev pub Op : Type 0 → Type 0
  Op A = Db → Result A × Db

  -- `unchecked_transaction` to `commit`; a transaction that is dropped is rolled back.
  unfoldable pub transaction : {A : Type 0} → Tx A → Op A
  transaction body db = elim (body db) [ ok (a, after) ↦ (ok a, after) | err e ↦ (err e, db) ]

  abbrev pub continue : {A B : Type 0} → (A → Op B) → Result A → Op B
  continue f (ok a) db = f a db
  continue f (err e) db = (err e, db)

  -- A call that commits what its error leaves, and what follows it when it succeeds.
  abbrev pub and_then : {A B : Type 0} → Op A → (A → Op B) → Op B
  and_then m f db = let (r, after) = m db in continue f r after

  abbrev pub lift : {A : Type 0} → Result A → Tx A
  lift r db = elim r [ ok a ↦ ok (a, db) | err e ↦ err e ]

  infixl 5 ◌>>=◌ ◌>>◌
  abbrev pub ◌>>=◌ : {A B : Type 0} → Tx A → (A → Tx B) → Tx B
  ◌>>=◌ m f db = elim (m db) [ ok (a, after) ↦ f a after | err e ↦ err e ]

  abbrev pub ◌>>◌ : {B : Type 0} → Tx (Unit {0}) → Tx B → Tx B
  m >> k = m >>= λ _. k

  abbrev pub pure : {A : Type 0} → A → Tx A
  pure a db = ok (a, db)

  abbrev pub gets : {A : Type 0} → (Db → A) → Tx A
  gets f db = ok (f db, db)

  unfoldable pub empty_db : Db
  empty_db = record {
    runs = [];
    steps = [];
    step_partials = [];
    goals = [];
    goal_revisions = [];
    goal_events = [];
    goal_replays = [];
    goal_milestones = [];
    goal_milestone_revisions = [];
  }

  -- Rows of a table read through a key.
  unfoldable pub is_run : Str → RunEntry → Bool
  is_run run_id row = str_eq row.id run_id

  unfoldable pub is_step : Str → ℕ → StepEntry → Bool
  is_step run_id seq row = str_eq row.run_id run_id && row.seq == seq
