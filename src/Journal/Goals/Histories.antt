-- ===== src/Journal/Goals/Histories.antt =====
-- crates/beater-journal/src/lib.rs: over any history each goal's revisions are 1, 2, …, n with n its
-- current revision, and the stored goals are valid.
use temp_js.Prelude.{
  any, String, ℕ, suc, Str, lit, ℤ, pos, negsuc, leb_ℤ, eq_ℤ, eq_ℤ_iff, Bool, true, false, not, ◌≡◌,
  inl, inr, refl, sym, ap, ◌∙◌, ◌≢◌, subst, ap₂, Option, none, some, List, All, All-find, find,
  arith, Bool-cases, Option-cases, find-some,
}
use temp_js.Result.{Result, ok, err, ensure}
use temp_js.Journal.Serde.{Serde}
use temp_js.Journal.Laws.{IsStableGoal, SerdeLaws}
use temp_js.Journal.Model.{GoalScope, Goal, GoalMutation}
use temp_js.Journal.Store.{
  Cell, null, other, integer, text, GoalEntry, Db, Tx, transaction, lift, ◌>>=◌, ◌>>◌, pure,
}
use temp_js.Journal.Runs.{is_goal}
use temp_js.Journal.Validate.{validate_goal, validate_mutation, valid_revision, max_revision}
use temp_js.Journal.Keeps.{AfterOk, Keeps-read, transaction-keeps}
use temp_js.Journal.Leads.{Gives, Leads, Leads-Keeps, Leads-bind, Leads-check, Leads-read}
use temp_js.Journal.Frame.{IsMilestoneFrame}
use temp_js.Journal.Goals.{
  is_replay, store_goal_revision, goal_of_row, next_revision, create_new, cell_exists,
  revision_exists, or_replay, replay_or_conflict, create_goal,
}
use temp_js.Journal.Goals.Held.{HoldsGoal, magnitude, row_revision, is_goal_sound}
use temp_js.Journal.Goals.Stored.{stored, store_goal_revision-after}
use temp_js.Journal.Goals.Revisions.{History, History-stored}

module _ ⦃serde : Serde⦄ where
  open serde use {Text, write_goal, write_revision_request, write_milestone_request}

  abbrev pub Historic : Db → Type 0
  Historic db = History db.goals db.goal_revisions

  -- The history, with the revision of one goal.
  abbrev pub At : GoalScope → Str → ℕ → Db → Type 0
  At scope id n db = Historic db × (row_revision (find (is_goal scope id) db.goals) ≡ n)

  pub At-frame : (scope : GoalScope) (id : Str) (n : ℕ) → IsMilestoneFrame (At scope id n)
  At-frame scope id n = record {
    goal_milestones = λ db rows h. h;
    goal_milestone_revisions = λ db rows h. h;
  }

  pub next_revision_sound :
      (r r' : ℤ)
      → valid_revision r ≡ true
      → next_revision r ≡ ok r'
      → (magnitude r' ≡ suc (magnitude r)) × (valid_revision r' ≡ true)
  unfolding next_revision
  next_revision_sound (pos n) r' h e = elim (Bool-cases (leb_ℤ (pos (suc n)) (pos max_revision))) [
    | inl fits ↦ let same : r' ≡ pos (suc n) = cc (e, fits) in rw same (refl, ground arith)
    | inr above ↦ absurd (ground arith)
  ]
  next_revision_sound (negsuc n) r' h e = absurd (ground arith)

  not_exists : (cell : Cell) → cell_exists cell ≢ ok false
  unfolding cell_exists
  not_exists (integer n) e = cc
  not_exists null e = cc
  not_exists other e = cc
  not_exists (text t) e = cc

  pub ensured : (a b : ℤ) (message : String) → ensure (eq_ℤ a b) message ≡ ok tt → a ≡ b
  ensured a b message e = (eq_ℤ_iff a b).0 (ground arith)

  revision_exists_sound :
      (row : Option GoalEntry) (b : Bool)
      → revision_exists row ≡ ok b
      → not b ≡ true
      → row_revision row ≡ 0
  unfolding revision_exists
  revision_exists_sound none b e h = refl
  revision_exists_sound (some row) true e h = cc
  revision_exists_sound (some row) false e h = absurd (not_exists row.revision e)

  module _ (laws : SerdeLaws) where
    pub goal_of_row_sound :
        (scope : GoalScope) (id : Str) (goals : List GoalEntry) (g : Goal)
        → All HoldsGoal goals
        → goal_of_row id (find (is_goal scope id) goals) ≡ ok g
        → (validate_goal g ≡ ok tt)
          × (g.scope ≡ scope)
          × (g.id ≡ id)
          × (row_revision (find (is_goal scope id) goals) ≡ magnitude g.revision)
          × IsStableGoal g
    unfolding goal_of_row
    goal_of_row_sound scope id goals g held e =
        elim (Option-cases (find (is_goal scope id) goals)) [
          | inl missing ↦ absurd (ground arith)
          | inr (row, found) ↦
              let h = All-find HoldsGoal (is_goal scope id) goals row held found in
              let (own_scope, own_id) =
                is_goal_sound scope id row (find-some (is_goal scope id) goals row found) in
              let same : h.goal ≡ g =
                cc (found, e, h.body, laws.goal_round h.goal h.valid h.stable) in
              (
                subst (λ g. validate_goal g ≡ ok tt) same h.valid,
                ap (λ g. g.scope) (sym same) ∙ h.scope ∙ own_scope,
                ap (λ g. g.id) (sym same) ∙ h.id ∙ own_id,
                rw (found, h.revision, same),
                subst IsStableGoal same h.stable,
              )
        ]

  -- What is known once `create_new` has read whether the goal exists.
  abbrev Absent : Goal → Bool → Db → Type 0
  Absent goal true db = Historic db
  Absent goal false db = At goal.scope goal.id 0 db

  Absent-sound :
      (goal : Goal) (db : Db) (b : Bool)
      → Historic db
      → revision_exists (find (is_goal goal.scope goal.id) db.goals) ≡ ok b
      → Absent goal b db
  Absent-sound goal db true h e = h
  Absent-sound goal db false h e = (h, revision_exists_sound _ false e refl)

  -- `store_goal_revision`, and the goal.
  abbrev pub put : Goal → GoalMutation → Str → Text → ℤ → Tx Goal
  put goal mutation event body now = do store_goal_revision goal mutation event body now; pure goal

  Gives-goal :
      (Q : Goal → Db → Type 0) (goal : Goal) (r : Result (Unit {0} × Db))
      → AfterOk (Q goal) r
      → Gives Q (elim r [ ok (u, after) ↦ pure goal after | err e ↦ err e ])
  Gives-goal Q goal (ok (u, after)) h = h
  Gives-goal Q goal (err e) h = tt

  -- What holds of the rows that `store_goal_revision` writes.
  pub Leads-put :
      {P : Db → Type 0} (Q : Goal → Db → Type 0) (goal : Goal) (mutation : GoalMutation)
      (event : Str) (body : Text) (now : ℤ)
      → ((db : Db)
          → P db
          → any (is_replay goal.scope mutation goal.id) db.goal_replays ≡ false
          → Q goal (stored goal mutation event body now db))
      → Leads P Q (put goal mutation event body now)
  Leads-put Q goal mutation event body now k = record {
    from = λ db h. Gives-goal Q goal (store_goal_revision goal mutation event body now db) (
        store_goal_revision-after goal mutation event body now db (Q goal)
          (λ fresh new. k db h new));
  }

  -- A valid goal at the next revision extends the history.
  pub stored-Historic :
      (scope : GoalScope) (id : Str) (n : ℕ) (goal : Goal) (mutation : GoalMutation) (event : Str)
      (body : Text) (now : ℤ) (db : Db)
      → goal.scope ≡ scope
      → goal.id ≡ id
      → validate_goal goal ≡ ok tt
      → IsStableGoal goal
      → magnitude goal.revision ≡ suc n
      → At scope id n db
      → Historic (stored goal mutation event body now db)
  stored-Historic scope id n goal mutation event body now db same_scope same_id valid stable next
        h =
      History-stored goal mutation now db.goals db.goal_revisions valid stable
        (next
          ∙ ap suc (
              sym h.1
              ∙ ap₂ (λ s i. row_revision (find (is_goal s i) db.goals)) (sym same_scope)
                  (sym same_id)))
        h.0

  abbrev create_absent : GoalMutation → Goal → ℤ → Bool → Tx Goal
  create_absent mutation goal now exists = do
    lift (ensure (not exists) "goal already exists")
    put goal mutation (lit "created") (write_goal goal) now

  -- What `create_goal` needs of what it stores.
  abbrev pub Creates : (Goal → Db → Type 0) → GoalMutation → Goal → ℤ → Type 0
  Creates Q mutation goal now =
      Leads (At goal.scope goal.id 0) Q (put goal mutation (lit "created") (write_goal goal) now)

  Leads-create_absent :
      (Q : Goal → Db → Type 0) (mutation : GoalMutation) (goal : Goal) (now : ℤ) (exists : Bool)
      → Creates Q mutation goal now
      → Leads (Absent goal exists) Q (create_absent mutation goal now exists)
  Leads-create_absent Q mutation goal now exists l =
      Leads-check (ensure (not exists) "goal already exists")
        (λ _. put goal mutation (lit "created") (write_goal goal) now) (λ _ e. absent exists e)
    where
      absent :
          (b : Bool)
          → ensure (not b) "goal already exists" ≡ ok tt
          → Leads (Absent goal b) Q (put goal mutation (lit "created") (write_goal goal) now)
      absent true e = cc
      absent false e = l

  pub Leads-create_new :
      (Q : Goal → Db → Type 0) (mutation : GoalMutation) (goal : Goal) (now : ℤ)
      → Creates Q mutation goal now
      → Leads Historic Q (create_new mutation goal now)
  unfolding create_new
  Leads-create_new Q mutation goal now l =
      Leads-read (Absent goal) (λ db. revision_exists (find (is_goal goal.scope goal.id) db.goals))
        (create_absent mutation goal now) (Absent-sound goal)
        (λ exists. Leads-create_absent Q mutation goal now exists l)

  Creates-Historic :
      (mutation : GoalMutation) (goal : Goal) (now : ℤ)
      → validate_goal goal ≡ ok tt
      → IsStableGoal goal
      → goal.revision ≡ pos 1
      → Creates (λ _. Historic) mutation goal now
  Creates-Historic mutation goal now valid stable first =
      Leads-put (λ _. Historic) goal mutation (lit "created") (write_goal goal) now
        (λ db h _.
          stored-Historic goal.scope goal.id 0 goal mutation (lit "created") (write_goal goal) now
            db refl refl valid stable (rw first) h)

  abbrev pub replay_then : GoalScope → GoalMutation → Str → Text → Tx Goal → Tx Goal
  replay_then scope mutation target body rest = do
    replay ← replay_or_conflict scope mutation target body
    or_replay replay rest

  -- A method whose transaction leads from the history to the history.
  pub method :
      (m : Tx Goal)
      → Leads Historic (λ _. Historic) m
      → (db : Db) → Historic db
      → Historic (transaction m db).1
  method m l = transaction-keeps m (Leads-Keeps m l)

  pub Leads-replay_then :
      (scope : GoalScope) (mutation : GoalMutation) (target : Str) (body : Text) (rest : Tx Goal)
      → Leads Historic (λ _. Historic) rest
      → Leads Historic (λ _. Historic) (replay_then scope mutation target body rest)
  unfolding replay_or_conflict
  Leads-replay_then scope mutation target body rest l =
      Leads-bind (replay_or_conflict scope mutation target body) (λ replay. or_replay replay rest)
        (Keeps-read _) (λ replay. by_replay replay)
    where
      by_replay : (replay : Option Goal) → Leads Historic (λ _. Historic) (or_replay replay rest)
      by_replay none = l
      by_replay (some g) = record { from = λ db h. h }

  pub create_goal-Historic :
      (mutation : GoalMutation) (goal : Goal) (now : ℤ) (db : Db)
      → IsStableGoal goal
      → Historic db
      → Historic (create_goal mutation goal now db).1
  unfolding create_goal
  create_goal-Historic mutation goal now db stable =
      method _
        (Leads-check (validate_mutation mutation) _ λ _ _.
          Leads-check (validate_goal goal) _ λ _ valid.
            Leads-check (ensure (eq_ℤ goal.revision (pos 1)) _) _ λ _ first.
              Leads-replay_then goal.scope mutation goal.id (write_goal goal) _ (
                Leads-create_new (λ _. Historic) mutation goal now
                  (Creates-Historic mutation goal now valid stable (ensured _ _ _ first))))
        db
