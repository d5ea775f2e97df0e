-- ===== src/Journal/Goals/Held.antt =====
-- crates/beater-journal/src/lib.rs: the rows of goals that `store_goal_revision` writes.
use temp_js.Prelude.{
  ℕ, zero, suc, Str, ℤ, pos, negsuc, true, false, ◌≡◌, inl, inr, refl, sym, ◌∙◌, Option, none, some,
  List, [], ◌∷◌, any, All, All-append, All-update, find, str_eq_iff, str_eq_refl, arith, Bool-cases,
  Option-cases, any_of_find, any_of_find-some, find-append_self, find-append_other,
  find-update_other, find-update_self,
}
use temp_js.Result.{ok}
use temp_js.Journal.Serde.{Serde}
use temp_js.Journal.Model.{GoalScope, Goal}
use temp_js.Journal.Store.{Cell, integer, text, GoalEntry, upsert}
use temp_js.Journal.Runs.{is_goal}
use temp_js.Journal.Gate.{scope_eq_iff, scope_eq_refl}
use temp_js.Journal.Validate.{validate_goal, valid_revision}
use temp_js.Journal.Laws.{IsStableGoal}
use temp_js.Journal.Goals.{goal_row, overwrite}

module _ ⦃serde : Serde⦄ where
  open serde use {Text, write_goal, read_goal}

  abbrev pub magnitude : ℤ → ℕ
  magnitude (pos n) = n
  magnitude (negsuc n) = 0

  -- A row holds a valid goal, written, under its own scope and id, at its own revision; its parameters
  -- read back as they were written.
  pub record HoldsGoal (row : GoalEntry) : Type 0 where
    pub goal : Goal
    pub revision : row.revision ≡ integer goal.revision
    pub body : row.body ≡ text (write_goal goal)
    pub scope : goal.scope ≡ row.scope
    pub id : goal.id ≡ row.id
    pub valid : validate_goal goal ≡ ok tt
    pub stable : IsStableGoal goal

  abbrev pub cell_revision : Cell → ℕ
  cell_revision (integer n) = magnitude n
  cell_revision _ = 0

  -- The revision in the row of a goal; none is 0.
  abbrev pub row_revision : Option GoalEntry → ℕ
  row_revision none = 0
  row_revision (some row) = cell_revision row.revision

  pub valid-revision : (g : Goal) → validate_goal g ≡ ok tt → valid_revision g.revision ≡ true
  unfolding validate_goal
  valid-revision g h = ground arith

  pub positive_revision : (r : ℤ) → valid_revision r ≡ true → (n : ℕ) × (r ≡ pos (suc n))
  positive_revision (pos zero) h = absurd (ground arith)
  positive_revision (pos (suc n)) h = (n, refl)
  positive_revision (negsuc n) h = absurd (ground arith)

  -- Only the revision of a valid goal changes, within its bounds.
  pub validate_goal-revision :
      (g : Goal) (r : ℤ)
      → validate_goal g ≡ ok tt
      → valid_revision r ≡ true
      → validate_goal (record g { revision = r }) ≡ ok tt
  unfolding validate_goal
  validate_goal-revision g r h k = ground arith

  pub is_goal_sound :
      (scope : GoalScope) (id : Str) (row : GoalEntry)
      → is_goal scope id row ≡ true
      → (row.scope ≡ scope) × (row.id ≡ id)
  unfolding is_goal
  is_goal_sound scope id row h = ground (arith, scope_eq_iff row.scope scope, str_eq_iff row.id id)

  module _ (goal : Goal) (now : ℤ) where
    abbrev pub written : GoalEntry
    written = goal_row goal now

    overwrite-HoldsGoal :
        validate_goal goal ≡ ok tt
        → IsStableGoal goal
        → (row : GoalEntry) → is_goal goal.scope goal.id row ≡ true
        → HoldsGoal row
        → HoldsGoal (overwrite written row)
    unfolding overwrite goal_row
    overwrite-HoldsGoal valid stable row own h =
        let (same_scope, same_id) = is_goal_sound goal.scope goal.id row own in
        record {
          goal = goal;
          revision = refl;
          body = refl;
          scope = sym same_scope;
          id = sym same_id;
          valid = valid;
          stable = stable;
        }

    written-HoldsGoal : validate_goal goal ≡ ok tt → IsStableGoal goal → HoldsGoal written
    unfolding goal_row
    written-HoldsGoal valid stable = record {
      goal = goal;
      revision = refl;
      body = refl;
      scope = refl;
      id = refl;
      valid = valid;
      stable = stable;
    }

    pub upsert-held :
        (goals : List GoalEntry)
        → validate_goal goal ≡ ok tt
        → IsStableGoal goal
        → All HoldsGoal goals
        → All HoldsGoal (upsert (is_goal goal.scope goal.id) (overwrite written) written goals)
    unfolding upsert
    upsert-held goals valid stable h = elim (Bool-cases (any (is_goal goal.scope goal.id) goals)) [
      | inl there ↦ rw there (
          All-update HoldsGoal (is_goal goal.scope goal.id) (overwrite written) goals
            (overwrite-HoldsGoal valid stable) h)
      | inr new ↦
          rw new (All-append HoldsGoal goals (written ∷ []) h (written-HoldsGoal valid stable, tt))
    ]

    is_goal-written : is_goal goal.scope goal.id written ≡ true
    unfolding is_goal goal_row
    is_goal-written = simp (scope_eq_refl, str_eq_refl)

    is_goal-overwrite :
        (scope : GoalScope) (id : Str) (row : GoalEntry)
        → is_goal scope id (overwrite written row) ≡ is_goal scope id row
    unfolding is_goal overwrite
    is_goal-overwrite scope id row = refl

    -- The goal's row says the new revision, the row of any other goal what it said.
    pub revision-upsert_self :
        (goals : List GoalEntry)
        → row_revision (
            find
              (is_goal goal.scope goal.id)
              (upsert (is_goal goal.scope goal.id) (overwrite written) written goals))
          ≡ magnitude goal.revision
    unfolding upsert overwrite goal_row
    revision-upsert_self goals = elim (Option-cases (find (is_goal goal.scope goal.id) goals)) [
      | inl absent ↦
          rw (any_of_find (is_goal goal.scope goal.id) goals absent) (
            rw (find-append_self (is_goal goal.scope goal.id) goals written absent is_goal-written))
      | inr (row, found) ↦ rw (any_of_find-some (is_goal goal.scope goal.id) goals row found) (
          rw (
            find-update_self (is_goal goal.scope goal.id) (overwrite written) goals row
              (is_goal-overwrite goal.scope goal.id) found))
    ]

    other_key :
        (scope : GoalScope) (id : Str)
        → is_goal scope id written ≡ false
        → (row : GoalEntry) → is_goal goal.scope goal.id row ≡ true
        → is_goal scope id row ≡ false
    unfolding goal_row is_goal
    other_key scope id differs row own =
        let (same_scope, same_id) = is_goal_sound goal.scope goal.id row own in
        rw (same_scope, same_id) differs

    pub revision-upsert_other :
        (scope : GoalScope) (id : Str) (goals : List GoalEntry)
        → is_goal scope id written ≡ false
        → find
            (is_goal scope id)
            (upsert (is_goal goal.scope goal.id) (overwrite written) written goals)
          ≡ find (is_goal scope id) goals
    unfolding upsert
    revision-upsert_other scope id goals differs =
        elim (Bool-cases (any (is_goal goal.scope goal.id) goals)) [
          | inl there ↦ rw there (
              find-update_other (is_goal scope id) (is_goal goal.scope goal.id) (overwrite written)
                goals (other_key scope id differs)
                (λ row own. is_goal-overwrite scope id row ∙ other_key scope id differs row own))
          | inr new ↦ rw new (find-append_other (is_goal scope id) goals written differs)
        ]
