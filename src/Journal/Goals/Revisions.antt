-- ===== src/Journal/Goals/Revisions.antt =====
-- crates/beater-journal/src/lib.rs: over any history each goal's revisions are 1, 2, …, n with n its
-- current revision, and the stored goals are valid.
use temp_js.Prelude.{
  ℕ, suc, Str, ℤ, Bool, true, false, ◌&&◌, ◌≡◌, inl, inr, sym, ap, ◌∙◌, subst₂, ap₂, List, [], ◌∷◌,
  ◌++◌, All, find, str_eq, str_eq_iff, str_eq_refl, arith, Bool-cases, IsNumbered,
  IsNumbered-append, highest, highest-append_own, highest-append_other,
}
use temp_js.Result.{ok}
use temp_js.Journal.Serde.{Serde}
use temp_js.Journal.Model.{GoalScope, Goal, GoalMutation}
use temp_js.Journal.Store.{GoalEntry, GoalRevisionEntry, Db, upsert, scope_eq}
use temp_js.Journal.Runs.{is_goal}
use temp_js.Journal.Gate.{scope_eq_iff, scope_eq_refl}
use temp_js.Journal.Validate.{validate_goal}
use temp_js.Journal.Laws.{IsStableGoal}
use temp_js.Journal.Goals.{goal_row, revision_row, overwrite}
use temp_js.Journal.Goals.Held.{
  HoldsGoal, magnitude, row_revision, upsert-held, revision-upsert_self, revision-upsert_other,
}

module _ ⦃serde : Serde⦄ where
  open serde use {Text, write_goal, read_goal}

  abbrev pub of_goal : GoalScope → Str → GoalRevisionEntry → Bool
  of_goal scope id row = scope_eq row.scope scope && str_eq row.goal_id id

  abbrev pub number : GoalRevisionEntry → ℕ
  number row = magnitude row.revision

  abbrev pub revision_of : Db → GoalScope → Str → ℕ
  revision_of db scope id = row_revision (find (is_goal scope id) db.goals)

  pub record History (goals : List GoalEntry) (revisions : List GoalRevisionEntry) : Type 0 where
    pub goals_held : All HoldsGoal goals
    pub numbered : (scope : GoalScope) (id : Str) → IsNumbered (of_goal scope id) number 0 revisions
    pub complete :
        (scope : GoalScope) (id : Str)
        → row_revision (find (is_goal scope id) goals) ≡ highest (of_goal scope id) number revisions

  key_sound :
      (scope : GoalScope) (id : Str) (goal : Goal)
      → scope_eq goal.scope scope && str_eq goal.id id ≡ true
      → (goal.scope ≡ scope) × (goal.id ≡ id)
  key_sound scope id goal h = ground (arith, scope_eq_iff goal.scope scope, str_eq_iff goal.id id)

  module _ (goal : Goal) (mutation : GoalMutation) (now : ℤ) (goals : List GoalEntry)
      (revisions : List GoalRevisionEntry) (valid : validate_goal goal ≡ ok tt)
      (stable : IsStableGoal goal)
      (next : magnitude goal.revision
        ≡ suc (row_revision (find (is_goal goal.scope goal.id) goals)))
      (h : History goals revisions) where
    abbrev pub goals' : List GoalEntry
    goals' =
        upsert (is_goal goal.scope goal.id) (overwrite (goal_row goal now)) (goal_row goal now)
          goals

    abbrev pub revisions' : List GoalRevisionEntry
    revisions' = revisions ++ revision_row goal mutation now ∷ []

    abbrev Complete : GoalScope → Str → Type 0
    Complete scope id =
        row_revision (find (is_goal scope id) goals') ≡ highest (of_goal scope id) number revisions'

    own_row : of_goal goal.scope goal.id (revision_row goal mutation now) ≡ true
    unfolding revision_row
    own_row = simp (scope_eq_refl, str_eq_refl)

    Complete-self : Complete goal.scope goal.id
    unfolding revision_row
    Complete-self =
        rw
          (
            revision-upsert_self goal now goals,
            highest-append_own (of_goal goal.scope goal.id) number revisions
                (revision_row goal mutation now) own_row,
          )
          (omega (arith, next, h.complete goal.scope goal.id))

    Complete-other :
        (scope : GoalScope) (id : Str)
        → scope_eq goal.scope scope && str_eq goal.id id ≡ false
        → Complete scope id
    unfolding revision_row is_goal goal_row
    Complete-other scope id differs =
        ap row_revision (revision-upsert_other goal now scope id goals differs)
        ∙ h.complete scope id
        ∙ sym (
            highest-append_other (of_goal scope id) number revisions
              (revision_row goal mutation now) differs)

    IsNumbered-after :
        (scope : GoalScope) (id : Str) → IsNumbered (of_goal scope id) number 0 revisions'
    unfolding revision_row
    IsNumbered-after scope id =
        IsNumbered-append (of_goal scope id) number revisions (revision_row goal mutation now)
          (h.numbered scope id)
          (λ own.
            let (same_scope, same_id) = key_sound scope id goal own in
            next
            ∙ ap suc (
                h.complete goal.scope goal.id
                ∙ ap₂ (λ s i. highest (of_goal s i) number revisions) same_scope same_id))

    Complete-after : (scope : GoalScope) (id : Str) → Complete scope id
    Complete-after scope id = elim (Bool-cases (scope_eq goal.scope scope && str_eq goal.id id)) [
      | inr differs ↦ Complete-other scope id differs
      | inl own ↦
          let (same_scope, same_id) = key_sound scope id goal own in
          subst₂ Complete same_scope same_id Complete-self
    ]

    -- `store_goal_revision` of a valid goal under the next revision keeps the history.
    pub History-stored : History goals' revisions'
    History-stored = record {
      goals_held = upsert-held goal now goals valid stable h.goals_held;
      numbered = IsNumbered-after;
      complete = Complete-after;
    }
