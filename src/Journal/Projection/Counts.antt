-- ===== src/Journal/Projection/Counts.antt =====
-- crates/beater-journal/src/read_projection.rs: what the summary of a goal says.
use Prim.Native.Nat.{min}
use temp_js.Prelude.{
  ℕ, suc, ◌+◌, ◌≤◌, ◌≡◌, refl, sym, ap, ◌∙◌, subst, inl, inr, Str, lit, eq_ℤ, eq_ℤ_iff, ◌&&◌, ◌||◌,
  Option, none, some, List, [], ◌∷◌, all, find, select, length, leb, arith, str_eq, str_eq_iff,
  str_leb, Bool-cases, length-sort_by, sort_by,
}
use temp_js.Result.{
  ok, ensure, or_fail, refused, malformed, bind_sound, ensure_sound, or_fail_sound, ◌>>=◌,
}
use temp_js.Journal.Model.{GoalScope, Goal, Milestone}
use temp_js.Journal.Serde.{Serde}
use temp_js.Journal.Store.{
  Cell, integer, text, null, other, GoalEntry, MilestoneEntry, Db, scope_eq,
}
use temp_js.Journal.Gate.{scope_eq_iff}
use temp_js.Journal.Runs.{is_goal}
use temp_js.Journal.Validate.{
  validate_scope, validate_goal, validate_milestone_shape, valid_identifier, max_milestones,
}
use temp_js.Journal.Milestones.{of_goal}
use temp_js.Journal.Recording.{contains_key}
use temp_js.Journal.Projection.{
  PreparationCounts, GoalSummary, checked_count, count, count_row, count_rows, summarised_goal,
  read_columns, read_goal_row, milestone_rows, goal_summary, no_counts, summary_of,
}
use temp_js.Journal.Projection.Sequence.{length-take}

abbrev pub total : PreparationCounts → ℕ
total counts = counts.planned + counts.prepared + counts.needs_refresh

checked_count_sound : (n m : ℕ) → checked_count n ≡ some m → m ≡ suc n
checked_count_sound n m e = ground arith

-- A count that goes up does so by one.
counted :
    (n : ℕ) (set : ℕ → PreparationCounts) (after : PreparationCounts) (before : ℕ)
    → or_fail (checked_count n) (refused "preparation count overflow") >>= (λ m. ok (set m))
      ≡ ok after
    → total (set (suc n)) ≡ suc before
    → total after ≡ suc before
counted n set after before e h =
    let (m, stepped, e1) =
      bind_sound (or_fail (checked_count n) (refused "preparation count overflow"))
        (λ m. ok (set m)) after e in
    let more : m ≡ suc n = checked_count_sound n m (or_fail_sound _ _ m stepped) in
    let same : set m ≡ after = cc e1 in ap total (sym same) ∙ ap (λ k. total (set k)) more ∙ h

count_sound :
    (milestone : Milestone) (counts after : PreparationCounts)
    → count milestone counts ≡ ok after
    → total after ≡ suc (total counts)
unfolding count
count_sound milestone counts after e =
    elim (Bool-cases (str_eq milestone.preparation (lit "planned"))) [
      | inl planned ↦
          counted counts.planned (λ n. record counts { planned = n }) after (total counts)
            (sym (rw planned) ∙ e) (omega arith)
      | inr unplanned ↦ elim (Bool-cases (str_eq milestone.preparation (lit "prepared"))) [
        | inl prepared ↦
            counted counts.prepared (λ n. record counts { prepared = n }) after (total counts)
              (sym (rw (unplanned, prepared)) ∙ e) (omega arith)
        | inr neither ↦ elim (Bool-cases (str_eq milestone.preparation (lit "needs_refresh"))) [
          | inl stale ↦
              counted counts.needs_refresh (λ n. record counts { needs_refresh = n }) after
                (total counts) (sym (rw (unplanned, neither, stale)) ∙ e) (omega arith)
          | inr unknown ↦ absurd (ground (arith, unknown, neither, unplanned))
        ]
      ]
    ]

module _ ⦃serde : Serde⦄ where
  open serde use {read_goal, read_milestone}

  count_row_sound :
      (goal : Goal) (seen : ℕ) (row : MilestoneEntry) (counts after : PreparationCounts)
      → count_row goal seen row counts ≡ ok after
      → (total after ≡ suc (total counts)) × (seen ≤ 128)
  unfolding count_row
  count_row_sound goal seen row counts after e =
      let (_, few, e1) =
        bind_sound (ensure (leb seen max_milestones) "too many persisted milestones") _ after e in
      let (milestone, _, e2) =
        bind_sound (or_fail (read_milestone row.body) malformed) _ after e1 in
      let (_, _, e3) = bind_sound (validate_milestone_shape milestone) _ after e2 in
      let (_, _, e4) =
        bind_sound (ensure (str_eq milestone.id row.milestone_id) "corrupt milestone id column") _
          after e3 in
      let (_, _, e5) =
        bind_sound
          (ensure
            (milestone.requires_refresh
              || all (contains_key goal.parameters) milestone.parameter_dependencies)
            "inconsistent current milestone dependency")
          _ after e4 in
      (count_sound milestone counts after e5, ground (arith, ensure_sound _ _ few))

  count_rows_sound :
      (goal : Goal) (seen : ℕ) (rows : List MilestoneEntry) (counts after : PreparationCounts)
      → seen ≤ 128
      → count_rows goal seen rows counts ≡ ok after
      → (total after ≡ total counts + length rows) × (seen + length rows ≤ 128)
  unfolding count_rows
  count_rows_sound goal seen [] counts after few e =
      let same : counts ≡ after = cc e in (ap total (sym same) ∙ omega arith, omega (arith, few))
  count_rows_sound goal seen (row ∷ rows) counts after few e =
      let (next, first, e1) = bind_sound (count_row goal (suc seen) row counts) _ after e in
      let (one, room) = count_row_sound goal (suc seen) row counts next first in
      let (rest, all_fit) = count_rows_sound goal (suc seen) rows next after room e1 in
      (omega (arith, one, rest), omega (arith, all_fit))

  -- What a summary that was answered says.
  pub record IsSummary (db : Db) (scope : GoalScope) (id : Str) (summary : GoalSummary)
      : Type 0 where
    pub scoped : summary.scope ≡ scope
    pub named : summary.id ≡ id
    pub row : GoalEntry
    pub found : find (is_goal scope id) db.goals ≡ some row
    pub stored : row.revision ≡ integer summary.revision
    pub counted_all :
        total summary.preparations ≡ length (select (of_goal scope id) db.goal_milestones)
    pub bounded : total summary.preparations ≤ 128

  read_columns_sound :
      (scope : GoalScope) (id : Str) (revision body : Cell) (goal : Goal)
      → read_columns scope id revision body ≡ ok goal
      → (goal.scope ≡ scope) × (goal.id ≡ id) × (revision ≡ integer goal.revision)
  unfolding read_columns summarised_goal
  read_columns_sound scope id (integer n) (text t) goal e =
      let (g, _, e1) = bind_sound (or_fail (read_goal t) malformed) _ goal e in
      let (_, _, e2) = bind_sound (validate_goal g) _ goal e1 in
      let (_, keyed, e3) =
        bind_sound (ensure (scope_eq g.scope scope && str_eq g.id id) "corrupt scoped goal row") _
          goal e2 in
      let (_, at, e4) =
        bind_sound (ensure (eq_ℤ g.revision n) "corrupt goal revision column") _ goal e3 in
      let same : g ≡ goal = cc e4 in
      let own = ensure_sound _ _ keyed in
      (
        ap (λ x. x.scope) (sym same) ∙ (scope_eq_iff g.scope scope).0 (ground (arith, own)),
        ap (λ x. x.id) (sym same) ∙ (str_eq_iff g.id id).0 (ground (arith, own)),
        ap integer
            (sym ((eq_ℤ_iff g.revision n).0 (ensure_sound _ _ at)) ∙ ap (λ x. x.revision) same),
      )
  read_columns_sound scope id (integer n) null goal e = absurd (cc e)
  read_columns_sound scope id (integer n) other goal e = absurd (cc e)
  read_columns_sound scope id (integer n) (integer m) goal e = absurd (cc e)
  read_columns_sound scope id null body goal e = absurd (cc e)
  read_columns_sound scope id other body goal e = absurd (cc e)
  read_columns_sound scope id (text t) body goal e = absurd (cc e)

  read_goal_row_sound :
      (scope : GoalScope) (id : Str) (found : Option GoalEntry) (goal : Goal)
      → read_goal_row scope id found ≡ ok goal
      → (row : GoalEntry) × (found ≡ some row)
        × (goal.scope ≡ scope)
        × (goal.id ≡ id)
        × (row.revision ≡ integer goal.revision)
  unfolding read_goal_row
  read_goal_row_sound scope id none goal e = absurd (cc e)
  read_goal_row_sound scope id (some row) goal e =
      let (s, i, r) = read_columns_sound scope id row.revision row.body goal e in
      (row, refl, s, i, r)

  -- A summary that is answered, on any journal: it is of the goal that was asked for, at the revision
  -- in the column of its row, and its three counts together count every milestone of the goal, of
  -- which there are at most 128.
  pub goal_summary_sound :
      (db : Db) (scope : GoalScope) (id : Str) (summary : GoalSummary)
      → goal_summary db scope id ≡ ok summary
      → IsSummary db scope id summary
  unfolding goal_summary milestone_rows
  goal_summary_sound db scope id summary e =
      let (_, _, e1) = bind_sound (validate_scope scope) _ summary e in
      let (_, _, e2) = bind_sound (ensure (valid_identifier id) "invalid goal id") _ summary e1 in
      let (goal, read, e3) =
        bind_sound (read_goal_row scope id (find (is_goal scope id) db.goals)) _ summary e2 in
      let (counts, tallied, e4) =
        bind_sound (count_rows goal 0 (milestone_rows scope id db) no_counts) _ summary e3 in
      let (row, found, own_scope, own_id, stored) =
        read_goal_row_sound scope id (find (is_goal scope id) db.goals) goal read in
      let (all_counted, few) =
        count_rows_sound goal 0 (milestone_rows scope id db) no_counts counts (omega arith)
          tallied in
      let mine = select (of_goal scope id) db.goal_milestones in
      let sorted = sort_by (λ a b. str_leb a.milestone_id b.milestone_id) mine in
      let size : length (milestone_rows scope id db) ≡ min 129 (length mine) =
        length-take 129 sorted
        ∙ ap (min 129) (length-sort_by (λ a b. str_leb a.milestone_id b.milestone_id) mine) in
      let same : summary_of goal counts ≡ summary = cc e4 in
      subst (IsSummary db scope id) same (record {
        scoped = own_scope;
        named = own_id;
        row = row;
        found = found;
        stored = stored;
        counted_all = omega (arith, all_counted, few, size);
        bounded = omega (arith, all_counted, few);
      })
