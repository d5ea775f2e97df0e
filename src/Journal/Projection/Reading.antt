-- ===== src/Journal/Projection/Reading.antt =====
-- crates/beater-journal/src/read_projection.rs: a page for whoever asks for one of a goal that is there.
use temp_js.Prelude.{
  ℕ, suc, ◌≤◌, ◌<◌, ◌≡◌, ap, ◌∙◌, subst, inl, inr, Str, pos, leb_ℤ, true, not, ◌&&◌, Option, some,
  List, All, All-find, find, arith, str_eq, Option-cases, last_number, highest-eq-last_number,
}
use temp_js.Result.{ok}
use temp_js.Journal.Model.{GoalScope}
use temp_js.Journal.Serde.{Serde}
use temp_js.Journal.Laws.{SerdeLaws}
use temp_js.Journal.Store.{Db, integer, scope_eq, empty_db}
use temp_js.Journal.Runs.{is_goal}
use temp_js.Journal.Session.{Call, clock, perform_all}
use temp_js.Journal.Validate.{validate_scope, valid_identifier, valid_revision}
use temp_js.Journal.Goals.Held.{HoldsGoal, row_revision, valid-revision, positive_revision}
use temp_js.Journal.Goals.Histories.{Historic}
use temp_js.Journal.Goals.Revisions.{of_goal, number, revision_of}
use temp_js.Journal.Goals.Whole.{IsStableCall, perform_all-Historic}
use temp_js.Journal.Projection.Activity.{
  GoalActivityCursor, GoalActivityPage, validate_cursor, choose_cursor, current_revision,
  goal_activity_page,
}
use temp_js.Journal.Projection.Pages.{IsPage, read_page_sound}
use temp_js.Journal.Projection.Cursors.{choose_cursor_within, Spans}
use temp_js.Journal.Projection.Receipts.{Receipted, IsTime, perform_all-Receipted}
use temp_js.Journal.Projection.Total.{page_exists}

module _ ⦃serde : Serde⦄ (scope : GoalScope) (id : Str) where
  -- A journal that holds the goal, at revision `b` or a later one.
  pub record IsReadable (b : ℕ) (db : Db) : Type 0 where
    pub historic : Historic db
    pub receipted : Receipted db
    pub reached : b ≤ revision_of db scope id

  abbrev pub IsOwn : GoalActivityCursor → Type 0
  IsOwn cursor = scope_eq cursor.scope scope && str_eq cursor.goal_id id ≡ true

  pub current_lem :
      (b : ℕ) (db : Db)
      → 0 < b
      → IsReadable b db
      → (n : ℕ) × (current_revision id (find (is_goal scope id) db.goals) ≡ ok (pos n))
        × (valid_revision (pos n) ≡ true)
        × (revision_of db scope id ≡ n)
  unfolding current_revision
  current_lem b db positive h = elim (Option-cases (find (is_goal scope id) db.goals)) [
    | inl missing ↦
        let none_stored : b ≤ 0 = subst (λ o. b ≤ row_revision o) missing h.reached in
        absurd (omega (arith, positive, none_stored))
    | inr (row, found) ↦
        let held = All-find HoldsGoal (is_goal scope id) db.goals row h.historic.goals_held found in
        let (n, r) = positive_revision held.goal.revision (valid-revision held.goal held.valid) in
        let same : row.revision ≡ integer (pos (suc n)) = held.revision ∙ ap integer r in
        (
          suc n,
          rw (found, current_revision, same),
          subst (λ x. valid_revision x ≡ true) r (valid-revision held.goal held.valid),
          rw (found, same),
        )
  ]

  last_lem :
      (db : Db)
      → Historic db
      → last_number (of_goal scope id) number 0 db.goal_revisions ≡ revision_of db scope id
  last_lem db h = omega (
    arith,
    h.complete scope id,
    highest-eq-last_number (of_goal scope id) number 0 db.goal_revisions (h.numbered scope id),
  )

  module _ (scoped : validate_scope scope ≡ ok tt) (named : valid_identifier id ≡ true) where
    -- A cursor that continues a snapshot is accepted as long as the goal has not gone back.
    pub choose-again :
        (cursor : GoalActivityCursor) (a b n : ℕ)
        → Spans cursor a b
        → IsOwn cursor
        → b ≤ n
        → valid_revision (pos n) ≡ true
        → choose_cursor scope id (pos n) (some cursor) ≡ ok cursor
    unfolding choose_cursor validate_cursor
    choose-again cursor a b n spans mine bound valid =
        let small : valid_revision cursor.through_revision ≡ true =
          ap valid_revision spans.through ∙ ground (arith, valid, bound, spans.ordered) in
        let continues : leb_ℤ (pos 0) cursor.after_revision
              && not (leb_ℤ cursor.through_revision cursor.after_revision)
            ≡ true =
          rw (spans.after, spans.through) (ground (arith, spans.ordered)) in
        let within_current : leb_ℤ cursor.through_revision (pos n) ≡ true =
          rw spans.through (ground (arith, bound)) in
        rw (scoped, named, mine, small, continues, within_current)

    -- A page is answered to whoever asks for one of a goal that is there.
    pub IsPage-step :
        (db : Db) (requested : Option GoalActivityCursor) (cursor : GoalActivityCursor) (a b n : ℕ)
        → Spans cursor a b
        → IsReadable b db
        → current_revision id (find (is_goal scope id) db.goals) ≡ ok (pos n)
        → valid_revision (pos n) ≡ true
        → revision_of db scope id ≡ n
        → choose_cursor scope id (pos n) requested ≡ ok cursor
        → (page : GoalActivityPage) × (goal_activity_page db scope id requested ≡ ok page)
          × IsPage cursor a b page
    unfolding goal_activity_page
    IsPage-step db requested cursor a b n spans h stored valid same chosen =
        let last = last_lem db h.historic in
        let (page, e) =
          page_exists db scope id h.historic h.receipted cursor a b spans
            (omega (arith, last, h.reached)) (ground (arith, valid, h.reached, same)) in
        (
          page,
          rw (scoped, named, stored, valid, chosen, e),
          read_page_sound scope id cursor a b spans.after spans.through spans.ordered db page e,
        )

  -- A page is answered in every journal that any calls led to, at times that are not negative, for a
  -- goal that it holds: to a request without a cursor, and to each cursor that passes its checks and
  -- whose snapshot the goal has reached. The goal's scope and id are assumed to be valid. The
  -- values of the parameters that the calls set are ones that read back as they were written, and a
  -- valid goal of such parameters that was written is assumed to parse back.
  pub goal_activity_page_total :
      (laws : SerdeLaws) (calls : List Call) (requested : Option GoalActivityCursor)
      (cursor : GoalActivityCursor)
      → validate_scope scope ≡ ok tt
      → valid_identifier id ≡ true
      → All IsStableCall calls
      → All (λ call. IsTime (clock call)) calls
      → 0 < revision_of (perform_all empty_db calls) scope id
      → choose_cursor scope id (pos (revision_of (perform_all empty_db calls) scope id)) requested
        ≡ ok cursor
      → (page : GoalActivityPage) × (goal_activity_page
            (perform_all empty_db calls)
            scope
            id
            requested
          ≡ ok page)
  goal_activity_page_total laws calls requested cursor scoped named stable times exists chosen =
      let db = perform_all empty_db calls in
      let readable : (b : ℕ) → b ≤ revision_of db scope id → IsReadable b db = λ b reached. record {
        historic = perform_all-Historic laws calls stable;
        receipted = perform_all-Receipted calls times;
        reached = reached;
      } in
      let (n, stored, valid, same) =
        current_lem (revision_of db scope id) db exists (readable _ (omega arith)) in
      let chosen' = subst (λ m. choose_cursor scope id (pos m) requested ≡ ok cursor) same chosen in
      let (a, b, spans, reached) = choose_cursor_within scope id n requested cursor valid chosen' in
      let (page, e, _) =
        IsPage-step scoped named db requested cursor a b n spans
          (readable b (omega (arith, reached, same))) stored valid same chosen' in
      (page, e)
