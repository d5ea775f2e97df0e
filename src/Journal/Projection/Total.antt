-- ===== src/Journal/Projection/Total.antt =====
-- crates/beater-journal/src/read_projection.rs: pages are answered in every journal that calls led to.
use Prim.Native.Nat.{max, min}
use temp_js.Prelude.{
  ℕ, suc, ◌-◌, ◌≤◌, ◌≡◌, sym, ap, ap₂, ◌∙◌, subst, Str, pos, leb_ℤ, Bool, true, some, List, map,
  All, All-take, All-select, All-select_passes, select, take, length, ◌==◌, ==_iff, ltb, arith,
  sort_by-sorted, last_number,
}
use temp_js.Result.{ok}
use temp_js.Journal.Model.{GoalScope}
use temp_js.Journal.Serde.{Serde}
use temp_js.Journal.Store.{GoalRevisionEntry, Db}
use temp_js.Journal.History.{goal_revision_rows, selects_goal_revision}
use temp_js.Journal.Goals.Histories.{Historic}
use temp_js.Journal.Goals.Revisions.{of_goal, number}
use temp_js.Journal.Projection.Activity.{
  GoalActivityCursor, GoalActivityPage, window_of, max_receipts, min_usize, ◌-ℤ◌, read_revisions,
  read_receipts, checked_succ, page_of, read_page,
}
use temp_js.Journal.Projection.Pages.{expected_size}
use temp_js.Journal.Projection.Sequence.{Consecutive, Consecutive-take, length-take}
use temp_js.Journal.Projection.Cursors.{Spans}
use temp_js.Journal.Projection.Receipts.{Receipted, Paired-timed}
use temp_js.Journal.Projection.Selected.{select_lem}
use temp_js.Journal.Projection.Matched.{HasReceipt, all-HasReceipt}
use temp_js.Journal.Projection.Complete.{
  pair, IsTimed, Consecutive-IsSorted, read_revisions_complete, read_receipts_complete,
  last_revision_complete, take-map, length-map,
}

module _ ⦃serde : Serde⦄ (db : Db) (scope : GoalScope) (id : Str) (historic : Historic db)
    (receipted : Receipted db) where
  abbrev own : GoalRevisionEntry → Bool
  own = of_goal scope id

  module _ (cursor : GoalActivityCursor) (a b : ℕ) (spans : Spans cursor a b)
      (inside : b ≤ last_number own number 0 db.goal_revisions) (small : b ≤ 1000000000) where
    abbrev chosen : List GoalRevisionEntry
    chosen = select (selects_goal_revision scope id (window_of cursor)) db.goal_revisions

    abbrev rows : List GoalRevisionEntry
    rows = take 101 chosen

    chosen_lem :
        Consecutive {A = GoalRevisionEntry} (λ row. row.revision) a chosen × (length chosen ≡ b - a)
    chosen_lem =
        let (numbered, size) =
          select_lem scope id (window_of cursor) a b spans.after spans.through 0 db.goal_revisions
            (historic.numbered scope id) in
        let from : max 0 a ≡ a = omega arith in
        (
          subst (λ m. Consecutive {A = GoalRevisionEntry} (λ row. row.revision) m chosen) from
              numbered,
          omega (arith, size, inside),
        )

    rows_lem : goal_revision_rows scope id (window_of cursor) db ≡ rows
    unfolding goal_revision_rows
    rows_lem = ap (take 101) (
        sort_by-sorted (λ x y. leb_ℤ x.revision y.revision) chosen
          (Consecutive-IsSorted a chosen chosen_lem.0))

    rows-IsTimed : All IsTimed rows
    rows-IsTimed = All-take IsTimed 101 chosen (
        All-select IsTimed (selects_goal_revision scope id (window_of cursor)) db.goal_revisions
          (Paired-timed db.goal_revisions db.goal_events receipted))

    selected-own :
        (row : GoalRevisionEntry)
        → selects_goal_revision scope id (window_of cursor) row ≡ true
        → own row ≡ true
    unfolding selects_goal_revision
    selected-own row h = ground arith

    abbrev Has : GoalRevisionEntry → Type 0
    Has = HasReceipt scope id db.goal_events

    rows-HasReceipt : All (HasReceipt scope id db.goal_events) (take max_receipts rows)
    rows-HasReceipt = All-take Has max_receipts rows (
        All-take Has 101 chosen (
          All-select_passes (λ row. own row ≡ true → Has row) Has
            (selects_goal_revision scope id (window_of cursor))
            (λ row picked has. has (selected-own row picked)) db.goal_revisions
            (all-HasReceipt scope id db.goal_revisions db.goal_events receipted
              (historic.numbered scope id))))

    size : length rows ≡ min (b - a) 101
    size = length-take 101 chosen ∙ omega (arith, chosen_lem.1)

    pub page_exists : (page : GoalActivityPage) × (read_page scope id db cursor ≡ ok page)
    unfolding read_page
    page_exists =
        let ordered = spans.ordered in
        let steps : checked_succ cursor.after_revision ≡ some (pos (suc a)) =
          ap checked_succ spans.after ∙ ground (arith, small, ordered) in
        let read : read_revisions (pos (suc a)) (goal_revision_rows scope id (window_of cursor) db)
            ≡ ok (map pair rows) =
          ap (read_revisions (pos (suc a))) rows_lem
          ∙ read_revisions_complete a rows
              (Consecutive-take (λ row. row.revision) a 101 chosen chosen_lem.0) rows-IsTimed
              (omega (arith, size, small, ordered)) in
        let sized : length (map pair rows)
              == min_usize (cursor.through_revision -ℤ cursor.after_revision) 101
            ≡ true =
          (==_iff _ _).1 (
            length-map rows
            ∙ size
            ∙ sym (
                ap₂ (λ x y. min_usize (x -ℤ y) 101) spans.through spans.after
                ∙ expected_size a b ordered)) in
        let (receipts, found, as_many) =
          read_receipts_complete scope id db (take max_receipts rows) rows-HasReceipt in
        let matched : read_receipts scope id db (take max_receipts (map pair rows)) ≡ ok receipts =
          ap (read_receipts scope id db) (take-map max_receipts rows) ∙ found in
        let (r, last) =
          last_revision_complete receipts
            (omega (arith, as_many, length-take max_receipts rows, size, ordered)) in
        (
          page_of scope id cursor (ltb max_receipts (length (map pair rows))) receipts r,
          rw (steps, read, sized, matched, last),
        )
