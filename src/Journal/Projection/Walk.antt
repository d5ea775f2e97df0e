-- ===== src/Journal/Projection/Walk.antt =====
-- crates/beater-journal/src/read_projection.rs: a reader that follows the cursors of the pages while other
-- calls write.
use temp_js.Prelude.{
  ℕ, zero, suc, ◌+◌, ◌-◌, ◌*◌, ◌≤◌, ◌<◌, ◌≡◌, refl, sym, ◌∙◌, subst, inl, inr, Str, pos, true,
  false, Option, none, some, List, ◌++◌, All, length, length-append, leb, arith, str_eq_refl,
  Bool-cases,
}
use temp_js.Result.{Result, ok, err, refused, ◌>>=◌}
use temp_js.Journal.Model.{GoalScope}
use temp_js.Journal.Serde.{Serde}
use temp_js.Journal.Laws.{SerdeLaws}
use temp_js.Journal.Store.{Db, empty_db}
use temp_js.Journal.Gate.{scope_eq_refl}
use temp_js.Journal.Session.{Call, clock, perform_all}
use temp_js.Journal.Validate.{validate_scope, valid_identifier, valid_revision}
use temp_js.Journal.Goals.Revisions.{revision_of}
use temp_js.Journal.Goals.Whole.{IsStableCall, calls-Historic, perform_all-Historic}
use temp_js.Journal.Goals.Winner.{revision_monotone}
use temp_js.Journal.Projection.Activity.{
  GoalActivityCursor, GoalActivityReceipt, GoalActivityPage, choose_cursor, goal_activity_page,
  first_cursor,
}
use temp_js.Journal.Projection.Pages.{IsPage}
use temp_js.Journal.Projection.Sequence.{Consecutive, Consecutive-append}
use temp_js.Journal.Projection.Cursors.{Spans}
use temp_js.Journal.Projection.Receipts.{IsTime, calls-Receipted, perform_all-Receipted}
use temp_js.Journal.Projection.Reading.{IsReadable, IsOwn, current_lem, choose-again, IsPage-step}

module _ ⦃serde : Serde⦄ (scope : GoalScope) (id : Str) where
  -- Reads pages until one has no next cursor; after each page, the calls that `between` gives.
  unfoldable pub read_all :
      ℕ → (ℕ → List Call) → Db → Option GoalActivityCursor → Result (List GoalActivityReceipt)
  read_all zero between db requested = err (refused "more pages")
  read_all (suc fuel) between db requested =
      let rest = read_all fuel between (perform_all db (between fuel)) in
      goal_activity_page db scope id requested >>= λ page. elim page.next_cursor [
        | none ↦ ok page.receipts
        | some next ↦ rest (some next) >>= λ receipts. ok (page.receipts ++ receipts)
      ]

  module _ (scoped : validate_scope scope ≡ ok tt) (named : valid_identifier id ≡ true) where
    module _ (laws : SerdeLaws) (between : ℕ → List Call)
        (stable : (k : ℕ) → All IsStableCall (between k))
        (times : (k : ℕ) → All (λ call. IsTime (clock call)) (between k)) (b : ℕ) where
      after_calls :
          (k : ℕ) (db : Db)
          → IsReadable scope id b db
          → IsReadable scope id b (perform_all db (between k))
      after_calls k db h = record {
        historic = calls-Historic laws db (between k) (stable k) h.historic;
        receipted = calls-Receipted db (between k) (times k) h.receipted;
        reached = omega (
          arith,
          h.reached,
          revision_monotone laws scope id db (between k) (stable k) h.historic,
        );
      }

      abbrev Reads : ℕ → ℕ → Db → Option GoalActivityCursor → Type 0
      Reads a fuel db requested =
          (receipts : List GoalActivityReceipt) × (read_all fuel between db requested ≡ ok receipts)
          × Consecutive {A = GoalActivityReceipt} (λ r. r.revision) a receipts
          × (length receipts ≡ b - a)

      last_page :
          (a fuel : ℕ) (db : Db) (requested : Option GoalActivityCursor)
          (cursor : GoalActivityCursor) (page : GoalActivityPage)
          → goal_activity_page db scope id requested ≡ ok page
          → IsPage cursor a b page
          → leb (b - a) 100 ≡ true
          → Reads a (suc fuel) db requested
      unfolding read_all
      last_page a fuel db requested cursor page e is all_here =
          let ended : page.next_cursor ≡ none = is.next ∙ rw all_here in
          (page.receipts, rw (e, ended), is.receipts, ground (arith, is.size, all_here))

      more_pages :
          (a fuel : ℕ) (db : Db) (requested : Option GoalActivityCursor)
          (cursor : GoalActivityCursor) (page : GoalActivityPage)
          → goal_activity_page db scope id requested ≡ ok page
          → IsPage cursor a b page
          → leb (b - a) 100 ≡ false
          → Reads
              (a + 100)
              fuel
              (perform_all db (between fuel))
              (some (record cursor { after_revision = pos (a + 100) }))
          → Reads a (suc fuel) db requested
      unfolding read_all
      more_pages a fuel db requested cursor page e is more (receipts, found, consecutive, size) =
          let next : page.next_cursor ≡ some (record cursor { after_revision = pos (a + 100) }) =
            is.next ∙ rw more in
          let full : length page.receipts ≡ 100 = ground (arith, is.size, more) in
          (
            page.receipts ++ receipts,
            rw (e, next, found),
            Consecutive-append (λ r. r.revision) a page.receipts receipts is.receipts
                (subst
                  (λ k. Consecutive {A = GoalActivityReceipt} (λ r. r.revision) (a + k) receipts)
                  (sym full) consecutive),
            length-append page.receipts receipts ∙ ground (arith, full, size, more),
          )

      walk :
          (fuel a : ℕ) (db : Db) (requested : Option GoalActivityCursor)
          (cursor : GoalActivityCursor)
          → Spans cursor a b
          → IsOwn scope id cursor
          → IsReadable scope id b db
          → b - a ≤ 100 * fuel
          → ((n : ℕ)
              → revision_of db scope id ≡ n
              → valid_revision (pos n) ≡ true
              → choose_cursor scope id (pos n) requested ≡ ok cursor)
          → Reads a fuel db requested
      walk zero a db requested cursor spans mine h enough choose =
          absurd (omega (arith, spans.ordered, enough))
      walk (suc fuel) a db requested cursor spans mine h enough choose =
          let (n, stored, valid, same) =
            current_lem scope id b db (omega (arith, spans.ordered)) h in
          let (page, e, is) =
            IsPage-step scope id scoped named db requested cursor a b n spans h stored valid same
              (choose n same valid) in
          elim (Bool-cases (leb (b - a) 100)) [
            | inl all_here ↦ last_page a fuel db requested cursor page e is all_here
            | inr more ↦
                let next = record cursor { after_revision = pos (a + 100) } in
                let db' = perform_all db (between fuel) in
                let spans' : Spans next (a + 100) b = record {
                  after = refl;
                  through = spans.through;
                  ordered = ground (arith, more);
                } in
                let h' = after_calls fuel db h in
                more_pages a fuel db requested cursor page e is more (
                  walk fuel (a + 100) db' (some next) next spans' mine h'
                    (ground (arith, enough, more))
                    (λ n' same' valid'.
                      choose-again scope id scoped named next (a + 100) b n' spans' mine
                        (omega (arith, same', h'.reached)) valid'))
          ]

  -- In a journal that any calls led to, at times that are not negative, a goal that exists can be read
  -- page by page, whatever calls come between the pages: with a page for each 100 of its revisions a
  -- reader that follows the cursors comes to an end, and has then received each revision that the goal
  -- had at the start, 1, 2, 3, ..., once and in order. The goal's scope and id are assumed to be valid.
  -- The values of the parameters that the calls set are ones that read back as they were written, and
  -- a valid goal of such parameters that was written is assumed to parse back.
  pub read_all_complete :
      (laws : SerdeLaws) (before : List Call) (between : ℕ → List Call) (fuel : ℕ)
      → validate_scope scope ≡ ok tt
      → valid_identifier id ≡ true
      → All IsStableCall before
      → ((k : ℕ) → All IsStableCall (between k))
      → All (λ call. IsTime (clock call)) before
      → ((k : ℕ) → All (λ call. IsTime (clock call)) (between k))
      → 0 < revision_of (perform_all empty_db before) scope id
      → revision_of (perform_all empty_db before) scope id ≤ 100 * fuel
      → (receipts : List GoalActivityReceipt) × (read_all fuel between
            (perform_all empty_db before)
            none
          ≡ ok receipts)
        × Consecutive {A = GoalActivityReceipt} (λ r. r.revision) 0 receipts
        × (length receipts ≡ revision_of (perform_all empty_db before) scope id)
  unfolding choose_cursor
  read_all_complete laws before between fuel scoped named stable stays times later exists enough =
      let db = perform_all empty_db before in
      let b = revision_of db scope id in
      let (receipts, found, consecutive, size) =
        walk scoped named laws between stays later b fuel 0 db none (first_cursor scope id (pos b))
          (record { after = refl; through = refl; ordered = exists })
          (simp (scope_eq_refl, str_eq_refl))
          (record {
            historic = perform_all-Historic laws before stable;
            receipted = perform_all-Receipted before times;
            reached = omega arith;
          })
          (omega (arith, enough)) (λ n same valid. rw (sym same)) in
      (receipts, found, consecutive, omega (arith, size))
