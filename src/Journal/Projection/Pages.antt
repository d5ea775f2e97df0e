-- ===== src/Journal/Projection/Pages.antt =====
-- crates/beater-journal/src/read_projection.rs: what a page of the activity of a goal holds.
use Prim.Native.Nat.{min}
use temp_js.Prelude.{
  ℕ, suc, ◌+◌, ◌-◌, ◌<◌, ◌≡◌, refl, sym, ap, ap₂, ◌∙◌, subst, inl, inr, Str, ℤ, pos, eq_ℤ, eq_ℤ_iff,
  Bool, not, ◌&&◌, Option, none, some, List, [], ◌∷◌, find, take, length, leb, ltb, ◌==◌, ==_iff,
  arith, if◌then◌else◌, Bool-cases,
}
use temp_js.Result.{ok, refused, ensure, or_fail, bind_sound, ensure_sound, or_fail_sound}
use temp_js.Journal.Model.{GoalScope}
use temp_js.Journal.Serde.{Serde}
use temp_js.Journal.Store.{GoalRevisionEntry, GoalEventEntry, Db}
use temp_js.Journal.Runs.{is_goal}
use temp_js.Journal.Validate.{validate_scope, valid_identifier, valid_revision}
use temp_js.Journal.History.{goal_revision_rows}
use temp_js.Journal.Projection.Activity.{
  window_of, choose_cursor, current_revision, goal_activity_page, GoalActivityCursor,
  GoalActivityReceipt, GoalActivityPage, max_receipts, checked_succ, min_usize, ◌-ℤ◌, last_revision,
  page_of, read_revisions, receipt_of, valid_goal_event, read_receipts, read_page,
}
use temp_js.Journal.Projection.Sequence.{Consecutive, Consecutive-take, length-take}
use temp_js.Journal.Projection.Cursors.{Spans, choose_cursor_sound}

checked_succ_sound : (n : ℕ) (m : ℤ) → checked_succ (pos n) ≡ some m → m ≡ pos (suc n)
checked_succ_sound n m e = ground arith

abbrev revision : GoalActivityReceipt → ℤ
revision receipt = receipt.revision

last_revision_sound :
    (n : ℕ) (receipts : List GoalActivityReceipt) (r : ℤ)
    → Consecutive revision n receipts
    → last_revision receipts ≡ some r
    → r ≡ pos (n + length receipts)
unfolding last_revision
last_revision_sound n [] r h e = absurd (cc e)
last_revision_sound n (receipt ∷ []) r h e = ground arith
last_revision_sound n (receipt ∷ next ∷ rest) r h e =
    let ih = last_revision_sound (suc n) (next ∷ rest) r h.1 e in ih ∙ ap pos (omega arith)

module _ ⦃serde : Serde⦄ where
  read_revisions_sound :
      (n : ℕ) (rows : List GoalRevisionEntry) (out : List (ℤ × ℤ))
      → read_revisions (pos (suc n)) rows ≡ ok out
      → Consecutive (λ entry. entry.0) n out
  unfolding read_revisions
  read_revisions_sound n [] out e =
      let same : [] ≡ out = cc e in subst (Consecutive {A = ℤ × ℤ} (λ entry. entry.0) n) same tt
  read_revisions_sound n (row ∷ rows) out e =
      let (_, checked, e1) = bind_sound (ensure (eq_ℤ row.revision (pos (suc n)) && _) _) _ out e in
      let (next, stepped, e2) = bind_sound (or_fail (checked_succ (pos (suc n))) _) _ out e1 in
      let (rest, read, e3) = bind_sound (read_revisions next rows) _ out e2 in
      let next_is = checked_succ_sound (suc n) next (or_fail_sound _ _ next stepped) in
      let same : (row.revision, row.created_at) ∷ rest ≡ out = cc e3 in
      subst (Consecutive (λ entry. entry.0) n) same (
        (eq_ℤ_iff row.revision (pos (suc n))).0 (ground (arith, ensure_sound _ _ checked)),
        read_revisions_sound (suc n) rows rest
            (ap (λ m. read_revisions m rows) (sym next_is) ∙ read),
      )

  receipt_of_sound :
      (r t : ℤ) (events : List GoalEventEntry) (receipt : GoalActivityReceipt)
      → receipt_of r t events ≡ ok receipt
      → receipt.revision ≡ r
  unfolding receipt_of
  receipt_of_sound r t [] receipt e = absurd (cc e)
  receipt_of_sound r t (value ∷ []) receipt e =
      elim (Bool-cases (valid_goal_event value.event && eq_ℤ value.created_at t)) [
        | inl fine ↦ ground arith
        | inr corrupt ↦ absurd (ground arith)
      ]
  receipt_of_sound r t (value ∷ other ∷ rest) receipt e = absurd (cc e)

  read_receipts_sound :
      (scope : GoalScope) (goal_id : Str) (db : Db) (n : ℕ) (revisions : List (ℤ × ℤ))
      (receipts : List GoalActivityReceipt)
      → Consecutive (λ entry. entry.0) n revisions
      → read_receipts scope goal_id db revisions ≡ ok receipts
      → Consecutive revision n receipts × (length receipts ≡ length revisions)
  unfolding read_receipts
  read_receipts_sound scope goal_id db n [] receipts h e =
      let same : [] ≡ receipts = cc e in
      subst (λ x. Consecutive revision n x × (length x ≡ 0)) same (tt, refl)
  read_receipts_sound scope goal_id db n ((r, t) ∷ rest) receipts h e =
      let (first, found, e1) = bind_sound (receipt_of r t _) _ receipts e in
      let (others, read, e2) = bind_sound (read_receipts scope goal_id db rest) _ receipts e1 in
      let ih = read_receipts_sound scope goal_id db (suc n) rest others h.1 read in
      let same : first ∷ others ≡ receipts = cc e2 in
      subst (λ x. Consecutive revision n x × (length x ≡ suc (length rest))) same
        ((receipt_of_sound r t _ first found ∙ h.0, ih.0), ap suc ih.1)

  -- The page after revision `a`, through revision `b`.
  pub record IsPage (cursor : GoalActivityCursor) (a b : ℕ) (page : GoalActivityPage) : Type 0 where
    pub receipts : Consecutive revision a page.receipts
    pub size : length page.receipts ≡ min max_receipts (b - a)
    pub snapshot : page.snapshot_revision ≡ pos b
    pub returned_after : page.returned_after_revision ≡ pos a
    pub returned_through : page.returned_through_revision ≡ pos (a + min max_receipts (b - a))
    pub reached : page.reached_snapshot ≡ leb (b - a) max_receipts
    pub next : page.next_cursor ≡ (
        if leb (b - a) max_receipts
        then none
        else some (record cursor { after_revision = pos (a + max_receipts) }))

  pub expected_size : (a b : ℕ) → a < b → min_usize (pos b -ℤ pos a) 101 ≡ min (b - a) 101
  expected_size a b h = ground arith

  module _ (scope : GoalScope) (goal_id : Str) (cursor : GoalActivityCursor) (a b : ℕ)
      (after : cursor.after_revision ≡ pos a) (through : cursor.through_revision ≡ pos b)
      (h : a < b) where
    reached_lem :
        (has_more : Bool) (r : ℤ)
        → has_more ≡ ltb max_receipts (min (b - a) 101)
        → r ≡ pos (a + min max_receipts (b - a))
        → not has_more && eq_ℤ r cursor.through_revision ≡ leb (b - a) max_receipts
    reached_lem has_more r more last = rw (more, last, through) (ground arith)

    next_lem :
        (reached : Bool) (r : ℤ)
        → reached ≡ leb (b - a) max_receipts
        → r ≡ pos (a + min max_receipts (b - a))
        → (if not reached then some (record cursor { after_revision = r }) else none) ≡ (
            if leb (b - a) max_receipts
            then none
            else some (record cursor { after_revision = pos (a + max_receipts) }))
    next_lem reached r same last = elim (Bool-cases (leb (b - a) max_receipts)) [
      | inl all_here ↦ rw (same, all_here)
      | inr more ↦
          let full : r ≡ pos (a + max_receipts) = last ∙ ap pos (ground arith) in
          rw (same, more, full)
    ]

    page_of-IsPage :
        (has_more : Bool) (receipts : List GoalActivityReceipt) (r : ℤ)
        → Consecutive revision a receipts
        → length receipts ≡ min max_receipts (b - a)
        → has_more ≡ ltb max_receipts (min (b - a) 101)
        → r ≡ pos (a + length receipts)
        → IsPage cursor a b (page_of scope goal_id cursor has_more receipts r)
    unfolding page_of
    page_of-IsPage has_more receipts r consecutive size more last =
        let full : r ≡ pos (a + min max_receipts (b - a)) = last ∙ ap (λ k. pos (a + k)) size in
        record {
          receipts = consecutive;
          size = size;
          snapshot = through;
          returned_after = after;
          returned_through = full;
          reached = reached_lem has_more r more full;
          next = next_lem _ r (reached_lem has_more r more full) full;
        }

    pub read_page_sound :
        (db : Db) (page : GoalActivityPage)
        → read_page scope goal_id db cursor ≡ ok page
        → IsPage cursor a b page
    unfolding read_page
    read_page_sound db page e =
        let rows = goal_revision_rows scope goal_id (window_of cursor) db in
        let (expected, stepped, e1) =
          bind_sound
            (or_fail (checked_succ cursor.after_revision) (refused "history revision overflow")) _
            page e in
        let (revisions, read, e2) = bind_sound (read_revisions expected rows) _ page e1 in
        let (_, sized, e3) =
          bind_sound
            (ensure
              (length revisions == min_usize (cursor.through_revision -ℤ cursor.after_revision) 101)
              "goal history is missing, duplicate, or truncated")
            _ page e2 in
        let (receipts, matched, e4) =
          bind_sound (read_receipts scope goal_id db (take max_receipts revisions)) _ page e3 in
        let (returned, last, e5) =
          bind_sound
            (or_fail (last_revision receipts) (refused "bounded receipt page unexpectedly empty")) _
            page e4 in
        let expected_is : expected ≡ pos (suc a) =
          checked_succ_sound a expected
            (ap checked_succ (sym after) ∙ or_fail_sound _ _ expected stepped) in
        let numbered =
          read_revisions_sound a rows revisions
            (ap (λ m. read_revisions m rows) (sym expected_is) ∙ read) in
        let size : length revisions ≡ min (b - a) 101 =
          (==_iff _ _).0 (ensure_sound _ _ sized)
          ∙ ap₂ (λ x y. min_usize (x -ℤ y) 101) through after
          ∙ expected_size a b h in
        let (consecutive, as_many) =
          read_receipts_sound scope goal_id db a (take max_receipts revisions) receipts
            (Consecutive-take _ a max_receipts revisions numbered) matched in
        let same : page_of scope goal_id cursor (ltb max_receipts (length revisions)) receipts
              returned
            ≡ page =
          cc e5 in
        subst (IsPage cursor a b) same (
          page_of-IsPage _ receipts returned consecutive
            (as_many ∙ length-take max_receipts revisions ∙ omega (arith, size))
            (ap (ltb max_receipts) size)
            (last_revision_sound a receipts returned consecutive (or_fail_sound _ _ returned last)))

  -- What a page that was answered holds.
  pub record IsAnswer (db : Db) (scope : GoalScope) (goal_id : Str)
      (requested : Option GoalActivityCursor) (page : GoalActivityPage) : Type 0 where
    pub current : ℤ
    pub stored : current_revision goal_id (find (is_goal scope goal_id) db.goals) ≡ ok current
    pub cursor : GoalActivityCursor
    pub chosen : choose_cursor scope goal_id current requested ≡ ok cursor
    pub a : ℕ
    pub b : ℕ
    pub spans : Spans cursor a b
    pub is_page : IsPage cursor a b page

  -- A page that is answered, on any journal: it starts after the revision that its cursor names, or
  -- at the first one, and holds the receipts of the revisions that follow, each once and in order, as
  -- many as the snapshot has and at most 100; it says that it reached the snapshot exactly if none is
  -- left, and else its next cursor continues after its last receipt in the same snapshot.
  pub goal_activity_page_sound :
      (db : Db) (scope : GoalScope) (goal_id : Str) (requested : Option GoalActivityCursor)
      (page : GoalActivityPage)
      → goal_activity_page db scope goal_id requested ≡ ok page
      → IsAnswer db scope goal_id requested page
  unfolding goal_activity_page
  goal_activity_page_sound db scope goal_id requested page e =
      let (_, _, e1) = bind_sound (validate_scope scope) _ page e in
      let (_, _, e2) = bind_sound (ensure (valid_identifier goal_id) "invalid goal id") _ page e1 in
      let (current, stored, e3) =
        bind_sound (current_revision goal_id (find (is_goal scope goal_id) db.goals)) _ page e2 in
      let (_, valid, e4) =
        bind_sound (ensure (valid_revision current) "corrupt goal revision") _ page e3 in
      let (cursor, chosen, e5) =
        bind_sound (choose_cursor scope goal_id current requested) _ page e4 in
      let (a, b, spans) =
        choose_cursor_sound scope goal_id current requested cursor (ensure_sound _ _ valid)
          chosen in
      record {
        current = current;
        stored = stored;
        cursor = cursor;
        chosen = chosen;
        a = a;
        b = b;
        spans = spans;
        is_page =
            read_page_sound scope goal_id cursor a b spans.after spans.through spans.ordered db page
              e5;
      }
