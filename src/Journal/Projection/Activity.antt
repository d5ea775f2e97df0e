-- ===== src/Journal/Projection/Activity.antt =====
-- crates/beater-journal/src/read_projection.rs: the revisions of a goal in pages.
use temp_js.Prelude.{
  ℕ, suc, ◌+◌, ◌-◌, ◌^◌, Str, lit, ℤ, pos, negsuc, succ_ℤ, leb_ℤ, eq_ℤ, Bool, not, ◌&&◌, ◌||◌,
  Option, none, some, List, [], ◌∷◌, find, select, take, length, leb, ltb, ◌==◌, str_eq,
  if◌then◌else◌,
}
use temp_js.Result.{Result, ok, err, ensure, or_fail, refused, no_goal, conversion, ◌>>=◌, ◌>>◌}
use temp_js.Journal.Model.{GoalScope, HistoryWindow}
use temp_js.Journal.Serde.{Serde}
use temp_js.Journal.Store.{integer, GoalEntry, GoalRevisionEntry, GoalEventEntry, Db, scope_eq}
use temp_js.Journal.Runs.{is_goal}
use temp_js.Journal.Validate.{validate_scope, valid_identifier, valid_revision}
use temp_js.Journal.History.{goal_revision_rows}

abbrev pub max_receipts : ℕ
max_receipts = 100

pub record GoalActivityCursor : Type 0 where
  pub scope : GoalScope
  pub goal_id : Str
  pub after_revision : ℤ
  pub through_revision : ℤ

pub record GoalActivityReceipt : Type 0 where
  pub revision : ℤ
  pub event : Str
  pub created_at : ℤ

pub record GoalActivityPage : Type 0 where
  pub scope : GoalScope
  pub goal_id : Str
  pub snapshot_revision : ℤ
  pub returned_after_revision : ℤ
  pub returned_through_revision : ℤ
  pub reached_snapshot : Bool
  pub receipts : List GoalActivityReceipt
  pub next_cursor : Option GoalActivityCursor

-- `i64::checked_add(1)`
abbrev pub checked_succ : ℤ → Option ℤ
checked_succ n = if eq_ℤ n (pos 9223372036854775807) then none else some (succ_ℤ n)

-- `a - b` of two i64 that are not negative
abbrev pub minus_ℤ : ℕ → ℕ → ℤ
minus_ℤ a b = if leb b a then pos (a - b) else negsuc (b - a - 1)

infixl 20 ◌-ℤ◌
abbrev pub ◌-ℤ◌ : ℤ → ℤ → ℤ
pos a -ℤ pos b = minus_ℤ a b
pos a -ℤ negsuc b = pos (a + b + 1)
negsuc a -ℤ pos b = negsuc (a + b)
negsuc a -ℤ negsuc b = minus_ℤ b a

-- `n.min(m as i64) as usize`
abbrev pub min_usize : ℤ → ℕ → ℕ
min_usize (pos n) m = if leb n m then n else m
min_usize (negsuc n) m = 2 ^ 64 - suc n

unfoldable pub valid_goal_event : Str → Bool
valid_goal_event event =
    str_eq event (lit "created")
    || str_eq event (lit "revised")
    || str_eq event (lit "milestone_recorded")

unfoldable pub validate_cursor : GoalScope → Str → GoalActivityCursor → Result (Unit {0})
validate_cursor scope goal_id cursor = do
  validate_scope scope
  ensure (valid_identifier goal_id) "invalid goal id"
  ensure (scope_eq cursor.scope scope && str_eq cursor.goal_id goal_id)
      "cursor scope or target mismatch"
  ensure (valid_revision cursor.through_revision) "invalid cursor snapshot"
  ensure
      (leb_ℤ (pos 0) cursor.after_revision
        && not (leb_ℤ cursor.through_revision cursor.after_revision))
      "invalid cursor continuation"

-- The cursor of a request without one.
abbrev pub first_cursor : GoalScope → Str → ℤ → GoalActivityCursor
first_cursor scope goal_id current = record {
  scope = scope;
  goal_id = goal_id;
  after_revision = pos 0;
  through_revision = current;
}

unfoldable pub choose_cursor :
    GoalScope → Str → ℤ → Option GoalActivityCursor → Result GoalActivityCursor
unfolding validate_cursor
choose_cursor scope goal_id current none = ok (first_cursor scope goal_id current)
choose_cursor scope goal_id current (some cursor) = do
  validate_cursor scope goal_id cursor
  ensure (leb_ℤ cursor.through_revision current) "cursor snapshot exceeds current goal revision"
  ok cursor

-- `receipts.last()`
unfoldable pub last_revision : List GoalActivityReceipt → Option ℤ
last_revision [] = none
last_revision (receipt ∷ []) = some receipt.revision
last_revision (receipt ∷ next ∷ rest) = last_revision (next ∷ rest)

unfoldable pub page_of :
    GoalScope → Str → GoalActivityCursor → Bool → List GoalActivityReceipt → ℤ → GoalActivityPage
page_of scope goal_id cursor has_more receipts returned_through =
    let reached = not has_more && eq_ℤ returned_through cursor.through_revision in
    record {
      scope = scope;
      goal_id = goal_id;
      snapshot_revision = cursor.through_revision;
      returned_after_revision = cursor.after_revision;
      returned_through_revision = returned_through;
      reached_snapshot = reached;
      receipts = receipts;
      next_cursor =
          if not reached then some (record cursor { after_revision = returned_through }) else none;
    }

module _ ⦃serde : Serde⦄ where
  -- SELECT revision FROM goals …
  unfoldable pub current_revision : Str → Option GoalEntry → Result ℤ
  current_revision goal_id none = err (no_goal goal_id)
  current_revision goal_id (some row) = elim row.revision [ integer n ↦ ok n | _ ↦ err conversion ]

  -- The loop over the rows of `goal_revisions`.
  unfoldable pub read_revisions : ℤ → List GoalRevisionEntry → Result (List (ℤ × ℤ))
  read_revisions expected [] = ok []
  read_revisions expected (row ∷ rows) = do
    ensure (eq_ℤ row.revision expected && leb_ℤ (pos 0) row.created_at)
        "goal history is missing, duplicate, or truncated"
    next ← or_fail (checked_succ expected) (refused "history revision overflow")
    rest ← read_revisions next rows
    ok ((row.revision, row.created_at) ∷ rest)

  unfoldable pub is_event : GoalScope → Str → ℤ → GoalEventEntry → Bool
  is_event scope goal_id revision row =
      scope_eq row.scope scope && str_eq row.goal_id goal_id && eq_ℤ row.revision revision

  -- What the SELECT … LIMIT 2 of one revision must find.
  unfoldable pub receipt_of : ℤ → ℤ → List GoalEventEntry → Result GoalActivityReceipt
  unfolding valid_goal_event
  receipt_of revision created_at (value ∷ []) =
      if valid_goal_event value.event && eq_ℤ value.created_at created_at
      then ok (record { revision = revision; event = value.event; created_at = created_at })
      else err (refused "corrupt goal activity receipt")
  receipt_of revision created_at _ = err (refused "corrupt goal activity receipt")

  unfoldable pub read_receipts :
      GoalScope → Str → Db → List (ℤ × ℤ) → Result (List GoalActivityReceipt)
  unfolding receipt_of is_event
  read_receipts scope goal_id db [] = ok []
  read_receipts scope goal_id db ((revision, created_at) ∷ rest) = do
    receipt ←
        receipt_of revision created_at
          (take 2 (select (is_event scope goal_id revision) db.goal_events))
    receipts ← read_receipts scope goal_id db rest
    ok (receipt ∷ receipts)

  abbrev pub window_of : GoalActivityCursor → HistoryWindow
  window_of cursor = record {
    after_revision = cursor.after_revision;
    through_revision = cursor.through_revision;
    limit = suc max_receipts;
  }

  unfoldable pub read_page : GoalScope → Str → Db → GoalActivityCursor → Result GoalActivityPage
  unfolding read_revisions read_receipts last_revision page_of
  read_page scope goal_id db cursor = do
    expected ← or_fail (checked_succ cursor.after_revision) (refused "history revision overflow")
    revisions ← read_revisions expected (goal_revision_rows scope goal_id (window_of cursor) db)
    ensure
        (length revisions
          == min_usize (cursor.through_revision -ℤ cursor.after_revision) (suc max_receipts))
        "goal history is missing, duplicate, or truncated"
    receipts ← read_receipts scope goal_id db (take max_receipts revisions)
    returned_through ←
        or_fail (last_revision receipts) (refused "bounded receipt page unexpectedly empty")
    ok (
        page_of scope goal_id cursor (ltb max_receipts (length revisions)) receipts
          returned_through)

  unfoldable pub goal_activity_page :
      Db → GoalScope → Str → Option GoalActivityCursor → Result GoalActivityPage
  unfolding current_revision choose_cursor read_page
  goal_activity_page db scope goal_id requested = do
    validate_scope scope
    ensure (valid_identifier goal_id) "invalid goal id"
    current ← current_revision goal_id (find (is_goal scope goal_id) db.goals)
    ensure (valid_revision current) "corrupt goal revision"
    cursor ← choose_cursor scope goal_id current requested
    read_page scope goal_id db cursor
