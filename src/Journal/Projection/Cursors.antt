-- ===== src/Journal/Projection/Cursors.antt =====
-- crates/beater-journal/src/read_projection.rs: the bounds of a cursor that passed its checks.
use temp_js.Prelude.{
  ℕ, ◌≤◌, ◌<◌, ◌≡◌, refl, subst, Str, ℤ, pos, negsuc, leb_ℤ, true, not, ◌&&◌, Option, none, some,
  arith,
}
use temp_js.Result.{ok, ensure, bind_sound, ensure_sound}
use temp_js.Journal.Model.{GoalScope}
use temp_js.Journal.Serde.{Serde}
use temp_js.Journal.Validate.{valid_revision}
use temp_js.Journal.Projection.Activity.{
  validate_cursor, choose_cursor, first_cursor, GoalActivityCursor,
}

module _ ⦃serde : Serde⦄ where
  -- The bounds of a cursor.
  pub record Spans (cursor : GoalActivityCursor) (a b : ℕ) : Type 0 where
    pub after : cursor.after_revision ≡ pos a
    pub through : cursor.through_revision ≡ pos b
    pub ordered : a < b

  pub within_sound : (n : ℤ) → valid_revision n ≡ true → (b : ℕ) × (n ≡ pos b) × (0 < b)
  within_sound (pos b) h = (b, refl, ground arith)
  within_sound (negsuc b) h = absurd (ground arith)

  continues_sound :
      (x y : ℤ)
      → leb_ℤ (pos 0) x && not (leb_ℤ y x) ≡ true
      → (b : ℕ) → y ≡ pos b
      → (a : ℕ) × (x ≡ pos a) × (a < b)
  continues_sound (pos a) y h b e = (a, refl, ground (arith, e))
  continues_sound (negsuc a) y h b e = absurd (ground arith)

  pub validate_cursor_sound :
      (scope : GoalScope) (goal_id : Str) (cursor : GoalActivityCursor)
      → validate_cursor scope goal_id cursor ≡ ok tt
      → (a : ℕ) × (b : ℕ) × Spans cursor a b
  unfolding validate_cursor
  validate_cursor_sound scope goal_id cursor e =
      let (b, through, positive) = within_sound cursor.through_revision (ground arith) in
      let (a, after, ordered) =
        continues_sound cursor.after_revision cursor.through_revision (ground arith) b through in
      (a, b, record { after = after; through = through; ordered = ordered })

  below_current : (x : ℤ) (b n : ℕ) → x ≡ pos b → leb_ℤ x (pos n) ≡ true → b ≤ n
  below_current x b n e h =
      let k : leb_ℤ (pos b) (pos n) ≡ true = subst (λ y. leb_ℤ y (pos n) ≡ true) e h in ground arith

  pub choose_cursor_within :
      (scope : GoalScope) (goal_id : Str) (n : ℕ) (requested : Option GoalActivityCursor)
      (cursor : GoalActivityCursor)
      → valid_revision (pos n) ≡ true
      → choose_cursor scope goal_id (pos n) requested ≡ ok cursor
      → (a : ℕ) × (b : ℕ) × Spans cursor a b × (b ≤ n)
  unfolding choose_cursor
  choose_cursor_within scope goal_id n none cursor h e =
      let same : first_cursor scope goal_id (pos n) ≡ cursor = cc e in
      subst (λ c. (a : ℕ) × (b : ℕ) × Spans c a b × (b ≤ n)) same
        (0, n, record { after = refl; through = refl; ordered = ground arith }, omega arith)
  choose_cursor_within scope goal_id n (some given) cursor h e =
      let (_, checked, e1) = bind_sound (validate_cursor scope goal_id given) _ cursor e in
      let (_, bound, e2) =
        bind_sound
          (ensure (leb_ℤ given.through_revision (pos n))
            "cursor snapshot exceeds current goal revision")
          _ cursor e1 in
      let same : given ≡ cursor = cc e2 in
      let (a, b, spans) = validate_cursor_sound scope goal_id given checked in
      subst (λ c. (a : ℕ) × (b : ℕ) × Spans c a b × (b ≤ n)) same
        (
          a,
          b,
          spans,
          below_current given.through_revision b n spans.through (ensure_sound _ _ bound),
        )

  pub choose_cursor_sound :
      (scope : GoalScope) (goal_id : Str) (current : ℤ) (requested : Option GoalActivityCursor)
      (cursor : GoalActivityCursor)
      → valid_revision current ≡ true
      → choose_cursor scope goal_id current requested ≡ ok cursor
      → (a : ℕ) × (b : ℕ) × Spans cursor a b
  choose_cursor_sound scope goal_id current requested cursor h e =
      let (n, same, _) = within_sound current h in
      let (a, b, spans, _) =
        choose_cursor_within scope goal_id n requested cursor
          (subst (λ m. valid_revision m ≡ true) same h)
          (subst (λ m. choose_cursor scope goal_id m requested ≡ ok cursor) same e) in
      (a, b, spans)
