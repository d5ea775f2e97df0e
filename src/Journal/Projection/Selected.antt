-- ===== src/Journal/Projection/Selected.antt =====
-- crates/beater-journal: the rows that a page selects, in a journal whose goals have their histories.
use Prim.Native.Nat.{max, min}
use temp_js.Prelude.{
  ℕ, suc, ◌-◌, ◌≤◌, ◌≡◌, ap, ◌∙◌, subst, inl, inr, Str, ℤ, pos, negsuc, Bool, true, false, ltb, leb,
  ◌&&◌, List, [], ◌∷◌, select, length, arith, Bool-cases, IsNumbered, last_number, if◌then◌else◌,
}
use temp_js.Journal.Model.{GoalScope, HistoryWindow}
use temp_js.Journal.Serde.{Serde}
use temp_js.Journal.Store.{GoalRevisionEntry}
use temp_js.Journal.History.{in_window, selects_goal_revision}
use temp_js.Journal.Goals.Held.{magnitude}
use temp_js.Journal.Goals.Revisions.{of_goal, number}
use temp_js.Journal.Projection.Sequence.{Consecutive}

module _ ⦃serde : Serde⦄ where
  pub magnitude_sound : (r : ℤ) (n : ℕ) → magnitude r ≡ suc n → r ≡ pos (suc n)
  magnitude_sound (pos m) n h = ap pos h
  magnitude_sound (negsuc m) n h = absurd (ground arith)

module _ ⦃serde : Serde⦄ (scope : GoalScope) (id : Str) where
  abbrev own : GoalRevisionEntry → Bool
  own = of_goal scope id

  abbrev pub revision : GoalRevisionEntry → ℤ
  revision row = row.revision

  last_number_bound : (n : ℕ) (rows : List GoalRevisionEntry) → n ≤ last_number own number n rows
  unfolding last_number
  last_number_bound n [] = omega arith
  last_number_bound n (row ∷ rows) = elim (Bool-cases (own row)) [
    | inl e ↦ rw e (omega (arith, last_number_bound (suc n) rows))
    | inr e ↦ rw e (last_number_bound n rows)
  ]

  none-Consecutive :
      (m : ℕ) (rows : List GoalRevisionEntry) → length rows ≡ 0 → Consecutive revision m rows
  none-Consecutive m [] h = tt
  none-Consecutive m (row ∷ rows) h = absurd (omega (arith, h))

  pub Numbered-other :
      (n : ℕ) (t : Bool) (rows : List GoalRevisionEntry)
      → t ≡ false
      → IsNumbered own number (if t then suc n else n) rows
      → IsNumbered own number n rows
  Numbered-other n t rows e h = subst (λ u. IsNumbered own number (if u then suc n else n) rows) e h

  pub Numbered-own :
      (n : ℕ) (t : Bool) (rows : List GoalRevisionEntry)
      → t ≡ true
      → IsNumbered own number (if t then suc n else n) rows
      → IsNumbered own number (suc n) rows
  Numbered-own n t rows e h = subst (λ u. IsNumbered own number (if u then suc n else n) rows) e h

  module _ (window : HistoryWindow) (a b : ℕ) (after : window.after_revision ≡ pos a)
      (through : window.through_revision ≡ pos b) where
    abbrev chosen : GoalRevisionEntry → Bool
    chosen = selects_goal_revision scope id window

    chosen-own :
        (row : GoalRevisionEntry) (n : ℕ)
        → own row ≡ true
        → row.revision ≡ pos (suc n)
        → chosen row ≡ ltb a (suc n) && leb (suc n) b
    unfolding selects_goal_revision in_window
    chosen-own row n e r = rw (r, after, through) (ground arith)

    chosen-other : (row : GoalRevisionEntry) → own row ≡ false → chosen row ≡ false
    unfolding selects_goal_revision
    chosen-other row e = ground arith

    abbrev Selects : ℕ → ℕ → List GoalRevisionEntry → Type 0
    Selects n last rows = Consecutive revision (max n a) rows × (length rows ≡ min b last - max n a)

    skip :
        (n last : ℕ) (rows : List GoalRevisionEntry)
        → ltb a (suc n) && leb (suc n) b ≡ false
        → suc n ≤ last
        → Selects (suc n) last rows
        → Selects n last rows
    skip n last rows miss bound h = elim (Bool-cases (leb a n)) [
      | inl below ↦
          let none_left : length rows ≡ 0 = ground (arith, h.1) in
          (none-Consecutive (max n a) rows none_left, ground (arith, none_left))
      | inr above ↦
          let same : max (suc n) a ≡ max n a = ground arith in
          (subst (λ m. Consecutive revision m rows) same h.0, h.1 ∙ ap (λ m. min b last - m) same)
    ]

    hit :
        (n last : ℕ) (row : GoalRevisionEntry) (rows : List GoalRevisionEntry)
        → row.revision ≡ pos (suc n)
        → ltb a (suc n) && leb (suc n) b ≡ true
        → suc n ≤ last
        → Selects (suc n) last rows
        → Selects n last (row ∷ rows)
    hit n last row rows r inside bound h =
        let here : max n a ≡ n = ground arith in
        let next : max (suc n) a ≡ suc n = ground arith in
        rw here (
          (r, subst (λ m. Consecutive revision m rows) next h.0),
          ground (arith, h.1 ∙ ap (λ m. min b last - m) next),
        )

    -- The revisions after `a`, through `b`, as far as there are any.
    pub select_lem :
        (n : ℕ) (rows : List GoalRevisionEntry)
        → IsNumbered own number n rows
        → Selects n (last_number own number n rows) (select chosen rows)
    unfolding last_number
    select_lem n [] h = (tt, omega arith)
    select_lem n (row ∷ rows) h = elim (Bool-cases (own row)) [
      | inr other ↦
          rw (other, chosen-other row other) (select_lem n rows (Numbered-other n _ rows other h.1))
      | inl mine ↦
          let r = magnitude_sound row.revision n (h.0 mine) in
          let ih = select_lem (suc n) rows (Numbered-own n _ rows mine h.1) in
          let last = last_number own number (suc n) rows in
          let bound : suc n ≤ last = last_number_bound (suc n) rows in
          elim (Bool-cases (ltb a (suc n) && leb (suc n) b)) [
            | inl inside ↦
                rw (mine, chosen-own row n mine r, inside)
                  (hit n last row (select chosen rows) r inside bound ih)
            | inr outside ↦
                rw (mine, chosen-own row n mine r, outside)
                  (skip n last (select chosen rows) outside bound ih)
          ]
    ]
