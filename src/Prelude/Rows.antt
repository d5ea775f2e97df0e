-- ===== src/Prelude/Rows.antt =====
-- Reading a table after a row was added or rewritten.
use mathlib.Core.Path.{◌≡◌, refl, subst}
use mathlib.Core.Logic.{inl, inr}
use mathlib.Core.Bool.{Bool, true, false}
use mathlib.Core.Option.{none, some}
use mathlib.Core.List.{List, [], ◌∷◌, ◌++◌}
use native.Mathlib.Omega.{arith}
use temp_js.Prelude.Lists.{All, any, find, update}
use temp_js.Prelude.Tests.{Bool-cases}

module _ {ℓ} {A : Type ℓ} (p : A → Bool) where
  pub find-none : (rows : List A) → any p rows ≡ false → find p rows ≡ none
  find-none [] h = refl
  find-none (row ∷ rows) h = ground (arith, find-none rows)

  pub any_of_find : (rows : List A) → find p rows ≡ none → any p rows ≡ false
  any_of_find [] h = refl
  any_of_find (row ∷ rows) h = ground (arith, any_of_find rows)

  pub any_of_find-some : (rows : List A) (row : A) → find p rows ≡ some row → any p rows ≡ true
  any_of_find-some [] row h = cc
  any_of_find-some (r ∷ rows) row h = ground (arith, any_of_find-some rows row)

  pub find-some : (rows : List A) (row : A) → find p rows ≡ some row → p row ≡ true
  find-some [] row h = cc
  find-some (r ∷ rows) row h = ground (arith, find-some rows row)

  -- The row that was added is found if none was there.
  pub find-append_self :
      (rows : List A) (row : A)
      → find p rows ≡ none
      → p row ≡ true
      → find p (rows ++ row ∷ []) ≡ some row
  find-append_self [] row h k = ground arith
  find-append_self (r ∷ rows) row h k = ground (arith, find-append_self rows row)

  pub find-append_found :
      (rows : List A) (row old : A) → find p rows ≡ some old → find p (rows ++ row ∷ []) ≡ some old
  find-append_found [] row old h = cc
  find-append_found (r ∷ rows) row old h = ground (arith, find-append_found rows row old)

  pub find-append_other :
      (rows : List A) (row : A) → p row ≡ false → find p (rows ++ row ∷ []) ≡ find p rows
  find-append_other [] row k = ground arith
  find-append_other (r ∷ rows) row k = ground (arith, find-append_other rows row)

  -- A rewrite of the rows that another test selects.
  pub find-update_other :
      (q : A → Bool) (f : A → A) (rows : List A)
      → ((row : A) → q row ≡ true → p row ≡ false)
      → ((row : A) → q row ≡ true → p (f row) ≡ false)
      → find p (update q f rows) ≡ find p rows
  find-update_other q f [] h k = refl
  find-update_other q f (row ∷ rows) h k =
      ground (arith, h row, k row, find-update_other q f rows h k)

  -- A rewrite of the very rows that are looked up.
  pub find-update_self :
      (f : A → A) (rows : List A) (row : A)
      → ((r : A) → p (f r) ≡ p r)
      → find p rows ≡ some row
      → find p (update p f rows) ≡ some (f row)
  find-update_self f [] row same h = cc
  find-update_self f (r ∷ rows) row same h =
      ground (arith, same r, find-update_self f rows row same)

module _ {ℓ κ} {A : Type ℓ} (P : A → Type κ) where
  pub All-find :
      (p : A → Bool) (rows : List A) (row : A) → All P rows → find p rows ≡ some row → P row
  All-find p [] row h e = absurd (cc e)
  All-find p (r ∷ rows) row h e = elim (Bool-cases (p r)) [
    | inl hit ↦ let same : r ≡ row = ground arith in subst P same h.0
    | inr miss ↦ All-find p rows row h.1 (ground arith)
  ]

  pub All-update :
      (q : A → Bool) (f : A → A) (rows : List A)
      → ((row : A) → q row ≡ true → P row → P (f row))
      → All P rows
      → All P (update q f rows)
  All-update q f [] k h = tt
  All-update q f (r ∷ rows) k h = elim (Bool-cases (q r)) [
    | inl hit ↦ rw hit (k r hit h.0, All-update q f rows k h.1)
    | inr miss ↦ rw miss (h.0, All-update q f rows k h.1)
  ]
