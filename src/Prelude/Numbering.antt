-- ===== src/Prelude/Numbering.antt =====
-- Rows that are numbered from 1 within a group: SELECT COALESCE(MAX(number), 0) … and what it keeps.
use Prim.Native.Nat.{ℕ, suc, ◌≤◌, max}
use mathlib.Core.Path.{◌≡◌, sym, ◌∙◌}
use mathlib.Core.Bool.{Bool, true, false}
use mathlib.Core.List.{List, [], ◌∷◌, ◌++◌}
use native.Mathlib.Omega.{arith}
use temp_js.Prelude.Lists.{All, update}
use temp_js.Prelude.Tests.{if◌then◌else◌, Bool-cases}
use mathlib.Core.Logic.{inl, inr}

module _ {A : Type 0} (own : A → Bool) (number : A → ℕ) where
  unfoldable pub highest : List A → ℕ
  highest [] = 0
  highest (row ∷ rows) = let rest = highest rows in if own row then max (number row) rest else rest

  -- The rows of the group bear the numbers after `n`, without a gap, in order.
  abbrev pub IsNumbered : ℕ → List A → Type 0
  IsNumbered n [] = Unit
  IsNumbered n (row ∷ rows) =
      (own row ≡ true → number row ≡ suc n) × IsNumbered (if own row then suc n else n) rows

  -- The number that the last of them bears.
  unfoldable pub last_number : ℕ → List A → ℕ
  last_number n [] = n
  last_number n (row ∷ rows) = last_number (if own row then suc n else n) rows

  pub highest-eq-last_number :
      (n : ℕ) (rows : List A) → IsNumbered n rows → max n (highest rows) ≡ last_number n rows
  unfolding highest last_number
  highest-eq-last_number n [] h = omega arith
  highest-eq-last_number n (row ∷ rows) h = elim (Bool-cases (own row)) [
    | inl e ↦
        let ih = highest-eq-last_number (suc n) rows (ground arith) in
        let e' : number row ≡ suc n = h.0 e in rw e (omega (arith, ih, e'))
    | inr e ↦ let ih = highest-eq-last_number n rows (ground arith) in rw e ih
  ]

  IsNumbered-append_last :
      (n : ℕ) (rows : List A) (row : A)
      → IsNumbered n rows
      → (own row ≡ true → number row ≡ suc (last_number n rows))
      → IsNumbered n (rows ++ row ∷ [])
  unfolding last_number
  IsNumbered-append_last n [] row h k = (k, tt)
  IsNumbered-append_last n (r ∷ rows) row h k =
      (h.0, IsNumbered-append_last (if own r then suc n else n) rows row h.1 k)

  -- A row under the next number keeps the numbering.
  pub IsNumbered-append :
      (rows : List A) (row : A)
      → IsNumbered 0 rows
      → (own row ≡ true → number row ≡ suc (highest rows))
      → IsNumbered 0 (rows ++ row ∷ [])
  IsNumbered-append rows row h k =
      IsNumbered-append_last 0 rows row h λ e. omega (arith, k e, highest-eq-last_number 0 rows h)

  pub IsNumbered-update :
      (p : A → Bool) (f : A → A)
      → ((a : A) → own (f a) ≡ own a)
      → ((a : A) → number (f a) ≡ number a)
      → (n : ℕ) (rows : List A) → IsNumbered n rows
      → IsNumbered n (update p f rows)
  IsNumbered-update p f same_own same_number n [] h = tt
  IsNumbered-update p f same_own same_number n (row ∷ rows) h = elim (Bool-cases (p row)) [
    | inl e ↦ rw e (
      (λ o. same_number row ∙ h.0 (sym (same_own row) ∙ o)),
      rw (same_own row)
          (IsNumbered-update p f same_own same_number (if own row then suc n else n) rows h.1),
    )
    | inr e ↦
        rw e
          (h.0, IsNumbered-update p f same_own same_number (if own row then suc n else n) rows h.1)
  ]

  highest_bound_from :
      (n : ℕ) (rows : List A) → highest rows ≤ n → All (λ row. own row ≡ true → number row ≤ n) rows
  unfolding highest
  highest_bound_from n [] h = tt
  highest_bound_from n (row ∷ rows) h =
      ((λ o. ground arith), highest_bound_from n rows (ground arith))

  pub highest_bound : (rows : List A) → All (λ row. own row ≡ true → number row ≤ highest rows) rows
  highest_bound rows = highest_bound_from (highest rows) rows (omega arith)

  pub highest-append_own :
      (rows : List A) (row : A)
      → own row ≡ true
      → highest (rows ++ row ∷ []) ≡ max (highest rows) (number row)
  unfolding highest
  highest-append_own [] row k = rw k (omega arith)
  highest-append_own (r ∷ rows) row k =
      let ih = highest-append_own rows row k in
      elim (Bool-cases (own r)) [ inl e ↦ rw e (omega (arith, ih)) | inr e ↦ rw e ih ]

  pub highest-append_other :
      (rows : List A) (row : A) → own row ≡ false → highest (rows ++ row ∷ []) ≡ highest rows
  unfolding highest
  highest-append_other [] row k = rw k
  highest-append_other (r ∷ rows) row k =
      let ih = highest-append_other rows row k in
      elim (Bool-cases (own r)) [ inl e ↦ rw e (omega (arith, ih)) | inr e ↦ rw e ih ]
