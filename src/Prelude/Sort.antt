-- ===== src/Prelude/Sort.antt =====
-- A stable sort by a Boolean order: `sort_by` of the standard library and ORDER BY of SQLite.
use Prim.Native.Nat.{suc}
use mathlib.Core.List.{List, [], ◌∷◌, Perm}
use mathlib.Core.List.Perm
use mathlib.Core.Path.{◌≡◌, refl, ap, ◌∙◌}
use mathlib.Core.Bool.{Bool, true, false}
use native.Mathlib.Omega.{arith}
use temp_js.Prelude.Lists.{All, length}
use temp_js.Prelude.Tests.{if◌then◌else◌, Bool-cases}
use mathlib.Core.Logic.{inl, inr}

module _ {ℓ} {A : Type ℓ} (le : A → A → Bool) where
  unfoldable pub insert_by : A → List A → List A
  insert_by x [] = x ∷ []
  insert_by x (y ∷ ys) = if le x y then x ∷ y ∷ ys else y ∷ insert_by x ys

  unfoldable pub sort_by : List A → List A
  unfolding insert_by
  sort_by [] = []
  sort_by (x ∷ xs) = insert_by x (sort_by xs)

  -- Each element is at most the next one.
  abbrev pub Below : A → List A → Type 0
  Below x [] = Unit
  Below x (y ∷ ys) = le x y ≡ true

  abbrev pub IsSorted : List A → Type 0
  IsSorted [] = Unit
  IsSorted (x ∷ xs) = Below x xs × IsSorted xs

  pub insert_by-perm : (x : A) (xs : List A) → Perm (insert_by x xs) (x ∷ xs)
  unfolding insert_by
  insert_by-perm x [] = Perm.refl _
  insert_by-perm x (y ∷ ys) = elim (Bool-cases (le x y)) [
    | inl h ↦ rw h (Perm.refl _)
    | inr h ↦ rw h (Perm.trans (Perm.cons y (insert_by-perm x ys)) (Perm.swap x y ys))
  ]

  pub sort_by-perm : (xs : List A) → Perm (sort_by xs) xs
  unfolding sort_by
  sort_by-perm [] = Perm.refl _
  sort_by-perm (x ∷ xs) = Perm.trans (insert_by-perm x (sort_by xs)) (Perm.cons x (sort_by-perm xs))

  length-insert_by : (x : A) (xs : List A) → length (insert_by x xs) ≡ suc (length xs)
  unfolding insert_by
  length-insert_by x [] = refl
  length-insert_by x (y ∷ ys) = elim (Bool-cases (le x y)) [
    | inl h ↦ rw h
    | inr h ↦ rw h (ap suc (length-insert_by x ys))
  ]

  pub length-sort_by : (xs : List A) → length (sort_by xs) ≡ length xs
  unfolding sort_by
  length-sort_by [] = refl
  length-sort_by (x ∷ xs) = length-insert_by x (sort_by xs) ∙ ap suc (length-sort_by xs)

  insert_by-Below : (x : A) (xs : List A) → Below x xs → insert_by x xs ≡ x ∷ xs
  unfolding insert_by
  insert_by-Below x [] h = refl
  insert_by-Below x (y ∷ ys) h = rw h

  -- What is sorted stays as it is.
  pub sort_by-sorted : (xs : List A) → IsSorted xs → sort_by xs ≡ xs
  unfolding sort_by
  sort_by-sorted [] h = refl
  sort_by-sorted (x ∷ xs) h = rw (sort_by-sorted xs h.1) (insert_by-Below x xs h.0)

  -- Two insertions may be swapped when the order tells the elements apart.
  module _ (trans : (x y z : A) → le x y ≡ true → le y z ≡ true → le x z ≡ true) where
    pub insert_by_comm :
        (x y : A) (xs : List A)
        → le x y ≡ true
        → le y x ≡ false
        → insert_by x (insert_by y xs) ≡ insert_by y (insert_by x xs)
    unfolding insert_by
    insert_by_comm x y [] h k = rw (h, k) refl
    insert_by_comm x y (z ∷ zs) h k = elim (Bool-cases (le x z)) [
      | inl e ↦ elim (Bool-cases (le y z)) [
        | inl f ↦ rw (f, e, h, k) (rw f refl)
        | inr f ↦ rw (e, f) (rw k (rw e refl))
      ]
      | inr e ↦ elim (Bool-cases (le y z)) [
        | inl f ↦ absurd (cc (trans x y z h f))
        | inr f ↦ rw (e, f) (rw e (ap (λ rest. z ∷ rest) (insert_by_comm x y zs h k)))
      ]
    ]

  module _ (total : (x y : A) → le x y ≡ false → le y x ≡ true) where
    Below-insert_by :
        (z x : A) (xs : List A) → le z x ≡ true → Below z xs → Below z (insert_by x xs)
    unfolding insert_by
    Below-insert_by z x [] h k = h
    Below-insert_by z x (y ∷ ys) h k = ground arith

    pub insert_by-IsSorted : (x : A) (xs : List A) → IsSorted xs → IsSorted (insert_by x xs)
    unfolding insert_by
    insert_by-IsSorted x [] h = (tt, tt)
    insert_by-IsSorted x (y ∷ ys) h = elim (Bool-cases (le x y)) [
      | inl e ↦ rw e (e, h)
      | inr e ↦ rw e (Below-insert_by y x ys (total x y e) h.0, insert_by-IsSorted x ys h.1)
    ]

    -- The result is sorted when the order is total.
    pub sort_by-IsSorted : (xs : List A) → IsSorted (sort_by xs)
    unfolding sort_by
    sort_by-IsSorted [] = tt
    sort_by-IsSorted (x ∷ xs) = insert_by-IsSorted x (sort_by xs) (sort_by-IsSorted xs)

module _ {ℓ κ} {A : Type ℓ} (le : A → A → Bool) (P : A → Type κ) where
  All-insert_by : (x : A) (xs : List A) → P x → All P xs → All P (insert_by le x xs)
  unfolding insert_by
  All-insert_by x [] p h = (p, h)
  All-insert_by x (y ∷ ys) p h = elim (Bool-cases (le x y)) [
    | inl e ↦ rw e (p, h)
    | inr e ↦ rw e (h.0, All-insert_by x ys p h.1)
  ]

  pub All-sort_by : (xs : List A) → All P xs → All P (sort_by le xs)
  unfolding sort_by
  All-sort_by [] h = tt
  All-sort_by (x ∷ xs) h = All-insert_by x (sort_by le xs) h.0 (All-sort_by xs h.1)
