-- ===== src/Journal/Projection/Sequence.antt =====
-- crates/beater-journal/src/read_projection.rs: rows that are numbered without a gap.
use Prim.Native.Nat.{min}
use temp_js.Prelude.{
  ℕ, zero, suc, ◌+◌, ◌≡◌, subst, ℤ, pos, List, [], ◌∷◌, ◌++◌, take, length, arith,
}

-- The numbers after `n`, without a gap.
abbrev pub Consecutive {ℓ} : {A : Type ℓ} → (A → ℤ) → ℕ → List A → Type 0
Consecutive number n [] = Unit
Consecutive number n (row ∷ rows) = (number row ≡ pos (suc n)) × Consecutive number (suc n) rows

pub Consecutive-take {ℓ} :
    {A : Type ℓ} (number : A → ℤ) (n k : ℕ) (rows : List A)
    → Consecutive number n rows
    → Consecutive number n (take k rows)
Consecutive-take number n zero rows h = tt
Consecutive-take number n (suc k) [] h = tt
Consecutive-take number n (suc k) (row ∷ rows) h = (h.0, Consecutive-take number (suc n) k rows h.1)

pub Consecutive-append {ℓ} :
    {A : Type ℓ} (number : A → ℤ) (n : ℕ) (rows more : List A)
    → Consecutive number n rows
    → Consecutive number (n + length rows) more
    → Consecutive number n (rows ++ more)
Consecutive-append number n [] more h k =
    let here : n + 0 ≡ n = omega arith in subst (λ m. Consecutive number m more) here k
Consecutive-append number n (row ∷ rows) more h k =
    let next : n + suc (length rows) ≡ suc n + length rows = omega arith in
    (
      h.0,
      Consecutive-append number (suc n) rows more h.1
          (subst (λ m. Consecutive number m more) next k),
    )

pub length-take {ℓ} :
    {A : Type ℓ} (k : ℕ) (rows : List A) → length (take k rows) ≡ min k (length rows)
length-take zero rows = omega arith
length-take (suc k) [] = omega arith
length-take (suc k) (row ∷ rows) = omega (arith, length-take k rows)
