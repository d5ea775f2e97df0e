-- ===== src/Result.antt =====
-- `anyhow::Result` of the journal's functions, with the errors that they raise.
use temp_js.Prelude.{Str, String, ℤ, Bool, true, false, Option, none, some, ◌≡◌, refl}

pub data Error : Type 0 where
  -- `ensure!` and `with_context`, by their message
  refused : String → Error
  -- "revision conflict: expected {expected}, current {current}"
  revision_conflict : ℤ → ℤ → Error
  -- "no run {id} in journal", "no goal {id} in scope"
  no_run no_goal : Str → Error
  goal_run_needs_review : Error
  -- `ToolNeedsReview` of crates/beater-agent
  tool_needs_review : Error
  -- `serde_json::Error`
  malformed : Error
  -- a constraint of the tables is violated, or a column does not hold the type that is read
  constraint conversion : Error

pub data Result {ℓ} (A : Type ℓ) : Type ℓ where
  ok : A → Result A
  err : Error → Result A

-- `?`: an error ends the function.
infixl 5 ◌>>=◌ ◌>>◌
abbrev pub ◌>>=◌ {ℓ κ} : {T : Type ℓ} {U : Type κ} → Result T → (T → Result U) → Result U
◌>>=◌ outcome rest = elim outcome [ ok value ↦ rest value | err error ↦ err error ]

abbrev pub ◌>>◌ {ℓ} : {U : Type ℓ} → Result (Unit {0}) → Result U → Result U
check >> rest = check >>= λ _. rest

-- `ensure!(test, message)`
abbrev pub ensure : Bool → String → Result (Unit {0})
ensure true message = ok tt
ensure false message = err (refused message)

abbrev pub is_ok {ℓ} : {A : Type ℓ} → Result A → Bool
is_ok (ok a) = true
is_ok (err e) = false

abbrev pub or_fail {ℓ} : {A : Type ℓ} → Option A → Error → Result A
or_fail none e = err e
or_fail (some a) e = ok a

-- What a success went through.
pub bind_sound {ℓ κ} :
    {T : Type ℓ} {U : Type κ} (outcome : Result T) (rest : T → Result U) (u : U)
    → outcome >>= rest ≡ ok u
    → (value : T) × (outcome ≡ ok value) × (rest value ≡ ok u)
bind_sound (ok value) rest u e = (value, refl, e)
bind_sound (err error) rest u e = absurd (cc e)

pub ensure_sound : (b : Bool) (message : String) → ensure b message ≡ ok tt → b ≡ true
ensure_sound true message e = refl
ensure_sound false message e = absurd (cc e)

pub or_fail_sound {ℓ} :
    {T : Type ℓ} (o : Option T) (e : Error) (value : T) → or_fail o e ≡ ok value → o ≡ some value
or_fail_sound none e value h = absurd (cc h)
or_fail_sound (some a) e value h = cc h
