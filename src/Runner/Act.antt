-- ===== src/Runner/Act.antt =====
-- crates/beater-agent/src/runner.rs: the runner's effects, as a state that is passed on.
use temp_js.Prelude.{ℕ, suc, Str, ℤ, Option, List, [], ◌∷◌, ◌++◌}
use temp_js.Result.{Result, Error, ok, err}
use temp_js.Journal.Model.{Value, Values}
use temp_js.Journal.Serde.{Serde}
use temp_js.Journal.Store.{Db, Op}
use temp_js.Resume.Contract.{ToolResumeContract}

-- `ToolCallContext` beside the call it belongs to.
pub record Execution : Type 0 where
  pub name : Str
  pub input : Value
  pub run_id : Str
  pub tool_use_id : Str
  pub idempotency_key : Option Str

-- What the runner reaches outside of itself: the clock, the tools of the registry, which may answer
-- by everything that they have done, and the model, which streams parts before its answer.
pub record Outside : Type 0 where
  pub time : ℕ → ℤ
  pub execute : List Execution → Execution → Result Str
  pub respond : List Value → Value → List Value × Result Value
  pub error_text : Error → Str

-- `ToolRegistry`, as the runner asks it.
pub record Registry : Type 0 where
  pub api_tools : Value
  pub resume_contract : Str → Option ToolResumeContract

module _ ⦃serde : Serde⦄ where
  -- The tools of decision_tools.rs: their declarations, their checks, and their work on the journal.
  pub record DecisionTools : Type 0 where
    pub tool_definitions : Values
    pub resume_contract : Str → Option ToolResumeContract
    pub validate : Str → Value → Result (Unit {0})
    pub work : Str → Str → Str → Value → ℤ → Op Str

  -- The journal, the tools that ran, the journals in which each of them ran, the requests that the model got, and the readings of the clock.
  pub record World : Type 0 where
    pub journal : Db
    pub executed : List Execution
    pub journals : List Db
    pub requests : List Value
    pub readings : ℕ

  abbrev pub Act : Type 0 → Type 0
  Act A = World → Result A × World

  abbrev pub proceed : {A B : Type 0} → (A → Act B) → Result A → Act B
  proceed f (ok a) world = f a world
  proceed f (err e) world = (err e, world)

  -- `?`: an error ends the function; what was done stays done.
  infixl 5 ◌>>=◌ ◌>>◌
  abbrev pub ◌>>=◌ : {A B : Type 0} → Act A → (A → Act B) → Act B
  ◌>>=◌ m f world = let (r, after) = m world in proceed f r after

  abbrev pub ◌>>◌ : {B : Type 0} → Act (Unit {0}) → Act B → Act B
  m >> k = m >>= λ _. k

  abbrev pub pure : {A : Type 0} → A → Act A
  pure a world = (ok a, world)

  abbrev pub raise : {A : Type 0} → Error → Act A
  raise e world = (err e, world)

  abbrev pub given : {A : Type 0} → Result A → Act A
  given r world = (r, world)

  -- The result itself, for a `match` on it.
  abbrev pub attempt : {A : Type 0} → Act A → Act (Result A)
  attempt m world = let (r, after) = m world in (ok r, after)

  module _ (outside : Outside) where
    -- A call of the journal, at the time of the clock.
    abbrev pub journaled : {A : Type 0} → (ℤ → Op A) → Act A
    journaled op world =
        let (r, db) = op (outside.time world.readings) world.journal in
        (r, record world { journal = db; readings = suc world.readings })

    abbrev pub execute : Execution → Act Str
    execute call world = (
      outside.execute world.executed call,
      record world {
        executed = world.executed ++ call ∷ [];
        journals = world.journals ++ world.journal ∷ [];
      },
    )

    abbrev pub ask_model : Value → Act (List Value × Result Value)
    ask_model body world = (
      ok (outside.respond world.requests body),
      record world { requests = world.requests ++ body ∷ [] },
    )
