-- ===== src/Runner/Flows.antt =====
-- crates/beater-agent/src/runner.rs: what an action does to the world, one rule for each way to build one.
use temp_js.Prelude.{
  ℕ, ◌+◌, ◌≤◌, Str, ℤ, Bool, true, false, ◌≡◌, refl, ap, ◌∙◌, Option, none, some, List, [], ◌∷◌,
  ◌++◌, All, All-append, length, length-append, arith, if◌then◌else◌,
}
use temp_js.Result.{Result, Error, ok, err}
use temp_js.Journal.Model.{Value}
use temp_js.Journal.Serde.{Serde}
use temp_js.Journal.Store.{Db, Op}
use temp_js.Runner.Act.{
  Execution, Outside, Registry, DecisionTools, World, Act, proceed, ◌>>=◌, pure, raise, given,
  attempt, journaled, execute, ask_model,
}
use temp_js.Runner.Replay.{ContractSerde}
use temp_js.Runner.Tools.{redacted}

module _ ⦃serde : Serde⦄ where
  -- What an action does to the world, whether it succeeds or fails.
  pub record Flows {A : Type 0} (R : World → World → Type 0) (m : Act A) : Type 0 where
    pub at : (world : World) → R world (m world).1

  -- A relation that goes on from action to action, and that the journal and the clock do not enter.
  pub record IsFlow (R : World → World → Type 0) : Type 0 where
    pub still : (world : World) → R world world
    pub onward : (world middle after : World) → R world middle → R middle after → R world after
    pub journals :
        (world : World) (db : Db) (readings : ℕ)
        → R world (record world { journal = db; readings = readings })

  proceeds :
      {A B : Type 0} (R : World → World → Type 0) (flow : IsFlow R) (f : A → Act B) (r : Result A)
      (world middle : World)
      → ((a : A) → Flows R (f a))
      → R world middle
      → R world (proceed f r middle).1
  proceeds R flow f (ok a) world middle k h =
      flow.onward world middle (f a middle).1 h ((k a).at middle)
  proceeds R flow f (err e) world middle k h = h

  module _ {R : World → World → Type 0} (flow : IsFlow R) where
    pub Flows-bind :
        {A B : Type 0} (m : Act A) (f : A → Act B)
        → Flows R m
        → ((a : A) → Flows R (f a))
        → Flows R (m >>= f)
    Flows-bind m f h k = record {
      at = λ world. proceeds R flow f (m world).0 world (m world).1 k (h.at world);
    }

    pub Flows-pure : {A : Type 0} (a : A) → Flows R (pure a)
    Flows-pure a = record { at = flow.still }

    pub Flows-raise : {A : Type 0} (e : Error) → Flows {A = A} R (raise e)
    Flows-raise e = record { at = flow.still }

    pub Flows-given : {A : Type 0} (r : Result A) → Flows R (given r)
    Flows-given r = record { at = flow.still }

    pub Flows-journaled :
        {A : Type 0} (outside : Outside) (op : ℤ → Op A) → Flows R (journaled outside op)
    Flows-journaled outside op = record { at = λ world. flow.journals world _ _ }

  module _ {R : World → World → Type 0} where
    pub Flows-option :
        {A B : Type 0} (o : Option A) (m : Act B) (f : A → Act B)
        → Flows R m
        → ((a : A) → Flows R (f a))
        → Flows R (elim o [ none ↦ m | some a ↦ f a ])
    Flows-option none m f h k = h
    Flows-option (some a) m f h k = k a

    pub Flows-attempt : {A : Type 0} (m : Act A) → Flows R m → Flows R (attempt m)
    Flows-attempt m h = record { at = h.at }

    pub Flows-redacted :
        {A : Type 0} (outside : Outside) (contracts : ContractSerde) (registry : Registry)
        (decisions : DecisionTools) (run_id : Str) (m : Act A)
        → Flows R m
        → Flows R (redacted outside contracts registry decisions run_id m)
    Flows-redacted outside contracts registry decisions run_id m h = record { at = h.at }

    pub Flows-if :
        {A : Type 0} (b : Bool) (m n : Act A) → Flows R m → Flows R n → Flows R (if b then m else n)
    Flows-if true m n h k = h
    Flows-if false m n h k = k

pub ruleset flow_rules = (
  Flows-bind, Flows-pure, Flows-raise, Flows-given, Flows-journaled, Flows-attempt, Flows-redacted,
  Flows-if,
)

append_nil : {A : Type 0} (xs : List A) → xs ≡ xs ++ []
append_nil [] = refl
append_nil (x ∷ xs) = ap (λ ys. x ∷ ys) (append_nil xs)

append_assoc : {A : Type 0} (xs ys zs : List A) → (xs ++ ys) ++ zs ≡ xs ++ (ys ++ zs)
append_assoc [] ys zs = refl
append_assoc (x ∷ xs) ys zs = ap (λ rest. x ∷ rest) (append_assoc xs ys zs)

module _ ⦃serde : Serde⦄ where
  -- The tools that ran are those of before, and then some that satisfy `P`.
  abbrev pub Runs : (Execution → Type 0) → World → World → Type 0
  Runs P world after = (new : List Execution) × (after.executed ≡ world.executed ++ new) × All P new

  Runs-then :
      (P : Execution → Type 0) (world middle after : World)
      → Runs P world middle
      → Runs P middle after
      → Runs P world after
  Runs-then P world middle after (first, e, p) (second, f, q) = (
    first ++ second,
    f ∙ ap (λ xs. xs ++ second) e ∙ append_assoc world.executed first second,
    All-append P first second p q,
  )

  pub Runs-flow : (P : Execution → Type 0) → IsFlow (Runs P)
  Runs-flow P = record {
    still = λ world. ([], append_nil world.executed, tt);
    onward = Runs-then P;
    journals = λ world db readings. ([], append_nil world.executed, tt);
  }

  pub Runs-execute :
      (P : Execution → Type 0) (outside : Outside) (call : Execution)
      → P call
      → Flows (Runs P) (execute outside call)
  Runs-execute P outside call p = record { at = λ world. (call ∷ [], refl, (p, tt)) }

  -- The model was asked at most `n` times more.
  abbrev pub Asks : ℕ → World → World → Type 0
  Asks n world after =
      (new : List Value) × (after.requests ≡ world.requests ++ new) × (length new ≤ n)

  abbrev pub Quiet : World → World → Type 0
  Quiet world after = after.requests ≡ world.requests

  pub Quiet-flow : IsFlow Quiet
  Quiet-flow = record {
    still = λ world. refl;
    onward = λ world middle after h k. k ∙ h;
    journals = λ world db readings. refl;
  }

  pub Quiet-execute : (outside : Outside) (call : Execution) → Flows Quiet (execute outside call)
  Quiet-execute outside call = record { at = λ world. refl }

  Asks-then :
      (n k : ℕ) (world middle after : World)
      → Asks n world middle
      → Asks k middle after
      → Asks (n + k) world after
  Asks-then n k world middle after (first, e, p) (second, f, q) = (
    first ++ second,
    f ∙ ap (λ xs. xs ++ second) e ∙ append_assoc world.requests first second,
    omega (arith, length-append first second, p, q),
  )

  pub Asks-Quiet : {A : Type 0} (m : Act A) → Flows Quiet m → Flows (Asks 0) m
  Asks-Quiet m h = record {
    at = λ world. ([], h.at world ∙ append_nil world.requests, omega arith);
  }

  pub Asks-once : (outside : Outside) (body : Value) → Flows (Asks 1) (ask_model outside body)
  Asks-once outside body = record { at = λ world. (body ∷ [], refl, omega arith) }

  Asks-proceed :
      {A B : Type 0} (n k : ℕ) (f : A → Act B) (r : Result A) (world middle : World)
      → ((a : A) → Flows (Asks k) (f a))
      → Asks n world middle
      → Asks (n + k) world (proceed f r middle).1
  Asks-proceed n k f (ok a) world middle h asked =
      Asks-then n k world middle (f a middle).1 asked ((h a).at middle)
  Asks-proceed n k f (err e) world middle h (new, e', p) = (new, e', omega (arith, p))

  pub Asks-bind :
      {A B : Type 0} (n k : ℕ) (m : Act A) (f : A → Act B)
      → Flows (Asks n) m
      → ((a : A) → Flows (Asks k) (f a))
      → Flows (Asks (n + k)) (m >>= f)
  Asks-bind n k m f h l = record {
    at = λ world. Asks-proceed n k f (m world).0 world (m world).1 l (h.at world);
  }

  pub Asks-at_most :
      {A : Type 0} (n k : ℕ) (m : Act A) → n ≤ k → Flows (Asks n) m → Flows (Asks k) m
  Asks-at_most n k m bound h = record {
    at = λ world. let (new, e, p) = h.at world in (new, e, omega (arith, p, bound));
  }
