-- ===== src/Journal/Goals/Replay.antt =====
-- crates/beater-journal/src/lib.rs: a request that is sent again gets the answer it got.
use temp_js.Prelude.{
  Str, lit, ℤ, pos, eq_ℤ, true, false, ◌&&◌, ◌≡◌, refl, sym, ap, subst, ◌∙◌, Option, none, some,
  any, find, str_eq_refl, find-none, find-append_self,
}
use temp_js.Result.{Result, ok, err, ensure}
use temp_js.Journal.Serde.{Serde}
use temp_js.Journal.Laws.{IsStableGoal, IsStablePatch, SerdeLaws}
use temp_js.Journal.Model.{GoalScope, Goal, GoalPatch, GoalMutation, Milestone}
use temp_js.Journal.Store.{Db, Tx, transaction, lift, ◌>>=◌}
use temp_js.Journal.Gate.{scope_eq_refl}
use temp_js.Journal.Validate.{
  validate_goal, validate_mutation, validate_scope, validate_patch, validate_milestone_shape,
  valid_identifier, valid_revision,
}
use temp_js.Journal.Keeps.{transaction-ok}
use temp_js.Journal.Leads.{Leads, Leads-ok, transaction_sound}
use temp_js.Journal.Goals.{
  is_replay, replay_of, replay_row, replay_or_conflict, or_replay, create_new, create_goal,
}
use temp_js.Journal.Goals.Stored.{stored}
use temp_js.Journal.Goals.Histories.{Historic, replay_then, Leads-put, Leads-create_new}
use temp_js.Journal.Goals.Corrections.{Corrects, Leads-revise_current, Leads-record_current}
use temp_js.Journal.Milestones.{revise_goal}
use temp_js.Journal.Recording.{record_milestone}

module _ ⦃serde : Serde⦄ (laws : SerdeLaws) where
  open serde use {
    Text, text_eq, read_goal, write_goal, write_revision_request, write_milestone_request,
  }

  -- The journal answers this request with this goal.
  abbrev pub Answered : GoalScope → GoalMutation → Str → Text → Goal → Db → Type 0
  Answered scope mutation target body goal db =
      replay_of body (find (is_replay scope mutation target) db.goal_replays) ≡ ok (some goal)

  is_replay-own :
      (goal : Goal) (mutation : GoalMutation) (body : Text) (now : ℤ)
      → is_replay goal.scope mutation goal.id (replay_row goal mutation body now) ≡ true
  unfolding is_replay replay_row
  is_replay-own goal mutation body now = simp (scope_eq_refl, str_eq_refl)

  replay_of-own :
      (goal : Goal) (mutation : GoalMutation) (body : Text) (now : ℤ)
      → validate_goal goal ≡ ok tt
      → IsStableGoal goal
      → replay_of body (some (replay_row goal mutation body now)) ≡ ok (some goal)
  unfolding replay_of replay_row
  replay_of-own goal mutation body now valid stable =
      rw ((laws.text_eq_iff body body).1 refl, laws.goal_round goal valid stable)

  pub stored-Answered :
      (goal : Goal) (mutation : GoalMutation) (event : Str) (body : Text) (now : ℤ) (db : Db)
      → validate_goal goal ≡ ok tt
      → IsStableGoal goal
      → any (is_replay goal.scope mutation goal.id) db.goal_replays ≡ false
      → Answered goal.scope mutation goal.id body goal (stored goal mutation event body now db)
  stored-Answered goal mutation event body now db valid stable new =
      ap (replay_of body) (
        find-append_self (is_replay goal.scope mutation goal.id) db.goal_replays
          (replay_row goal mutation body now) (find-none _ db.goal_replays new)
          (is_replay-own goal mutation body now))
      ∙ replay_of-own goal mutation body now valid stable

  -- Later: what was answered stays answered.
  abbrev pub Later : Db → Db → Type 0
  Later after final =
      (scope : GoalScope) (mutation : GoalMutation) (target : Str) (body : Text) (goal : Goal)
      → Answered scope mutation target body goal after
      → Answered scope mutation target body goal final

  -- After a success of the first transaction, the second, later, gives the same answer and writes
  -- nothing.
  record Repeats (P : Db → Type 0) (m m' : Tx Goal) : Type 0 where
    pub again :
        (db after final : Db) (a : Goal)
        → P db
        → Later after final
        → m db ≡ ok (a, after)
        → m' final ≡ ok (a, final)

  Repeats-checked :
      {A : Type 0} {P : Db → Type 0} (r : Result A) (f f' : A → Tx Goal)
      → ((a : A) → r ≡ ok a → Repeats P (f a) (f' a))
      → (db after final : Db) (a : Goal) → P db
      → Later after final
      → (lift r >>= f) db ≡ ok (a, after)
      → (lift r >>= f') final ≡ ok (a, final)
  Repeats-checked (ok b) f f' k db after final a h later e =
      (k b refl).again db after final a h later e
  Repeats-checked (err x) f f' k db after final a h later e = cc

  Repeats-check :
      {A : Type 0} {P : Db → Type 0} (r : Result A) (f f' : A → Tx Goal)
      → ((a : A) → r ≡ ok a → Repeats P (f a) (f' a))
      → Repeats P (lift r >>= f) (lift r >>= f')
  Repeats-check r f f' k = record { again = Repeats-checked r f f' k }

  pub answer :
      (scope : GoalScope) (mutation : GoalMutation) (target : Str) (body : Text) (rest : Tx Goal)
      (db : Db) (r : Result (Option Goal))
      → replay_of body (find (is_replay scope mutation target) db.goal_replays) ≡ r
      → replay_then scope mutation target body rest db
        ≡ (lift r >>= λ replay. or_replay replay rest) db
  unfolding replay_or_conflict
  answer scope mutation target body rest db r e =
      ap (λ r. (lift r >>= λ replay. or_replay replay rest) db) e

  Repeats-replay_then :
      {P : Db → Type 0} (scope : GoalScope) (mutation : GoalMutation) (target : Str) (body : Text)
      (rest rest' : Tx Goal)
      → Leads P (Answered scope mutation target body) rest
      → Repeats P
          (replay_then scope mutation target body rest)
          (replay_then scope mutation target body rest')
  Repeats-replay_then {P} scope mutation target body rest rest' l = record {
    again = λ db after final a h later e.
        go db after final a h later
          (replay_of body (find (is_replay scope mutation target) db.goal_replays)) refl e;
  }
    where
      go :
          (db after final : Db) (a : Goal)
          → P db
          → Later after final
          → (r : Result (Option Goal))
          → replay_of body (find (is_replay scope mutation target) db.goal_replays) ≡ r
          → replay_then scope mutation target body rest db ≡ ok (a, after)
          → replay_then scope mutation target body rest' final ≡ ok (a, final)
      go db after final a h later (err x) found e =
          cc (answer scope mutation target body rest db (err x) found)
      go db after final a h later (ok (some g)) found e =
          let same = sym (answer scope mutation target body rest db (ok (some g)) found) ∙ e in
          let value : g ≡ a = cc same in
          let state : db ≡ after = cc same in
          answer scope mutation target body rest' final (ok (some g)) (
            later scope mutation target body g
              (subst (λ d. Answered scope mutation target body g d) state found))
          ∙ ap (λ x. ok (x, final)) value
      go db after final a h later (ok none) found e =
          answer scope mutation target body rest' final (ok (some a)) (
            later scope mutation target body a (
              Leads-ok rest l db after a h
                (sym (answer scope mutation target body rest db (ok none) found) ∙ e)))

  Leads-created :
      (mutation : GoalMutation) (goal : Goal) (now : ℤ)
      → validate_goal goal ≡ ok tt
      → IsStableGoal goal
      → Leads Historic
          (Answered goal.scope mutation goal.id (write_goal goal))
          (create_new mutation goal now)
  Leads-created mutation goal now valid stable =
      let answered = Answered goal.scope mutation goal.id (write_goal goal) in
      Leads-create_new answered mutation goal now (
        Leads-put answered goal mutation (lit "created") (write_goal goal) now (λ db _ new.
          stored-Answered goal mutation (lit "created") (write_goal goal) now db valid stable new))

  Corrects-Answered :
      (mutation : GoalMutation) (scope : GoalScope) (id : Str) (expected : ℤ) (event : Str)
      (body : Text) (now : ℤ)
      → Corrects laws (Answered scope mutation id body) mutation scope id expected event body now
  Corrects-Answered mutation scope id expected event body now next
        (valid, own_scope, own_id, stable) step =
      Leads-put (Answered scope mutation id body) next mutation event body now (λ db _ new.
        subst (λ s. Answered s mutation id body next (stored next mutation event body now db))
          own_scope
          (subst
            (λ i. Answered next.scope mutation i body next (stored next mutation event body now db))
            own_id (stored-Answered next mutation event body now db valid stable new)))

  -- The method again, whose transaction repeats.
  method_again :
      {P : Db → Type 0} (m m' : Tx Goal) (db after final : Db) (goal : Goal)
      → Repeats P m m'
      → P db
      → Later after final
      → transaction m db ≡ (ok goal, after)
      → transaction m' final ≡ (ok goal, final)
  method_again m m' db after final goal l h later e =
      transaction-ok m' final final goal
        (l.again db after final goal h later (transaction_sound m db after goal e))

  pub create_goal-Later :
      (mutation : GoalMutation) (goal answer : Goal) (now now' : ℤ) (db after final : Db)
      → IsStableGoal goal
      → Historic db
      → Later after final
      → create_goal mutation goal now db ≡ (ok answer, after)
      → create_goal mutation goal now' final ≡ (ok answer, final)
  unfolding create_goal
  create_goal-Later mutation goal answer now now' db after final stable h later e =
      method_again _ _ db after final answer
        (Repeats-check (validate_mutation mutation) _ _ λ _ _.
          Repeats-check (validate_goal goal) _ _ λ _ valid.
            Repeats-check (ensure (eq_ℤ goal.revision (pos 1)) _) _ _ λ _ _.
              Repeats-replay_then goal.scope mutation goal.id (write_goal goal) _ _
                (Leads-created mutation goal now valid stable))
        h later e

  pub revise_goal-Later :
      (mutation : GoalMutation) (scope : GoalScope) (id : Str) (expected : ℤ) (patch : GoalPatch)
      (answer : Goal) (now now' : ℤ) (db after final : Db)
      → IsStablePatch patch
      → Historic db
      → Later after final
      → revise_goal mutation scope id expected patch now db ≡ (ok answer, after)
      → revise_goal mutation scope id expected patch now' final ≡ (ok answer, final)
  unfolding revise_goal
  revise_goal-Later mutation scope id expected patch answer now now' db after final fixed h later
        e =
      method_again _ _ db after final answer
        (Repeats-check (validate_mutation mutation) _ _ λ _ _.
          Repeats-check (validate_scope scope) _ _ λ _ _.
            Repeats-check (ensure (valid_identifier id && valid_revision expected) _) _ _ λ _ _.
              Repeats-check (validate_patch patch) _ _ λ _ _.
                let body = write_revision_request expected patch in
                Repeats-replay_then scope mutation id body _ _ (
                  Leads-revise_current laws _ mutation scope id expected patch body now fixed
                    (Corrects-Answered mutation scope id expected (lit "revised") body now)))
        h later e

  pub record_milestone-Later :
      (mutation : GoalMutation) (scope : GoalScope) (id : Str) (expected : ℤ)
      (milestone : Milestone) (answer : Goal) (now now' : ℤ) (db after final : Db)
      → Historic db
      → Later after final
      → record_milestone mutation scope id expected milestone now db ≡ (ok answer, after)
      → record_milestone mutation scope id expected milestone now' final ≡ (ok answer, final)
  unfolding record_milestone
  record_milestone-Later mutation scope id expected milestone answer now now' db after final h later
        e =
      method_again _ _ db after final answer
        (Repeats-check (validate_mutation mutation) _ _ λ _ _.
          Repeats-check (validate_scope scope) _ _ λ _ _.
            Repeats-check (ensure (valid_identifier id && valid_revision expected) _) _ _ λ _ _.
              Repeats-check (validate_milestone_shape milestone) _ _ λ _ _.
                let body = write_milestone_request expected milestone in
                Repeats-replay_then scope mutation id body _ _ (
                  Leads-record_current laws _ mutation scope id expected milestone body now (
                    Corrects-Answered mutation scope id expected (lit "milestone_recorded") body
                      now)))
        h later e
