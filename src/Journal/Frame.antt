-- ===== src/Journal/Frame.antt =====
-- crates/beater-journal/src/lib.rs: the operations on goals write only the tables of goals.
use temp_js.Prelude.{
  Str, lit, ℤ, Option, none, some, List, [], ◌∷◌, ◌++◌, any, inl, inr, Bool-cases,
}
use temp_js.Journal.Model.{GoalScope, Goal, GoalPatch, GoalMutation, Milestone}
use temp_js.Journal.Serde.{Serde}
use temp_js.Journal.Store.{
  GoalEntry, GoalRevisionEntry, GoalEventEntry, ReplayEntry, MilestoneEntry, MilestoneRevisionEntry,
  Db, Tx, insert,
}
use temp_js.Journal.Keeps.{
  Keeps, after_rows, Keeps-read, Keeps-bind, keeps_rules, transaction-keeps, Keeps-pure, Keeps-if,
}
use temp_js.Journal.Goals.{
  is_replay, is_goal_revision, replay_or_conflict, put_goal, insert_goal_revision, put_goal_event,
  insert_replay, modify, store_goal_revision, current_goal, or_replay, create_new, create_goal,
}
use temp_js.Journal.Milestones.{
  put_milestone, insert_milestone_revision, store_milestone_revision, milestones_in_tx, invalidate,
  revise_current, revise_goal, is_affected, invalidated,
}
use temp_js.Journal.Recording.{record_current, record_milestone}

module _ ⦃serde : Serde⦄ where
  open serde use {Text}

  -- A predicate that does not depend on the tables of milestones.
  pub record IsMilestoneFrame (P : Db → Type 0) : Type 0 where
    pub goal_milestones :
        (db : Db) (rows : List MilestoneEntry) → P db → P (record db { goal_milestones = rows })
    pub goal_milestone_revisions :
        (db : Db) (rows : List MilestoneRevisionEntry)
        → P db
        → P (record db { goal_milestone_revisions = rows })

  -- A predicate that does not depend on the tables of goals and that no new revision or answer
  -- breaks.
  pub record IsFrame (P : Db → Type 0) : Type 0 where
    pub goals : (db : Db) (rows : List GoalEntry) → P db → P (record db { goals = rows })
    pub goal_revisions :
        (db : Db) (row : GoalRevisionEntry)
        → P db
        → P (record db { goal_revisions = db.goal_revisions ++ row ∷ [] })
    pub goal_events :
        (db : Db) (rows : List GoalEventEntry) → P db → P (record db { goal_events = rows })
    pub goal_replays :
        (db : Db) (row : ReplayEntry)
        → P db
        → P (record db { goal_replays = db.goal_replays ++ row ∷ [] })
    pub milestones : IsMilestoneFrame P

  -- A predicate that does not depend on the tables of milestones, and that a revision stored at
  -- `now` keeps.
  pub record IsStoreFrame (P : Db → Type 0) (now : ℤ) : Type 0 where
    pub milestones : IsMilestoneFrame P
    pub created :
        (goal : Goal) (mutation : GoalMutation) (body : Text)
        → Keeps P (store_goal_revision goal mutation (lit "created") body now)
    pub revised :
        (goal : Goal) (mutation : GoalMutation) (body : Text)
        → Keeps P (store_goal_revision goal mutation (lit "revised") body now)
    pub recorded :
        (goal : Goal) (mutation : GoalMutation) (body : Text)
        → Keeps P (store_goal_revision goal mutation (lit "milestone_recorded") body now)

  module _ {P : Db → Type 0} (frame : IsMilestoneFrame P) where
    pub Keeps-store_milestone_revision :
        (scope : GoalScope) (id : Str) (revision : ℤ) (milestone : Milestone)
        (mutation : GoalMutation) (event : Str) (now : ℤ)
        → Keeps P (store_milestone_revision scope id revision milestone mutation event now)
    unfolding store_milestone_revision insert_milestone_revision put_milestone
    Keeps-store_milestone_revision scope id revision milestone mutation event now = record {
      at = λ db h.
          let db' = put_milestone scope id milestone now db in
          after_rows P (λ rows. record db' { goal_milestone_revisions = rows }) tt
            (λ rows. frame.goal_milestone_revisions db' rows (frame.goal_milestones db _ h)) _;
    }

    pub Keeps-invalidate :
        (scope : GoalScope) (id : Str) (old next : Goal) (mutation : GoalMutation) (now : ℤ)
        (milestones : List Milestone)
        → Keeps P (invalidate scope id old next mutation now milestones)
    unfolding invalidate
    Keeps-invalidate scope id old next mutation now [] = Keeps-pure tt
    Keeps-invalidate scope id old next mutation now (m ∷ ms) =
        Keeps-bind _ _
          (Keeps-if (is_affected old next m) _ _
            (Keeps-store_milestone_revision scope id next.revision (invalidated m) mutation
              (lit "invalidated") now)
            (Keeps-pure tt))
          (λ _. Keeps-invalidate scope id old next mutation now ms)

  module _ {P : Db → Type 0} (frame : IsFrame P) where
    Keeps-put_goal : (goal : Goal) (now : ℤ) → Keeps P (modify (put_goal goal now))
    unfolding put_goal
    Keeps-put_goal goal now = record { at = λ db h. frame.goals db _ h }

    Keeps-put_goal_event :
        (goal : Goal) (event : Str) (now : ℤ) → Keeps P (modify (put_goal_event goal event now))
    unfolding put_goal_event
    Keeps-put_goal_event goal event now = record { at = λ db h. frame.goal_events db _ h }

    Keeps-insert_goal_revision :
        (goal : Goal) (mutation : GoalMutation) (now : ℤ)
        → Keeps P (insert_goal_revision goal mutation now)
    unfolding insert_goal_revision insert
    Keeps-insert_goal_revision goal mutation now = record {
      at = λ db h. elim (Bool-cases (any (is_goal_revision goal) db.goal_revisions)) [
        | inl taken ↦ rw (taken, insert_goal_revision) tt
        | inr fresh ↦ rw (fresh, insert_goal_revision) (frame.goal_revisions db _ h)
      ];
    }

    Keeps-insert_replay :
        (goal : Goal) (mutation : GoalMutation) (body : Text) (now : ℤ)
        → Keeps P (insert_replay goal mutation body now)
    unfolding insert_replay insert
    Keeps-insert_replay goal mutation body now = record {
      at = λ db h. elim (Bool-cases (any (is_replay goal.scope mutation goal.id) db.goal_replays)) [
        | inl taken ↦ rw (taken, insert_replay) tt
        | inr new ↦ rw (new, insert_replay) (frame.goal_replays db _ h)
      ];
    }

    Keeps-store_goal_revision :
        (goal : Goal) (mutation : GoalMutation) (event : Str) (body : Text) (now : ℤ)
        → Keeps P (store_goal_revision goal mutation event body now)
    unfolding store_goal_revision
    Keeps-store_goal_revision goal mutation event body now = search (
      keeps_rules, Keeps-put_goal, Keeps-insert_goal_revision, Keeps-put_goal_event,
      Keeps-insert_replay,
    )

    pub store_frame : (now : ℤ) → IsStoreFrame P now
    store_frame now = record {
      milestones = frame.milestones;
      created = λ goal mutation body. Keeps-store_goal_revision goal mutation _ body now;
      revised = λ goal mutation body. Keeps-store_goal_revision goal mutation _ body now;
      recorded = λ goal mutation body. Keeps-store_goal_revision goal mutation _ body now;
    }

  module _ {P : Db → Type 0} (now : ℤ) (frame : IsStoreFrame P now) where
    store_created :
        (goal : Goal) (mutation : GoalMutation) (body : Text)
        → Keeps P (store_goal_revision goal mutation (lit "created") body now)
    store_created = frame.created

    store_revised :
        (goal : Goal) (mutation : GoalMutation) (body : Text)
        → Keeps P (store_goal_revision goal mutation (lit "revised") body now)
    store_revised = frame.revised

    store_recorded :
        (goal : Goal) (mutation : GoalMutation) (body : Text)
        → Keeps P (store_goal_revision goal mutation (lit "milestone_recorded") body now)
    store_recorded = frame.recorded

    Keeps-or_replay :
        (replay : Option Goal) (body : Tx Goal) → Keeps P body → Keeps P (or_replay replay body)
    Keeps-or_replay none body k = k
    Keeps-or_replay (some g) body k = Keeps-pure g

    Keeps-current_goal : (scope : GoalScope) (id : Str) → Keeps P (current_goal scope id)
    unfolding current_goal
    Keeps-current_goal scope id = Keeps-read _

    Keeps-replay_or_conflict :
        (scope : GoalScope) (mutation : GoalMutation) (target : Str) (body : Text)
        → Keeps P (replay_or_conflict scope mutation target body)
    unfolding replay_or_conflict
    Keeps-replay_or_conflict scope mutation target body = Keeps-read _

    Keeps-milestones_in_tx : (scope : GoalScope) (id : Str) → Keeps P (milestones_in_tx scope id)
    unfolding milestones_in_tx
    Keeps-milestones_in_tx scope id = Keeps-read _

    Keeps-store_milestone :
        (scope : GoalScope) (id : Str) (revision : ℤ) (milestone : Milestone)
        (mutation : GoalMutation) (event : Str)
        → Keeps P (store_milestone_revision scope id revision milestone mutation event now)
    Keeps-store_milestone scope id revision milestone mutation event =
        Keeps-store_milestone_revision frame.milestones scope id revision milestone mutation event
          now

    Keeps-invalidates :
        (scope : GoalScope) (id : Str) (old next : Goal) (mutation : GoalMutation)
        (milestones : List Milestone)
        → Keeps P (invalidate scope id old next mutation now milestones)
    Keeps-invalidates scope id old next mutation milestones =
        Keeps-invalidate frame.milestones scope id old next mutation now milestones

    ruleset goal_rules = (
      keeps_rules, store_created, store_revised, store_recorded, Keeps-store_milestone,
      Keeps-invalidates, Keeps-or_replay, Keeps-current_goal, Keeps-replay_or_conflict,
      Keeps-milestones_in_tx,
    )

    Keeps-create_new :
        (mutation : GoalMutation) (goal : Goal) → Keeps P (create_new mutation goal now)
    unfolding create_new
    Keeps-create_new mutation goal = search goal_rules depth 12

    Keeps-revise_current :
        (mutation : GoalMutation) (scope : GoalScope) (id : Str) (expected : ℤ) (patch : GoalPatch)
        (body : Text)
        → Keeps P (revise_current mutation scope id expected patch body now)
    unfolding revise_current
    Keeps-revise_current mutation scope id expected patch body = search goal_rules depth 20

    Keeps-record_current :
        (mutation : GoalMutation) (scope : GoalScope) (id : Str) (expected : ℤ)
        (milestone : Milestone) (body : Text)
        → Keeps P (record_current mutation scope id expected milestone body now)
    unfolding record_current
    Keeps-record_current mutation scope id expected milestone body = search goal_rules depth 24

    pub create_goal-keeps :
        (mutation : GoalMutation) (goal : Goal) (db : Db)
        → P db
        → P (create_goal mutation goal now db).1
    unfolding create_goal
    create_goal-keeps mutation goal =
        transaction-keeps _ (search (goal_rules, Keeps-create_new) depth 16)

    pub revise_goal-keeps :
        (mutation : GoalMutation) (scope : GoalScope) (id : Str) (expected : ℤ) (patch : GoalPatch)
        (db : Db)
        → P db
        → P (revise_goal mutation scope id expected patch now db).1
    unfolding revise_goal
    revise_goal-keeps mutation scope id expected patch =
        transaction-keeps _ (search (goal_rules, Keeps-revise_current) depth 16)

    pub record_milestone-keeps :
        (mutation : GoalMutation) (scope : GoalScope) (id : Str) (expected : ℤ)
        (milestone : Milestone) (db : Db)
        → P db
        → P (record_milestone mutation scope id expected milestone now db).1
    unfolding record_milestone
    record_milestone-keeps mutation scope id expected milestone =
        transaction-keeps _ (search (goal_rules, Keeps-record_current) depth 16)
