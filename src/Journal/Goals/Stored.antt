-- ===== src/Journal/Goals/Stored.antt =====
-- crates/beater-journal/src/lib.rs: what `store_goal_revision` leaves.
use temp_js.Prelude.{Str, ℤ, true, false, ◌≡◌, inl, inr, [], ◌∷◌, ◌++◌, any, Bool-cases}
use temp_js.Result.{ok, err, constraint}
use temp_js.Journal.Model.{Goal, GoalMutation}
use temp_js.Journal.Serde.{Serde}
use temp_js.Journal.Store.{Db, upsert, insert, ◌>>=◌, ◌>>◌}
use temp_js.Journal.Runs.{is_goal}
use temp_js.Journal.Keeps.{AfterOk}
use temp_js.Journal.Goals.{
  goal_row, revision_row, event_row, replay_row, overwrite, is_goal_revision, is_replay,
  insert_goal_revision, insert_replay, put_goal, put_goal_event, store_goal_revision,
}

module _ ⦃serde : Serde⦄ where
  open serde use {Text}

  -- One row in each of the four tables.
  abbrev pub stored : Goal → GoalMutation → Str → Text → ℤ → Db → Db
  stored goal mutation event request_body now db = record db {
    goals =
        upsert (is_goal goal.scope goal.id) (overwrite (goal_row goal now)) (goal_row goal now)
          db.goals;
    goal_revisions = db.goal_revisions ++ revision_row goal mutation now ∷ [];
    goal_events = db.goal_events ++ event_row goal event now ∷ [];
    goal_replays = db.goal_replays ++ replay_row goal mutation request_body now ∷ [];
  }

  insert_goal_revision-fresh :
      (goal : Goal) (mutation : GoalMutation) (now : ℤ) (db : Db)
      → any (is_goal_revision goal) db.goal_revisions ≡ false
      → insert_goal_revision goal mutation now db
        ≡ ok (
          tt,
          record db { goal_revisions = db.goal_revisions ++ revision_row goal mutation now ∷ [] },
        )
  unfolding insert_goal_revision insert
  insert_goal_revision-fresh goal mutation now db fresh = rw (fresh, insert, insert_goal_revision)

  insert_goal_revision-taken :
      (goal : Goal) (mutation : GoalMutation) (now : ℤ) (db : Db)
      → any (is_goal_revision goal) db.goal_revisions ≡ true
      → insert_goal_revision goal mutation now db ≡ err constraint
  unfolding insert_goal_revision insert
  insert_goal_revision-taken goal mutation now db taken = rw (taken, insert, insert_goal_revision)

  insert_replay-fresh :
      (goal : Goal) (mutation : GoalMutation) (body : Text) (now : ℤ) (db : Db)
      → any (is_replay goal.scope mutation goal.id) db.goal_replays ≡ false
      → insert_replay goal mutation body now db
        ≡ ok (
          tt,
          record db { goal_replays = db.goal_replays ++ replay_row goal mutation body now ∷ [] },
        )
  unfolding insert_replay insert
  insert_replay-fresh goal mutation body now db fresh = rw (fresh, insert, insert_replay)

  insert_replay-taken :
      (goal : Goal) (mutation : GoalMutation) (body : Text) (now : ℤ) (db : Db)
      → any (is_replay goal.scope mutation goal.id) db.goal_replays ≡ true
      → insert_replay goal mutation body now db ≡ err constraint
  unfolding insert_replay insert
  insert_replay-taken goal mutation body now db taken = rw (taken, insert, insert_replay)

  module _ (goal : Goal) (mutation : GoalMutation) (event : Str) (body : Text) (now : ℤ)
      (db : Db) where
    -- The database before the third and the fourth statement.
    abbrev revised : Db
    revised = record (put_goal goal now db) {
      goal_revisions = db.goal_revisions ++ revision_row goal mutation now ∷ [];
    }

    pub store_goal_revision_lem :
        any (is_goal_revision goal) db.goal_revisions ≡ false
        → any (is_replay goal.scope mutation goal.id) db.goal_replays ≡ false
        → store_goal_revision goal mutation event body now db
          ≡ ok (tt, stored goal mutation event body now db)
    unfolding store_goal_revision put_goal put_goal_event
    store_goal_revision_lem fresh new = rw (
      insert_goal_revision-fresh goal mutation now (put_goal goal now db) fresh,
      insert_replay-fresh goal mutation body now (put_goal_event goal event now revised) new,
      store_goal_revision,
      ◌>>◌,
      ◌>>=◌,
    )

    store_goal_revision-taken :
        any (is_goal_revision goal) db.goal_revisions ≡ true
        → store_goal_revision goal mutation event body now db ≡ err constraint
    unfolding store_goal_revision put_goal put_goal_event
    store_goal_revision-taken taken = rw (
      insert_goal_revision-taken goal mutation now (put_goal goal now db) taken,
      store_goal_revision,
      ◌>>◌,
      ◌>>=◌,
    )

    store_goal_revision-answered :
        any (is_goal_revision goal) db.goal_revisions ≡ false
        → any (is_replay goal.scope mutation goal.id) db.goal_replays ≡ true
        → store_goal_revision goal mutation event body now db ≡ err constraint
    unfolding store_goal_revision put_goal put_goal_event
    store_goal_revision-answered fresh answered = rw (
      insert_goal_revision-fresh goal mutation now (put_goal goal now db) fresh,
      insert_replay-taken goal mutation body now (put_goal_event goal event now revised) answered,
      store_goal_revision,
      ◌>>◌,
      ◌>>=◌,
    )

    -- A rule: what holds of those rows holds of every success.
    pub store_goal_revision-after :
        (P : Db → Type 0)
        → (any (is_goal_revision goal) db.goal_revisions ≡ false
            → any (is_replay goal.scope mutation goal.id) db.goal_replays ≡ false
            → P (stored goal mutation event body now db))
        → AfterOk P (store_goal_revision goal mutation event body now db)
    store_goal_revision-after P h =
        elim (Bool-cases (any (is_goal_revision goal) db.goal_revisions)) [
          | inl taken ↦ rw (store_goal_revision-taken taken) tt
          | inr fresh ↦
              elim (Bool-cases (any (is_replay goal.scope mutation goal.id) db.goal_replays)) [
                | inl answered ↦ rw (store_goal_revision-answered fresh answered) tt
                | inr new ↦ rw (store_goal_revision_lem fresh new) (h fresh new)
              ]
        ]
