-- ===== src/Journal/Projection/Receipts.antt =====
-- crates/beater-journal: every stored revision of a goal has its event.
use temp_js.Prelude.{Str, lit, str_eq, ℤ, pos, leb_ℤ, true, ◌≡◌, refl, List, [], ◌∷◌, ◌++◌, All}
use temp_js.Journal.Model.{Goal, GoalMutation}
use temp_js.Journal.Serde.{Serde}
use temp_js.Journal.Store.{GoalRevisionEntry, GoalEventEntry, Db, empty_db}
use temp_js.Journal.Keeps.{Keeps}
use temp_js.Journal.Frame.{IsStoreFrame}
use temp_js.Journal.StepFrame.{IsRunFrame}
use temp_js.Journal.Session.{Call, clock, perform_all}
use temp_js.Journal.Session.Frames.{perform_all-stores}
use temp_js.Journal.Goals.{revision_row, event_row, store_goal_revision}
use temp_js.Journal.Goals.Stored.{store_goal_revision-after}
use temp_js.Journal.Projection.Activity.{valid_goal_event}

module _ ⦃serde : Serde⦄ where
  open serde use {Text}

  -- The event of a revision, recorded at the same time.
  pub record Matches (row : GoalRevisionEntry) (event : GoalEventEntry) : Type 0 where
    pub scope : event.scope ≡ row.scope
    pub goal_id : event.goal_id ≡ row.goal_id
    pub revision : event.revision ≡ row.revision
    pub created_at : event.created_at ≡ row.created_at
    pub known : valid_goal_event event.event ≡ true
    pub timed : leb_ℤ (pos 0) row.created_at ≡ true

  abbrev pub Paired : List GoalRevisionEntry → List GoalEventEntry → Type 0
  Paired [] [] = Unit
  Paired (row ∷ rows) (event ∷ events) = Matches row event × Paired rows events
  Paired _ _ = ⊥

  Paired-append :
      (rows : List GoalRevisionEntry) (events : List GoalEventEntry) (row : GoalRevisionEntry)
      (event : GoalEventEntry)
      → Paired rows events
      → Matches row event
      → Paired (rows ++ row ∷ []) (events ++ event ∷ [])
  Paired-append [] [] row event h m = (m, tt)
  Paired-append [] (e ∷ events) row event h m = absurd h
  Paired-append (r ∷ rows) [] row event h m = absurd h
  Paired-append (r ∷ rows) (e ∷ events) row event h m =
      (h.0, Paired-append rows events row event h.1 m)

  pub Paired-timed :
      (rows : List GoalRevisionEntry) (events : List GoalEventEntry)
      → Paired rows events
      → All (λ row. leb_ℤ (pos 0) row.created_at ≡ true) rows
  Paired-timed [] events h = tt
  Paired-timed (row ∷ rows) [] h = absurd h
  Paired-timed (row ∷ rows) (event ∷ events) h = (h.0.timed, Paired-timed rows events h.1)

  abbrev pub Receipted : Db → Type 0
  Receipted db = Paired db.goal_revisions db.goal_events

  abbrev pub IsTime : ℤ → Type 0
  IsTime now = leb_ℤ (pos 0) now ≡ true

  Matches-stored :
      (goal : Goal) (mutation : GoalMutation) (event : Str) (now : ℤ)
      → IsTime now
      → valid_goal_event event ≡ true
      → Matches (revision_row goal mutation now) (event_row goal event now)
  unfolding revision_row event_row
  Matches-stored goal mutation event now time known = record {
    scope = refl;
    goal_id = refl;
    revision = refl;
    created_at = refl;
    known = known;
    timed = time;
  }

  Keeps-stored :
      (goal : Goal) (mutation : GoalMutation) (event : Str) (body : Text) (now : ℤ)
      → IsTime now
      → valid_goal_event event ≡ true
      → Keeps Receipted (store_goal_revision goal mutation event body now)
  Keeps-stored goal mutation event body now time known = record {
    at = λ db h. store_goal_revision-after goal mutation event body now db Receipted (λ _ _.
        Paired-append db.goal_revisions db.goal_events (revision_row goal mutation now)
          (event_row goal event now) h (Matches-stored goal mutation event now time known));
  }

  known_created : valid_goal_event (lit "created") ≡ true
  unfolding valid_goal_event lit str_eq
  known_created = refl

  known_revised : valid_goal_event (lit "revised") ≡ true
  unfolding valid_goal_event lit str_eq
  known_revised = refl

  known_recorded : valid_goal_event (lit "milestone_recorded") ≡ true
  unfolding valid_goal_event lit str_eq
  known_recorded = refl

  stores : (now : ℤ) → IsTime now → IsStoreFrame Receipted now
  stores now time = record {
    milestones = record {
      goal_milestones = λ db rows h. h;
      goal_milestone_revisions = λ db rows h. h;
    };
    created = λ goal mutation body. Keeps-stored goal mutation _ body now time known_created;
    revised = λ goal mutation body. Keeps-stored goal mutation _ body now time known_revised;
    recorded = λ goal mutation body. Keeps-stored goal mutation _ body now time known_recorded;
  }

  runs : IsRunFrame Receipted
  runs = record { runs = λ db rows h. h; steps = λ db rows h. h; step_partials = λ db rows h. h }

  empty-Receipted : Receipted empty_db
  unfolding empty_db
  empty-Receipted = tt

  pub calls-Receipted :
      (db : Db) (calls : List Call)
      → All (λ call. IsTime (clock call)) calls
      → Receipted db
      → Receipted (perform_all db calls)
  calls-Receipted = perform_all-stores runs IsTime stores

  -- After any calls on a new journal, successful or not, at times that are not negative: the recorded
  -- revisions and the recorded events are the same number, and each event in turn is one that the
  -- readers know, of the goal, the revision and the time of the revision in its place.
  pub perform_all-Receipted :
      (calls : List Call)
      → All (λ call. IsTime (clock call)) calls
      → Receipted (perform_all empty_db calls)
  perform_all-Receipted calls times = calls-Receipted empty_db calls times empty-Receipted
