-- ===== src/Journal/Projection/Matched.antt =====
-- crates/beater-journal: the event that the receipt of a revision reads.
use temp_js.Prelude.{
  ℕ, suc, ◌≤◌, ◌<◌, ◌≡◌, refl, sym, ◌∙◌, subst, inl, inr, Str, ℤ, pos, negsuc, eq_ℤ, eq_ℤ_iff, Bool,
  true, false, ◌&&◌, List, [], ◌∷◌, All, All-imp, select, take, arith, Bool-cases, IsNumbered,
}
use temp_js.Result.{ok}
use temp_js.Journal.Model.{GoalScope}
use temp_js.Journal.Serde.{Serde}
use temp_js.Journal.Store.{GoalRevisionEntry, GoalEventEntry}
use temp_js.Journal.Goals.Held.{magnitude}
use temp_js.Journal.Goals.Revisions.{of_goal, number}
use temp_js.Journal.Projection.Activity.{
  GoalActivityReceipt, is_event, valid_goal_event, receipt_of,
}
use temp_js.Journal.Projection.Receipts.{Paired, Matches}
use temp_js.Journal.Projection.Selected.{magnitude_sound, Numbered-own, Numbered-other}

module _ ⦃serde : Serde⦄ (scope : GoalScope) (id : Str) where
  abbrev own : GoalRevisionEntry → Bool
  own = of_goal scope id

  -- An event is one of the goal as its revision is.
  is_event-own :
      (row : GoalRevisionEntry) (event : GoalEventEntry) (r : ℤ)
      → Matches row event
      → is_event scope id r event ≡ own row && eq_ℤ row.revision r
  unfolding is_event
  is_event-own row event r m = rw (m.scope, m.goal_id, m.revision) (ground arith)

  abbrev Later : ℕ → GoalRevisionEntry → Type 0
  Later n row = own row ≡ true → n < number row

  numbers-Later :
      (n : ℕ) (rows : List GoalRevisionEntry) → IsNumbered own number n rows → All (Later n) rows
  numbers-Later n [] h = tt
  numbers-Later n (row ∷ rows) h = elim (Bool-cases (own row)) [
    | inr other ↦ (
      (λ e. absurd (cc (other, e))),
      numbers-Later n rows (Numbered-other scope id n _ rows other h.1),
    )
    | inl mine ↦ (
      (λ e. omega (arith, h.0 e)),
      All-imp (Later (suc n)) (Later n) rows (λ r later e. omega (arith, later e))
          (numbers-Later (suc n) rows (Numbered-own scope id n _ rows mine h.1)),
    )
  ]

  no_event :
      (m n : ℕ) (rows : List GoalRevisionEntry) (events : List GoalEventEntry)
      → m ≤ n
      → Paired rows events
      → IsNumbered own number n rows
      → select (is_event scope id (pos m)) events ≡ []
  no_event m n [] [] bound p h = refl
  no_event m n [] (event ∷ events) bound p h = absurd p
  no_event m n (row ∷ rows) [] bound p h = absurd p
  no_event m n (row ∷ rows) (event ∷ events) bound p h = elim (Bool-cases (own row)) [
    | inr other ↦
        rw (is_event-own row event (pos m) p.0, other)
          (no_event m n rows events bound p.1 (Numbered-other scope id n _ rows other h.1))
    | inl mine ↦
        let r = magnitude_sound row.revision n (h.0 mine) in
        let later : eq_ℤ (pos (suc n)) (pos m) ≡ false = ground arith in
        rw (is_event-own row event (pos m) p.0, mine, r, later)
          (no_event m (suc n) rows events (omega (arith, bound)) p.1
            (Numbered-own scope id n _ rows mine h.1))
  ]

  not_equal : (r : ℤ) (n : ℕ) → n < magnitude r → eq_ℤ (pos n) r ≡ false
  not_equal (pos m) n h = ground arith
  not_equal (negsuc m) n h = absurd (omega (arith, h))

  -- The one event of a revision.
  record IsMatched (events : List GoalEventEntry) (row : GoalRevisionEntry) : Type 0 where
    event : GoalEventEntry
    only : select (is_event scope id row.revision) events ≡ event ∷ []
    known : valid_goal_event event.event ≡ true
    timed : event.created_at ≡ row.created_at

  abbrev Found : List GoalEventEntry → ℕ → GoalRevisionEntry → Type 0
  Found events n row = own row ≡ true → (n < number row) × IsMatched events row

  weaken :
      (event : GoalEventEntry) (events : List GoalEventEntry) (n n' : ℕ)
      → n ≤ n'
      → (row : GoalRevisionEntry) → (n' < number row → is_event scope id row.revision event ≡ false)
      → Found events n' row
      → Found (event ∷ events) n row
  weaken event events n n' bound row miss found e =
      let (later, m) = found e in
      (
        omega (arith, bound, later),
        record { event = m.event; only = rw (miss later) m.only; known = m.known; timed = m.timed },
      )

  first_found :
      (n : ℕ) (row : GoalRevisionEntry) (rows : List GoalRevisionEntry) (event : GoalEventEntry)
      (events : List GoalEventEntry)
      → Matches row event
      → Paired rows events
      → own row ≡ true
      → row.revision ≡ pos (suc n)
      → IsNumbered own number (suc n) rows
      → IsMatched (event ∷ events) row
  first_found n row rows event events m p mine r h =
      let same : eq_ℤ row.revision row.revision ≡ true =
        (eq_ℤ_iff row.revision row.revision).1 refl in
      let rest : select (is_event scope id row.revision) events ≡ [] =
        subst (λ x. select (is_event scope id x) events ≡ []) (sym r)
          (no_event (suc n) (suc n) rows events (omega arith) p h) in
      record {
        event = event;
        only = rw (is_event-own row event row.revision m, mine, same, rest);
        known = m.known;
        timed = m.created_at;
      }

  events-Found :
      (n : ℕ) (rows : List GoalRevisionEntry) (events : List GoalEventEntry)
      → Paired rows events
      → IsNumbered own number n rows
      → All (Found events n) rows
  events-Found n [] events p h = tt
  events-Found n (row ∷ rows) [] p h = absurd p
  events-Found n (row ∷ rows) (event ∷ events) p h = elim (Bool-cases (own row)) [
    | inr other ↦ (
      (λ e. absurd (cc (other, e))),
      All-imp (Found events n) (Found (event ∷ events) n) rows
          (λ later.
            weaken event events n n (omega arith) later
              (λ _. is_event-own row event later.revision p.0 ∙ rw other))
          (events-Found n rows events p.1 (Numbered-other scope id n _ rows other h.1)),
    )
    | inl mine ↦
        let r = magnitude_sound row.revision n (h.0 mine) in
        let numbered = Numbered-own scope id n _ rows mine h.1 in
        (
          (λ e.
              (omega (arith, h.0 e), first_found n row rows event events p.0 p.1 mine r numbered)),
          All-imp (Found events (suc n)) (Found (event ∷ events) n) rows
              (λ later. weaken event events n (suc n) (omega arith) later (λ above.
                is_event-own row event later.revision p.0
                ∙ rw (mine, r) (not_equal later.revision (suc n) above)))
              (events-Found (suc n) rows events p.1 numbered),
        )
  ]

  receipt-matched :
      (events : List GoalEventEntry) (row : GoalRevisionEntry)
      → IsMatched events row
      → (receipt : GoalActivityReceipt) × (receipt_of row.revision row.created_at
            (take 2 (select (is_event scope id row.revision) events))
          ≡ ok receipt)
  unfolding receipt_of
  receipt-matched events row m =
      let same : eq_ℤ m.event.created_at row.created_at ≡ true =
        (eq_ℤ_iff m.event.created_at row.created_at).1 m.timed in
      (
        record { revision = row.revision; event = m.event.event; created_at = row.created_at },
        rw (m.only, receipt_of, m.known, same),
      )

  -- Each stored revision of the goal has its receipt.
  abbrev pub HasReceipt : List GoalEventEntry → GoalRevisionEntry → Type 0
  HasReceipt events row =
      (receipt : GoalActivityReceipt) × (receipt_of row.revision row.created_at
          (take 2 (select (is_event scope id row.revision) events))
        ≡ ok receipt)

  pub all-HasReceipt :
      (rows : List GoalRevisionEntry) (events : List GoalEventEntry)
      → Paired rows events
      → IsNumbered own number 0 rows
      → All (λ row. own row ≡ true → HasReceipt events row) rows
  all-HasReceipt rows events p h =
      All-imp (Found events 0) (λ row. own row ≡ true → HasReceipt events row) rows
        (λ row found e. receipt-matched events row (found e).1) (events-Found 0 rows events p h)
