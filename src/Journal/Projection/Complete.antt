-- ===== src/Journal/Projection/Complete.antt =====
-- crates/beater-journal/src/read_projection.rs: a page can be read of every goal that the journal holds.
use temp_js.Prelude.{
  ℕ, zero, suc, ◌+◌, ◌<◌, ◌≡◌, refl, ap, Str, ℤ, pos, leb_ℤ, eq_ℤ, eq_ℤ_iff, true, some, List, [],
  ◌∷◌, map, All, take, length, arith, IsSorted,
}
use temp_js.Result.{ok}
use temp_js.Journal.Model.{GoalScope}
use temp_js.Journal.Serde.{Serde}
use temp_js.Journal.Store.{GoalRevisionEntry, Db}
use temp_js.Journal.Projection.Activity.{
  GoalActivityReceipt, read_revisions, read_receipts, last_revision, checked_succ,
}
use temp_js.Journal.Projection.Sequence.{Consecutive}
use temp_js.Journal.Projection.Matched.{HasReceipt}

module _ ⦃serde : Serde⦄ where
  abbrev pub pair : GoalRevisionEntry → ℤ × ℤ
  pair row = (row.revision, row.created_at)

  abbrev pub IsTimed : GoalRevisionEntry → Type 0
  IsTimed row = leb_ℤ (pos 0) row.created_at ≡ true

  pub Consecutive-IsSorted :
      (n : ℕ) (rows : List GoalRevisionEntry)
      → Consecutive {A = GoalRevisionEntry} (λ row. row.revision) n rows
      → IsSorted (λ a b. leb_ℤ a.revision b.revision) rows
  Consecutive-IsSorted n [] h = tt
  Consecutive-IsSorted n (row ∷ []) h = (tt, tt)
  Consecutive-IsSorted n (row ∷ next ∷ rows) h =
      (rw (h.0, h.1.0) (ground arith), Consecutive-IsSorted (suc n) (next ∷ rows) h.1)

  pub read_revisions_complete :
      (n : ℕ) (rows : List GoalRevisionEntry)
      → Consecutive {A = GoalRevisionEntry} (λ row. row.revision) n rows
      → All IsTimed rows
      → n + length rows < 9223372036854775806
      → read_revisions (pos (suc n)) rows ≡ ok (map pair rows)
  unfolding read_revisions
  read_revisions_complete n [] h t bound = refl
  read_revisions_complete n (row ∷ rows) h t bound =
      let same : eq_ℤ row.revision (pos (suc n)) ≡ true =
        (eq_ℤ_iff row.revision (pos (suc n))).1 h.0 in
      let steps : checked_succ (pos (suc n)) ≡ some (pos (suc (suc n))) = ground (arith, bound) in
      let ih = read_revisions_complete (suc n) rows h.1 t.1 (omega (arith, bound)) in
      rw (same, t.0, steps, ih)

  pub read_receipts_complete :
      (scope : GoalScope) (id : Str) (db : Db) (rows : List GoalRevisionEntry)
      → All (HasReceipt scope id db.goal_events) rows
      → (receipts : List GoalActivityReceipt) × (read_receipts scope id db (map pair rows)
          ≡ ok receipts)
        × (length receipts ≡ length rows)
  unfolding read_receipts
  read_receipts_complete scope id db [] h = ([], refl, refl)
  read_receipts_complete scope id db (row ∷ rows) h =
      let (receipt, first) = h.0 in
      let (receipts, rest, size) = read_receipts_complete scope id db rows h.1 in
      (receipt ∷ receipts, rw (first, rest), ap suc size)

  pub last_revision_complete :
      (receipts : List GoalActivityReceipt)
      → 0 < length receipts
      → (r : ℤ) × (last_revision receipts ≡ some r)
  unfolding last_revision
  last_revision_complete [] h = absurd (omega (arith, h))
  last_revision_complete (receipt ∷ []) h = (receipt.revision, refl)
  last_revision_complete (receipt ∷ next ∷ rest) h =
      last_revision_complete (next ∷ rest) (omega arith)

  pub take-map :
      (k : ℕ) (rows : List GoalRevisionEntry) → take k (map pair rows) ≡ map pair (take k rows)
  take-map zero rows = refl
  take-map (suc k) [] = refl
  take-map (suc k) (row ∷ rows) = ap (λ rest. pair row ∷ rest) (take-map k rows)

  pub length-map : (rows : List GoalRevisionEntry) → length (map pair rows) ≡ length rows
  length-map [] = refl
  length-map (row ∷ rows) = ap suc (length-map rows)
