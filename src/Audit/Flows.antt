-- ===== src/Audit/Flows.antt =====
-- crates/beater-journal/src/decision_audit.rs: rules for what a transaction on the audit keeps and leads to.
use temp_js.Prelude.{◌≡◌, refl, sym, ap, ◌∙◌}
use temp_js.Result.{Result, ok, err}
use temp_js.Journal.Serde.{Serde}
use temp_js.Journal.Store
use temp_js.Audit.Tables.{
  AuditDb, AuditTx, transaction, lift, ◌>>=◌, close, answer, follow, with_journal, pure, gets,
  query, on_journal,
}

module _ ⦃serde : Serde⦄ where
  follow_sound :
      {A B : Type 0} (f : A → AuditTx B) (r : Result (A × AuditDb)) (after : AuditDb) (b : B)
      → follow f r ≡ ok (b, after)
      → (a : A) × (mid : AuditDb) × (r ≡ ok (a, mid)) × (f a mid ≡ ok (b, after))
  follow_sound f (ok (a, mid)) after b e = (a, mid, refl, e)
  follow_sound f (err error) after b e = absurd (cc e)

  pub tx_bind_sound :
      {A B : Type 0} (m : AuditTx A) (f : A → AuditTx B) (db after : AuditDb) (b : B)
      → (m >>= f) db ≡ ok (b, after)
      → (a : A) × (mid : AuditDb) × (m db ≡ ok (a, mid)) × (f a mid ≡ ok (b, after))
  tx_bind_sound m f db after b e = follow_sound f (m db) after b e

  close_sound :
      {A : Type 0} (db : AuditDb) (r : Result (A × AuditDb)) (after : AuditDb) (a : A)
      → close db r ≡ (ok a, after)
      → r ≡ ok (a, after)
  close_sound db (ok (x, left)) after a e = cc e
  close_sound db (err error) after a e = absurd (cc e)

  pub transaction_sound :
      {A : Type 0} (body : AuditTx A) (db after : AuditDb) (a : A)
      → transaction body db ≡ (ok a, after)
      → body db ≡ ok (a, after)
  unfolding transaction
  transaction_sound body db after a e = close_sound db (body db) after a e

  answer_sound :
      {A : Type 0} (db : AuditDb) (r : Result A) (after : AuditDb) (a : A)
      → answer db r ≡ ok (a, after)
      → (r ≡ ok a) × (db ≡ after)
  answer_sound db (ok x) after a e = (cc e, cc e)
  answer_sound db (err error) after a e = absurd (cc e)

  -- No event is written.
  abbrev pub Kept : {A : Type 0} → AuditTx A → Type 0
  Kept {A} m =
      (db after : AuditDb) (a : A)
      → m db ≡ ok (a, after)
      → after.decision_audit_events ≡ db.decision_audit_events

  pub Kept-bind :
      {A B : Type 0} (m : AuditTx A) (f : A → AuditTx B)
      → Kept m
      → ((a : A) → Kept (f a))
      → Kept (m >>= f)
  Kept-bind m f h k db after b e =
      let (a, mid, first, rest) = tx_bind_sound m f db after b e in
      k a mid after b rest ∙ h db mid a first

  pub Kept-pure : {A : Type 0} (a : A) → Kept (pure a)
  Kept-pure a db after b e =
      let same : db ≡ after = cc e in ap (λ x. x.decision_audit_events) (sym same)

  pub Kept-lift : {A : Type 0} (r : Result A) → Kept (lift r)
  Kept-lift r db after b e = ap (λ x. x.decision_audit_events) (sym (answer_sound db r after b e).1)

  pub Kept-query : {A : Type 0} (f : AuditDb → Result A) → Kept (query f)
  Kept-query f db after a e = Kept-lift (f db) db after a e

  pub Kept-gets : {A : Type 0} (f : AuditDb → A) → Kept (gets f)
  Kept-gets f db after a e = Kept-pure (f db) db after a e

  with_journal_sound :
      {A : Type 0} (db : AuditDb) (r : Result (A × Store.Db)) (after : AuditDb) (a : A)
      → with_journal db r ≡ ok (a, after)
      → after.decision_audit_events ≡ db.decision_audit_events
  with_journal_sound db (ok (x, journal)) after a e =
      let same : record db { journal = journal } ≡ after = cc e in
      ap (λ x. x.decision_audit_events) (sym same)
  with_journal_sound db (err error) after a e = absurd (cc e)

  pub Kept-on_journal : {A : Type 0} (m : Store.Tx A) → Kept (on_journal m)
  Kept-on_journal m db after a e = with_journal_sound db (m db.journal) after a e

  -- A query answers by the database that it leaves.
  pub query_sound :
      {A : Type 0} (f : AuditDb → Result A) (db after : AuditDb) (a : A)
      → query f db ≡ ok (a, after)
      → f after ≡ ok a
  query_sound f db after a e =
      let (found, same) = answer_sound db (f db) after a e in ap f (sym same) ∙ found

  -- What a transaction leads to, whatever it starts from.
  abbrev pub Leads : {A : Type 0} → (A → AuditDb → Type 0) → AuditTx A → Type 0
  Leads {A} Q m = (db after : AuditDb) (a : A) → m db ≡ ok (a, after) → Q a after

  pub Leads-bind :
      {A B : Type 0} (Q : B → AuditDb → Type 0) (m : AuditTx A) (f : A → AuditTx B)
      → ((a : A) → Leads Q (f a))
      → Leads Q (m >>= f)
  Leads-bind Q m f h db after b e =
      let (a, mid, first, rest) = tx_bind_sound m f db after b e in h a mid after b rest
