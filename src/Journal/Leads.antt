-- ===== src/Journal/Leads.antt =====
-- What a transaction that succeeds establishes, from what holds before it.
use temp_js.Prelude.{◌≡◌, refl, subst, arith}
use temp_js.Result.{Result, ok, err}
use temp_js.Journal.Serde.{Serde}
use temp_js.Journal.Store.{Db, Tx, transaction, lift, ◌>>=◌}
use temp_js.Journal.Keeps.{AfterOk, Keeps}

module _ ⦃serde : Serde⦄ where
  -- What holds of the value and the database of a success.
  abbrev pub Gives : {A : Type 0} → (A → Db → Type 0) → Result (A × Db) → Type 0
  Gives Q (ok (a, after)) = Q a after
  Gives Q (err e) = Unit

  pub record Leads {A : Type 0} (P : Db → Type 0) (Q : A → Db → Type 0) (m : Tx A) : Type 0 where
    pub from : (db : Db) → P db → Gives Q (m db)

  then-Leads :
      {A B : Type 0} {Q : B → Db → Type 0} (R : Db → Type 0) (f : A → Tx B) (r : Result (A × Db))
      → AfterOk R r
      → ((a : A) → Leads R Q (f a))
      → Gives Q (elim r [ ok (a, after) ↦ f a after | err e ↦ err e ])
  then-Leads R f (ok (a, after)) h k = (k a).from after h
  then-Leads R f (err e) h k = tt

  after_read :
      {A B : Type 0} {Q : B → Db → Type 0} (P' : A → Db → Type 0) (r : Result A) (f : A → Tx B)
      (db : Db)
      → ((a : A) → r ≡ ok a → P' a db × Leads (P' a) Q (f a))
      → Gives Q ((lift r >>= f) db)
  after_read P' (ok a) f db k = let (h, l) = k a refl in l.from db h
  after_read P' (err e) f db k = tt

  module _ {A B : Type 0} {P : Db → Type 0} {Q : B → Db → Type 0} where
    -- First what keeps `P`, then what leads on.
    pub Leads-bind :
        (m : Tx A) (f : A → Tx B) → Keeps P m → ((a : A) → Leads P Q (f a)) → Leads P Q (m >>= f)
    Leads-bind m f k l = record { from = λ db h. then-Leads P f (m db) (k.at db h) l }

    checked :
        (r : Result A) (f : A → Tx B) (db : Db)
        → ((a : A) → r ≡ ok a → Leads P Q (f a))
        → P db
        → Gives Q ((lift r >>= f) db)
    checked (ok a) f db k h = (k a refl).from db h
    checked (err e) f db k h = tt

    -- A check whose success the rest may use.
    pub Leads-check :
        (r : Result A) (f : A → Tx B)
        → ((a : A) → r ≡ ok a → Leads P Q (f a))
        → Leads P Q (lift r >>= f)
    Leads-check r f k = record { from = λ db h. checked r f db k h }

  -- A value that is read from the database, of which the rest may use what holds there.
  pub Leads-read :
      {A B : Type 0} {P : Db → Type 0} {Q : B → Db → Type 0} (P' : A → Db → Type 0)
      (r : Db → Result A) (f : A → Tx B)
      → ((db : Db) (a : A) → P db → r db ≡ ok a → P' a db)
      → ((a : A) → Leads (P' a) Q (f a))
      → Leads P Q ((λ db. lift (r db) db) >>= f)
  Leads-read P' r f held k = record {
    from = λ db h. after_read P' (r db) f db (λ a e. (held db a h e, k a));
  }

  -- What does not depend on the database is known once and for all.
  pub Leads-given :
      {A : Type 0} {P : Db → Type 0} {Q : A → Db → Type 0} (F : Type 0) (m : Tx A)
      → (F → Leads P Q m)
      → Leads (λ db. F × P db) Q m
  Leads-given F m l = record { from = λ db h. (l h.0).from db h.1 }

  keeps : {A : Type 0} (P : Db → Type 0) (r : Result (A × Db)) → Gives (λ _. P) r → AfterOk P r
  keeps P (ok (a, after)) h = h
  keeps P (err e) h = tt

  pub Leads-Keeps : {A : Type 0} {P : Db → Type 0} (m : Tx A) → Leads P (λ _. P) m → Keeps P m
  Leads-Keeps {A} {P} m l = record { at = λ db h. keeps P (m db) (l.from db h) }

  pub Leads-ok :
      {A : Type 0} {P : Db → Type 0} {Q : A → Db → Type 0} (m : Tx A)
      → Leads P Q m
      → (db after : Db) (a : A) → P db
      → m db ≡ ok (a, after)
      → Q a after
  Leads-ok {Q} m l db after a h e = subst (Gives Q) e (l.from db h)

  -- A method succeeds as its transaction does.
  pub transaction_sound :
      {A : Type 0} (m : Tx A) (db after : Db) (a : A)
      → transaction m db ≡ (ok a, after)
      → m db ≡ ok (a, after)
  unfolding transaction
  transaction_sound {A} m db after a e = by_result (m db) refl
    where
      by_result : (r : Result (A × Db)) → m db ≡ r → m db ≡ ok (a, after)
      by_result (ok (b, now)) h = ground arith
      by_result (err x) h = ground arith

  -- What was checked on the way to a success.
  pub bind_ok :
      {A B : Type 0} (r : Result A) (f : A → Tx B) (db : Db) (x : B × Db)
      → (lift r >>= f) db ≡ ok x
      → (a : A) × (r ≡ ok a) × (f a db ≡ ok x)
  bind_ok (ok a) f db x e = (a, refl, e)
  bind_ok (err y) f db x e = absurd (cc e)
