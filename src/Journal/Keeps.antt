-- ===== src/Journal/Keeps.antt =====
-- Invariants of transactions, one rule for each way to build one, and of methods.
use temp_js.Prelude.{List, Bool, true, false, ◌≡◌, refl, ap, if◌then◌else◌}
use temp_js.Result.{Result, Error, ok, err}
use temp_js.Journal.Serde.{Serde}
use temp_js.Journal.Store.{Db, Tx, Op, transaction, continue, and_then, lift, ◌>>=◌, pure, gets}

module _ ⦃serde : Serde⦄ where
  abbrev pub AfterOk : {A : Type 0} → (Db → Type 0) → Result (A × Db) → Type 0
  AfterOk P (ok (a, after)) = P after
  AfterOk P (err e) = Unit

  -- A transaction that succeeds keeps `P`.
  pub record Keeps {A : Type 0} (P : Db → Type 0) (m : Tx A) : Type 0 where
    pub at : (db : Db) → P db → AfterOk P (m db)

  AfterOk-lift :
      {A : Type 0} (P : Db → Type 0) (r : Result A) (db : Db) → P db → AfterOk P (lift r db)
  AfterOk-lift P (ok a) db h = h
  AfterOk-lift P (err e) db h = tt

  AfterOk-transaction :
      {A : Type 0} (P : Db → Type 0) (r : Result (A × Db)) (db : Db)
      → P db
      → AfterOk P r
      → P (elim r [ ok (a, after) ↦ after | err e ↦ db ])
  AfterOk-transaction P (ok (a, after)) db h k = k
  AfterOk-transaction P (err e) db h k = h

  after-transaction :
      {A : Type 0} (r : Result (A × Db)) (db : Db) (m : Tx A)
      → m db ≡ r
      → (transaction m db).1 ≡ elim r [ ok (a, after) ↦ after | err e ↦ db ]
  unfolding transaction
  after-transaction (ok (a, after)) db m e = rw (e, transaction)
  after-transaction (err x) db m e = rw (e, transaction)

  module _ {A : Type 0} {P : Db → Type 0} where
    pub Keeps-lift : (r : Result A) → Keeps P (lift r)
    Keeps-lift r = record { at = AfterOk-lift P r }

    pub Keeps-read : (r : Db → Result A) → Keeps P (λ db. lift (r db) db)
    Keeps-read r = record { at = λ db h. AfterOk-lift P (r db) db h }

    pub Keeps-pure : (a : A) → Keeps P (pure a)
    Keeps-pure a = record { at = λ db h. h }

    pub Keeps-gets : (f : Db → A) → Keeps P (gets f)
    Keeps-gets f = record { at = λ db h. h }

    pub Keeps-if : (b : Bool) (m n : Tx A) → Keeps P m → Keeps P n → Keeps P (if b then m else n)
    Keeps-if true m n km kn = km
    Keeps-if false m n km kn = kn

    -- So does the method that runs it.
    pub transaction-keeps : (m : Tx A) → Keeps P m → (db : Db) → P db → P (transaction m db).1
    transaction-keeps m k db h =
        rw (after-transaction (m db) db m refl) (AfterOk-transaction P (m db) db h (k.at db h))

  AfterOk-bind :
      {A B : Type 0} (P : Db → Type 0) (r : Result (A × Db)) (f : A → Tx B)
      → AfterOk P r
      → ((a : A) → Keeps P (f a))
      → AfterOk P (elim r [ ok (a, after) ↦ f a after | err e ↦ err e ])
  AfterOk-bind P (ok (a, after)) f h kf = (kf a).at after h
  AfterOk-bind P (err e) f h kf = tt

  module _ {A B : Type 0} {P : Db → Type 0} where
    pub Keeps-bind :
        (m : Tx A) (f : A → Tx B) → Keeps P m → ((a : A) → Keeps P (f a)) → Keeps P (m >>= f)
    Keeps-bind m f km kf = record { at = λ db h. AfterOk-bind P (m db) f (km.at db h) kf }

  -- A statement that may violate a constraint, and sets one table.
  pub after_rows :
      {A B : Type 0} (P : Db → Type 0) (set : List A → Db) (b : B)
      → ((rows : List A) → P (set rows))
      → (r : Result (List A))
      → AfterOk {A = B} P (elim r [ ok rows ↦ ok (b, set rows) | err e ↦ err e ])
  after_rows P set b h (ok rows) = h rows
  after_rows P set b h (err e) = tt

  pub and_then-ok :
      {A B : Type 0} (m : Op A) (f : A → Op B) (db after : Db) (a : A)
      → m db ≡ (ok a, after)
      → and_then m f db ≡ f a after
  and_then-ok {A} m f db after a e = ap {A = Result A × Db} (λ p. continue f p.0 p.1) e

  pub and_then-err :
      {A B : Type 0} (m : Op A) (f : A → Op B) (db : Db) (x : Error)
      → (m db).0 ≡ err x
      → and_then m f db ≡ (err x, (m db).1)
  and_then-err m f db x e = rw (e, and_then)

  continue-keeps :
      {A B : Type 0} (P : Db → Type 0) (f : A → Op B) (r : Result A) (db : Db)
      → P db
      → ((a : A) (db : Db) → P db → P (f a db).1)
      → P (continue f r db).1
  continue-keeps P f (ok a) db h k = k a db h
  continue-keeps P f (err e) db h k = h

  pub and_then-keeps :
      {A B : Type 0} (P : Db → Type 0) (m : Op A) (f : A → Op B) (db : Db)
      → P (m db).1
      → ((a : A) (db : Db) → P db → P (f a db).1)
      → P (and_then m f db).1
  and_then-keeps P m f db h k = continue-keeps P f (m db).0 (m db).1 h k

  pub transaction-ok :
      {A : Type 0} (m : Tx A) (db after : Db) (a : A)
      → m db ≡ ok (a, after)
      → transaction m db ≡ (ok a, after)
  unfolding transaction
  transaction-ok m db after a e = rw (e, transaction)

pub ruleset keeps_rules = (Keeps-lift, Keeps-read, Keeps-pure, Keeps-gets, Keeps-if, Keeps-bind)
