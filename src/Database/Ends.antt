-- ===== src/Database/Ends.antt =====
-- What is true after a transaction: `Ends m Q db` says that `m`, started on the tables `db`, fails
-- or ends with `Q`, wherever statements fail.
use pbflags.Common.{arith, subst, ◌≡◌, refl, Bool, true, false, List, [], ◌∷◌, Option, none, some}
use pbflags.Database.{
  returning, Db, Error, Result, ok, err, Session, Tx, continue, ◌>>=◌, pure, raise, statement,
  query, exec, lift, transaction, finished, committed,
}

abbrev pub After : {A : Type 0} → (A → Db → Type 0) → Result (A × Session) → Type 0
After Q (ok (a, s)) = Q a s.db
After Q (err e) = Unit

module _ {A : Type 0} where
  pub record Ends (m : Tx A) (Q : A → Db → Type 0) (db : Db) : Type 0 where
    pub after : (faults : List Bool) → After Q (m (record { db = db; faults = faults }))

module _ {A B : Type 0} where
  After-continue :
      (f : A → Tx B) (Q : B → Db → Type 0) (res : Result (A × Session))
      → After (λ a. Ends (f a) Q) res
      → After Q (continue f res)
  After-continue f Q (ok (a, s)) h = h.after s.faults
  After-continue f Q (err e) h = tt

  pub Ends-bind :
      {m : Tx A} {f : A → Tx B} {Q : B → Db → Type 0} {db : Db}
      → Ends m (λ a. Ends (f a) Q) db
      → Ends (m >>= f) Q db
  unfolding ◌>>=◌
  Ends-bind {m} {f} {Q} {db} h = record {
    after = λ faults. After-continue f Q (m (record { db = db; faults = faults })) (h.after faults);
  }

pub Ends-pure : {A : Type 0} (a : A) {Q : A → Db → Type 0} {db : Db} → Q a db → Ends (pure a) Q db
unfolding pure
Ends-pure a h = record { after = λ faults. h }

pub Ends-raise : {A : Type 0} (e : Error) {Q : A → Db → Type 0} {db : Db} → Ends (raise e) Q db
unfolding raise
Ends-raise e = record { after = λ faults. tt }

module _ {A : Type 0} (g : Db → A) (Q : A → Db → Type 0) (db : Db) where
  After-query :
      Q (g db) db → (faults : List Bool) → After Q (query g (record { db = db; faults = faults }))
  unfolding query
  After-query h [] = h
  After-query h (true ∷ fs) = tt
  After-query h (false ∷ fs) = h

  pub Ends-query : Q (g db) db → Ends (query g) Q db
  Ends-query h = record { after = After-query h }

module _ (u : Db → Db) (Q : Unit → Db → Type 0) (db : Db) where
  After-exec :
      Q tt (u db) → (faults : List Bool) → After Q (exec u (record { db = db; faults = faults }))
  unfolding exec
  After-exec h [] = h
  After-exec h (true ∷ fs) = tt
  After-exec h (false ∷ fs) = h

  pub Ends-exec : Q tt (u db) → Ends (exec u) Q db
  Ends-exec h = record { after = After-exec h }

module _ {A : Type 0} (f : Db → A × Db) (Q : A → Db → Type 0) (db : Db) where
  After-returning :
      Q (f db).0 (f db).1
      → (faults : List Bool) → After Q (returning f (record { db = db; faults = faults }))
  unfolding returning
  After-returning h [] = h
  After-returning h (true ∷ fs) = tt
  After-returning h (false ∷ fs) = h

  pub Ends-returning : Q (f db).0 (f db).1 → Ends (returning f) Q db
  Ends-returning h = record { after = After-returning h }

pub Ends-statement : {Q : Unit → Db → Type 0} {db : Db} → Q tt db → Ends statement Q db
unfolding statement
Ends-statement {Q} {db} h = record { after = (Ends-query (λ x. tt) Q db h).after }

pub Ends-lift :
    {A : Type 0} (e : Error) (o : Option A) {Q : A → Db → Type 0} {db : Db}
    → ((a : A) → o ≡ some a → Q a db)
    → Ends (lift e o) Q db
unfolding lift
Ends-lift e none h = record { after = λ faults. tt }
Ends-lift e (some a) h = record { after = λ faults. h a refl }

-- Either the transaction failed and changed nothing, or it did what it promises.
abbrev pub Atomic : {A : Type 0} → (A → Db → Type 0) → Db → Result A × Db → Type 0
Atomic Q db (ok a, after) = Q a after
Atomic Q db (err e, after) = after ≡ db

module _ {A : Type 0} where
  Atomic-finished :
      (Q : A → Db → Type 0) (db : Db) (res : Result (A × Session))
      → After Q res
      → Atomic Q db (finished db res)
  unfolding finished
  Atomic-finished Q db (ok (a, s)) h = h
  Atomic-finished Q db (err e) h = refl

  After-weaken :
      {Q R : A → Db → Type 0} (res : Result (A × Session))
      → ((a : A) (db : Db) → Q a db → R a db)
      → After Q res
      → After R res
  After-weaken (ok (a, s)) f h = f a s.db h
  After-weaken (err e) f h = tt

  pub Ends-weaken :
      {m : Tx A} {Q R : A → Db → Type 0} {db : Db}
      → ((a : A) (after : Db) → Q a after → R a after)
      → Ends m Q db
      → Ends m R db
  Ends-weaken {m} {Q} {R} {db} f h = record {
    after = λ faults.
        After-weaken {Q = Q} {R = R} (m (record { db = db; faults = faults })) f (h.after faults);
  }

  Ends-committed :
      {m : Tx A} {Q : A → Db → Type 0} {db : Db} → Ends m Q db → Ends (committed m) Q db
  unfolding committed
  Ends-committed {m} {Q} {db} h = Ends-bind (
      Ends-statement
        (Ends-bind (Ends-weaken (λ a after q. Ends-bind (Ends-statement (Ends-pure a q))) h)))

  pub transaction-Atomic :
      (m : Tx A) (Q : A → Db → Type 0) (db : Db)
      → Ends m Q db
      → (faults : List Bool) → Atomic Q db (transaction m faults db)
  unfolding transaction
  transaction-Atomic m Q db h faults =
      Atomic-finished Q db (committed m (record { db = db; faults = faults }))
        ((Ends-committed h).after faults)

-- What a transaction that succeeded has done.
pub Atomic-ok :
    {A : Type 0} (Q : A → Db → Type 0) (db : Db) (res : Result A × Db) (a : A)
    → Atomic Q db res
    → res.0 ≡ ok a
    → Q a res.1
Atomic-ok Q db (ok b, after) a q e = let same : b ≡ a = cc e in subst (λ x. Q x after) same q
Atomic-ok Q db (err e', after) a q e = absurd (ground (arith, e))

pub Atomic-weaken :
    {A : Type 0} (Q R : A → Db → Type 0) (db : Db) (res : Result A × Db)
    → ((a : A) (after : Db) → Q a after → R a after)
    → Atomic Q db res
    → Atomic R db res
Atomic-weaken Q R db (ok a, after) f q = f a after q
Atomic-weaken Q R db (err e, after) f q = q
