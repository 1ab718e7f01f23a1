-- ===== src/Store/Laws.antt =====
-- How statements and transactions act on a property of the tables, and on the tables when they fail.
use crawlerv.Prelude.{
  ◌≡◌, refl, ◌∙◌, ◌⊎◌, inl, inr, Bool, true, false, List, [], ◌∷◌, arith, if◌then◌else◌,
}
use crawlerv.Store.World.{
  Db, Error, Result, ok, err, World, M, pure, fail, continue, ◌>>=◌, attempt, statement, query,
  execute, settle, begin, commit, write_tx,
}

-- An operation keeps a property of the tables, whether it succeeds or not.
pub record Keeps {A : Type 0} (P : Db → Type 0) (m : M A) : Type 0 where
  pub apply : (w : World) → P w.db → P (m w).1.db

-- A failed operation leaves the tables as they were.
pub record IsAtomic {A : Type 0} (m : M A) : Type 0 where
  pub apply : (w : World) (e : Error) → (m w).0 ≡ err e → (m w).1.db ≡ w.db

module _ (P : Db → Type 0) {A : Type 0} where
  attempt-keeps :
      (fs : List Bool) (f : Db → Result A × Db) (d : Db)
      → (P d → P (f d).1)
      → P d
      → P (attempt fs f d).1.db
  attempt-keeps [] f d k h = k h
  attempt-keeps (true ∷ fs) f d k h = h
  attempt-keeps (false ∷ fs) f d k h = k h

  settle-keeps : (d : Db) (r : Result A × World) → P d → P r.1.db → P (settle d r).1.db
  settle-keeps d (ok a, w) h k = k
  settle-keeps d (err e, w) h k = h

module _ {P : Db → Type 0} where
  pub statement-Keeps :
      {A : Type 0} (f : Db → Result A × Db) → ((d : Db) → P d → P (f d).1) → Keeps P (statement f)
  unfolding statement
  statement-Keeps f k = record { apply = λ w h. attempt-keeps P w.faults f w.db (k w.db) h }

  pub execute-Keeps :
      {A : Type 0} (f : Db → A × Db) → ((d : Db) → P d → P (f d).1) → Keeps P (execute f)
  unfolding execute
  execute-Keeps f k = record { apply = λ w h. attempt-keeps P w.faults _ w.db (k w.db) h }

  pub query-Keeps : {A : Type 0} (f : Db → A) → Keeps P (query f)
  unfolding query
  query-Keeps f = record { apply = λ w h. attempt-keeps P w.faults _ w.db (λ p. p) h }

  pub pure-Keeps : {A : Type 0} (a : A) → Keeps P (pure a)
  unfolding pure
  pure-Keeps a = record { apply = λ w h. h }

  pub fail-Keeps : {A : Type 0} (e : Error) → Keeps P (fail {A = A} e)
  unfolding fail
  fail-Keeps e = record { apply = λ w h. h }

module _ (P : Db → Type 0) {A B : Type 0} where
  continue-keeps :
      (r : Result A × World) (f : A → M B)
      → P r.1.db
      → ((a : A) → Keeps P (f a))
      → P (continue r f).1.db
  continue-keeps (ok a, w) f h k = (k a).apply w h
  continue-keeps (err e, w) f h k = h

module _ {P : Db → Type 0} {A B : Type 0} where
  pub >>=-Keeps :
      {m : M A} {f : A → M B} → Keeps P m → ((a : A) → Keeps P (f a)) → Keeps P (m >>= f)
  unfolding ◌>>=◌
  >>=-Keeps {m} {f} hm hf = record { apply = λ w h. continue-keeps P (m w) f (hm.apply w h) hf }

module _ {P : Db → Type 0} where
  begin-Keeps : Keeps P begin
  unfolding begin
  begin-Keeps = query-Keeps _

  commit-Keeps : Keeps P commit
  unfolding commit
  commit-Keeps = query-Keeps _

module _ {P : Db → Type 0} {A : Type 0} where
  pub write_tx-Keeps : {m : M A} → Keeps P m → Keeps P (write_tx m)
  unfolding write_tx
  write_tx-Keeps {m} k = record {
    apply = λ w h. settle-keeps P w.db _ h (
        (>>=-Keeps begin-Keeps
            (λ _. >>=-Keeps k (λ a. >>=-Keeps commit-Keeps (λ _. pure-Keeps a)))).apply
          w h);
  }

settle-err :
    {A : Type 0} (d : Db) (r : Result A × World) (e : Error)
    → (settle d r).0 ≡ err e
    → (settle d r).1.db ≡ d
settle-err d (ok a, w) e h = ground arith
settle-err d (err x, w) e h = refl

-- A transaction that fails leaves the tables as they were.
pub write_tx-IsAtomic : {A : Type 0} (m : M A) → IsAtomic (write_tx m)
unfolding write_tx
write_tx-IsAtomic m = record { apply = λ w e h. settle-err w.db _ e h }

attempt-err :
    {A : Type 0} (fs : List Bool) (f : Db → Result A × Db) (d : Db) (e : Error)
    → ((x : Error) → (f d).0 ≡ err x → (f d).1 ≡ d)
    → (attempt fs f d).0 ≡ err e
    → (attempt fs f d).1.db ≡ d
attempt-err [] f d e k h = k e h
attempt-err (true ∷ fs) f d e k h = refl
attempt-err (false ∷ fs) f d e k h = k e h

-- So does a single statement, if what it does when it is refused is nothing.
pub statement-IsAtomic :
    {A : Type 0} (f : Db → Result A × Db)
    → ((d : Db) (x : Error) → (f d).0 ≡ err x → (f d).1 ≡ d)
    → IsAtomic (statement f)
unfolding statement
statement-IsAtomic f k = record { apply = λ w e h. attempt-err w.faults f w.db e (k w.db) h }

pub execute-IsAtomic : {A : Type 0} (f : Db → A × Db) → IsAtomic (execute f)
unfolding execute
execute-IsAtomic f = record {
  apply = λ w e h. attempt-err w.faults _ w.db e (λ x p. ground arith) h;
}

pub pure-IsAtomic : {A : Type 0} (a : A) → IsAtomic (pure a)
unfolding pure
pure-IsAtomic a = record { apply = λ w e h. refl }

pub fail-IsAtomic : {A : Type 0} (x : Error) → IsAtomic (fail {A = A} x)
unfolding fail
fail-IsAtomic x = record { apply = λ w e h. refl }

-- What a success tells: the statement ran, and left what the run left.
module _ {A : Type 0} where
  pub statement-ok :
      (f : Db → Result A × Db) (w : World) {a : A} {w' : World}
      → statement f w ≡ (ok a, w')
      → f w.db ≡ (ok a, w'.db)
  unfolding statement
  statement-ok f w {a} {w'} h = run w.faults h
    where
      run : (fs : List Bool) → attempt fs f w.db ≡ (ok a, w') → f w.db ≡ (ok a, w'.db)
      run [] e = ground arith
      run (true ∷ fs) e = ground arith
      run (false ∷ fs) e = ground arith

  pub execute-ok :
      (f : Db → A × Db) (w : World) {a : A} {w' : World}
      → execute f w ≡ (ok a, w')
      → f w.db ≡ (a, w'.db)
  unfolding execute
  execute-ok f w h = ground (arith, statement-ok (λ d. (ok (f d).0, (f d).1)) w h)

  pub query-ok :
      (f : Db → A) (w : World) {a : A} {w' : World}
      → query f w ≡ (ok a, w')
      → (f w.db ≡ a) × (w'.db ≡ w.db)
  unfolding query
  query-ok f w h = ground (arith, statement-ok (λ d. (ok (f d), d)) w h)

-- A read fails or answers, and leaves the tables.
pub query-cases :
    {A : Type 0} (f : Db → A) (w : World)
    → ((query f w).1.db ≡ w.db)
      × (((e : Error) × ((query f w).0 ≡ err e)) ⊎ ((query f w).0 ≡ ok (f w.db)))
unfolding query statement
query-cases {A} f w = run w.faults
  where
    run :
        (fs : List Bool)
        → ((attempt fs (λ d. (ok (f d), d)) w.db).1.db ≡ w.db)
          × (((e : Error) × ((attempt fs (λ d. (ok (f d), d)) w.db).0 ≡ err e))
              ⊎ ((attempt fs (λ d. (ok (f d), d)) w.db).0 ≡ ok (f w.db)))
    run [] = (refl, inr refl)
    run (true ∷ fs) = (refl, inl (Error.driver, refl))
    run (false ∷ fs) = (refl, inr refl)

module _ {A B : Type 0} (m : M A) (f : A → M B) (w : World) where
  -- What a success of a sequence tells: both parts succeeded.
  pub >>=-ok :
      {b : B} {w' : World}
      → (m >>= f) w ≡ (ok b, w')
      → (a : A) × (v : World) × (m w ≡ (ok a, v)) × (f a v ≡ (ok b, w'))
  unfolding ◌>>=◌
  >>=-ok {b} {w'} h = run (m w) refl h
    where
      run :
          (r : Result A × World)
          → m w ≡ r
          → continue r f ≡ (ok b, w')
          → (a : A) × (v : World) × (m w ≡ (ok a, v)) × (f a v ≡ (ok b, w'))
      run (ok a, v) e k = (a, v, e, k)
      run (err x, v) e k = ground arith

settle-ok :
    {A : Type 0} (d : Db) (r : Result A × World) {a : A} {w' : World}
    → settle d r ≡ (ok a, w')
    → r ≡ (ok a, w')
settle-ok d (ok x, v) h = h
settle-ok d (err x, v) h = ground arith

-- A transaction that succeeds did what its callback did.
pub write_tx-ok :
    {A : Type 0} (m : M A) (w : World) {a : A} {w' : World}
    → write_tx m w ≡ (ok a, w')
    → (v v' : World) × (v.db ≡ w.db) × (m v ≡ (ok a, v')) × (v'.db ≡ w'.db)
unfolding write_tx begin commit pure
write_tx-ok m w {a} {w'} h =
    let opened = >>=-ok begin _ w (settle-ok w.db _ h) in
    let body = >>=-ok m _ opened.1 opened.3 in
    let closed = >>=-ok commit _ body.1 body.3 in
    let q = query-ok (λ _. tt {0}) w opened.2 in
    let c = query-ok (λ _. tt {0}) body.1 closed.2 in
    (opened.1, body.1, q.1, ground arith, ground arith)

module _ {A B : Type 0} where
  then_pure-err :
      (r : Result A × World) (g : A → B) (e : Error)
      → (continue r (λ a. pure (g a))).0 ≡ err e
      → (r.0 ≡ err e) × ((continue r (λ a. pure (g a))).1.db ≡ r.1.db)
  unfolding pure
  then_pure-err (ok a, w) g e h = ground arith
  then_pure-err (err x, w) g e h = ground arith

  -- Computing an answer from the result of an atomic operation keeps it atomic.
  pub then_pure-IsAtomic : (m : M A) (g : A → B) → IsAtomic m → IsAtomic (m >>= λ a. pure (g a))
  unfolding ◌>>=◌
  then_pure-IsAtomic m g k = record {
    apply = λ w e h. let p = then_pure-err (m w) g e h in p.1 ∙ k.apply w e p.0;
  }

  after_query-err :
      (d : Db) (r : Result A × World) (f : A → M B) (e : Error)
      → r.1.db ≡ d
      → ((a : A) → IsAtomic (f a))
      → (continue r f).0 ≡ err e
      → (continue r f).1.db ≡ d
  after_query-err d (ok a, w) f e s k h = (k a).apply w e h ∙ s
  after_query-err d (err x, w) f e s k h = s

  -- A read before an atomic operation keeps it atomic.
  pub query-IsAtomic :
      (q : Db → A) (f : A → M B) → ((a : A) → IsAtomic (f a)) → IsAtomic (query q >>= f)
  unfolding ◌>>=◌
  query-IsAtomic q f k = record {
    apply = λ w e h.
        after_query-err w.db (query q w) f e ((query-Keeps {P = λ d. d ≡ w.db} q).apply w refl) k h;
  }

pub if-IsAtomic :
    {A : Type 0} (b : Bool) (m n : M A) → IsAtomic m → IsAtomic n → IsAtomic (if b then m else n)
if-IsAtomic true m n p q = p
if-IsAtomic false m n p q = q

pub if-Keeps :
    {P : Db → Type 0} {A : Type 0} (b : Bool) (m n : M A)
    → Keeps P m
    → Keeps P n
    → Keeps P (if b then m else n)
if-Keeps true m n p q = p
if-Keeps false m n p q = q
