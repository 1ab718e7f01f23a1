-- ===== src/Store/Steady.antt =====
-- Faultless operations stay faultless, and errors that are caught.
use crawlerv.Prelude.{◌≡◌, refl, Bool, List, [], ◌∷◌, arith}
use crawlerv.Store.World.{
  Db, Error, Result, ok, err, World, M, pure, fail, continue, ◌>>=◌, caught, attempt, statement,
  query, execute, settle, begin, commit, write_tx,
}
use crawlerv.Store.Laws.{Keeps}

-- Without faults to come, there are none afterwards.
pub record IsSteady {A : Type 0} (m : M A) : Type 0 where
  pub apply : (w : World) → w.faults ≡ [] → (m w).1.faults ≡ []

attempt-steady :
    {A : Type 0} (fs : List Bool) (f : Db → Result A × Db) (d : Db)
    → fs ≡ []
    → (attempt fs f d).1.faults ≡ []
attempt-steady [] f d h = refl
attempt-steady (b ∷ fs) f d h = ground arith

settle-steady :
    {A : Type 0} (d : Db) (r : Result A × World) → r.1.faults ≡ [] → (settle d r).1.faults ≡ []
settle-steady d (ok a, w) h = h
settle-steady d (err e, w) h = h

module _ {A : Type 0} where
  pub statement-IsSteady : (f : Db → Result A × Db) → IsSteady (statement f)
  unfolding statement
  statement-IsSteady f = record { apply = λ w h. attempt-steady w.faults f w.db h }

  pub execute-IsSteady : (f : Db → A × Db) → IsSteady (execute f)
  unfolding execute
  execute-IsSteady f = statement-IsSteady _

  pub query-IsSteady : (f : Db → A) → IsSteady (query f)
  unfolding query
  query-IsSteady f = statement-IsSteady _

  pub pure-IsSteady : (a : A) → IsSteady (pure a)
  unfolding pure
  pure-IsSteady a = record { apply = λ w h. h }

  pub fail-IsSteady : (e : Error) → IsSteady (fail {A = A} e)
  unfolding fail
  fail-IsSteady e = record { apply = λ w h. h }

  pub caught-IsSteady : {m : M A} → IsSteady m → IsSteady (caught m)
  unfolding caught
  caught-IsSteady k = record { apply = λ w h. k.apply w h }

  pub caught-Keeps : {P : Db → Type 0} {m : M A} → Keeps P m → Keeps P (caught m)
  unfolding caught
  caught-Keeps k = record { apply = λ w h. k.apply w h }

module _ {A B : Type 0} where
  continue-steady :
      (r : Result A × World) (f : A → M B)
      → r.1.faults ≡ []
      → ((a : A) → IsSteady (f a))
      → (continue r f).1.faults ≡ []
  continue-steady (ok a, w) f h k = (k a).apply w h
  continue-steady (err e, w) f h k = h

  pub >>=-IsSteady :
      {m : M A} {f : A → M B} → IsSteady m → ((a : A) → IsSteady (f a)) → IsSteady (m >>= f)
  unfolding ◌>>=◌
  >>=-IsSteady {m} {f} hm hf = record { apply = λ w h. continue-steady (m w) f (hm.apply w h) hf }

pub write_tx-IsSteady : {A : Type 0} {m : M A} → IsSteady m → IsSteady (write_tx m)
unfolding write_tx begin commit
write_tx-IsSteady {m} k = record {
  apply = λ w h. settle-steady w.db _ (
      (>>=-IsSteady (query-IsSteady _)
          (λ _. >>=-IsSteady k (λ a. >>=-IsSteady (query-IsSteady _) (λ _. pure-IsSteady a)))).apply
        w h);
}
