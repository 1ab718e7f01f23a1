-- ===== src/Http/Admitted.antt =====
-- Only known workers pass the authentication.
use mathlib.Core.List.{Memᴰ}
use crawlerv.Prelude.{
  ℕ, ◌≡◌, refl, sym, subst, ◌∙◌, codes, false, Option, none, some, [], Bytes, bytes_eq, bytes_eq-eq,
  arith, is_some, Bool-cases, inl, inr,
}
use crawlerv.Store.Rows.{WorkerRow}
use crawlerv.Store.Sql.{first, first-some}
use crawlerv.Store.World.{Db, Error, Result, ok, err, World, M, pure, fail, caught, query}
use crawlerv.Store.Laws.{>>=-ok, query-cases}
use crawlerv.Workers.Policy.{Worker}
use crawlerv.Repos.Workers.{CapsCodec, map_worker, mapped, has_hash, find_by_pat_hash}
use crawlerv.Http.Replies.{Reply, answered, reject, outcome_of}
use crawlerv.Http.Auth.{Request, Text, bearer, serve, pat_auth}

-- A worker's row that the token of the request identifies, and that is not banned.
pub record IsAdmitted (t : Text) (r : Request) (d : Db) (m : WorkerRow) : Type 0 where
  pub in_table : Memᴰ m d.workers
  pub token : bytes_eq (bearer t r) [] ≡ false
  pub hash : m.pat_hash ≡ t.sha256 (bearer t r)
  pub free : m.banned_at ≡ none

outcome_err :
    {A B : Type 0} (status : ℕ) (code : Bytes) (k : A → M (Reply B)) (e : Error) (b : B)
    (w w' : World)
    → ¬ (outcome_of status code k (err e) w ≡ (ok (answered b), w'))
unfolding pure fail
outcome_err status code k Error.panic b w w' h = ground arith
outcome_err status code k e b w w' h = ground arith

reject-answered :
    {A : Type 0} (status : ℕ) (code : Bytes) (a : A) (w w' : World)
    → ¬ (reject status code w ≡ (ok (answered a), w'))
unfolding pure
reject-answered status code a w w' h = ground arith

caught-result :
    {A : Type 0} (m : M A) (w v : World) {x : Result A} → caught m w ≡ (ok x, v) → (m w).0 ≡ x
unfolding caught
caught-result m w v h = ground arith

module _ {A : Type 0} (t : Text) (j : CapsCodec) (now : ℕ) (r : Request)
    (next : Worker → M (Reply A)) (a : A) where
  -- What the next handler answers, for the worker of a row.
  abbrev pub Served : WorkerRow → World → Type 0
  Served m w' = (u : World) × (next (map_worker j m) u ≡ (ok (answered a), w'))

  serve-answered :
      (found : Option WorkerRow) (u w' : World)
      → serve t j now r next (mapped j found) u ≡ (ok (answered a), w')
      → (m : WorkerRow) × (found ≡ some m) × (m.banned_at ≡ none) × Served m w'
  unfolding map_worker pure
  serve-answered none u w' h = ground arith
  serve-answered (some m) u w' h = elim (Bool-cases (is_some m.banned_at)) [
    | inl y ↦ let k = rw y at h in ground arith
    | inr n ↦
        let k = rw n at h in
        let (x, v, touched, rest) = >>=-ok _ _ u k in (m, refl, ground arith, (v, rest))
  ]

  looked_up :
      (f : Db → Option WorkerRow) (x : Result (Option Worker)) (w v w' : World)
      → (query (λ d. mapped j (f d)) w).0 ≡ x
      → outcome_of 500 (codes "auth_lookup") (serve t j now r next) x v ≡ (ok (answered a), w')
      → (m : WorkerRow) × (f w.db ≡ some m) × (m.banned_at ≡ none) × Served m w'
  looked_up f x w v w' e h = elim (query-cases (λ d. mapped j (f d)) w).1 [
    | inl (y, k) ↦
        elim (outcome_err 500 (codes "auth_lookup") (serve t j now r next) y a v w'
          (subst (Answers v w') (sym e ∙ k) h)) [ ]
    | inr k ↦ serve-answered (f w.db) v w' (subst (Answers v w') (sym e ∙ k) h)
  ]
    where
      Answers : World → World → Result (Option Worker) → Type 0
      Answers v w' x =
          outcome_of 500 (codes "auth_lookup") (serve t j now r next) x v ≡ (ok (answered a), w')

  -- A request that gets an answer carries a token; the table of workers has a row with the digest of
  -- it, which is not banned; and the answer is the next handler's for the worker of that row.
  pub pat_auth-IsAdmitted :
      (w w' : World)
      → pat_auth t j now r next w ≡ (ok (answered a), w')
      → (m : WorkerRow) × IsAdmitted t r w.db m × Served m w'
  unfolding pat_auth find_by_pat_hash
  pat_auth-IsAdmitted w w' h = elim (Bool-cases (bytes_eq (bearer t r) [])) [
    | inl y ↦ elim (reject-answered 401 (codes "missing_bearer") a w w' (rw y at h)) [ ]
    | inr n ↦
        let k = rw n at h in
        let (x, v, looked, rest) = >>=-ok _ _ w k in
        let (m, found, free, served) =
          looked_up (λ d. first (has_hash (t.sha256 (bearer t r))) d.workers) x w v w'
            (caught-result _ w v looked) rest in
        let (there, hit) = first-some (has_hash (t.sha256 (bearer t r))) w.db.workers found in
        (
          m,
          record { in_table = there; token = n; hash = bytes_eq-eq m.pat_hash _ hit; free = free },
          served,
        )
  ]
