-- ===== src/FrontierRepo/Held.antt =====
-- What `Reserve` leaves in the queue: each job that it hands out is leased to the worker.
use crawlerv.Prelude.{
  ℕ, ◌+◌, ◌<◌, ◌≡◌, refl, sym, subst, ap, ◌∙◌, Bool, true, false, some, List, [], ◌∷◌, ◌++◌, Bytes,
  bytes_eq, bytes_eq-eq, contains, arith, All, All-imp, All-append, ◌==◌, inl, inr, Bool-cases,
}
use mathlib.Core.List.{Memᴰ}
use crawlerv.Store.Rows.{Frontier, leased}
use crawlerv.Store.Sql.{first, first-some, count, update, map-update}
use crawlerv.Store.World.{Db, ok, World, pure}
use crawlerv.FrontierRepo.Types.{LeasedJob}
use crawlerv.FrontierRepo.Queue.{has_hash}
use crawlerv.FrontierRepo.Pick.{Driver, Candidate, Engine}
use crawlerv.FrontierRepo.Reserve.{Sign, is_free, leased_row, leased_job, lease_each, reserve}
use crawlerv.FrontierRepo.Invariant.{Distinct, hashes, Inv}
use crawlerv.FrontierRepo.Taken.{lease_each-Round, rows_after_touch}
use crawlerv.FrontierRepo.Reserved.{reserve-ok}

pub Memᴰ-update_other :
    {A : Type 0} (test : A → Bool) (set : A → A) (xs : List A) (x : A)
    → Memᴰ x xs
    → test x ≡ false
    → Memᴰ x (update test set xs)
unfolding update
Memᴰ-update_other test set [] x m h = elim m [ ]
Memᴰ-update_other test set (y ∷ xs) x (Memᴰ.head e) h = Memᴰ.head (ground (arith, e))
Memᴰ-update_other test set (y ∷ xs) x (Memᴰ.tail m) h =
    Memᴰ.tail (Memᴰ-update_other test set xs x m h)

pub Memᴰ-update_self :
    {A : Type 0} (test : A → Bool) (set : A → A) (xs : List A) (x : A)
    → Memᴰ x xs
    → test x ≡ true
    → Memᴰ (set x) (update test set xs)
unfolding update
Memᴰ-update_self test set [] x m h = elim m [ ]
Memᴰ-update_self test set (y ∷ xs) x (Memᴰ.head e) h = Memᴰ.head (ground (arith, e))
Memᴰ-update_self test set (y ∷ xs) x (Memᴰ.tail m) h =
    Memᴰ.tail (Memᴰ-update_self test set xs x m h)

no_free :
    (rows : List Frontier) (h : Bytes)
    → contains (hashes rows) h ≡ false
    → count (is_free h) rows ≡ 0
unfolding contains count is_free
no_free [] h e = refl
no_free (r ∷ rows) h e = ground (arith, no_free rows h)

-- With distinct keys, the row that is read back is the one that the UPDATE took.
taken-row :
    (worker : ℕ) (raw : Bytes) (expires : ℕ) (h : Bytes) (rows : List Frontier) (m : Frontier)
    → Distinct (hashes rows)
    → (count (is_free h) rows == 0) ≡ false
    → first (has_hash h) (update (is_free h) (leased_row worker raw expires) rows) ≡ some m
    → (r : Frontier) × (m ≡ leased_row worker raw expires r)
unfolding first count update is_free
taken-row worker raw expires h [] m d n f = ground arith
taken-row worker raw expires h (r ∷ rows) m d n f = elim (Bool-cases (bytes_eq r.url_hash h)) [
  | inl e ↦
      let same = bytes_eq-eq r.url_hash h e in
      let none_left : count (is_free h) rows ≡ 0 =
        no_free rows h (subst (λ k. contains (hashes rows) k ≡ false) same d.0) in
      (r, ground arith)
  | inr e ↦ taken-row worker raw expires h rows m d.1 (ground arith) (ground arith)
]

module _ (sign : Sign) (worker now expires : ℕ) where
  -- The row of a job's URL is leased to the worker, under the token that the job carries.
  pub record IsHeld (rows : List Frontier) (lj : LeasedJob) : Type 0 where
    pub row : Frontier
    pub in_queue : Memᴰ row rows
    pub url : row.url_hash ≡ lj.job.url_hash
    pub status : row.status ≡ leased
    pub holder : row.leased_by_worker_id ≡ some worker
    pub token : row.lease_token ≡ some (sign lj.job.url_hash expires).1
    pub expiry : row.lease_expires_at ≡ some expires
    pub issued : lj.lease.token ≡ (sign lj.job.url_hash expires).0
    pub attempts : lj.job.attempt_count ≡ row.attempt_count

  take-keeps :
      (h : Bytes) (rows : List Frontier) (lj : LeasedJob)
      → IsHeld rows lj
      → IsHeld (update (is_free h) (leased_row worker (sign h expires).1 expires) rows) lj
  take-keeps h rows lj k = record {
    row = k.row;
    in_queue =
        Memᴰ-update_other (is_free h) _ rows k.row k.in_queue (leased-not-free h k.row k.status);
    url = k.url;
    status = k.status;
    holder = k.holder;
    token = k.token;
    expiry = k.expiry;
    issued = k.issued;
    attempts = k.attempts;
  }
    where
      leased-not-free : (h : Bytes) (r : Frontier) → r.status ≡ leased → is_free h r ≡ false
      leased-not-free h r e = unfold is_free in ground arith

  job-IsHeld :
      (p : Candidate) (rows : List Frontier) (m : Frontier)
      → Distinct (hashes rows)
      → (count (is_free p.url_hash) rows == 0) ≡ false
      → first
          (has_hash p.url_hash)
          (update (is_free p.url_hash) (leased_row worker (sign p.url_hash expires).1 expires) rows)
        ≡ some m
      → IsHeld
          (update (is_free p.url_hash) (leased_row worker (sign p.url_hash expires).1 expires) rows)
          (leased_job worker (sign p.url_hash expires).0 expires m)
  job-IsHeld p rows m d n f =
      let (r, made) =
        taken-row worker (sign p.url_hash expires).1 expires p.url_hash rows m d n f in
      let (there, hit) = first-some (has_hash p.url_hash) _ f in
      let same = bytes_eq-eq m.url_hash p.url_hash hit in
      record {
        row = m;
        in_queue = there;
        url = refl;
        status = ap (λ (x : Frontier). x.status) made;
        holder = ap (λ (x : Frontier). x.leased_by_worker_id) made;
        token =
            ap (λ (x : Frontier). x.lease_token) made
            ∙ ap (λ (k : Bytes). some (sign k expires).1) (sym same);
        expiry = ap (λ (x : Frontier). x.lease_expires_at) made;
        issued = ap (λ (k : Bytes). (sign k expires).0) (sym same);
        attempts = refl;
      }

  take-Distinct :
      (h raw : Bytes) (rows : List Frontier)
      → Distinct (hashes rows)
      → Distinct (hashes (update (is_free h) (leased_row worker raw expires) rows))
  take-Distinct h raw rows d =
      subst Distinct
        (sym (
          map-update (λ (r : Frontier). r.url_hash) (is_free h) (leased_row worker raw expires)
            (λ r. refl) rows))
        d

  lease_each-IsHeld :
      (ps : List Candidate) (touched : List ℕ) (acc : List LeasedJob) (v : World)
      {out : List LeasedJob} {v' : World}
      → Distinct (hashes v.db.crawl_frontier)
      → All (IsHeld v.db.crawl_frontier) acc
      → lease_each sign worker now expires ps touched acc v ≡ (ok out, v')
      → All (IsHeld v'.db.crawl_frontier) out
  unfolding lease_each pure
  lease_each-IsHeld [] touched acc v {out} {v'} d held e =
      let same : v ≡ v' = ground arith in
      let all : acc ≡ out = ground arith in
      subst (λ l. All (IsHeld v'.db.crawl_frontier) l) all
        (subst (λ (z : World). All (IsHeld z.db.crawl_frontier) acc) same held)
  lease_each-IsHeld (p ∷ ps) touched acc v {out} {v'} d held e =
      let (u, round) = lease_each-Round sign worker now expires p ps touched acc v e in
      let (tables, cases) = round in
      let raw = (sign p.url_hash expires).1 in
      let rows' = update (is_free p.url_hash) (leased_row worker raw expires) v.db.crawl_frontier in
      let d' = take-Distinct p.url_hash raw v.db.crawl_frontier d in
      let held' =
        All-imp (IsHeld v.db.crawl_frontier) (IsHeld rows')
          (take-keeps p.url_hash v.db.crawl_frontier) acc held in
      let at_u : u.db.crawl_frontier ≡ rows' = ap (λ (z : Db). z.crawl_frontier) tables in
      elim cases [
        | inl (_, rest) ↦
            lease_each-IsHeld ps touched acc u {out = out} {v' = v'}
              (subst (λ rs. Distinct (hashes rs)) (sym at_u) d')
              (subst (λ rs. All (IsHeld rs) acc) (sym at_u) held') rest
        | inr (m, u', fresh, found, kept, rest) ↦
            let at_u' : u'.db.crawl_frontier ≡ rows' =
              rows_after_touch sign worker now expires touched p.domain_id u.db u' kept ∙ at_u in
            let lj = leased_job worker (sign p.url_hash expires).0 expires m in
            let new =
              job-IsHeld p v.db.crawl_frontier m d fresh
                (subst (λ rs. first (has_hash p.url_hash) rs ≡ some m) at_u' found) in
            lease_each-IsHeld ps (p.domain_id ∷ touched) (acc ++ lj ∷ []) u' {out = out} {v' = v'}
              (subst (λ rs. Distinct (hashes rs)) (sym at_u') d')
              (subst (λ rs. All (IsHeld rs) (acc ++ lj ∷ [])) (sym at_u')
                (All-append (IsHeld rows') acc (lj ∷ []) held' (new, tt)))
              rest
      ]

-- After `Reserve`, each job that it handed out has a row of its URL with status `leased`, held by
-- the worker until now + ttl under the raw bytes of the token that the job carries.
pub reserve_holds :
    (e : Engine) (driver : Driver) (sign : Sign) (now db_now worker : ℕ) (caps : List Bytes)
    (batch ttl : ℕ) (w : World) {out : List LeasedJob} {w' : World}
    → Inv w.db
    → 0 < batch
    → reserve e driver sign now db_now worker caps batch ttl w ≡ (ok out, w')
    → All (IsHeld sign worker now (now + ttl) w'.db.crawl_frontier) out
reserve_holds e driver sign now db_now worker caps batch ttl w {out} {w'} inv pos r =
    let (v, v', start, looped, end) =
      reserve-ok e driver sign now db_now worker caps batch ttl w pos r in
    subst (λ (d : Db). All (IsHeld sign worker now (now + ttl) d.crawl_frontier) out) end
      (lease_each-IsHeld sign worker now (now + ttl) _ [] [] v
        (subst (λ (d : Db). Distinct (hashes d.crawl_frontier)) (sym start) inv.keys) tt looped)
