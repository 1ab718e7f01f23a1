-- ===== src/FrontierRepo/Taken.antt =====
-- The loop of `Reserve`: which of the picks come out as leased jobs.
use crawlerv.Prelude.{
  ==_iff, ℕ, some, ◌≤◌, ◌≡◌, refl, sym, ap, ◌∙◌, subst, Bool, false, List, [], ◌∷◌, ◌++◌,
  append-nil, append_assoc, Bytes, bytes_eq-eq, arith, All, All-imp, length, ◌⊎◌, Bool-cases, inl,
  inr, ◌==◌, if◌then◌else◌,
}
use mathlib.Core.List.{Memᴰ}
use crawlerv.Store.Rows.{Frontier}
use crawlerv.Store.Sql.{first, first-some, count, update, All-update}
use crawlerv.Store.World.{Db, ok, World, pure}
use crawlerv.Store.Laws.{statement-ok, execute-ok, >>=-ok}
use crawlerv.FrontierRepo.Types.{LeasedJob}
use crawlerv.FrontierRepo.Queue.{find_row, has_hash, set_frontier}
use crawlerv.FrontierRepo.Pick.{Candidate, of_domain}
use crawlerv.FrontierRepo.Reserve.{
  Sign, is_free, take_lease, touch_domain, touched_db, after_lease, lease_each, leased_job,
  leased_row, among,
}

-- A job that a pick became: of the same URL and domain.
pub record IsJobOf (p : Candidate) (lj : LeasedJob) : Type 0 where
  pub hash : lj.job.url_hash ≡ p.url_hash
  pub domain : lj.job.domain_id ≡ p.domain_id

-- The leased jobs are some of the picks, in their order.
pub data Taken : List Candidate → List LeasedJob → Type 0 where
  nil : Taken [] []
  skip :
      {p : Candidate} {ps : List Candidate} {out : List LeasedJob}
      → Taken ps out
      → Taken (p ∷ ps) out
  keep :
      {p : Candidate} {ps : List Candidate} {lj : LeasedJob} {out : List LeasedJob}
      → IsJobOf p lj
      → Taken ps out
      → Taken (p ∷ ps) (lj ∷ out)

pub length-Taken :
    {ps : List Candidate} {out : List LeasedJob} → Taken ps out → length out ≤ length ps
length-Taken nil = omega arith
length-Taken (skip t) = omega (arith, length-Taken t)
length-Taken (keep e t) = omega (arith, length-Taken t)

abbrev pub job_of : ℕ → LeasedJob → Bool
job_of k lj = lj.job.domain_id == k

pub count-Taken :
    (k : ℕ) {ps : List Candidate} {out : List LeasedJob}
    → Taken ps out
    → count (job_of k) out ≤ count (of_domain k) ps
unfolding count
count-Taken k nil = omega arith
count-Taken k (skip t) = ground (arith, count-Taken k t)
count-Taken k (keep e t) = ground (arith, e, count-Taken k t)

pub All-Taken {κ μ} :
    (P : Candidate → Type κ) (Q : LeasedJob → Type μ)
    → ((p : Candidate) (lj : LeasedJob) → IsJobOf p lj → P p → Q lj)
    → {ps : List Candidate} {out : List LeasedJob} → Taken ps out
    → All P ps
    → All Q out
All-Taken P Q f nil h = tt
All-Taken P Q f (skip t) h = All-Taken P Q f t h.1
All-Taken P Q f (keep {p} {ps} {lj} {out} e t) h = (f p lj e h.0, All-Taken P Q f t h.1)

-- Every row of a pick's URL is of the pick's domain.
abbrev pub SameDomain : List Frontier → Candidate → Type 0
SameDomain rows p = All (λ r. r.url_hash ≡ p.url_hash → r.domain_id ≡ p.domain_id) rows

pub All-at {ℓ κ} : {A : Type ℓ} (P : A → Type κ) {x : A} {xs : List A} → Memᴰ x xs → All P xs → P x
All-at P (Memᴰ.head e) h = subst P (sym e) h.0
All-at P (Memᴰ.tail m) h = All-at P m h.1

pub find_row-ok :
    (h : Bytes) (v : World) {m : Frontier} {v' : World}
    → find_row h v ≡ (ok m, v')
    → (first (has_hash h) v.db.crawl_frontier ≡ some m) × (v'.db ≡ v.db)
unfolding find_row
find_row-ok h v {m} {v'} e = ground (arith, statement-ok _ v e)

pub SameDomain-lease :
    (worker expires : ℕ) (raw h : Bytes) (rows : List Frontier) (ps : List Candidate)
    → All (SameDomain rows) ps
    → All (SameDomain (update (is_free h) (leased_row worker raw expires) rows)) ps
SameDomain-lease worker expires raw h rows ps =
    All-imp (SameDomain rows) (SameDomain (update (is_free h) (leased_row worker raw expires) rows))
      (λ p.
        All-update (λ (r : Frontier). r.url_hash ≡ p.url_hash → r.domain_id ≡ p.domain_id)
          (is_free h) (leased_row worker raw expires) (λ r _ k. k) rows)
      ps

pub job-IsJobOf :
    (worker expires : ℕ) (token : Bytes) (p : Candidate) (m : Frontier) (lj : LeasedJob)
    (rows : List Frontier)
    → SameDomain rows p
    → first (has_hash p.url_hash) rows ≡ some m
    → lj ≡ leased_job worker token expires m
    → IsJobOf p lj
job-IsJobOf worker expires token p m lj rows s e l =
    let f = first-some (has_hash p.url_hash) rows e in
    let same = bytes_eq-eq m.url_hash p.url_hash f.1 in
    rw l (record {
      hash = same;
      domain =
          All-at (λ (r : Frontier). r.url_hash ≡ p.url_hash → r.domain_id ≡ p.domain_id) f.0 s same;
    })

module _ (sign : Sign) (worker now expires : ℕ) where
  -- The tables after a pick's domain has been touched, if it had not been.
  abbrev pub after_touch : List ℕ → ℕ → Db → Db
  after_touch touched k d = if among touched k then d else touched_db now k d

  touch-db :
      (touched : List ℕ) (p : Candidate) (v : World) {u : Unit {0}} {v' : World}
      → (if among touched p.domain_id then pure tt else touch_domain now p.domain_id) v ≡ (ok u, v')
      → v'.db ≡ after_touch touched p.domain_id v.db
  unfolding touch_domain pure
  touch-db touched p v e = elim (Bool-cases (among touched p.domain_id)) [
    | inl y ↦ let h = rw y at e in rw y (ground arith)
    | inr n ↦ let h = rw n at e in rw n (ground (arith, execute-ok _ v h))
  ]

  -- What the body of the loop does once it has the lease.
  pub after_lease-ok :
      (touched : List ℕ) (p : Candidate) (v : World) {lj : LeasedJob} {v' : World}
      → after_lease sign worker now expires touched p v ≡ (ok lj, v')
      → (m : Frontier) × (first (has_hash p.url_hash) v'.db.crawl_frontier ≡ some m)
        × (lj ≡ leased_job worker (sign p.url_hash expires).0 expires m)
        × (v'.db ≡ after_touch touched p.domain_id v.db)
  unfolding after_lease pure
  after_lease-ok touched p v {lj} {v'} e =
      let (x, u, first_part, rest) = >>=-ok _ _ v e in
      let (m, u', found, last) = >>=-ok _ _ u rest in
      let t = touch-db touched p v first_part in
      let r = find_row-ok p.url_hash u found in
      let end : u' ≡ v' = ground arith in
      (
        m,
        subst (λ (d : Db). first (has_hash p.url_hash) d.crawl_frontier ≡ some m)
            (sym r.1 ∙ ap (λ (z : World). z.db) end) r.0,
        ground arith,
        ap (λ (z : World). z.db) (sym end) ∙ r.1 ∙ t,
      )

  -- The tables after the UPDATE that takes the lease of a URL.
  abbrev pub after_take : Bytes → Db → Db
  after_take h d =
      set_frontier
        (update (is_free h) (leased_row worker (sign h expires).1 expires) d.crawl_frontier) d

  take_lease-ok :
      (h : Bytes) (v : World) {n : ℕ} {v' : World}
      → take_lease worker (sign h expires).1 expires h v ≡ (ok n, v')
      → (n ≡ count (is_free h) v.db.crawl_frontier) × (v'.db ≡ after_take h v.db)
  unfolding take_lease
  take_lease-ok h v e = ground (arith, execute-ok _ v e)

  -- One round that goes on: the UPDATE found no row, and the pick is passed over; or it took the
  -- lease, and the row that was read back is handed out.
  abbrev pub Round :
      Candidate
      → List Candidate
      → List ℕ
      → List LeasedJob
      → World
      → World
      → List LeasedJob
      → World
      → Type 0
  Round p ps touched acc v u out v' =
      (u.db ≡ after_take p.url_hash v.db)
      × (((count (is_free p.url_hash) v.db.crawl_frontier ≡ 0)
            × (lease_each sign worker now expires ps touched acc u ≡ (ok out, v')))
          ⊎ ((m : Frontier) × (u' : World) × ((count (is_free p.url_hash) v.db.crawl_frontier == 0)
                ≡ false)
              × (first (has_hash p.url_hash) u'.db.crawl_frontier ≡ some m)
              × (u'.db ≡ after_touch touched p.domain_id u.db)
              × (lease_each sign worker now expires ps (p.domain_id ∷ touched)
                    (acc ++ leased_job worker (sign p.url_hash expires).0 expires m ∷ []) u'
                  ≡ (ok out, v'))))

  pub lease_each-Round :
      (p : Candidate) (ps : List Candidate) (touched : List ℕ) (acc : List LeasedJob) (v : World)
      {out : List LeasedJob} {v' : World}
      → lease_each sign worker now expires (p ∷ ps) touched acc v ≡ (ok out, v')
      → (u : World) × Round p ps touched acc v u out v'
  unfolding lease_each
  lease_each-Round p ps touched acc v {out} {v'} e =
      let (n, u, taken, rest) = >>=-ok _ _ v e in
      let t = take_lease-ok p.url_hash v taken in
      elim (Bool-cases (n == 0)) [
        | inl z ↦ (u, (t.1, inl (sym t.0 ∙ (==_iff n 0).0 z, rw z at rest)))
        | inr nz ↦
            let (lj, u', after, more) = >>=-ok _ _ u (rw nz at rest) in
            let (m, found, made, kept) = after_lease-ok touched p u after in
            (
              u,
              (
                t.1,
                inr (m, u', subst (λ k. (k == 0) ≡ false) t.0 nz, found, kept, rw made at more),
              ),
            )
      ]

  after_touch-rows :
      (touched : List ℕ) (k : ℕ) (d : Db)
      → (after_touch touched k d).crawl_frontier ≡ d.crawl_frontier
  after_touch-rows touched k d = ground arith

  -- The rows of the queue after a round: those that the UPDATE left.
  pub rows_after_touch :
      (touched : List ℕ) (k : ℕ) (d : Db) (u' : World)
      → u'.db ≡ after_touch touched k d
      → u'.db.crawl_frontier ≡ d.crawl_frontier
  rows_after_touch touched k d u' e =
      ap (λ (x : Db). x.crawl_frontier) e ∙ after_touch-rows touched k d

  -- The loop turns picks into leased jobs, each of its own URL and domain, in the order of the picks.
  pub lease_each-Taken :
      (ps : List Candidate) (touched : List ℕ) (acc : List LeasedJob) (v : World)
      {out : List LeasedJob} {v' : World}
      → All (SameDomain v.db.crawl_frontier) ps
      → lease_each sign worker now expires ps touched acc v ≡ (ok out, v')
      → (new : List LeasedJob) × (out ≡ acc ++ new) × Taken ps new
  unfolding lease_each pure
  lease_each-Taken [] touched acc v {out} {v'} s e = ([], ground (arith, append-nil acc), nil)
  lease_each-Taken (p ∷ ps) touched acc v {out} {v'} s e =
      let (u, round) = lease_each-Round p ps touched acc v e in
      let (tables, cases) = round in
      let moved : All (SameDomain u.db.crawl_frontier) (p ∷ ps) =
        subst (λ (d : Db). All (SameDomain d.crawl_frontier) (p ∷ ps)) (sym tables)
          (SameDomain-lease worker expires _ p.url_hash v.db.crawl_frontier (p ∷ ps) s) in
      elim cases [
        | inl (_, rest) ↦
            let (new, eq, t) =
              lease_each-Taken ps touched acc u {out = out} {v' = v'} moved.1 rest in
            (new, eq, skip t)
        | inr (m, u', _, found, kept, rest) ↦
            let same = rows_after_touch touched p.domain_id u.db u' kept in
            let again = subst (λ rs. All (SameDomain rs) (p ∷ ps)) (sym same) moved in
            let lj = leased_job worker (sign p.url_hash expires).0 expires m in
            let (new, eq, t) =
              lease_each-Taken ps (p.domain_id ∷ touched) (acc ++ lj ∷ []) u' {out = out} {v' = v'}
                again.1 rest in
            (
              lj ∷ new,
              eq ∙ append_assoc acc (lj ∷ []) new,
              keep (job-IsJobOf worker expires _ p m lj u'.db.crawl_frontier again.0 found refl) t,
            )
      ]
