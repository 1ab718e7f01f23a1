-- ===== src/FrontierRepo/Reserved.antt =====
-- Which jobs `Reserve` hands out.
use crawlerv.Prelude.{
  ℕ, ◌+◌, ◌<◌, ◌≤◌, ◌≡◌, refl, sym, subst, ap, ◌∙◌, true, false, List, [], ◌∷◌, Bytes,
  bytes_eq_refl, contains, arith, All, length, leb,
}
use mathlib.Core.List.{Memᴰ}
use crawlerv.Store.Rows.{Frontier, Domain}
use crawlerv.Store.Sql.{count}
use crawlerv.Store.World.{Db, ok, World}
use crawlerv.Store.Laws.{>>=-ok, write_tx-ok}
use crawlerv.FrontierRepo.Types.{LeasedJob}
use crawlerv.FrontierRepo.Pick.{Driver, Candidate, Engine, picks}
use crawlerv.FrontierRepo.Wanted.{IsWanted, eligible-IsWanted}
use crawlerv.FrontierRepo.Reserve.{Sign, lease_each, reserve}
use crawlerv.FrontierRepo.Invariant.{Distinct, hashes, Inv}
use crawlerv.FrontierRepo.Taken.{
  IsJobOf, Taken, length-Taken, count-Taken, All-Taken, job_of, SameDomain, lease_each-Taken,
  All-at,
}
use crawlerv.FrontierRepo.Picked.{
  IsOffered, eligible-joined, length-picks, All-picks, count-picks, pick-ok,
}

absent :
    (rows : List Frontier) (r : Frontier)
    → contains (hashes rows) r.url_hash ≡ false
    → ¬ Memᴰ r rows
unfolding contains
absent [] r h m = elim m [ ]
absent (x ∷ rows) r h (Memᴰ.head e) =
    ground (arith, ap (λ (z : Frontier). z.url_hash) e, bytes_eq_refl x.url_hash)
absent (x ∷ rows) r h (Memᴰ.tail m) = absent rows r (ground arith) m

pub contains-mem :
    (rows : List Frontier) {r : Frontier} → Memᴰ r rows → contains (hashes rows) r.url_hash ≡ true
unfolding contains
contains-mem [] m = elim m [ ]
contains-mem (x ∷ rows) {r} (Memᴰ.head e) =
    ground (arith, ap (λ (z : Frontier). z.url_hash) e, bytes_eq_refl x.url_hash)
contains-mem (x ∷ rows) {r} (Memᴰ.tail m) = ground (arith, contains-mem rows {r = r} m)

-- With distinct keys, a URL has one row.
others-differ :
    (rows : List Frontier) (r : Frontier)
    → contains (hashes rows) r.url_hash ≡ false
    → All (λ (x : Frontier). x.url_hash ≡ r.url_hash → x.domain_id ≡ r.domain_id) rows
unfolding contains
others-differ [] r h = tt
others-differ (x ∷ rows) r h =
    ((λ e. ground (arith, bytes_eq_refl r.url_hash)), others-differ rows r (ground arith))

one_row :
    (rows : List Frontier) (r : Frontier)
    → Distinct (hashes rows)
    → Memᴰ r rows
    → All (λ (x : Frontier). x.url_hash ≡ r.url_hash → x.domain_id ≡ r.domain_id) rows
one_row [] r d m = elim m [ ]
one_row (x ∷ rows) r d (Memᴰ.head e) =
    subst
      (λ (z : Frontier).
        All (λ (y : Frontier). y.url_hash ≡ z.url_hash → y.domain_id ≡ z.domain_id) (x ∷ rows))
      (sym e) ((λ _. refl), others-differ rows x d.0)
one_row (x ∷ rows) r d (Memᴰ.tail m) =
    ((λ e. ground (arith, contains-mem rows m)), one_row rows r d.1 m)

module _ (e : Engine) (driver : Driver) (sign : Sign) (now db_now worker : ℕ) (caps : List Bytes)
    (batch ttl : ℕ) where
  -- A reservation that succeeds with a positive batch leased the picks, one by one.
  pub reserve-ok :
      (w : World) {out : List LeasedJob} {w' : World}
      → 0 < batch
      → reserve e driver sign now db_now worker caps batch ttl w ≡ (ok out, w')
      → (v v' : World) × (v.db ≡ w.db)
        × (lease_each sign worker now
              (now + ttl)
              (picks e driver now db_now caps batch w.db)
              []
              []
              v
            ≡ (ok out, v'))
        × (v'.db ≡ w'.db)
  unfolding reserve
  reserve-ok w {out} {w'} pos r =
      let positive : leb batch 0 ≡ false = ground arith in
      let (v, v', start, body, end) = write_tx-ok _ w (rw positive at r) in
      let (ps, u, queried, leased) = >>=-ok _ _ v body in
      let q = pick-ok e driver now db_now caps batch v queried in
      let same : picks e driver now db_now caps batch w.db ≡ ps =
        ap (picks e driver now db_now caps batch) (sym start) ∙ q.0 in
      (u, v', q.1 ∙ start, rw same leased, end)

  -- The row and the domain that a job was handed out for, in the tables `d`.
  pub record IsEligibleJob (d : Db) (lj : LeasedJob) : Type 0 where
    pub row : Frontier
    pub domain : Domain
    pub in_queue : Memᴰ row d.crawl_frontier
    pub in_domains : Memᴰ domain d.domains
    pub wanted : IsWanted driver now db_now caps row domain
    pub same_url : lj.job.url_hash ≡ row.url_hash
    pub same_domain : lj.job.domain_id ≡ row.domain_id

  job-eligible :
      (d : Db) (p : Candidate) (lj : LeasedJob)
      → IsJobOf p lj
      → IsOffered driver now db_now caps d.crawl_frontier d.domains p
      → IsEligibleJob d lj
  job-eligible d p lj j o = record {
    row = o.row;
    domain = o.domain;
    in_queue = o.in_queue;
    in_domains = o.in_domains;
    wanted = eligible-IsWanted driver now db_now caps o.row o.domain o.eligible;
    same_url = j.hash ∙ ap (λ (c : Candidate). c.url_hash) o.made;
    same_domain = j.domain ∙ ap (λ (c : Candidate). c.domain_id) o.made;
  }

  pub picks-SameDomain :
      (d : Db) → Inv d → All (SameDomain d.crawl_frontier) (picks e driver now db_now caps batch d)
  picks-SameDomain d inv =
      All-picks e driver now db_now caps batch d (SameDomain d.crawl_frontier)
        (λ c o. rw o.made (one_row d.crawl_frontier o.row inv.keys o.in_queue))

  reserve-Taken :
      (w : World) {out : List LeasedJob} {w' : World}
      → Inv w.db
      → 0 < batch
      → reserve e driver sign now db_now worker caps batch ttl w ≡ (ok out, w')
      → Taken (picks e driver now db_now caps batch w.db) out
  reserve-Taken w {out} {w'} inv pos r =
      let (v, v', start, looped, end) = reserve-ok w pos r in
      let (new, eq, t) =
        lease_each-Taken sign worker now (now + ttl) _ [] [] v
          (subst
            (λ (d : Db).
              All (SameDomain d.crawl_frontier) (picks e driver now db_now caps batch w.db))
            (sym start) (picks-SameDomain w.db inv))
          looped in
      rw eq t

  -- `Reserve` hands out at most `batch` jobs, and each is of a row that was queued, scheduled for now
  -- or earlier and with no retry time or one that has come, in a domain that was active, that had not
  -- been asked yet or whose crawl delay was over (on SQLite up to a second), and that required no
  -- capability, or one among the worker's, unless the worker has none listed.
  pub reserve_eligible :
      (w : World) {out : List LeasedJob} {w' : World}
      → Inv w.db
      → 0 < batch
      → reserve e driver sign now db_now worker caps batch ttl w ≡ (ok out, w')
      → (length out ≤ batch) × All (IsEligibleJob w.db) out
  reserve_eligible w {out} {w'} inv pos r =
      let t = reserve-Taken w inv pos r in
      (
        omega (arith, length-Taken t, length-picks e driver now db_now caps batch w.db),
        All-Taken (IsOffered driver now db_now caps w.db.crawl_frontier w.db.domains)
            (IsEligibleJob w.db) (job-eligible w.db) t
            (All-picks e driver now db_now caps batch w.db _ (λ c o. o)),
      )

  -- Of a domain with `parallel_fetches` n, one call of `Reserve` hands out at most n jobs.
  pub reserve_per_domain :
      (w : World) {out : List LeasedJob} {w' : World} (k n : ℕ)
      → Inv w.db
      → 0 < batch
      → All (λ (d : Domain). d.id ≡ k → d.parallel_fetches ≡ n) w.db.domains
      → reserve e driver sign now db_now worker caps batch ttl w ≡ (ok out, w')
      → count (job_of k) out ≤ n
  reserve_per_domain w {out} {w'} k n inv pos same r = omega (
    arith,
    count-Taken k (reserve-Taken w inv pos r),
    count-picks e driver now db_now caps batch w.db k n (λ c o at_k.
        ap (λ (z : Candidate). z.pf) o.made
        ∙ All-at (λ (d : Domain). d.id ≡ k → d.parallel_fetches ≡ n) o.in_domains same
            (eligible-joined driver now db_now caps o.row o.domain o.eligible
              ∙ sym (ap (λ (z : Candidate). z.domain_id) o.made)
              ∙ at_k)),
  )
