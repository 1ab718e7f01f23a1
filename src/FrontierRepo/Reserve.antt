-- ===== src/FrontierRepo/Reserve.antt =====
-- FrontierRepo.Reserve: the transaction around the SELECT and the leases.
use crawlerv.Prelude.{
  ℕ, ◌+◌, Bool, false, ◌&&◌, ◌||◌, some, List, [], ◌∷◌, ◌++◌, Bytes, bytes_eq, leb, ◌==◌,
  if◌then◌else◌,
}
use crawlerv.Store.Rows.{queued, leased, Frontier, Domain, status_eq}
use crawlerv.Store.Sql.{count, update}
use crawlerv.Store.World.{
  Db, Error, Result, ok, err, M, pure, ◌>>=◌, ◌>>◌, execute, statement, write_tx,
}
use crawlerv.FrontierRepo.Types.{LeasedJob}
use crawlerv.FrontierRepo.Queue.{set_frontier, find_row}
use crawlerv.FrontierRepo.Pick.{Driver, sqlite, postgres, mysql, Engine, Candidate, picks}

-- What signs a lease: the token for the worker, and the raw bytes for the table.
abbrev pub Sign : Type 0
Sign = Bytes → ℕ → Bytes × Bytes

unfoldable pub is_free : Bytes → Frontier → Bool
is_free h r = bytes_eq r.url_hash h && status_eq r.status queued

abbrev pub leased_row : ℕ → Bytes → ℕ → Frontier → Frontier
leased_row worker raw expires r = record r {
  status = leased;
  leased_by_worker_id = some worker;
  lease_token = some raw;
  lease_expires_at = some expires;
  attempt_count = r.attempt_count + 1;
}

-- The UPDATE that takes the lease; the rows affected.
unfoldable pub take_lease : ℕ → Bytes → ℕ → Bytes → M ℕ
take_lease worker raw expires h = execute λ d. (
  count (is_free h) d.crawl_frontier,
  set_frontier (update (is_free h) (leased_row worker raw expires) d.crawl_frontier) d,
)

-- `UPDATE domains SET last_request_at = ? WHERE id = ?`
abbrev pub touched_db : ℕ → ℕ → Db → Db
touched_db now id d = record d {
  domains =
      update (λ (x : Domain). x.id == id) (λ x. record x { last_request_at = some now }) d.domains;
}

unfoldable pub touch_domain : ℕ → ℕ → M (Unit {0})
touch_domain now id = execute λ d. (tt, touched_db now id d)

abbrev pub leased_job : ℕ → Bytes → ℕ → Frontier → LeasedJob
leased_job worker token expires m = record {
  job = record {
    url_hash = m.url_hash;
    url = m.url;
    canonical_url = m.canonical_url;
    domain_id = m.domain_id;
    depth = m.depth;
    priority = m.priority;
    attempt_count = m.attempt_count;
    max_attempts = m.max_attempts;
    parent_url_hash = m.parent_url_hash;
  };
  lease = record {
    job_url_hash = m.url_hash;
    worker_id = worker;
    token = token;
    expires_at = expires;
  };
}

abbrev pub among : List ℕ → ℕ → Bool
among [] n = false
among (x ∷ xs) n = x == n || among xs n

module _ (sign : Sign) (worker now expires : ℕ) where
  -- The part of the loop's body after the UPDATE has taken the lease.
  unfoldable pub after_lease : List ℕ → Candidate → M LeasedJob
  unfolding find_row touch_domain
  after_lease touched p = do
    (if among touched p.domain_id then pure tt else touch_domain now p.domain_id)
    m ← find_row p.url_hash
    pure (leased_job worker (sign p.url_hash expires).0 expires m)

  -- The loop over the picks. `touched` holds the domains whose `last_request_at` is set.
  unfoldable pub lease_each : List Candidate → List ℕ → List LeasedJob → M (List LeasedJob)
  unfolding after_lease take_lease
  lease_each [] touched out = pure out
  lease_each (p ∷ ps) touched out = do
    n ← take_lease worker (sign p.url_hash expires).1 expires p.url_hash
    if n == 0
        then lease_each ps touched out
        else (after_lease touched p >>= λ lj.
            lease_each ps (p.domain_id ∷ touched) (out ++ lj ∷ []))

-- The query on a driver. On Postgres the column `is_active` is a BOOLEAN, and the comparison
-- `d.is_active = 1` is an error.
abbrev pub picked : Driver → List Candidate → Db → Result (List Candidate) × Db
picked sqlite ps d = (ok ps, d)
picked postgres ps d = (err Error.driver, d)
picked mysql ps d = (ok ps, d)

unfoldable pub pick : Engine → Driver → ℕ → ℕ → List Bytes → ℕ → M (List Candidate)
unfolding picks
pick e driver now db_now caps batch =
    statement λ d. picked driver (picks e driver now db_now caps batch d) d

unfoldable pub reserve :
    Engine → Driver → Sign → ℕ → ℕ → ℕ → List Bytes → ℕ → ℕ → M (List LeasedJob)
unfolding pick lease_each
reserve e driver sign now db_now worker caps batch ttl =
    if leb batch 0
    then pure []
    else write_tx
        do ps ← pick e driver now db_now caps batch; lease_each sign worker now (now + ttl) ps [] []
