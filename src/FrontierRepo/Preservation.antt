-- ===== src/FrontierRepo/Preservation.antt =====
-- Every call keeps the crawl queue sound.
use crawlerv.Prelude.{
  ℕ, ◌+◌, ◌≡◌, refl, Bool, true, Option, none, some, List, [], ◌∷◌, Bytes, arith,
}
use crawlerv.Store.Rows.{Frontier, Domain}
use crawlerv.Store.Sql.{update}
use crawlerv.Store.World.{Db, World, M, pure, ◌>>=◌, statement, execute}
use crawlerv.Store.Laws.{
  Keeps, statement-Keeps, execute-Keeps, query-Keeps, pure-Keeps, fail-Keeps, >>=-Keeps,
  write_tx-Keeps, if-Keeps,
}
use crawlerv.FrontierRepo.Types.{Job, LeasedJob, Failure}
use crawlerv.FrontierRepo.Queue.{
  enqueue, enqueue_each, enqueue_many, update_held, heartbeat, complete, find_row, record_failure,
  fail_lease, requeue_by_filter, sweep_expired,
}
use crawlerv.FrontierRepo.Pick.{Driver, Engine, Candidate}
use crawlerv.FrontierRepo.Reserve.{Sign, take_lease, touch_domain, after_lease, lease_each, reserve}
use crawlerv.FrontierRepo.Domains.{
  update_host, upsert_by_host, update_crawl_delay, update_parallel_fetches, update_scheme,
  update_required_capability, update_embed_collection, set_active, create_domain, map_domain,
  new_domain, has_host,
}
use crawlerv.FrontierRepo.Calls.{Call, perform, run}
use crawlerv.FrontierRepo.Invariant.{
  IsConsistent, Inv, update-IsSound, create-IsSound, new_row-IsConsistent,
}
use crawlerv.FrontierRepo.Queue.{holds, set_frontier}
use crawlerv.FrontierRepo.Reserve.{is_free}
use crawlerv.FrontierRepo.Picked.{pick-Keeps}

-- A statement that only updates the queue's rows.
rows-Keeps :
    {A : Type 0} (answer : Db → A) (test : Frontier → Bool) (set : Frontier → Frontier)
    → ((r : Frontier) → (set r).url_hash ≡ r.url_hash)
    → ((r : Frontier) → test r ≡ true → IsConsistent r → IsConsistent (set r))
    → Keeps Inv (execute (λ d. (answer d, set_frontier (update test set d.crawl_frontier) d)))
rows-Keeps answer test set same keep =
    execute-Keeps _ (λ d s. update-IsSound test set same keep d.crawl_frontier s)

held-Keeps :
    (h t : Bytes) (set : Frontier → Frontier)
    → ((r : Frontier) → (set r).url_hash ≡ r.url_hash)
    → ((r : Frontier) → holds h t r ≡ true → IsConsistent r → IsConsistent (set r))
    → Keeps Inv (statement (update_held (holds h t) set))
unfolding update_held
held-Keeps h t set same keep =
    statement-Keeps _
      (λ d s. ground (arith, s, update-IsSound (holds h t) set same keep d.crawl_frontier s))

ignore-Keeps : {A : Type 0} (m : M A) → Keeps Inv m → Keeps Inv (m >>= λ _. pure tt)
ignore-Keeps m k = >>=-Keeps k (λ _. pure-Keeps tt)

enqueue_each-Keeps : (now : ℕ) (js : List Job) (n : ℕ) → Keeps Inv (enqueue_each now js n)
unfolding enqueue_each
enqueue_each-Keeps now [] n = pure-Keeps _
enqueue_each-Keeps now (j ∷ js) n =
    >>=-Keeps (execute-Keeps _ (create-IsSound _ (new_row-IsConsistent now j)))
      (λ k. enqueue_each-Keeps now js _)

enqueue_many-Keeps : (now : ℕ) (js : List Job) → Keeps Inv (enqueue_many now js)
unfolding enqueue_many
enqueue_many-Keeps now [] = pure-Keeps _
enqueue_many-Keeps now (j ∷ js) = write_tx-Keeps (enqueue_each-Keeps now (j ∷ js) 0)

find_row-Keeps : (h : Bytes) → Keeps Inv (find_row h)
unfolding find_row
find_row-Keeps h = statement-Keeps _ (λ d s. ground (arith, s))

pub fail_lease-Keeps :
    (now : ℕ) (h t : Bytes) (f : Failure) (backoff : ℕ) → Keeps Inv (fail_lease now h t f backoff)
unfolding fail_lease record_failure
fail_lease-Keeps now h t f backoff = write_tx-Keeps (
    >>=-Keeps (find_row-Keeps h)
      (λ m. if-Keeps _ _ _ (rows-Keeps _ _ _ (λ r. refl) (λ r _ c. ground arith)) (fail-Keeps _)))

module _ (sign : Sign) (worker now expires : ℕ) where
  after_lease-Keeps :
      (touched : List ℕ) (p : Candidate) → Keeps Inv (after_lease sign worker now expires touched p)
  unfolding after_lease touch_domain
  after_lease-Keeps touched p =
      >>=-Keeps (if-Keeps _ _ _ (pure-Keeps _) (execute-Keeps _ (λ d s. s)))
        (λ _. >>=-Keeps (find_row-Keeps p.url_hash) (λ m. pure-Keeps _))

  lease_each-Keeps :
      (ps : List Candidate) (touched : List ℕ) (out : List LeasedJob)
      → Keeps Inv (lease_each sign worker now expires ps touched out)
  unfolding lease_each take_lease is_free
  lease_each-Keeps [] touched out = pure-Keeps _
  lease_each-Keeps (p ∷ ps) touched out =
      >>=-Keeps (rows-Keeps _ _ _ (λ r. refl) (λ r h c. ground arith)) (λ n.
        if-Keeps _ _ _ (lease_each-Keeps ps touched out)
          (>>=-Keeps (after_lease-Keeps touched p) (λ lj. lease_each-Keeps ps _ _)))

-- What does not read the domains is kept by the calls on them.
module _ (P : Db → Type 0)
    (keep : (d : Db) (ds : List Domain) (n : ℕ)
      → P d
      → P (record d { domains = ds; next_domain_id = n })) where
  pub domain-Keeps : (host : Bytes) (set : Domain → Domain) → Keeps P (update_host host set)
  unfolding update_host
  domain-Keeps host set =
      statement-Keeps _
        (λ d s. ground (arith, s, keep d (update (has_host host) set d.domains) d.next_domain_id s))

  pub upsert-Keeps :
      (now : ℕ) (host scheme : Bytes) (ms : ℕ) → Keeps P (upsert_by_host now host scheme ms)
  unfolding upsert_by_host create_domain
  upsert-Keeps now host scheme ms = >>=-Keeps (query-Keeps _) after
    where
      after :
          (found : Option Domain)
          → Keeps P (elim found [
            | some d ↦ pure (map_domain d)
            | none ↦ (create_domain (new_domain now host scheme ms) >>= λ d. pure (map_domain d))
          ])
      after none = >>=-Keeps (execute-Keeps _ (λ d s. keep d _ _ s)) (λ d. pure-Keeps _)
      after (some d) = pure-Keeps _

pub complete-Keeps :
    (now : ℕ) (h t : Bytes) (http_status : ℕ) → Keeps Inv (complete now h t http_status)
unfolding complete
complete-Keeps now h t s = held-Keeps h t _ (λ r. refl) (λ r _ c. ground arith)

pub sweep_expired-Keeps : (now : ℕ) → Keeps Inv (sweep_expired now)
unfolding sweep_expired
sweep_expired-Keeps now = rows-Keeps _ _ _ (λ r. refl) (λ r _ c. ground arith)

pub extend-keeps :
    (h t : Bytes) (expiry : ℕ) (r : Frontier)
    → holds h t r ≡ true
    → IsConsistent r
    → IsConsistent (record r { lease_expires_at = some expiry })
unfolding holds
extend-keeps h t expiry r e c = ground arith

pub heartbeat-Keeps : (now : ℕ) (h t : Bytes) (extend : ℕ) → Keeps Inv (heartbeat now h t extend)
unfolding heartbeat
heartbeat-Keeps now h t extend =
    >>=-Keeps (held-Keeps h t _ (λ r. refl) (extend-keeps h t _)) (λ n. pure-Keeps _)

module _ (e : Engine) (driver : Driver) (sign : Sign) where
  pub reserve-Keeps :
      (now db_now worker : ℕ) (caps : List Bytes) (batch ttl : ℕ)
      → Keeps Inv (reserve e driver sign now db_now worker caps batch ttl)
  unfolding reserve
  reserve-Keeps now db_now worker caps batch ttl = if-Keeps _ _ _ (pure-Keeps _) (
      write_tx-Keeps (
        >>=-Keeps (pick-Keeps e driver now db_now caps batch)
          (λ ps. lease_each-Keeps sign worker now (now + ttl) ps [] [])))

  pub perform-Keeps : (c : Call) → Keeps Inv (perform e driver sign c)
  unfolding perform
  perform-Keeps (Call.enqueues now j) = ignore-Keeps _ (
      unfold enqueue in
      >>=-Keeps (execute-Keeps _ (create-IsSound _ (new_row-IsConsistent now j)))
        (λ n. pure-Keeps _))
  perform-Keeps (Call.enqueues_many now js) = ignore-Keeps _ (enqueue_many-Keeps now js)
  perform-Keeps (Call.reserves now db_now worker caps batch ttl) =
      ignore-Keeps _ (reserve-Keeps now db_now worker caps batch ttl)
  perform-Keeps (Call.heartbeats now h t extend) = ignore-Keeps _ (heartbeat-Keeps now h t extend)
  perform-Keeps (Call.completes now h t s) = ignore-Keeps _ (complete-Keeps now h t s)
  perform-Keeps (Call.fails now h t f backoff) = ignore-Keeps _ (fail_lease-Keeps now h t f backoff)
  perform-Keeps (Call.requeues f) = ignore-Keeps _ (
      unfold requeue_by_filter in
      if-Keeps _ _ _ (rows-Keeps _ _ _ (λ r. refl) (λ r _ c. ground arith)) (fail-Keeps _))
  perform-Keeps (Call.sweeps now) = ignore-Keeps _ (sweep_expired-Keeps now)
  perform-Keeps (Call.upserts_host now host scheme ms) =
      ignore-Keeps _ (upsert-Keeps Inv (λ d ds n s. s) now host scheme ms)
  perform-Keeps (Call.updates_crawl_delay host ms) =
      ignore-Keeps _ (unfold update_crawl_delay in domain-Keeps Inv (λ d ds n s. s) host _)
  perform-Keeps (Call.updates_parallel_fetches host n) =
      ignore-Keeps _ (unfold update_parallel_fetches in domain-Keeps Inv (λ d ds n s. s) host _)
  perform-Keeps (Call.updates_scheme host scheme) =
      ignore-Keeps _ (unfold update_scheme in domain-Keeps Inv (λ d ds n s. s) host _)
  perform-Keeps (Call.updates_required_capability host c) =
      ignore-Keeps _ (unfold update_required_capability in domain-Keeps Inv (λ d ds n s. s) host _)
  perform-Keeps (Call.updates_embed_collection host c) =
      ignore-Keeps _ (unfold update_embed_collection in domain-Keeps Inv (λ d ds n s. s) host _)
  perform-Keeps (Call.sets_active host b) =
      ignore-Keeps _ (unfold set_active in domain-Keeps Inv (λ d ds n s. s) host _)

  -- After any history of calls, with any failures, no URL is queued twice, and a row has a lease
  -- token, a holder and an expiry exactly while its status is `leased`.
  pub run-Inv : (w : World) (cs : List Call) → Inv w.db → Inv (run e driver sign w cs).db
  unfolding run
  run-Inv w [] h = h
  run-Inv w (c ∷ cs) h = run-Inv (perform e driver sign c w).1 cs ((perform-Keeps c).apply w h)
