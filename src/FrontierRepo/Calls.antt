-- ===== src/FrontierRepo/Calls.antt =====
-- Every call of FrontierRepo as data, and histories of calls. A call that fails is part of a
-- history like any other.
use crawlerv.Prelude.{ℕ, Bool, List, [], ◌∷◌, Bytes}
use crawlerv.Store.World.{M, World, pure, ◌>>=◌}
use crawlerv.FrontierRepo.Types.{Job, Failure, RequeueFilter}
use crawlerv.FrontierRepo.Queue.{
  enqueue, enqueue_many, heartbeat, complete, fail_lease, requeue_by_filter, sweep_expired,
}
use crawlerv.FrontierRepo.Pick.{Driver, Engine}
use crawlerv.FrontierRepo.Reserve.{Sign, reserve}
use crawlerv.FrontierRepo.Domains.{
  upsert_by_host, update_crawl_delay, update_parallel_fetches, update_scheme,
  update_required_capability, update_embed_collection, set_active,
}

-- `now` is the reading of the clock in the call.
pub data Call : Type 0 where
  enqueues : (now : ℕ) → Job → Call
  enqueues_many : (now : ℕ) → List Job → Call
  reserves : (now db_now worker : ℕ) → List Bytes → (batch ttl : ℕ) → Call
  heartbeats : (now : ℕ) (hash token : Bytes) (extend : ℕ) → Call
  completes : (now : ℕ) (hash token : Bytes) (http_status : ℕ) → Call
  fails : (now : ℕ) (hash token : Bytes) → Failure → (backoff : ℕ) → Call
  requeues : RequeueFilter → Call
  sweeps : (now : ℕ) → Call
  upserts_host : (now : ℕ) (host scheme : Bytes) (delay_ms : ℕ) → Call
  updates_crawl_delay : Bytes → ℕ → Call
  updates_parallel_fetches : Bytes → ℕ → Call
  updates_scheme : Bytes → Bytes → Call
  updates_required_capability : Bytes → Bytes → Call
  updates_embed_collection : Bytes → Bytes → Call
  sets_active : Bytes → Bool → Call

abbrev pub ignore : {A : Type 0} → M A → M (Unit {0})
ignore m = m >>= λ _. pure tt

module _ (e : Engine) (driver : Driver) (sign : Sign) where
  unfoldable pub perform : Call → M (Unit {0})
  perform (enqueues now j) = ignore (enqueue now j)
  perform (enqueues_many now js) = ignore (enqueue_many now js)
  perform (reserves now db_now worker caps batch ttl) =
      ignore (reserve e driver sign now db_now worker caps batch ttl)
  perform (heartbeats now h t extend) = ignore (heartbeat now h t extend)
  perform (completes now h t s) = ignore (complete now h t s)
  perform (fails now h t f backoff) = ignore (fail_lease now h t f backoff)
  perform (requeues f) = ignore (requeue_by_filter f)
  perform (sweeps now) = ignore (sweep_expired now)
  perform (upserts_host now host scheme ms) = ignore (upsert_by_host now host scheme ms)
  perform (updates_crawl_delay host ms) = ignore (update_crawl_delay host ms)
  perform (updates_parallel_fetches host n) = ignore (update_parallel_fetches host n)
  perform (updates_scheme host scheme) = ignore (update_scheme host scheme)
  perform (updates_required_capability host c) = ignore (update_required_capability host c)
  perform (updates_embed_collection host c) = ignore (update_embed_collection host c)
  perform (sets_active host b) = ignore (set_active host b)

  unfoldable pub run : World → List Call → World
  unfolding perform
  run w [] = w
  run w (c ∷ cs) = run (perform c w).1 cs
