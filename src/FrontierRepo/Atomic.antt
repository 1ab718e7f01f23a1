-- ===== src/FrontierRepo/Atomic.antt =====
-- A call of FrontierRepo that fails leaves every table as it was.
use crawlerv.Store.World.{Error, err, World}
use crawlerv.Prelude.{◌≡◌, ℕ, Bool, Option, none, some, List, [], ◌∷◌, arith}
use crawlerv.Store.World.{pure, ◌>>=◌, statement}
use crawlerv.Store.Laws.{
  IsAtomic, write_tx-IsAtomic, statement-IsAtomic, execute-IsAtomic, pure-IsAtomic, fail-IsAtomic,
  then_pure-IsAtomic, query-IsAtomic, if-IsAtomic,
}
use crawlerv.Store.Rows.{Frontier, Domain}
use crawlerv.FrontierRepo.Queue.{
  update_held, enqueue, enqueue_many, heartbeat, complete, fail_lease, requeue_by_filter,
  sweep_expired,
}
use crawlerv.FrontierRepo.Pick.{Driver, Engine}
use crawlerv.FrontierRepo.Reserve.{Sign, reserve}
use crawlerv.FrontierRepo.Domains.{
  update_host, upsert_by_host, update_crawl_delay, update_parallel_fetches, update_scheme,
  update_required_capability, update_embed_collection, set_active, create_domain, map_domain,
  new_domain,
}
use crawlerv.FrontierRepo.Types.{Job}
use crawlerv.FrontierRepo.Calls.{Call, perform}

held-IsAtomic :
    (test : Frontier → Bool) (set : Frontier → Frontier)
    → IsAtomic (statement (update_held test set))
unfolding update_held
held-IsAtomic test set = statement-IsAtomic _ (λ d x h. ground arith)

host-IsAtomic : (host : List ℕ) (set : Domain → Domain) → IsAtomic (update_host host set)
unfolding update_host
host-IsAtomic host set = statement-IsAtomic _ (λ d x h. ground arith)

enqueue_many-IsAtomic : (now : ℕ) (js : List Job) → IsAtomic (enqueue_many now js)
unfolding enqueue_many
enqueue_many-IsAtomic now [] = pure-IsAtomic _
enqueue_many-IsAtomic now (j ∷ js) = write_tx-IsAtomic _

upsert-IsAtomic :
    (now : ℕ) (host scheme : List ℕ) (ms : ℕ) → IsAtomic (upsert_by_host now host scheme ms)
unfolding upsert_by_host
upsert-IsAtomic now host scheme ms = query-IsAtomic _ _ after
  where
    after :
        (found : Option Domain)
        → IsAtomic (elim found [
          | some d ↦ pure (map_domain d)
          | none ↦ (create_domain (new_domain now host scheme ms) >>= λ d. pure (map_domain d))
        ])
    after none = then_pure-IsAtomic _ _ (unfold create_domain in execute-IsAtomic _)
    after (some d) = pure-IsAtomic _

module _ (e : Engine) (driver : Driver) (sign : Sign) where
  pub perform-IsAtomic : (c : Call) → IsAtomic (perform e driver sign c)
  unfolding perform
  perform-IsAtomic (Call.enqueues now j) =
      then_pure-IsAtomic _ _ (unfold enqueue in then_pure-IsAtomic _ _ (execute-IsAtomic _))
  perform-IsAtomic (Call.enqueues_many now js) =
      then_pure-IsAtomic _ _ (enqueue_many-IsAtomic now js)
  perform-IsAtomic (Call.reserves now db_now worker caps batch ttl) =
      then_pure-IsAtomic _ _
        (unfold reserve in if-IsAtomic _ _ _ (pure-IsAtomic _) (write_tx-IsAtomic _))
  perform-IsAtomic (Call.heartbeats now h t extend) =
      then_pure-IsAtomic _ _ (unfold heartbeat in then_pure-IsAtomic _ _ (held-IsAtomic _ _))
  perform-IsAtomic (Call.completes now h t s) =
      then_pure-IsAtomic _ _ (unfold complete in held-IsAtomic _ _)
  perform-IsAtomic (Call.fails now h t f backoff) =
      then_pure-IsAtomic _ _ (unfold fail_lease in write_tx-IsAtomic _)
  perform-IsAtomic (Call.requeues f) =
      then_pure-IsAtomic _ _
        (unfold requeue_by_filter in if-IsAtomic _ _ _ (execute-IsAtomic _) (fail-IsAtomic _))
  perform-IsAtomic (Call.sweeps now) =
      then_pure-IsAtomic _ _ (unfold sweep_expired in execute-IsAtomic _)
  perform-IsAtomic (Call.upserts_host now host scheme ms) =
      then_pure-IsAtomic _ _ (upsert-IsAtomic now host scheme ms)
  perform-IsAtomic (Call.updates_crawl_delay host ms) =
      then_pure-IsAtomic _ _ (unfold update_crawl_delay in host-IsAtomic host _)
  perform-IsAtomic (Call.updates_parallel_fetches host n) =
      then_pure-IsAtomic _ _ (unfold update_parallel_fetches in host-IsAtomic host _)
  perform-IsAtomic (Call.updates_scheme host scheme) =
      then_pure-IsAtomic _ _ (unfold update_scheme in host-IsAtomic host _)
  perform-IsAtomic (Call.updates_required_capability host c) =
      then_pure-IsAtomic _ _ (unfold update_required_capability in host-IsAtomic host _)
  perform-IsAtomic (Call.updates_embed_collection host c) =
      then_pure-IsAtomic _ _ (unfold update_embed_collection in host-IsAtomic host _)
  perform-IsAtomic (Call.sets_active host b) =
      then_pure-IsAtomic _ _ (unfold set_active in host-IsAtomic host _)

-- Whatever call on the queue or the domains fails, for whatever reason and at whatever statement, no
-- table has changed.
pub failed_call_keeps :
    (e : Engine) (driver : Driver) (sign : Sign) (c : Call) (w : World) (x : Error)
    → (perform e driver sign c w).0 ≡ err x
    → (perform e driver sign c w).1.db ≡ w.db
failed_call_keeps e driver sign c w x h = (perform-IsAtomic e driver sign c).apply w x h
