-- ===== src/FrontierRepo/Refinement.antt =====
-- The crawl queue refines the life cycle of its URLs.
use crawlerv.Prelude.{
  ℕ, ◌≡◌, refl, sym, subst, ap, ◌∙◌, true, none, List, [], ◌∷◌, Bytes, All-imp, inl, inr, ◌⊎◌,
}
use crawlerv.Store.Rows.{Frontier, Domain}
use crawlerv.Store.World.{Db, Result, ok, err, World, M, pure, continue, ◌>>=◌}
use crawlerv.Store.Laws.{Keeps, write_tx-IsAtomic, pure-Keeps, >>=-Keeps}
use crawlerv.FrontierRepo.Types.{Failure}
use crawlerv.FrontierRepo.Queue.{has_hash, failed_row, fail_lease}
use crawlerv.FrontierRepo.Pick.{Driver, Engine}
use crawlerv.FrontierRepo.Reserve.{Sign}
use crawlerv.FrontierRepo.Domains.{
  update_host, update_crawl_delay, update_parallel_fetches, update_scheme,
  update_required_capability, update_embed_collection, set_active,
}
use crawlerv.FrontierRepo.Invariant.{Inv}
use crawlerv.FrontierRepo.Preservation.{perform-Keeps, domain-Keeps, upsert-Keeps}
use crawlerv.FrontierRepo.Leases.{IsHolder}
use crawlerv.FrontierRepo.Failing.{fail_lease_effect, Outcome}
use crawlerv.FrontierRepo.Calls.{Call, perform, run}
use crawlerv.FrontierRepo.Lifecycle.{Life, Url, life_of, url_of, view, Steps, rest, Trace}
use crawlerv.FrontierRepo.Moved.{IsMove, IsReached, update-Steps}
use crawlerv.FrontierRepo.Refines.{
  enqueues-reach, enqueues_many-reach, completes-reach, sweeps-reach,
}
use crawlerv.FrontierRepo.Refined.{heartbeats-reach, requeues-reach, reserves-reach, only_row}

module _ (now : ℕ) (h t : Bytes) (f : Failure) (backoff : ℕ) where
  abbrev pub Fails : Call
  Fails = Call.fails now h t f backoff

  ended :
      (m r : Frontier)
      → Outcome now backoff f m (failed_row now backoff f m m)
      → ((url_of (failed_row now backoff f m r)).life ≡ Life.buried)
        ⊎ (((url_of (failed_row now backoff f m r)).life ≡ Life.waiting) × (f.retryable ≡ true))
  ended m r (inl (d, _, _)) = inl (ap (λ s. life_of s none none) d)
  ended m r (inr (q, _, y, _)) = inr (ap (λ s. life_of s none none) q, y)

  failed-IsMove :
      (rows : List Frontier) (m r : Frontier)
      → IsHolder rows h t m
      → Outcome now backoff f m (failed_row now backoff f m m)
      → r ≡ m
      → IsMove Fails (failed_row now backoff f m) r
  failed-IsMove rows m r k o e = record {
    hash = refl;
    move = (
      ap (λ (x : Frontier). x.url_hash) e ∙ k.url,
      (
        m.leased_by_worker_id,
        ap (λ (x : Frontier). (url_of x).life) e
            ∙ ap (λ s. life_of s m.leased_by_worker_id m.lease_token) k.status
            ∙ ap (Life.held m.leased_by_worker_id) k.token,
      ),
      ended m r o,
    );
  }

  fails-Steps :
      (w : World) (r : Result (Unit {0}) × World)
      → Inv w.db
      → fail_lease now h t f backoff w ≡ r
      → Steps Fails (view w.db) (view r.1.db)
  unfolding fail_lease
  fails-Steps w (err x, v) inv e =
      subst (λ (d : Db). Steps Fails (view w.db) (view d))
        (sym ((write_tx-IsAtomic _).apply w x (ap (λ p. p.0) e)) ∙ ap (λ p. p.1.db) e) rest
  fails-Steps w (ok tt, v) inv e =
      let (m, k, same, o) = fail_lease_effect now h t f backoff w inv e in
      subst (λ (d : Db). Steps Fails (view w.db) (view d)) (sym same)
        (update-Steps Fails (has_hash h) (failed_row now backoff f m) w.db.crawl_frontier (
          All-imp (λ r. has_hash m.url_hash r ≡ true → r ≡ m) _
            (λ r only y.
              failed-IsMove w.db.crawl_frontier m r k o
                (only (subst (λ u. has_hash u r ≡ true) (sym k.url) y)))
            w.db.crawl_frontier (only_row w.db.crawl_frontier m inv.keys k.in_queue)))

module _ (c : Call) (us : List Url) where
  -- The calls on domains leave the queue's rows alone.
  domain_kept :
      (d : Db) (ds : List Domain) (n : ℕ)
      → IsReached c us d
      → IsReached c us (record d { domains = ds; next_domain_id = n })
  domain_kept d ds n s = record { sound = s.sound; steps = s.steps }

  host-reach :
      (host : Bytes) (set : Domain → Domain) → Keeps (IsReached c us) (update_host host set)
  host-reach = domain-Keeps (IsReached c us) domain_kept

ignored : {A : Type 0} {P : Db → Type 0} (m : M A) → Keeps P m → Keeps P (m >>= λ _. pure tt)
ignored m k = >>=-Keeps k (λ _. pure-Keeps tt)

ignored-db : {A : Type 0} (m : M A) (w : World) → ((m >>= λ _. pure (tt {0})) w).1.db ≡ (m w).1.db
unfolding ◌>>=◌ pure
ignored-db {A} m w = run (m w)
  where
    run : (r : Result A × World) → (continue r (λ _. pure (tt {0}))).1.db ≡ r.1.db
    run (ok a, v) = refl
    run (err x, v) = refl

module _ (e : Engine) (driver : Driver) (sign : Sign) (w : World) (inv : Inv w.db) where
  from :
      {A : Type 0} (c : Call) (m : M A)
      → Keeps (IsReached c (view w.db)) m
      → Steps c (view w.db) (view ((m >>= λ _. pure (tt {0})) w).1.db)
  from c m k = ((ignored m k).apply w (record { sound = inv; steps = rest })).steps

  perform-Steps : (c : Call) → Steps c (view w.db) (view (perform e driver sign c w).1.db)
  unfolding perform
  perform-Steps (Call.enqueues now j) = from _ _ (enqueues-reach (view w.db) now j)
  perform-Steps (Call.enqueues_many now js) = from _ _ (enqueues_many-reach (view w.db) now js)
  perform-Steps (Call.reserves now db_now worker caps batch ttl) =
      from _ _ (reserves-reach (view w.db) sign now db_now worker caps batch ttl e driver)
  perform-Steps (Call.heartbeats now h t extend) =
      from _ _ (heartbeats-reach (view w.db) now h t extend)
  perform-Steps (Call.completes now h t s) = from _ _ (completes-reach (view w.db) now h t s)
  perform-Steps (Call.fails now h t f backoff) =
      subst (λ (d : Db). Steps (Fails now h t f backoff) (view w.db) (view d))
        (sym (ignored-db (fail_lease now h t f backoff) w))
        (fails-Steps now h t f backoff w _ inv refl)
  perform-Steps (Call.requeues f) = from _ _ (requeues-reach (view w.db) f)
  perform-Steps (Call.sweeps now) = from _ _ (sweeps-reach (view w.db) now)
  perform-Steps (Call.upserts_host now host scheme ms) =
      from _ _ (upsert-Keeps _ (domain_kept _ _) now host scheme ms)
  perform-Steps (Call.updates_crawl_delay host ms) =
      from _ _ (unfold update_crawl_delay in host-reach _ _ host _)
  perform-Steps (Call.updates_parallel_fetches host n) =
      from _ _ (unfold update_parallel_fetches in host-reach _ _ host _)
  perform-Steps (Call.updates_scheme host scheme) =
      from _ _ (unfold update_scheme in host-reach _ _ host _)
  perform-Steps (Call.updates_required_capability host c) =
      from _ _ (unfold update_required_capability in host-reach _ _ host _)
  perform-Steps (Call.updates_embed_collection host c) =
      from _ _ (unfold update_embed_collection in host-reach _ _ host _)
  perform-Steps (Call.sets_active host b) = from _ _ (unfold set_active in host-reach _ _ host _)

module _ (e : Engine) (driver : Driver) (sign : Sign) where
  -- A history of calls, with any failures, is a trace of the life cycle: a new URL waits at the end
  -- of the queue and only an enqueue of it brings it, only a reserve takes a URL and only one that
  -- waits, for its own worker; only the token that a URL is held under finishes it, buries it or,
  -- for a retryable failure, sends it back; only a sweep and the operator's requeue release it
  -- without the token; and no other call changes a URL's status, holder or token.
  pub run-Refines :
      (w : World) (cs : List Call)
      → Inv w.db
      → Trace cs (view w.db) (view (run e driver sign w cs).db)
  unfolding run
  run-Refines w [] inv = refl
  run-Refines w (c ∷ cs) inv = (
    view (perform e driver sign c w).1.db,
    perform-Steps e driver sign w inv c,
    run-Refines (perform e driver sign c w).1 cs ((perform-Keeps e driver sign c).apply w inv),
  )
