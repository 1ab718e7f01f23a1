-- ===== src/FrontierRepo/Since.antt =====
-- A domain that was asked stays asked at that time or later, whatever calls follow.
use crawlerv.Prelude.{
  ℕ, ◌+◌, ◌<◌, ◌≤◌, ◌≡◌, refl, Bool, Option, none, some, List, [], ◌∷◌, Bytes, arith, All,
  All-append, Option-cases, inl, inr, ◌==◌,
}
use crawlerv.Store.Rows.{Frontier, Domain}
use crawlerv.Store.Sql.{first, All-update}
use crawlerv.Store.World.{Db, World, M, pure, ◌>>=◌, statement}
use crawlerv.Store.Laws.{
  Keeps, statement-Keeps, execute-Keeps, query-Keeps, pure-Keeps, fail-Keeps, >>=-Keeps,
  write_tx-Keeps, if-Keeps,
}
use crawlerv.FrontierRepo.Types.{Job, LeasedJob}
use crawlerv.FrontierRepo.Queue.{
  has_hash, first_or_create, enqueue, enqueue_each, enqueue_many, update_held, heartbeat, complete,
  find_row, record_failure, fail_lease, requeue_by_filter, sweep_expired,
}
use crawlerv.FrontierRepo.Pick.{Driver, Engine, Candidate}
use crawlerv.FrontierRepo.Picked.{pick-Keeps}
use crawlerv.FrontierRepo.Reserve.{Sign, take_lease, touch_domain, after_lease, lease_each, reserve}
use crawlerv.FrontierRepo.Domains.{
  has_host, update_host, upsert_by_host, update_crawl_delay, update_parallel_fetches, update_scheme,
  update_required_capability, update_embed_collection, set_active, create_domain, map_domain,
  new_domain,
}
use crawlerv.FrontierRepo.Calls.{Call, perform, run}

-- The domain `k` was asked at `from` or later.
abbrev pub WasAsked : ℕ → ℕ → Domain → Type 0
WasAsked k from x = x.id ≡ k → (t : ℕ) × (x.last_request_at ≡ some t) × (from ≤ t)

abbrev pub IsSince : ℕ → ℕ → Db → Type 0
IsSince k from d = All (WasAsked k from) d.domains × (k < d.next_domain_id)

-- A reservation that reads its clock at `from` or later, or any other call.
abbrev pub IsNotBefore : ℕ → Call → Type 0
IsNotBefore from (Call.reserves now db_now worker caps batch ttl) = from ≤ now
IsNotBefore from _ = Unit {0}

module _ (k from : ℕ) where
  create-IsSince :
      (m : Frontier) (d : Db) → IsSince k from d → IsSince k from (first_or_create m d).1
  unfolding first_or_create
  create-IsSince m d s = elim (Option-cases (first (has_hash m.url_hash) d.crawl_frontier)) [
    | inl e ↦ rw (e, first_or_create) s
    | inr (r, e) ↦ rw (e, first_or_create) s
  ]

  enqueue_each-Since :
      (now : ℕ) (js : List Job) (n : ℕ) → Keeps (IsSince k from) (enqueue_each now js n)
  unfolding enqueue_each
  enqueue_each-Since now [] n = pure-Keeps _
  enqueue_each-Since now (j ∷ js) n =
      >>=-Keeps (execute-Keeps _ (create-IsSince _)) (λ m. enqueue_each-Since now js _)

  enqueue_many-Since : (now : ℕ) (js : List Job) → Keeps (IsSince k from) (enqueue_many now js)
  unfolding enqueue_many
  enqueue_many-Since now [] = pure-Keeps _
  enqueue_many-Since now (j ∷ js) = write_tx-Keeps (enqueue_each-Since now (j ∷ js) 0)

  held-Since :
      (test : Frontier → Bool) (set : Frontier → Frontier)
      → Keeps (IsSince k from) (statement (update_held test set))
  unfolding update_held
  held-Since test set = statement-Keeps _ (λ d s. ground (arith, s))

  find_row-Since : (h : Bytes) → Keeps (IsSince k from) (find_row h)
  unfolding find_row
  find_row-Since h = statement-Keeps _ (λ d s. ground (arith, s))

  host-Since :
      (host : Bytes) (set : Domain → Domain)
      → ((x : Domain) → WasAsked k from x → WasAsked k from (set x))
      → Keeps (IsSince k from) (update_host host set)
  unfolding update_host
  host-Since host set keep = statement-Keeps _ (λ d s. ground (
    arith,
    s,
    All-update (WasAsked k from) (has_host host) set (λ x _ h. keep x h) d.domains s.0,
  ))

  create_domain-Since :
      (now : ℕ) (host scheme : Bytes) (ms : ℕ)
      → Keeps (IsSince k from) (create_domain (new_domain now host scheme ms))
  unfolding create_domain new_domain
  create_domain-Since now host scheme ms = execute-Keeps _ (λ d s. (
    All-append (WasAsked k from) d.domains _ s.0 ((λ e. ground (arith, e, s.1)), tt),
    ground (arith, s.1),
  ))

  upsert-Since :
      (now : ℕ) (host scheme : Bytes) (ms : ℕ)
      → Keeps (IsSince k from) (upsert_by_host now host scheme ms)
  unfolding upsert_by_host
  upsert-Since now host scheme ms = >>=-Keeps (query-Keeps _) after
    where
      after :
          (found : Option Domain)
          → Keeps (IsSince k from) (elim found [
            | some d ↦ pure (map_domain d)
            | none ↦ (create_domain (new_domain now host scheme ms) >>= λ d. pure (map_domain d))
          ])
      after none = >>=-Keeps (create_domain-Since now host scheme ms) (λ d. pure-Keeps _)
      after (some d) = pure-Keeps _

  touch-Since : (now id : ℕ) → from ≤ now → Keeps (IsSince k from) (touch_domain now id)
  unfolding touch_domain
  touch-Since now id late = execute-Keeps _ (λ d s. (
    All-update (WasAsked k from) (λ (x : Domain). x.id == id) _ (λ x _ h e. (now, refl, late))
        d.domains s.0,
    s.1,
  ))

  module _ (sign : Sign) (worker now expires : ℕ) (late : from ≤ now) where
    after_lease-Since :
        (touched : List ℕ) (p : Candidate)
        → Keeps (IsSince k from) (after_lease sign worker now expires touched p)
    unfolding after_lease
    after_lease-Since touched p =
        >>=-Keeps (if-Keeps _ _ _ (pure-Keeps _) (touch-Since now p.domain_id late))
          (λ _. >>=-Keeps (find_row-Since p.url_hash) (λ m. pure-Keeps _))

    lease_each-Since :
        (ps : List Candidate) (touched : List ℕ) (out : List LeasedJob)
        → Keeps (IsSince k from) (lease_each sign worker now expires ps touched out)
    unfolding lease_each take_lease
    lease_each-Since [] touched out = pure-Keeps _
    lease_each-Since (p ∷ ps) touched out = >>=-Keeps (execute-Keeps _ (λ d s. s)) (λ n.
        if-Keeps _ _ _ (lease_each-Since ps touched out)
          (>>=-Keeps (after_lease-Since touched p) (λ lj. lease_each-Since ps _ _)))

  ignore-Since :
      {A : Type 0} (m : M A)
      → Keeps (IsSince k from) m
      → Keeps (IsSince k from) (m >>= λ _. pure tt)
  ignore-Since m h = >>=-Keeps h (λ _. pure-Keeps tt)

  module _ (e : Engine) (driver : Driver) (sign : Sign) where
    reserve-Since :
        (now db_now worker : ℕ) (caps : List Bytes) (batch ttl : ℕ)
        → from ≤ now
        → Keeps (IsSince k from) (reserve e driver sign now db_now worker caps batch ttl)
    unfolding reserve
    reserve-Since now db_now worker caps batch ttl late = if-Keeps _ _ _ (pure-Keeps _) (
        write_tx-Keeps (
          >>=-Keeps (pick-Keeps e driver now db_now caps batch)
            (λ ps. lease_each-Since sign worker now (now + ttl) late ps [] [])))

    perform-Since :
        (c : Call) → IsNotBefore from c → Keeps (IsSince k from) (perform e driver sign c)
    unfolding perform
    perform-Since (Call.enqueues now j) t =
        ignore-Since _
          (unfold enqueue in >>=-Keeps (execute-Keeps _ (create-IsSince _)) (λ n. pure-Keeps _))
    perform-Since (Call.enqueues_many now js) t = ignore-Since _ (enqueue_many-Since now js)
    perform-Since (Call.reserves now db_now worker caps batch ttl) t =
        ignore-Since _ (reserve-Since now db_now worker caps batch ttl t)
    perform-Since (Call.heartbeats now h u extend) t =
        ignore-Since _ (unfold heartbeat in >>=-Keeps (held-Since _ _) (λ n. pure-Keeps _))
    perform-Since (Call.completes now h u s) t = ignore-Since _ (unfold complete in held-Since _ _)
    perform-Since (Call.fails now h u f backoff) t = ignore-Since _ (
        unfold fail_lease in
        write_tx-Keeps (
          >>=-Keeps (find_row-Since h) (λ m.
            unfold record_failure in if-Keeps _ _ _ (execute-Keeps _ (λ d s. s)) (fail-Keeps _))))
    perform-Since (Call.requeues f) t =
        ignore-Since _
          (unfold requeue_by_filter in if-Keeps _ _ _ (execute-Keeps _ (λ d s. s)) (fail-Keeps _))
    perform-Since (Call.sweeps now) t =
        ignore-Since _ (unfold sweep_expired in execute-Keeps _ (λ d s. s))
    perform-Since (Call.upserts_host now host scheme ms) t =
        ignore-Since _ (upsert-Since now host scheme ms)
    perform-Since (Call.updates_crawl_delay host ms) t =
        ignore-Since _ (unfold update_crawl_delay in host-Since host _ (λ x h. h))
    perform-Since (Call.updates_parallel_fetches host n) t =
        ignore-Since _ (unfold update_parallel_fetches in host-Since host _ (λ x h. h))
    perform-Since (Call.updates_scheme host scheme) t =
        ignore-Since _ (unfold update_scheme in host-Since host _ (λ x h. h))
    perform-Since (Call.updates_required_capability host c) t =
        ignore-Since _ (unfold update_required_capability in host-Since host _ (λ x h. h))
    perform-Since (Call.updates_embed_collection host c) t =
        ignore-Since _ (unfold update_embed_collection in host-Since host _ (λ x h. h))
    perform-Since (Call.sets_active host b) t =
        ignore-Since _ (unfold set_active in host-Since host _ (λ x h. h))

    pub run-Since :
        (w : World) (cs : List Call)
        → All (IsNotBefore from) cs
        → IsSince k from w.db
        → IsSince k from (run e driver sign w cs).db
    unfolding run
    run-Since w [] ts s = s
    run-Since w (c ∷ cs) ts s =
        run-Since (perform e driver sign c w).1 cs ts.1 ((perform-Since c ts.0).apply w s)
