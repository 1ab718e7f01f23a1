-- ===== src/FrontierRepo/Refined.antt =====
-- Leases and failures as moves, and a whole history as a trace of the crawl queue's life cycle.
use mathlib.Core.List.{Memᴰ}
use crawlerv.Prelude.{
  ℕ, ◌+◌, ◌≡◌, refl, sym, true, false, List, [], ◌∷◌, Bytes, bytes_eq, arith, All, All-imp,
  contains,
}
use crawlerv.Store.Rows.{Frontier, Domain}
use crawlerv.Store.World.{Db}
use crawlerv.Store.Laws.{
  Keeps, statement-Keeps, execute-Keeps, pure-Keeps, fail-Keeps, >>=-Keeps, write_tx-Keeps,
  if-Keeps,
}
use crawlerv.FrontierRepo.Types.{LeasedJob, RequeueFilter}
use crawlerv.FrontierRepo.Queue.{
  update_held, heartbeat, find_row, requeue_by_filter, holds, extended, requeued, filter_matches,
  has_hash,
}
use crawlerv.FrontierRepo.Pick.{Driver, Engine, Candidate}
use crawlerv.FrontierRepo.Reserve.{
  Sign, is_free, leased_row, take_lease, touch_domain, after_lease, lease_each, reserve,
}
use crawlerv.FrontierRepo.Picked.{pick-Keeps}
use crawlerv.FrontierRepo.Invariant.{Distinct, hashes, bytes_eq_comm}
use crawlerv.FrontierRepo.Preservation.{extend-keeps}
use crawlerv.FrontierRepo.Taken.{All-at}
use crawlerv.FrontierRepo.Calls.{Call}
use crawlerv.FrontierRepo.Lifecycle.{Url}
use crawlerv.FrontierRepo.Moved.{IsReached, rows-IsReached, same-IsReached}
use crawlerv.FrontierRepo.Refines.{life_waiting}

module _ (us : List Url) where
  pub heartbeats-reach :
      (now : ℕ) (h t : Bytes) (extend : ℕ)
      → Keeps (IsReached (Call.heartbeats now h t extend) us) (heartbeat now h t extend)
  unfolding heartbeat update_held
  heartbeats-reach now h t extend =
      >>=-Keeps
        (statement-Keeps _ (λ d s. ground (
          arith,
          s,
          same-IsReached (Call.heartbeats now h t extend) us (holds h t) (extended (now + extend))
              (λ r. refl) (extend-keeps h t (now + extend)) d s,
        )))
        (λ n. pure-Keeps _)

  pub requeues-reach :
      (f : RequeueFilter) → Keeps (IsReached (Call.requeues f) us) (requeue_by_filter f)
  unfolding requeue_by_filter
  requeues-reach f =
      if-Keeps _ _ _
        (execute-Keeps _ (
          rows-IsReached (Call.requeues f) us (filter_matches f) requeued
            (λ r e c. record { hash = refl; move = refl }) (λ r. refl) (λ r _ c. ground arith)))
        (fail-Keeps _)

  module _ (sign : Sign) (now db_now worker : ℕ) (caps : List Bytes) (batch ttl : ℕ) where
    abbrev pub Reached : Db → Type 0
    Reached = IsReached (Call.reserves now db_now worker caps batch ttl) us

    take_lease-reach :
        (raw h : Bytes) (expires : ℕ) → Keeps Reached (take_lease worker raw expires h)
    unfolding take_lease is_free
    take_lease-reach raw h expires = execute-Keeps _ (
        rows-IsReached _ us (is_free h) (leased_row worker raw expires)
          (λ r e c. record {
            hash = refl;
            move = (life_waiting r.status _ _ (ground arith), (raw, refl));
          })
          (λ r. refl) (λ r e c. ground arith))

    touched-reach : (d : Db) (ds : List Domain) → Reached d → Reached (record d { domains = ds })
    touched-reach d ds s = record { sound = s.sound; steps = s.steps }

    after_lease-reach :
        (expires : ℕ) (touched : List ℕ) (p : Candidate)
        → Keeps Reached (after_lease sign worker now expires touched p)
    unfolding after_lease touch_domain find_row
    after_lease-reach expires touched p =
        >>=-Keeps (if-Keeps _ _ _ (pure-Keeps _) (execute-Keeps _ (λ d s. touched-reach d _ s)))
          (λ _. >>=-Keeps (statement-Keeps _ (λ d s. ground (arith, s))) (λ m. pure-Keeps _))

    lease_each-reach :
        (expires : ℕ) (ps : List Candidate) (touched : List ℕ) (out : List LeasedJob)
        → Keeps Reached (lease_each sign worker now expires ps touched out)
    unfolding lease_each
    lease_each-reach expires [] touched out = pure-Keeps _
    lease_each-reach expires (p ∷ ps) touched out = >>=-Keeps (take_lease-reach _ _ expires) (λ n.
        if-Keeps _ _ _ (lease_each-reach expires ps touched out)
          (>>=-Keeps (after_lease-reach expires touched p) (λ lj. lease_each-reach expires ps _ _)))

    pub reserves-reach :
        (e : Engine) (driver : Driver)
        → Keeps Reached (reserve e driver sign now db_now worker caps batch ttl)
    unfolding reserve
    reserves-reach e driver = if-Keeps _ _ _ (pure-Keeps _) (
        write_tx-Keeps (
          >>=-Keeps (pick-Keeps e driver now db_now caps batch)
            (λ ps. lease_each-reach (now + ttl) ps [] [])))

absent :
    (rows : List Frontier) (k : Bytes)
    → contains (hashes rows) k ≡ false
    → All (λ r. bytes_eq r.url_hash k ≡ false) rows
unfolding contains
absent [] k h = tt
absent (r ∷ rows) k h = (ground arith, absent rows k (ground arith))

-- The primary key: a row with the hash of a row of the table is that row.
pub only_row :
    (rows : List Frontier) (m : Frontier)
    → Distinct (hashes rows)
    → Memᴰ m rows
    → All (λ r. has_hash m.url_hash r ≡ true → r ≡ m) rows
only_row [] m d i = tt
only_row (r ∷ rows) m d (Memᴰ.head e) = (
  (λ _. sym e),
  All-imp (λ x. bytes_eq x.url_hash r.url_hash ≡ false) _ (λ x n y. ground (arith, n, y, e)) rows
      (absent rows r.url_hash d.0),
)
only_row (r ∷ rows) m d (Memᴰ.tail i) = (
  (λ y.
      let n =
        All-at (λ (x : Frontier). bytes_eq x.url_hash r.url_hash ≡ false) i
          (absent rows r.url_hash d.0) in
      ground (arith, n, y, bytes_eq_comm r.url_hash m.url_hash)),
  only_row rows m d.1 i,
)
