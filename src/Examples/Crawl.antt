-- ===== src/Examples/Crawl.antt =====
-- The crawl queue at concrete inputs.
use crawlerv.Prelude.{
  codes, ◌+◌, ◌/◌, ◌≤◌, ◌↔◌, ◌≡◌, refl, true, false, none, some, List, [], ◌∷◌, All, length, arith,
  inl, bytes_eq,
}
use mathlib.Core.List.{Memᴰ}
use crawlerv.Store.Rows.{Domain, Frontier}
use crawlerv.Store.Sql.{count, update}
use crawlerv.Store.World.{Db, World, Result, ok, err, driver}
use crawlerv.FrontierRepo.Types.{LeasedJob, RequeueFilter}
use crawlerv.FrontierRepo.Queue.{
  has_hash, set_frontier, complete, completed, heartbeat, extended, fail_lease, failed_row,
  sweep_expired, requeue_by_filter, requeued, is_expired,
}
use crawlerv.FrontierRepo.Pick.{sqlite, is_polite}
use crawlerv.FrontierRepo.Reserve.{reserve}
use crawlerv.FrontierRepo.Calls.{Call, perform, run}
use crawlerv.FrontierRepo.Invariant.{Inv}
use crawlerv.FrontierRepo.Atomic.{failed_call_keeps}
use crawlerv.FrontierRepo.Preservation.{run-Inv}
use crawlerv.FrontierRepo.Lifecycle.{view, Trace}
use crawlerv.FrontierRepo.Refinement.{run-Refines}
use crawlerv.FrontierRepo.Reserved.{reserve_eligible, reserve_per_domain, IsEligibleJob}
use crawlerv.FrontierRepo.Taken.{job_of}
use crawlerv.FrontierRepo.Held.{reserve_holds, IsHeld}
use crawlerv.FrontierRepo.Politeness.{jobs-IsSpaced, IsSpaced, sqlite_whole_seconds}
use crawlerv.FrontierRepo.Leases.{IsHolder, complete_effect, heartbeat_effect}
use crawlerv.FrontierRepo.Failing.{fail_lease_effect, Outcome}
use crawlerv.FrontierRepo.Revoked.{Refused, spent-Refused, sweep-Refused}
use crawlerv.FrontierRepo.Operator.{heartbeat_shortens}
use crawlerv.FrontierRepo.Requeued.{Requeued, requeue_effect}
use crawlerv.Examples.Fixtures.{
  site, taken, crawl_db, steady, engine, sign, failure, value, crawl_db-Inv,
}

history : List Call
history =
    Call.reserves 10 10 9 [] 5 60
    ∷ Call.fails 20 (10 ∷ []) (2 ∷ 10 ∷ []) failure 30
    ∷ Call.sweeps 200
    ∷ Call.reserves 3000000 3000000 4 [] 5 60
    ∷ []

run-Inv_example : Inv (run engine sqlite sign (steady crawl_db) history).db
run-Inv_example = run-Inv engine sqlite sign (steady crawl_db) history crawl_db-Inv

run-Refines_example :
    Trace history (view crawl_db) (view (run engine sqlite sign (steady crawl_db) history).db)
run-Refines_example = run-Refines engine sqlite sign (steady crawl_db) history crawl_db-Inv

-- The third statement of the transaction fails.
lost : World
lost = record { db = crawl_db; faults = false ∷ false ∷ true ∷ [] }

failed_call_keeps_example :
    (perform engine sqlite sign (Call.reserves 10 10 9 [] 5 60) lost).1.db ≡ crawl_db
unfolding perform lost crawlerv.Store.World.◌>>=◌ reserve crawlerv.Store.World.write_tx
    crawlerv.FrontierRepo.Reserve.pick crawlerv.Store.World.statement crawlerv.Store.World.query
    crawlerv.FrontierRepo.Pick.is_eligible is_polite crawlerv.FrontierRepo.Pick.is_capable count
    crawlerv.Store.World.execute
failed_call_keeps_example =
    failed_call_keeps engine sqlite sign (Call.reserves 10 10 9 [] 5 60) lost driver refl

first_run : Result (List LeasedJob) × World
unfolding reserve
first_run = reserve engine sqlite sign 10 10 9 [] 5 60 (steady crawl_db)

reserve_eligible_example :
    (length (value [] first_run.0) ≤ 5)
    × All (IsEligibleJob engine sqlite sign 10 10 9 [] 5 60 crawl_db) (value [] first_run.0)
unfolding first_run reserve crawlerv.Store.World.write_tx crawlerv.Store.World.◌>>=◌
    crawlerv.FrontierRepo.Reserve.pick crawlerv.Store.World.statement crawlerv.Store.World.query
    crawlerv.FrontierRepo.Pick.is_eligible is_polite crawlerv.FrontierRepo.Pick.is_capable count
    crawlerv.Store.World.execute crawlerv.FrontierRepo.Reserve.is_free bytes_eq
    crawlerv.Store.Sql.first update crawlerv.Store.World.pure
reserve_eligible_example =
    reserve_eligible engine sqlite sign 10 10 9 [] 5 60 (steady crawl_db) crawl_db-Inv (omega arith)
      refl

reserve_per_domain_example : count (job_of 1) (value [] first_run.0) ≤ 1
unfolding first_run reserve crawlerv.Store.World.write_tx crawlerv.Store.World.◌>>=◌
    crawlerv.FrontierRepo.Reserve.pick crawlerv.Store.World.statement crawlerv.Store.World.query
    crawlerv.FrontierRepo.Pick.is_eligible is_polite crawlerv.FrontierRepo.Pick.is_capable count
    crawlerv.Store.World.execute crawlerv.FrontierRepo.Reserve.is_free bytes_eq
    crawlerv.Store.Sql.first update crawlerv.Store.World.pure
reserve_per_domain_example =
    reserve_per_domain engine sqlite sign 10 10 9 [] 5 60 (steady crawl_db) 1 1 crawl_db-Inv
      (omega arith) ((λ _. refl), tt) refl

reserve_holds_example :
    All (IsHeld sign 9 10 70 first_run.1.db.crawl_frontier) (value [] first_run.0)
unfolding first_run reserve crawlerv.Store.World.write_tx crawlerv.Store.World.◌>>=◌
    crawlerv.FrontierRepo.Reserve.pick crawlerv.Store.World.statement crawlerv.Store.World.query
    crawlerv.FrontierRepo.Pick.is_eligible is_polite crawlerv.FrontierRepo.Pick.is_capable count
    crawlerv.Store.World.execute crawlerv.FrontierRepo.Reserve.is_free bytes_eq
    crawlerv.Store.Sql.first update crawlerv.Store.World.pure
reserve_holds_example =
    reserve_holds engine sqlite sign 10 10 9 [] 5 60 (steady crawl_db) crawl_db-Inv (omega arith)
      refl

-- The calls between the two.
between : List Call
between =
    Call.completes 20 (10 ∷ []) (2 ∷ 10 ∷ []) 200
    ∷ Call.sweeps 30
    ∷ Call.updates_crawl_delay (codes "a.lt") 1500
    ∷ []

later_run : Result (List LeasedJob) × World
unfolding first_run
later_run =
    reserve engine sqlite sign 2000010 2000010 4 [] 5 60
      (run engine sqlite sign first_run.1 between)

jobs-IsSpaced_example :
    IsSpaced sqlite (run engine sqlite sign first_run.1 between).db.domains 1 10 2000010
unfolding first_run later_run between reserve crawlerv.Store.World.write_tx
    crawlerv.Store.World.◌>>=◌ crawlerv.FrontierRepo.Reserve.pick crawlerv.Store.World.statement
    crawlerv.Store.World.query crawlerv.FrontierRepo.Pick.is_eligible is_polite
    crawlerv.FrontierRepo.Pick.is_capable count crawlerv.Store.World.execute
    crawlerv.FrontierRepo.Reserve.is_free bytes_eq crawlerv.Store.Sql.first update
    crawlerv.Store.World.pure run crawlerv.FrontierRepo.Domains.update_crawl_delay sweep_expired
    complete crawlerv.FrontierRepo.Queue.update_held crawlerv.FrontierRepo.Queue.holds is_expired
jobs-IsSpaced_example =
    jobs-IsSpaced engine sqlite sign 10 10 9 [] 5 60 (steady crawl_db) {out = value [] first_run.0}
      {w' = first_run.1} between 2000010 2000010 4 [] 5 60 {out2 = value [] later_run.0}
      {u' = later_run.1} _ _ crawl_db-Inv (omega arith) refl (omega arith) (tt, (tt, (tt, tt)))
      (omega arith) refl (Memᴰ.head refl) (Memᴰ.head refl) refl

site_asked : Domain
site_asked = record site { last_request_at = some 4999999 }

sqlite_whole_seconds_example :
    (is_polite sqlite 5000000 site_asked ≡ true)
    ↔ (4999999 / 1000000 + (site_asked.crawl_delay_ms + 999) / 1000 ≤ 5000000 / 1000000)
unfolding site_asked
sqlite_whole_seconds_example = sqlite_whole_seconds 4999999 5000000 site_asked refl

done_db : Db
done_db =
    set_frontier (update (has_hash (30 ∷ [])) (completed 50 200) crawl_db.crawl_frontier) crawl_db

complete_effect_example :
    (r : Frontier) × IsHolder crawl_db.crawl_frontier (30 ∷ []) (7 ∷ []) r
    × (done_db
        ≡ set_frontier
            (update (has_hash (30 ∷ [])) (completed 50 200) crawl_db.crawl_frontier)
            crawl_db)
unfolding done_db complete crawlerv.Store.World.statement crawlerv.FrontierRepo.Queue.update_held
    count crawlerv.FrontierRepo.Queue.holds bytes_eq update
complete_effect_example =
    complete_effect 50 (30 ∷ []) (7 ∷ []) 200 (steady crawl_db) {w' = steady done_db} crawl_db-Inv
      refl

beaten_db : Db
beaten_db =
    set_frontier (update (has_hash (30 ∷ [])) (extended 60) crawl_db.crawl_frontier) crawl_db

heartbeat_effect_example :
    (r : Frontier) × IsHolder crawl_db.crawl_frontier (30 ∷ []) (7 ∷ []) r
    × (60 ≡ 50 + 10)
    × (beaten_db
        ≡ set_frontier (update (has_hash (30 ∷ [])) (extended 60) crawl_db.crawl_frontier) crawl_db)
unfolding beaten_db heartbeat crawlerv.Store.World.◌>>=◌ crawlerv.Store.World.statement
    crawlerv.FrontierRepo.Queue.update_held count crawlerv.FrontierRepo.Queue.holds bytes_eq
    crawlerv.Store.World.pure update
heartbeat_effect_example =
    heartbeat_effect 50 (30 ∷ []) (7 ∷ []) 10 (steady crawl_db) {expiry = 60}
      {w' = steady beaten_db} crawl_db-Inv refl

failed_db : Db
failed_db =
    set_frontier
      (update (has_hash (30 ∷ [])) (failed_row 50 30 failure taken) crawl_db.crawl_frontier)
      crawl_db

fail_lease_effect_example :
    (r : Frontier) × IsHolder crawl_db.crawl_frontier (30 ∷ []) (7 ∷ []) r
    × (failed_db
        ≡ set_frontier
            (update (has_hash (30 ∷ [])) (failed_row 50 30 failure r) crawl_db.crawl_frontier)
            crawl_db)
    × Outcome 50 30 failure r (failed_row 50 30 failure r r)
unfolding failed_db fail_lease crawlerv.Store.World.write_tx crawlerv.Store.World.◌>>=◌
    crawlerv.Store.World.query crawlerv.Store.Sql.first bytes_eq crawlerv.Store.World.execute
    crawlerv.Store.World.pure
fail_lease_effect_example =
    fail_lease_effect 50 (30 ∷ []) (7 ∷ []) failure 30 (steady crawl_db) {w' = steady failed_db}
      crawl_db-Inv refl

spent-Refused_example : Refused (30 ∷ []) (7 ∷ []) 60 10 200 30 failure (steady done_db)
unfolding done_db complete crawlerv.Store.World.statement crawlerv.FrontierRepo.Queue.update_held
    count crawlerv.FrontierRepo.Queue.holds bytes_eq update
spent-Refused_example =
    spent-Refused (30 ∷ []) (7 ∷ []) 50 30 200 failure (steady crawl_db) {w' = steady done_db} 60 10
      200 30 failure (steady done_db) crawl_db-Inv (inl refl) refl

holder : IsHolder crawl_db.crawl_frontier (30 ∷ []) (7 ∷ []) taken
holder = record {
  in_queue = Memᴰ.tail (Memᴰ.tail (Memᴰ.head refl));
  url = refl;
  status = refl;
  token = refl;
}

swept : World
unfolding sweep_expired
swept = (sweep_expired 200 (steady crawl_db)).1

sweep-Refused_example : Refused (30 ∷ []) (7 ∷ []) 210 10 200 30 failure swept
unfolding swept sweep_expired crawlerv.Store.World.execute
sweep-Refused_example =
    sweep-Refused (30 ∷ []) (7 ∷ []) 200 taken (steady crawl_db) 210 10 200 30 failure swept
      crawl_db-Inv holder refl refl refl

swept_early : World
unfolding sweep_expired beaten_db
swept_early = (sweep_expired 65 (steady beaten_db)).1

heartbeat_shortens_example :
    (is_expired 65 taken ≡ false) × Refused (30 ∷ []) (7 ∷ []) 66 10 200 30 failure swept_early
unfolding swept_early beaten_db heartbeat sweep_expired crawlerv.Store.World.◌>>=◌
    crawlerv.Store.World.statement crawlerv.FrontierRepo.Queue.update_held count
    crawlerv.FrontierRepo.Queue.holds bytes_eq crawlerv.Store.World.pure update
    crawlerv.Store.World.execute
heartbeat_shortens_example =
    heartbeat_shortens (30 ∷ []) (7 ∷ []) 50 10 100 65 taken (steady crawl_db)
      {w' = steady beaten_db} 66 10 200 30 failure swept_early crawl_db-Inv holder refl
      (omega arith) (omega arith) refl refl refl

whole_site : RequeueFilter
whole_site = record { status = none; worker_id = 0; domain_id = 1 }

requeue_effect_example :
    Requeued whole_site crawl_db.crawl_frontier
      (requeue_by_filter whole_site (steady crawl_db)).1.db.crawl_frontier
unfolding whole_site requeue_by_filter crawlerv.Store.World.execute
requeue_effect_example = requeue_effect whole_site (steady crawl_db) refl
