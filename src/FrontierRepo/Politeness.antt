-- ===== src/FrontierRepo/Politeness.antt =====
-- What the politeness condition of `Reserve` gives over a history of calls, and on SQLite.
use crawlerv.Prelude.{
  ◌⊎◌, inl, inr, ℕ, ◌+◌, ◌*◌, ◌<◌, ◌≤◌, ◌≡◌, sym, subst, ap, ◌∙◌, true, none, some, ◌/◌, ◌↔◌, List,
  [], Bytes, arith, All, All-imp,
}
use mathlib.Core.List.{Memᴰ}
use crawlerv.Store.Rows.{Domain}
use crawlerv.Store.World.{Db, Result, ok, World}
use crawlerv.FrontierRepo.Types.{LeasedJob}
use crawlerv.FrontierRepo.Pick.{Driver, sqlite, elapsed, is_polite, Engine, picks}
use crawlerv.FrontierRepo.Wanted.{IsOver}
use crawlerv.FrontierRepo.Reserve.{Sign, reserve}
use crawlerv.FrontierRepo.Calls.{Call, run}
use crawlerv.FrontierRepo.Invariant.{Inv}
use crawlerv.FrontierRepo.Preservation.{run-Inv, reserve-Keeps}
use crawlerv.FrontierRepo.Taken.{SameDomain, All-at}
use crawlerv.FrontierRepo.Reserved.{reserve-ok, reserve_eligible, picks-SameDomain, IsEligibleJob}
use crawlerv.FrontierRepo.Since.{WasAsked, IsSince, IsNotBefore, run-Since}
use crawlerv.FrontierRepo.Spaced.{IsTouched, JobTouched, lease_each-Touched}

-- After a reservation, the domain of every job that it handed out was asked at its time.
pub reserve_touches :
    (e : Engine) (driver : Driver) (sign : Sign) (now db_now worker : ℕ) (caps : List Bytes)
    (batch ttl : ℕ) (w : World) {out : List LeasedJob} {w' : World}
    → Inv w.db
    → 0 < batch
    → reserve e driver sign now db_now worker caps batch ttl w ≡ (ok out, w')
    → All (JobTouched sign worker now (now + ttl) w'.db.domains) out
reserve_touches e driver sign now db_now worker caps batch ttl w {out} {w'} inv pos r =
    let (v, v', start, looped, end) =
      reserve-ok e driver sign now db_now worker caps batch ttl w pos r in
    subst (λ (d : Db). All (JobTouched sign worker now (now + ttl) d.domains) out) end
      (lease_each-Touched sign worker now (now + ttl) _ [] [] v
        (subst
          (λ (d : Db).
            All (SameDomain d.crawl_frontier) (picks e driver now db_now caps batch w.db))
          (sym start) (picks-SameDomain e driver sign now db_now worker caps batch ttl w.db inv))
        tt tt looped)

-- The delay of a domain has passed between two times, by a database clock: exactly, but on SQLite
-- up to a second.
pub record IsSpaced (driver : Driver) (ds : List Domain) (k first second : ℕ) : Type 0 where
  pub domain : Domain
  pub in_domains : Memᴰ domain ds
  pub id : domain.id ≡ k
  pub over : IsOver driver first second domain.crawl_delay_ms

-- A domain asked at `from` or later, and polite to ask by the database's clock.
wanted-IsSpaced :
    (driver : Driver) (ds : List Domain) (k from db_now : ℕ) (d : Domain)
    → Memᴰ d ds
    → d.id ≡ k
    → WasAsked k from d
    → (d.last_request_at ≡ none)
      ⊎ ((t : ℕ) × (d.last_request_at ≡ some t) × IsOver driver t db_now d.crawl_delay_ms)
    → IsSpaced driver ds k from db_now
wanted-IsSpaced driver ds k from db_now d m i w (inl never) =
    let (t, at, le) = w i in ground (arith, never, at)
wanted-IsSpaced driver ds k from db_now d m i w (inr (t, at, over)) =
    let (t', at', le) = w i in
    let same : t' ≡ t = ground (arith, at, at') in
    record {
      domain = d;
      in_domains = m;
      id = i;
      over = record {
        roughly = omega (arith, over.roughly, le, same);
        exactly = later over.exactly (ground (arith, le, same));
      };
    }
  where
    later :
        (driver ≡ sqlite) ⊎ (t + d.crawl_delay_ms * 1000 ≤ db_now)
        → from ≤ t
        → (driver ≡ sqlite) ⊎ (from + d.crawl_delay_ms * 1000 ≤ db_now)
    later (inl e) l = inl e
    later (inr h) l = inr (omega (arith, h, l))

module _ (e : Engine) (driver : Driver) (sign : Sign) where
  asked-IsSince :
      (now : ℕ) (w' : World) (k : ℕ)
      → IsTouched now w'.db.domains k
      → k < w'.db.next_domain_id
      → IsSince k now w'.db
  asked-IsSince now w' k t known = (
    All-imp (λ (d : Domain). d.id ≡ k → d.last_request_at ≡ some now) (WasAsked k now)
        (λ d h i. (now, h i, omega arith)) w'.db.domains t,
    known,
  )

  -- Let a reservation that reads the clock at `now` hand out a job of a domain, whose id is below the
  -- counter of the ids. After any further calls, one after another and with any failures, whose
  -- reservations read the clock at `now` or later, a reservation that hands out a job of the same
  -- domain finds the crawl delay, as the domain's row then has it, over on the database's clock,
  -- counted from `now`: exactly on MySQL, and up to a second on SQLite.
  pub jobs-IsSpaced :
      (now db_now worker : ℕ) (caps : List Bytes) (batch ttl : ℕ) (w : World) {out : List LeasedJob}
      {w' : World} (cs : List Call) (now2 db_now2 worker2 : ℕ) (caps2 : List Bytes)
      (batch2 ttl2 : ℕ) {out2 : List LeasedJob} {u' : World} (a b : LeasedJob)
      → Inv w.db
      → 0 < batch
      → reserve e driver sign now db_now worker caps batch ttl w ≡ (ok out, w')
      → a.job.domain_id < w'.db.next_domain_id
      → All (IsNotBefore now) cs
      → 0 < batch2
      → reserve e driver sign now2 db_now2 worker2 caps2 batch2 ttl2 (run e driver sign w' cs)
        ≡ (ok out2, u')
      → Memᴰ a out
      → Memᴰ b out2
      → a.job.domain_id ≡ b.job.domain_id
      → IsSpaced driver (run e driver sign w' cs).db.domains b.job.domain_id now db_now2
  jobs-IsSpaced now db_now worker caps batch ttl w {out} {w'} cs now2 db_now2 worker2 caps2 batch2
        ttl2 {out2} {u'} a b inv pos r known late pos2 r2 ma mb eq =
      let touched = reserve_touches e driver sign now db_now worker caps batch ttl w inv pos r in
      let inv' =
        subst (λ (z : World). Inv z.db) (ap (λ (p : Result (List LeasedJob) × World). p.1) r)
          ((reserve-Keeps e driver sign now db_now worker caps batch ttl).apply w inv) in
      let since = run-Since a.job.domain_id now e driver sign w' cs late (
        asked-IsSince now w' a.job.domain_id
          (All-at (JobTouched sign worker now (now + ttl) w'.db.domains) ma touched) known) in
      let eligible =
        reserve_eligible e driver sign now2 db_now2 worker2 caps2 batch2 ttl2
          (run e driver sign w' cs) (run-Inv e driver sign w' cs inv') pos2 r2 in
      let o =
        All-at
          (IsEligibleJob e driver sign now2 db_now2 worker2 caps2 batch2 ttl2
            (run e driver sign w' cs).db)
          mb eligible.1 in
      let asked = All-at (WasAsked a.job.domain_id now) o.in_domains since.0 in
      wanted-IsSpaced driver (run e driver sign w' cs).db.domains b.job.domain_id now db_now2
        o.domain o.in_domains (o.wanted.joined ∙ sym o.same_domain)
        (subst (λ k. WasAsked k now o.domain) eq asked) o.wanted.polite

-- On SQLite, which compares whole seconds, a domain that was asked may be asked again exactly when the
-- database's clock shows a second that is at least the delay, rounded up to whole seconds, after the
-- second of the last request: for a delay of up to a second, as soon as the second has turned.
pub sqlite_whole_seconds :
    (last db_now : ℕ) (d : Domain)
    → d.last_request_at ≡ some last
    → (is_polite sqlite db_now d ≡ true)
      ↔ (last / 1000000 + (d.crawl_delay_ms + 999) / 1000 ≤ db_now / 1000000)
unfolding is_polite elapsed
sqlite_whole_seconds last db_now d l = ((λ h. ground (arith, h, l)), (λ h. ground (arith, h, l)))
