-- ===== src/Services/Scope/Links.antt =====
-- Which links become rows of the queue while new hosts are not admitted.
use crawlerv.Prelude.{
  ℕ, ◌≡◌, refl, sym, subst, ◌∙◌, true, false, Option, none, some, List, [], ◌∷◌, ◌++◌, Bytes, arith,
  All, All-append, Bool-cases, Option-cases, inl, inr,
}
use crawlerv.Store.Rows.{Domain, Frontier}
use crawlerv.Store.Sql.{first}
use crawlerv.Store.World.{Db, ok, World, M, pure, ◌>>=◌}
use crawlerv.Store.Laws.{Keeps, execute-Keeps, pure-Keeps, >>=-Keeps, write_tx-Keeps}
use crawlerv.FrontierRepo.Types.{Job}
use crawlerv.FrontierRepo.Queue.{has_hash, new_row, first_or_create, enqueue_each, enqueue_many}
use crawlerv.FrontierRepo.Domains.{map_domain, has_host}
use crawlerv.Urls.{Url}
use crawlerv.Services.Crawl.{
  Service, DiscoveredLink, too_deep, located, link_job, active_job, job_of, jobs_of,
  enqueue_discovered,
}
use crawlerv.Services.Scope.Hosts.{
  is_in_scope, RowsInScope, JobsInScope, count_active, answered, as_list, IsFound, found,
}

module _ (s : Service) (closed : s.allow_auto_domains ≡ false) where
  -- A link's job, if any, is in scope, and the tables are as they were.
  record IsScoped (m : M (List Job)) (w : World) : Type 0 where
    pub jobs : List Job
    pub after : World
    pub runs : m w ≡ (ok jobs, after)
    pub same : after.db ≡ w.db
    pub scoped : JobsInScope s w.db.domains jobs

  active-scoped :
      (parent : Bytes) (l : DiscoveredLink) (canon h : Bytes) (ds : List Domain) (x : Domain)
      → too_deep s l ≡ false
      → first (has_host h) ds ≡ some x
      → JobsInScope s ds (active_job s parent l canon (some (map_domain x)))
  unfolding active_job link_job map_domain is_in_scope too_deep
  active-scoped parent l canon h ds x shallow e = elim (Bool-cases x.is_active) [
    | inl y ↦ rw y (ground (arith, shallow, count_active h ds x e y), tt)
    | inr n ↦ rw n tt
  ]

  answered_scoped :
      (parent : Bytes) (l : DiscoveredLink) (canon h : Bytes) (ds : List Domain) (o : Option Domain)
      → too_deep s l ≡ false
      → All (λ x. first (has_host h) ds ≡ some x) (as_list o)
      → JobsInScope s ds (active_job s parent l canon (answered o))
  unfolding active_job
  answered_scoped parent l canon h ds none shallow e = tt
  answered_scoped parent l canon h ds (some x) shallow e =
      active-scoped parent l canon h ds x shallow e.0

  located_job :
      (now : ℕ) (parent : Bytes) (l : DiscoveredLink) (w : World)
      (o : Option (Bytes × Url s.net.Rest))
      → too_deep s l ≡ false
      → located s l ≡ o
      → IsScoped (job_of s now parent l) w
  unfolding job_of pure ◌>>=◌ active_job
  located_job now parent l w none shallow e = record {
    jobs = [];
    after = w;
    runs = rw (shallow, e) refl;
    same = refl;
    scoped = tt;
  }
  located_job now parent l w (some (canon, u)) shallow e = by_domain (found s closed now u w)
    where
      by_domain : IsFound s now u w → IsScoped (job_of s now parent l) w
      by_domain r = record {
        jobs = active_job s parent l canon (answered r.domain);
        after = r.after;
        runs = rw (shallow, e, r.runs) refl;
        same = r.same;
        scoped = answered_scoped parent l canon u.host w.db.domains r.domain shallow r.listed;
      }

  job-IsScoped :
      (now : ℕ) (parent : Bytes) (l : DiscoveredLink) (w : World)
      → IsScoped (job_of s now parent l) w
  unfolding job_of pure
  job-IsScoped now parent l w = elim (Bool-cases (too_deep s l)) [
    | inl y ↦ record { jobs = []; after = w; runs = rw y refl; same = refl; scoped = tt }
    | inr n ↦ located_job now parent l w _ n refl
  ]

  jobs-IsScoped :
      (now : ℕ) (parent : Bytes) (ls : List DiscoveredLink) (w : World)
      → IsScoped (jobs_of s now parent ls) w
  unfolding jobs_of pure ◌>>=◌
  jobs-IsScoped now parent [] w = record {
    jobs = [];
    after = w;
    runs = refl;
    same = refl;
    scoped = tt;
  }
  jobs-IsScoped now parent (l ∷ ls) w =
      let one = job-IsScoped now parent l w in
      let rest = jobs-IsScoped now parent ls one.after in
      record {
        jobs = one.jobs ++ rest.jobs;
        after = rest.after;
        runs = rw (one.runs, rest.runs) refl;
        same = rest.same ∙ one.same;
        scoped =
            All-append _ one.jobs rest.jobs one.scoped
              (subst (λ (d : Db). JobsInScope s d.domains rest.jobs) one.same rest.scoped);
      }

abbrev Scoped : Service → List Domain → Db → Type 0
Scoped s ds d =
    (d.domains ≡ ds) × All (λ r. is_in_scope s ds r.depth r.domain_id ≡ true) d.crawl_frontier

create-Scoped :
    (s : Service) (ds : List Domain) (now : ℕ) (j : Job) (d : Db)
    → is_in_scope s ds j.depth j.domain_id ≡ true
    → Scoped s ds d
    → Scoped s ds (first_or_create (new_row now j) d).1
unfolding first_or_create new_row
create-Scoped s ds now j d q h =
    elim (Option-cases (first (has_hash j.url_hash) d.crawl_frontier)) [
      | inl n ↦ rw (n, first_or_create) (h.0, All-append _ d.crawl_frontier _ h.1 (q, tt))
      | inr (r, y) ↦ rw (y, first_or_create) h
    ]

each-Scoped :
    (s : Service) (ds : List Domain) (now : ℕ) (js : List Job) (n : ℕ)
    → JobsInScope s ds js
    → Keeps (Scoped s ds) (enqueue_each now js n)
unfolding enqueue_each
each-Scoped s ds now [] n h = pure-Keeps _
each-Scoped s ds now (j ∷ js) n h =
    >>=-Keeps (execute-Keeps _ (λ d. create-Scoped s ds now j d h.0))
      (λ k. each-Scoped s ds now js _ h.1)

many-Scoped :
    (s : Service) (ds : List Domain) (now : ℕ) (js : List Job)
    → JobsInScope s ds js
    → Keeps (Scoped s ds) (enqueue_many now js)
unfolding enqueue_many
many-Scoped s ds now [] h = pure-Keeps _
many-Scoped s ds now (j ∷ js) h = write_tx-Keeps (each-Scoped s ds now (j ∷ js) 0 h)

-- While unknown hosts are not admitted, saving the links that a page was found to have creates no
-- domain, and keeps every URL of the queue in scope: on an active domain of the table, and within the
-- maximal depth if one is set. This holds whatever statements fail.
pub discovered-InScope :
    (s : Service) (now : ℕ) (parent : Bytes) (links : List DiscoveredLink) (w : World)
    → s.allow_auto_domains ≡ false
    → RowsInScope s w.db
    → ((enqueue_discovered s now parent links w).1.db.domains ≡ w.db.domains)
      × RowsInScope s (enqueue_discovered s now parent links w).1.db
unfolding enqueue_discovered ◌>>=◌
discovered-InScope s now parent links w closed h =
    let r = jobs-IsScoped s closed now parent links w in
    let k =
      (many-Scoped s w.db.domains now r.jobs r.scoped).apply r.after
        (subst (Scoped s w.db.domains) (sym r.same) (refl, h)) in
    rw r.runs (
      k.0,
      subst
          (λ ds.
            All (λ (x : Frontier). is_in_scope s ds x.depth x.domain_id ≡ true)
              (enqueue_many now r.jobs r.after).1.db.crawl_frontier)
          (sym k.0) k.1,
    )
