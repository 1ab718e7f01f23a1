-- ===== src/Workers/Policy.antt =====
-- internal/domain/workerid/worker.go, CountHeldLeases of
-- internal/infra/db/gormrepo/worker_repo.go, and internal/infra/http/policy.go.
use crawlerv.Prelude.{
  ℕ, ◌+◌, ◌-◌, Bool, true, ◌&&◌, Option, List, [], ◌∷◌, Bytes, contains, ltb, leb, if◌then◌else◌,
  is_some,
}
use crawlerv.Store.Rows.{
  Frontier, leased, ProcessingJob, JobStatus, DocumentChunk, EmbedStatus, status_eq, job_status_eq,
  embed_status_eq,
}
use crawlerv.Store.Sql.{count}
use crawlerv.Store.World.{Db, M, pure, ◌>>=◌, query}
use crawlerv.FrontierRepo.Queue.{id_is}

pub record Worker : Type 0 where
  pub id : ℕ
  pub pat_hash : Bytes
  pub label : Bytes
  pub ip_last : Bytes
  pub reputation_score : ℕ
  pub banned_at : Option ℕ
  pub created_at : ℕ
  pub capabilities : List Bytes
  pub max_concurrent : ℕ
  pub last_seen_at : Option ℕ

abbrev pub is_banned : Worker → Bool
is_banned w = is_some w.banned_at

unfoldable pub can_any : List Bytes → Bytes → Bool
can_any [] kind = true
can_any (c ∷ cs) kind = contains (c ∷ cs) kind

unfoldable pub can : Worker → Bytes → Bool
unfolding can_any
can w kind = can_any w.capabilities kind

unfoldable pub held_by : ℕ → Db → ℕ
held_by id d =
    count (λ (r : Frontier). status_eq r.status leased && id_is id r.leased_by_worker_id)
      d.crawl_frontier
    + count
        (λ (r : ProcessingJob).
          job_status_eq r.status JobStatus.running && id_is id r.leased_by_worker_id)
        d.processing_jobs
    + count
        (λ (r : DocumentChunk).
          embed_status_eq r.embed_status EmbedStatus.leased && id_is id r.leased_by_worker_id)
        d.document_chunks

unfoldable pub count_held_leases : ℕ → M ℕ
unfolding held_by
count_held_leases id = query (held_by id)

abbrev pub at_most : ℕ → ℕ → ℕ
at_most limit n = if ltb limit n then limit else n

-- Subtraction stops at 0, as `if rem < 0 { rem = 0 }` makes it.
unfoldable pub effective_batch : Worker → ℕ → M ℕ
unfolding count_held_leases
effective_batch w requested =
    if leb w.max_concurrent 0
    then pure (if leb requested 0 then 1 else requested)
    else (count_held_leases w.id >>= λ held.
        pure (at_most (if leb requested 0 then 1 else requested) (w.max_concurrent - held)))
