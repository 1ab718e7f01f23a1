-- ===== src/ProcessingRepo/Leases.antt =====
-- ProcessingRepo: the calls of external workers, which hold a lease, and the operator's.
use crawlerv.Prelude.{
  ℕ, ◌+◌, Bool, true, false, not, ◌&&◌, ◌||◌, Option, none, some, List, [], ◌∷◌, ◌++◌, Bytes,
  bytes_eq, contains, ltb, leb, ◌==◌, if◌then◌else◌, take,
}
use crawlerv.Store.Rows.{JobStatus, ProcessingJob, LakeObject, job_status_eq}
use crawlerv.Store.Sql.{first, count, update}
use crawlerv.Store.World.{
  ok, err, M, pure, fail, ◌>>=◌, ◌>>◌, query, statement, write_tx, record_not_found, missing_where,
  lease_not_held,
}
use crawlerv.FrontierRepo.Queue.{token_is, token_held, id_is, before}
use crawlerv.ProcessingRepo.Types.{LeasedTask, TaskRequeueFilter}
use crawlerv.ProcessingRepo.Queue.{
  set_jobs, is_free, in_order, update_jobs, update_row, running_job, find_row, after_failure,
}

-- What signs a task's lease: the token for the worker, and the raw bytes for the table.
abbrev pub Sign : Type 0
Sign = ℕ → ℕ → Bytes × Bytes

-- `status = 'queued'`, and `processor IN ?` unless no kind is given.
unfoldable pub is_wanted : List Bytes → ProcessingJob → Bool
is_wanted [] r = job_status_eq r.status JobStatus.queued
is_wanted (k ∷ ks) r = job_status_eq r.status JobStatus.queued && contains (k ∷ ks) r.processor

unfoldable pub leased_row : ℕ → ℕ → Bytes → ℕ → ProcessingJob → ProcessingJob
leased_row now worker raw expires r = record r {
  status = JobStatus.running;
  started_at = some now;
  attempt_count = r.attempt_count + 1;
  lease_token = some raw;
  leased_by_worker_id = some worker;
  lease_expires_at = some expires;
}

unfoldable pub find_lake : ℕ → M LakeObject
find_lake id = statement λ d. elim (first (λ (lo : LakeObject). lo.id == id) d.lake_objects) [
  | some lo ↦ (ok lo, d)
  | none ↦ (err record_not_found, d)
]

abbrev pub text_of : Option Bytes → Bytes
text_of none = []
text_of (some s) = s

abbrev pub leased_task : ℕ → ProcessingJob → Bytes → ℕ → LakeObject → LeasedTask
leased_task now p token expires lo = record {
  job = running_job now p;
  lease_token = token;
  lease_expires_at = expires;
  blob_content_type = text_of lo.content_type;
  blob_size_bytes = lo.file_size_bytes;
}

module _ (sign : Sign) (worker now expires : ℕ) where
  -- The loop over the picks.
  unfoldable pub lease_each : List ProcessingJob → List LeasedTask → M (List LeasedTask)
  unfolding find_lake
  lease_each [] out = pure out
  lease_each (p ∷ ps) out = do
    n ← update_jobs (is_free p.id) (leased_row now worker (sign p.id expires).1 expires)
    if n == 0
        then lease_each ps out
        else (find_lake p.lake_object_id >>= λ lo.
            lease_each ps (out ++ leased_task now p (sign p.id expires).0 expires lo ∷ []))

unfoldable pub reserve_batch : Sign → ℕ → ℕ → List Bytes → ℕ → ℕ → M (List LeasedTask)
unfolding in_order lease_each
reserve_batch sign now worker kinds batch ttl =
    if leb batch 0
    then pure []
    else write_tx do
      ps ← query (λ d. take batch (in_order (is_wanted kinds) d))
      lease_each sign worker now (now + ttl) ps []

-- `id = ? AND status = 'running' AND lease_token = ?`
unfoldable pub holds : ℕ → Bytes → ProcessingJob → Bool
holds id t r = (r.id == id) && job_status_eq r.status JobStatus.running && token_is t r.lease_token

-- An UPDATE, with the rows affected: none of them is an error of the repository.
unfoldable pub update_held : (ProcessingJob → Bool) → (ProcessingJob → ProcessingJob) → M (Unit {0})
update_held test set = statement λ d.
    if count test d.processing_jobs == 0
    then (err lease_not_held, d)
    else (ok tt, set_jobs (update test set d.processing_jobs) d)

unfoldable pub heartbeat : ℕ → ℕ → Bytes → ℕ → M ℕ
unfolding update_held
heartbeat now id t extend = do
  update_held (holds id t) (λ r. record r { lease_expires_at = some (now + extend) })
  pure (now + extend)

unfoldable pub completed : ℕ → Option ℕ → ProcessingJob → ProcessingJob
completed now output r = record r {
  status = JobStatus.done;
  finished_at = some now;
  output_lake_object_id = output;
  lease_token = none;
  leased_by_worker_id = none;
  lease_expires_at = none;
}

unfoldable pub complete : ℕ → ℕ → Bytes → Option ℕ → M (Unit {0})
unfolding update_held
complete now id t output = update_held (holds id t) (completed now output)

unfoldable pub failed_row : ℕ → Bytes → Bool → ProcessingJob → ProcessingJob → ProcessingJob
failed_row now message retryable m r = record r {
  status = after_failure retryable m;
  last_error = some message;
  finished_at = some now;
  lease_token = none;
  leased_by_worker_id = none;
  lease_expires_at = none;
}

-- The callback of `Fail`'s transaction, from the row that it has read.
unfoldable pub record_failure : ℕ → ℕ → Bytes → Bytes → Bool → ProcessingJob → M (Unit {0})
record_failure now id t message retryable m =
    if token_held t m.lease_token
    then update_row id (failed_row now message retryable m)
    else fail lease_not_held

unfoldable pub fail_task : ℕ → ℕ → Bytes → Bytes → Bool → M (Unit {0})
unfolding find_row record_failure
fail_task now id t message retryable =
    write_tx do m ← find_row id; record_failure now id t message retryable m

abbrev pub status_matches : Option JobStatus → JobStatus → Bool
status_matches none s = true
status_matches (some f) s = job_status_eq s f

abbrev pub processor_matches : Bytes → Bytes → Bool
processor_matches [] p = true
processor_matches (b ∷ bs) p = bytes_eq p (b ∷ bs)

unfoldable pub filter_matches : TaskRequeueFilter → ProcessingJob → Bool
filter_matches f r =
    status_matches f.status r.status
    && (if ltb 0 f.worker_id then id_is f.worker_id r.leased_by_worker_id else true)
    && processor_matches f.processor r.processor

-- gorm refuses an UPDATE with no condition.
abbrev pub has_condition : TaskRequeueFilter → Bool
has_condition f =
    (elim f.status [ none ↦ false | some _ ↦ true ])
    || ltb 0 f.worker_id
    || not (bytes_eq f.processor [])

unfoldable pub released : ProcessingJob → ProcessingJob
released r = record r {
  status = JobStatus.queued;
  lease_token = none;
  leased_by_worker_id = none;
  lease_expires_at = none;
}

unfoldable pub requeue_by_filter : TaskRequeueFilter → M ℕ
requeue_by_filter f =
    if has_condition f then update_jobs (filter_matches f) released else fail missing_where

-- The histogram: the rows of each processor and status.
unfoldable pub status_count : Bytes → JobStatus → M ℕ
status_count p s =
    query λ d. count (λ r. bytes_eq r.processor p && job_status_eq r.status s) d.processing_jobs

unfoldable pub is_expired : ℕ → ProcessingJob → Bool
is_expired now r = job_status_eq r.status JobStatus.running && before now r.lease_expires_at

unfoldable pub sweep_expired : ℕ → M ℕ
sweep_expired now = update_jobs (is_expired now) released
