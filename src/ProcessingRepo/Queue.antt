-- ===== src/ProcessingRepo/Queue.antt =====
-- ProcessingRepo: intake, and the calls of the in-process worker, which holds no lease.
use crawlerv.Prelude.{
  ℕ, suc, ◌+◌, Bool, true, false, ◌&&◌, Option, none, some, List, [], ◌∷◌, ◌++◌, map, Bytes,
  bytes_eq, ltb, leb, ◌==◌, if◌then◌else◌, length, take,
}
use crawlerv.Store.Rows.{JobStatus, ProcessingJob, LakeObject, job_status_eq}
use crawlerv.Store.Sql.{first, count, update, select, sort_by}
use crawlerv.Store.World.{
  Db, ok, err, M, pure, ◌>>=◌, query, execute, statement, write_tx, record_not_found,
}
use crawlerv.ProcessingRepo.Types.{Job}

abbrev pub has_id : ℕ → ProcessingJob → Bool
has_id n r = r.id == n

abbrev pub set_jobs : List ProcessingJob → Db → Db
set_jobs rows d = record d { processing_jobs = rows }

-- The row that the inserts make, with the id that the table's counter gives it.
unfoldable pub new_row : ℕ → Bytes → ℕ → ℕ → ProcessingJob
new_row now processor lake_id id = record {
  id = id;
  lake_object_id = lake_id;
  processor = processor;
  status = JobStatus.queued;
  attempt_count = 0;
  max_attempts = 3;
  last_error = none;
  started_at = none;
  finished_at = none;
  output_lake_object_id = none;
  created_at = now;
  lease_token = none;
  leased_by_worker_id = none;
  lease_expires_at = none;
}

-- An INSERT of one row.
abbrev pub inserted : ℕ → Bytes → ℕ → Db → Db
inserted now processor lake_id d = record d {
  processing_jobs = d.processing_jobs ++ new_row now processor lake_id d.next_job_id ∷ [];
  next_job_id = suc d.next_job_id;
}

unfoldable pub enqueue : ℕ → ℕ → Bytes → M ℕ
enqueue now lake_id processor = execute λ d. (d.next_job_id, inserted now processor lake_id d)

abbrev pub is_claimable : Bytes → ProcessingJob → Bool
is_claimable processor r = job_status_eq r.status JobStatus.queued && bytes_eq r.processor processor

-- `WHERE id = ? AND status = 'queued'`
unfoldable pub is_free : ℕ → ProcessingJob → Bool
is_free id r = (r.id == id) && job_status_eq r.status JobStatus.queued

-- `Order("id ASC")` over the rows that a WHERE clause keeps.
unfoldable pub in_order : (ProcessingJob → Bool) → Db → List ProcessingJob
in_order test d = sort_by (λ r. r.id) (select test d.processing_jobs)

unfoldable pub claimed_row : ℕ → ProcessingJob → ProcessingJob
claimed_row now r = record r {
  status = JobStatus.running;
  started_at = some now;
  attempt_count = r.attempt_count + 1;
}

-- An UPDATE with the rows affected.
abbrev pub update_jobs : (ProcessingJob → Bool) → (ProcessingJob → ProcessingJob) → M ℕ
update_jobs test set =
    execute λ d. (count test d.processing_jobs, set_jobs (update test set d.processing_jobs) d)

abbrev pub running_job : ℕ → ProcessingJob → Job
running_job now m = record {
  id = m.id;
  lake_object_id = m.lake_object_id;
  processor = m.processor;
  status = JobStatus.running;
  attempt_count = m.attempt_count + 1;
  max_attempts = m.max_attempts;
  last_error = [];
  started_at = some now;
  finished_at = none;
  output_lake_object_id = none;
}

-- The callback of `ClaimNext`, from the row that it has read.
unfoldable pub claim : ℕ → List ProcessingJob → M (Option Job)
claim now [] = pure none
claim now (m ∷ ms) = do
  n ← update_jobs (is_free m.id) (claimed_row now)
  pure (if n == 0 then none else some (running_job now m))

unfoldable pub claim_next : ℕ → Bytes → M (Option Job)
unfolding claim in_order
claim_next now processor = write_tx do ms ← query (in_order (is_claimable processor)); claim now ms

-- `Updates` of the row with an id: no row affected is no error.
abbrev pub update_row : ℕ → (ProcessingJob → ProcessingJob) → M (Unit {0})
update_row id set = execute λ d. (tt, set_jobs (update (has_id id) set d.processing_jobs) d)

unfoldable pub mark_done : ℕ → ℕ → Option ℕ → M (Unit {0})
mark_done now id output = update_row id λ r. record r {
  status = JobStatus.done;
  finished_at = some now;
  output_lake_object_id = output;
}

unfoldable pub find_row : ℕ → M ProcessingJob
find_row id = statement λ d. elim (first (has_id id) d.processing_jobs) [
  | some m ↦ (ok m, d)
  | none ↦ (err record_not_found, d)
]

-- The status after a failure: another attempt, if one is left and `retryable`.
unfoldable pub after_failure : Bool → ProcessingJob → JobStatus
after_failure retryable m =
    if retryable && ltb m.attempt_count m.max_attempts then JobStatus.queued else JobStatus.failed

unfoldable pub mark_failed : ℕ → ℕ → Bytes → M (Unit {0})
unfolding find_row after_failure
mark_failed now id message = write_tx do
  m ← find_row id
  update_row id λ r. record r {
    status = after_failure true m;
    last_error = some message;
    finished_at = some now;
  }

unfoldable pub mark_skipped : ℕ → ℕ → Bytes → M (Unit {0})
mark_skipped now id reason =
    update_row id
      λ r. record r { status = JobStatus.skipped; last_error = some reason; finished_at = some now }

unfoldable pub get_by_id : ℕ → M (Option Job)
get_by_id id = query λ d. elim (first (has_id id) d.processing_jobs) [
  | none ↦ none
  | some m ↦ some (record {
    id = m.id;
    lake_object_id = m.lake_object_id;
    processor = m.processor;
    status = m.status;
    attempt_count = m.attempt_count;
    max_attempts = m.max_attempts;
    last_error = [];
    started_at = m.started_at;
    finished_at = m.finished_at;
    output_lake_object_id = m.output_lake_object_id;
  })
]

unfoldable pub count_queued : M ℕ
count_queued = query λ d. count (λ r. job_status_eq r.status JobStatus.queued) d.processing_jobs

-- The rows of one INSERT, in order.
unfoldable pub insert_each : ℕ → Bytes → List ℕ → Db → Db
insert_each now processor [] d = d
insert_each now processor (i ∷ is) d = insert_each now processor is (inserted now processor i d)

-- The batches of 500 rows are inserted in one transaction of the ORM.
unfoldable pub bulk_enqueue_by_lake_ids : ℕ → Bytes → List ℕ → M ℕ
unfolding insert_each
bulk_enqueue_by_lake_ids now processor [] = pure 0
bulk_enqueue_by_lake_ids now processor (i ∷ is) =
    execute λ d. (length (i ∷ is), insert_each now processor (i ∷ is) d)

abbrev pub has_job : Bytes → ℕ → ProcessingJob → Bool
has_job processor lake_id r = (r.lake_object_id == lake_id) && bytes_eq r.processor processor

-- The WHERE clause; `like` is the engine's `content_type LIKE prefix || '%'`.
unfoldable pub is_uncovered :
    (Bytes → Bytes → Bool) → Bytes → Bytes → ℕ → List ProcessingJob → LakeObject → Bool
is_uncovered like processor prefix since jobs lo =
    ltb since lo.id
    && (elim lo.content_type [ none ↦ false | some ct ↦ like prefix ct ])
    && (count (has_job processor lo.id) jobs == 0)

unfoldable pub uncovered : (Bytes → Bytes → Bool) → Bytes → Bytes → ℕ → ℕ → Db → List ℕ
unfolding is_uncovered
uncovered like processor prefix since limit d = take (if leb limit 0 then 1000 else limit) (
    map (λ lo. lo.id)
      (sort_by (λ lo. lo.id)
        (select (is_uncovered like processor prefix since d.processing_jobs) d.lake_objects)))

unfoldable pub bulk_enqueue_by_content_type :
    (Bytes → Bytes → Bool) → ℕ → Bytes → Bytes → ℕ → ℕ → M ℕ
unfolding uncovered bulk_enqueue_by_lake_ids
bulk_enqueue_by_content_type like now processor prefix since limit = do
  ids ← query (uncovered like processor prefix since limit)
  bulk_enqueue_by_lake_ids now processor ids
