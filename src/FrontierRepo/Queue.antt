-- ===== src/FrontierRepo/Queue.antt =====
-- FrontierRepo: intake, heartbeat, completion, failure, requeue and sweep.
use crawlerv.Prelude.{
  ℕ, ◌+◌, Bool, true, false, not, ◌&&◌, ◌||◌, Option, none, some, List, [], ◌∷◌, ◌++◌, Bytes,
  bytes_eq, ltb, leb, ◌==◌, if◌then◌else◌,
}
use crawlerv.Store.Rows.{Status, queued, leased, done, dead, Frontier, status_eq}
use crawlerv.Store.Sql.{first, count, update}
use crawlerv.Store.World.{
  Db, Result, ok, err, M, pure, fail, ◌>>=◌, ◌>>◌, query, execute, statement, write_tx,
  record_not_found, missing_where, lease_not_held,
}
use crawlerv.FrontierRepo.Types.{Job, Failure, RequeueFilter}

abbrev pub has_hash : Bytes → Frontier → Bool
has_hash h r = bytes_eq r.url_hash h

abbrev pub set_frontier : List Frontier → Db → Db
set_frontier rows d = record d { crawl_frontier = rows }

-- The row that `Enqueue` and `EnqueueMany` insert.
unfoldable pub new_row : ℕ → Job → Frontier
new_row now j = record {
  url_hash = j.url_hash;
  url = j.url;
  canonical_url = j.canonical_url;
  domain_id = j.domain_id;
  depth = j.depth;
  priority = j.priority;
  status = queued;
  leased_by_worker_id = none;
  lease_token = none;
  lease_expires_at = none;
  attempt_count = 0;
  max_attempts = if j.max_attempts == 0 then 5 else j.max_attempts;
  next_retry_at = none;
  scheduled_for = now;
  discovered_at = now;
  completed_at = none;
  parent_url_hash = j.parent_url_hash;
  http_status = none;
  error_code = none;
  error_message = none;
}

-- `Where("url_hash = ?").Attrs(m).FirstOrCreate`: the rows affected, 1 if it created the row.
unfoldable pub first_or_create : Frontier → Db → ℕ × Db
first_or_create m d = elim (first (has_hash m.url_hash) d.crawl_frontier) [
  | some _ ↦ (0, d)
  | none ↦ (1, set_frontier (d.crawl_frontier ++ m ∷ []) d)
]

unfoldable pub enqueue : ℕ → Job → M Bool
enqueue now j = do n ← execute (first_or_create (new_row now j)); pure (n == 1)

-- The loop of `EnqueueMany`.
unfoldable pub enqueue_each : ℕ → List Job → ℕ → M ℕ
enqueue_each now [] inserted = pure inserted
enqueue_each now (j ∷ js) inserted = do
  n ← execute (first_or_create (new_row now j))
  enqueue_each now js (if n == 1 then inserted + 1 else inserted)

unfoldable pub enqueue_many : ℕ → List Job → M ℕ
unfolding enqueue_each
enqueue_many now [] = pure 0
enqueue_many now (j ∷ js) = write_tx (enqueue_each now (j ∷ js) 0)

unfoldable pub lookup_canonical : Bytes → M Bool
lookup_canonical h = query λ d. ltb 0 (count (has_hash h) d.crawl_frontier)

unfoldable pub domain_id_by_url_hash : Bytes → M ℕ
domain_id_by_url_hash h = statement λ d. elim (first (has_hash h) d.crawl_frontier) [
  | some m ↦ (ok m.domain_id, d)
  | none ↦ (err record_not_found, d)
]

-- `lease_token = ?`: false on NULL.
abbrev pub token_is : Bytes → Option Bytes → Bool
token_is t none = false
token_is t (some u) = bytes_eq u t

-- `url_hash = ? AND status = 'leased' AND lease_token = ?`
unfoldable pub holds : Bytes → Bytes → Frontier → Bool
holds h t r = bytes_eq r.url_hash h && status_eq r.status leased && token_is t r.lease_token

-- An UPDATE, with the rows affected: none of them is an error of the repository.
unfoldable pub update_held : (Frontier → Bool) → (Frontier → Frontier) → Db → Result (Unit {0}) × Db
update_held test set d =
    if count test d.crawl_frontier == 0
    then (err lease_not_held, d)
    else (ok tt, set_frontier (update test set d.crawl_frontier) d)

abbrev pub extended : ℕ → Frontier → Frontier
extended expiry r = record r { lease_expires_at = some expiry }

unfoldable pub heartbeat : ℕ → Bytes → Bytes → ℕ → M ℕ
heartbeat now h t extend = do
  statement (update_held (holds h t) (extended (now + extend)))
  pure (now + extend)

abbrev pub completed : ℕ → ℕ → Frontier → Frontier
completed now http_status r = record r {
  status = done;
  http_status = some http_status;
  completed_at = some now;
  lease_token = none;
  lease_expires_at = none;
  leased_by_worker_id = none;
}

unfoldable pub complete : ℕ → Bytes → Bytes → ℕ → M (Unit {0})
complete now h t http_status = statement (update_held (holds h t) (completed now http_status))

-- Whether a failed attempt is the last one.
unfoldable pub is_final : Failure → Frontier → Bool
is_final f m = not f.retryable || leb m.max_attempts m.attempt_count

abbrev pub failed_row : ℕ → ℕ → Failure → Frontier → Frontier → Frontier
failed_row now backoff f m r = record r {
  status = if is_final f m then dead else queued;
  http_status = some f.http_status;
  error_code = some f.error_code;
  error_message = some f.error_message;
  next_retry_at = if is_final f m then none else some (now + backoff);
  lease_token = none;
  lease_expires_at = none;
  leased_by_worker_id = none;
}

-- `len(m.LeaseToken) == 0 || !equalBytes(m.LeaseToken, leaseToken)`, negated. NULL reads as empty.
abbrev pub token_held : Bytes → Option Bytes → Bool
token_held t none = false
token_held t (some []) = false
token_held t (some (b ∷ bs)) = bytes_eq (b ∷ bs) t

unfoldable pub find_row : Bytes → M Frontier
find_row h = statement λ d. elim (first (has_hash h) d.crawl_frontier) [
  | some m ↦ (ok m, d)
  | none ↦ (err record_not_found, d)
]

-- The callback of `Fail`'s transaction, from the row that it has read.
unfoldable pub record_failure : ℕ → Bytes → Bytes → Failure → ℕ → Frontier → M (Unit {0})
record_failure now h t f backoff m =
    if token_held t m.lease_token
    then execute (λ d.
      (tt, set_frontier (update (has_hash h) (failed_row now backoff f m) d.crawl_frontier) d))
    else fail lease_not_held

unfoldable pub fail_lease : ℕ → Bytes → Bytes → Failure → ℕ → M (Unit {0})
unfolding find_row record_failure
fail_lease now h t f backoff = write_tx do m ← find_row h; record_failure now h t f backoff m

abbrev pub status_matches : Option Status → Status → Bool
status_matches none s = true
status_matches (some f) s = status_eq s f

abbrev pub id_is : ℕ → Option ℕ → Bool
id_is n none = false
id_is n (some m) = m == n

-- The conditions that the filter has, joined by AND.
unfoldable pub filter_matches : RequeueFilter → Frontier → Bool
filter_matches f r =
    status_matches f.status r.status
    && (if ltb 0 f.worker_id then id_is f.worker_id r.leased_by_worker_id else true)
    && (if ltb 0 f.domain_id then r.domain_id == f.domain_id else true)

-- gorm refuses an UPDATE with no condition.
abbrev pub has_condition : RequeueFilter → Bool
has_condition f =
    (elim f.status [ none ↦ false | some _ ↦ true ]) || ltb 0 f.worker_id || ltb 0 f.domain_id

abbrev pub requeued : Frontier → Frontier
requeued r = record r {
  status = queued;
  lease_token = none;
  leased_by_worker_id = none;
  lease_expires_at = none;
  next_retry_at = none;
}

unfoldable pub requeue_by_filter : RequeueFilter → M ℕ
requeue_by_filter f =
    if has_condition f
    then execute (λ d. (
      count (filter_matches f) d.crawl_frontier,
      set_frontier (update (filter_matches f) requeued d.crawl_frontier) d,
    ))
    else fail missing_where

-- `lease_expires_at < ?`: false on NULL.
abbrev pub before : ℕ → Option ℕ → Bool
before now none = false
before now (some t) = ltb t now

unfoldable pub is_expired : ℕ → Frontier → Bool
is_expired now r = status_eq r.status leased && before now r.lease_expires_at

abbrev pub released : Frontier → Frontier
released r = record r {
  status = queued;
  lease_token = none;
  lease_expires_at = none;
  leased_by_worker_id = none;
}

unfoldable pub sweep_expired : ℕ → M ℕ
sweep_expired now = execute λ d. (
  count (is_expired now) d.crawl_frontier,
  set_frontier (update (is_expired now) released d.crawl_frontier) d,
)

-- The histogram: the rows of each status.
unfoldable pub status_count : Status → M ℕ
status_count s = query λ d. count (λ r. status_eq r.status s) d.crawl_frontier
