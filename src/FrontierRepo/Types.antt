-- ===== src/FrontierRepo/Types.antt =====
-- internal/domain/frontier/job.go and repository.go.
use crawlerv.Prelude.{ℕ, Bool, Option, Bytes}
use crawlerv.Store.Rows.{Status}

pub record Job : Type 0 where
  pub url_hash : Bytes
  pub url : Bytes
  pub canonical_url : Bytes
  pub domain_id : ℕ
  pub depth : ℕ
  pub priority : ℕ
  pub attempt_count : ℕ
  pub max_attempts : ℕ
  pub parent_url_hash : Bytes

pub record Lease : Type 0 where
  pub job_url_hash : Bytes
  pub worker_id : ℕ
  pub token : Bytes
  pub expires_at : ℕ

pub record LeasedJob : Type 0 where
  pub job : Job
  pub lease : Lease

pub record Failure : Type 0 where
  pub http_status : ℕ
  pub error_code : Bytes
  pub error_message : Bytes
  pub retryable : Bool

-- The zero value of a field stands for no constraint: `none`, or the number 0.
pub record RequeueFilter : Type 0 where
  pub status : Option Status
  pub worker_id : ℕ
  pub domain_id : ℕ
