-- ===== src/ProcessingRepo/Types.antt =====
-- internal/domain/processing/job.go and repository.go.
use crawlerv.Prelude.{ℕ, Option, Bytes}
use crawlerv.Store.Rows.{JobStatus}

pub record Job : Type 0 where
  pub id : ℕ
  pub lake_object_id : ℕ
  pub processor : Bytes
  pub status : JobStatus
  pub attempt_count : ℕ
  pub max_attempts : ℕ
  pub last_error : Bytes
  pub started_at : Option ℕ
  pub finished_at : Option ℕ
  pub output_lake_object_id : Option ℕ

pub record LeasedTask : Type 0 where
  pub job : Job
  pub lease_token : Bytes
  pub lease_expires_at : ℕ
  pub blob_content_type : Bytes
  pub blob_size_bytes : ℕ

-- The zero value of a field stands for no constraint.
pub record TaskRequeueFilter : Type 0 where
  pub status : Option JobStatus
  pub worker_id : ℕ
  pub processor : Bytes
