-- ===== src/Store/Rows.antt =====
-- The rows of internal/infra/db/gormrepo/models.go and models2.go, and the statuses of
-- internal/domain. A nullable column is an `Option`; an instant is a number of microseconds.
use crawlerv.Prelude.{ℕ, Bool, true, false, Option, Bytes}
use crawlerv.Chunker.Split.{ℤ}

-- internal/domain/frontier/job.go
pub data Status : Type 0 where
  queued leased done failed dead : Status

-- internal/domain/processing/job.go
pub data JobStatus : Type 0 where
  queued running done failed skipped : JobStatus

-- internal/domain/chunking/chunk.go
pub data EmbedStatus : Type 0 where
  pending leased done failed : EmbedStatus

pub record Domain : Type 0 where
  pub id : ℕ
  pub host : Bytes
  pub scheme : Bytes
  pub is_active : Bool
  pub crawl_delay_ms : ℕ
  pub parallel_fetches : ℕ
  pub robots_body : Option Bytes
  pub robots_fetched_at : Option ℕ
  pub last_request_at : Option ℕ
  pub created_at : ℕ
  pub embed_collection : Option Bytes
  pub required_capability : Option Bytes

pub record Frontier : Type 0 where
  pub url_hash : Bytes
  pub url : Bytes
  pub canonical_url : Bytes
  pub domain_id : ℕ
  pub depth : ℕ
  pub priority : ℕ
  pub status : Status
  pub leased_by_worker_id : Option ℕ
  pub lease_token : Option Bytes
  pub lease_expires_at : Option ℕ
  pub attempt_count : ℕ
  pub max_attempts : ℕ
  pub next_retry_at : Option ℕ
  pub scheduled_for : ℕ
  pub discovered_at : ℕ
  pub completed_at : Option ℕ
  pub parent_url_hash : Bytes
  pub http_status : Option ℕ
  pub error_code : Option Bytes
  pub error_message : Option Bytes

pub record LakeObject : Type 0 where
  pub id : ℕ
  pub url_hash : Bytes
  pub storage_backend : Bytes
  pub storage_key : Bytes
  pub content_type : Option Bytes
  pub content_sha256 : Bytes
  pub file_size_bytes : ℕ
  pub archived_at : ℕ
  pub migrated_from : Option Bytes

pub record ProcessingJob : Type 0 where
  pub id : ℕ
  pub lake_object_id : ℕ
  pub processor : Bytes
  pub status : JobStatus
  pub attempt_count : ℕ
  pub max_attempts : ℕ
  pub last_error : Option Bytes
  pub started_at : Option ℕ
  pub finished_at : Option ℕ
  pub output_lake_object_id : Option ℕ
  pub created_at : ℕ
  pub lease_token : Option Bytes
  pub leased_by_worker_id : Option ℕ
  pub lease_expires_at : Option ℕ

pub record ExtractedDocument : Type 0 where
  pub id : ℕ
  pub source_lake_object_id : ℕ
  pub text : Bytes
  pub language : Option Bytes
  pub page_count : Option ℕ
  pub extracted_at : ℕ
  pub collection : Option Bytes

pub record DocumentChunk : Type 0 where
  pub id : Bytes
  pub document_id : ℕ
  pub chunk_index : ℕ
  pub text : Bytes
  pub token_count : ℕ
  pub vector_id : Option Bytes
  pub embed_status : EmbedStatus
  pub leased_by_worker_id : Option ℕ
  pub lease_token : Option Bytes
  pub lease_expires_at : Option ℕ
  pub attempt_count : ℕ
  pub created_at : ℕ

-- internal/infra/db/gormrepo/collection_config_repo.go, capability_repo.go and triggers_repo.go
pub record Collection : Type 0 where
  pub name : Bytes
  pub chunk_tokens : ℤ
  pub overlap_prev : ℤ
  pub overlap_next : ℤ
  pub tokenizer : Bytes
  pub created_at : ℕ
  pub updated_at : ℕ

pub record Capability : Type 0 where
  pub name : Bytes
  pub description : Option Bytes
  pub internal : Bool
  pub created_at : ℕ

pub record PipelineTrigger : Type 0 where
  pub id : ℕ
  pub when_event : Bytes
  pub when_filter : Option Bytes
  pub enqueue_kind : Bytes
  pub enabled : Bool
  pub created_at : ℕ

pub record WorkerRow : Type 0 where
  pub id : ℕ
  pub pat_hash : Bytes
  pub label : Bytes
  pub ip_last : Option Bytes
  pub reputation_score : ℕ
  pub banned_at : Option ℕ
  pub created_at : ℕ
  pub capabilities : Option Bytes
  pub max_concurrent : ℕ
  pub last_seen_at : Option ℕ

-- `status = ?` in SQL.
abbrev pub status_eq : Status → Status → Bool
status_eq Status.queued Status.queued = true
status_eq Status.leased Status.leased = true
status_eq Status.done Status.done = true
status_eq Status.failed Status.failed = true
status_eq Status.dead Status.dead = true
status_eq _ _ = false

abbrev pub job_status_eq : JobStatus → JobStatus → Bool
job_status_eq JobStatus.queued JobStatus.queued = true
job_status_eq JobStatus.running JobStatus.running = true
job_status_eq JobStatus.done JobStatus.done = true
job_status_eq JobStatus.failed JobStatus.failed = true
job_status_eq JobStatus.skipped JobStatus.skipped = true
job_status_eq _ _ = false

abbrev pub embed_status_eq : EmbedStatus → EmbedStatus → Bool
embed_status_eq EmbedStatus.pending EmbedStatus.pending = true
embed_status_eq EmbedStatus.leased EmbedStatus.leased = true
embed_status_eq EmbedStatus.done EmbedStatus.done = true
embed_status_eq EmbedStatus.failed EmbedStatus.failed = true
embed_status_eq _ _ = false
