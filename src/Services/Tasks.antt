-- ===== src/Services/Tasks.antt =====
-- TaskSvc (internal/app/tasksvc.go), without its optional full-text mirror.
use crawlerv.Prelude.{ℕ, Bool, Option, none, some, List, [], ◌∷◌, Bytes, codes, leb, if◌then◌else◌}
use crawlerv.Store.World.{M, pure, fail, ◌>>=◌, ◌>>◌, bad_lease, panic, refused}
use crawlerv.Chunker.Split.{pos, Config, Tokenizer, split}
use crawlerv.ChunkRepo.Rows.{insert_many}
use crawlerv.LeaseSigner.Token.{Crypto, Verdict, accepted, sign_task, verify_task, raw_of}
use crawlerv.ProcessingRepo.Types.{Job, LeasedTask}
use crawlerv.ProcessingRepo.Queue.{get_by_id, enqueue}
use crawlerv.ProcessingRepo.Leases.{reserve_batch, heartbeat, complete, fail_task, sweep_expired}
use crawlerv.Repos.Lake.{Object, insert, get_by_id as get_object}
use crawlerv.Repos.Extraction.{upsert}
use crawlerv.Dispatcher.Triggers.{Codec, Dispatcher}
use crawlerv.Services.Collections.{resolve_collection}
use crawlerv.Services.Pipeline.{chunk_config, chunk_rows}
use crawlerv.Services.Firing.{Clock, fire_if_set}
use crawlerv.Services.Storage.{Blobs, storage_key, or_panic, or_external}

-- The fields of TaskSvc and of its Config that the operations read, and the secret of its signer.
pub record TaskSvc : Type 0 where
  pub crypto : Crypto
  pub secret : Bytes
  pub lease_ttl : ℕ
  pub heartbeat_extend : ℕ
  pub chunk_cfg : Config
  pub tokenizer : Tokenizer
  pub config_resolver : Option Config
  pub resolver : Bool
  pub blobs : Blobs
  pub codec : Codec

-- What one call reads from outside the tables.
pub record Reads : Type 0 where
  pub verified_at : ℕ
  pub written_at : ℕ
  pub chunked_at : ℕ → ℕ
  pub finished_at : ℕ
  pub random : ℕ → Bytes
  pub fired_at : Clock

pub record TextResult : Type 0 where
  pub task_id : ℕ
  pub lease_token : Bytes
  pub text : Bytes
  pub language : Bytes
  pub page_count : ℕ

pub record BlobResult : Type 0 where
  pub task_id : ℕ
  pub lease_token : Bytes
  pub output_content_type : Bytes
  pub output_body : Bytes
  pub output_sha256 : Bytes
  pub next_processor : Bytes

-- An accepted token and its raw bytes; every other verdict is an error before any statement.
abbrev pub accepted_raw : Verdict → Option Bytes → M Bytes
accepted_raw (accepted v) (some raw) = pure raw
accepted_raw (accepted v) none = fail bad_lease
accepted_raw other raw = fail bad_lease

-- A nil task is dereferenced.
abbrev pub found_job : Option Job → M Job
found_job none = fail panic
found_job (some j) = pure j

abbrev pub signature : Option (Bytes × Bytes) → Bytes × Bytes
signature none = ([], [])
signature (some s) = s

module _ (s : TaskSvc) (now : Reads) where
  -- The hash of a task has the digest's 32 bytes, so that the signer never panics.
  unfoldable pub reserve : ℕ → List Bytes → ℕ → M (List LeasedTask)
  unfolding sign_task
  reserve worker kinds batch =
      reserve_batch
        (λ id expires. signature (sign_task s.crypto s.secret (pos id) (pos worker) expires))
        now.written_at worker kinds (if leb batch 0 then 4 else batch) s.lease_ttl

  unfoldable pub verified_raw : ℕ → Bytes → M Bytes
  unfolding verify_task raw_of
  verified_raw id token =
      accepted_raw (verify_task s.crypto s.secret now.verified_at token (pos id))
        (raw_of s.crypto s.secret token)

  unfoldable pub task_heartbeat : ℕ → Bytes → M ℕ
  unfolding verified_raw
  task_heartbeat id token = do
    raw ← verified_raw id token
    heartbeat now.finished_at id raw s.heartbeat_extend

  -- `processing.Repository` has GetByID.
  unfoldable pub fetch_task : ℕ → M Job
  fetch_task id = do j ← get_by_id id; found_job j

  -- The sink is attached; it passes the rows on.
  unfoldable pub write_text_chunks : ℕ → Bytes → Bytes → M (Unit {0})
  unfolding chunk_config chunk_rows
  write_text_chunks doc [] collection = pure tt
  write_text_chunks doc (b ∷ bs) collection = do
    cfg ← chunk_config s.chunk_cfg s.config_resolver collection
    insert_many (chunk_rows now.random now.chunked_at doc 0 (split s.tokenizer (b ∷ bs) cfg))

  unfoldable pub accept_text : TextResult → M (Unit {0})
  unfolding verified_raw fetch_task write_text_chunks
  accept_text i = do
    raw ← verified_raw i.task_id i.lease_token
    job ← fetch_task i.task_id
    collection ← resolve_collection s.resolver job.lake_object_id
    doc ← upsert now.written_at (record {
      id = 0;
      source_lake_object_id = job.lake_object_id;
      text = i.text;
      language = i.language;
      page_count = i.page_count;
      collection = collection;
      extracted_at = 0;
    })
    write_text_chunks doc i.text collection
    complete now.finished_at i.task_id raw none

  abbrev pub source_object : Option Object → M Object
  source_object none = fail refused
  source_object (some o) = pure o

  -- The row of the stored blob.
  unfoldable pub insert_blob : Bytes → Bytes → Bytes → Bytes → M ℕ
  unfolding storage_key
  insert_blob url_hash content_type body claimed = do
    key ← or_panic s.blobs (storage_key s.blobs url_hash content_type)
    stat ←
        or_external s.blobs
          (s.blobs.put key body (record { content_type = content_type; sha256 = claimed }))
    insert now.written_at (record {
      id = 0;
      url_hash = url_hash;
      storage_backend = s.blobs.backend;
      storage_key = key;
      content_type = content_type;
      content_sha256 = stat.0;
      file_size = stat.1;
      archived_at = 0;
      migrated_from = [];
    })

  unfoldable pub enqueue_next : Bytes → ℕ → M (Unit {0})
  enqueue_next [] id = pure tt
  enqueue_next (b ∷ bs) id = enqueue now.finished_at id (b ∷ bs) >>= λ _. pure tt

  -- Answers the new object's id and the dispatcher's cache.
  unfoldable pub accept_blob : Option Dispatcher → BlobResult → M (ℕ × Option Dispatcher)
  unfolding verified_raw fetch_task insert_blob enqueue_next fire_if_set
  accept_blob d i = do
    raw ← verified_raw i.task_id i.lease_token
    job ← fetch_task i.task_id
    o ← get_object job.lake_object_id
    src ← source_object o
    id ← insert_blob src.url_hash i.output_content_type i.output_body i.output_sha256
    complete now.finished_at i.task_id raw (some id)
    enqueue_next i.next_processor id
    d' ←
        fire_if_set s.codec now.fired_at (codes "blob_produced")
          (record {
            lake_object_id = id;
            content_type = i.output_content_type;
            source_processor = job.processor;
          })
          d
    pure (id, d')

  unfoldable pub task_failure : ℕ → Bytes → Bytes → Bool → M (Unit {0})
  unfolding verified_raw
  task_failure id token message retryable = do
    raw ← verified_raw id token
    fail_task now.finished_at id raw message retryable

  unfoldable pub sweep_tasks : M ℕ
  sweep_tasks = sweep_expired now.finished_at
