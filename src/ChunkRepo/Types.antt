-- ===== src/ChunkRepo/Types.antt =====
-- internal/domain/chunking/chunk.go.
use crawlerv.Prelude.{ℕ, Option, Bytes}
use crawlerv.Store.Rows.{EmbedStatus}

pub record Chunk : Type 0 where
  pub id : Bytes
  pub document_id : ℕ
  pub chunk_index : ℕ
  pub text : Bytes
  pub token_count : ℕ
  pub vector_id : Bytes
  pub embed_status : EmbedStatus
  pub collection : Bytes

pub record Lease : Type 0 where
  pub chunk_id : Bytes
  pub token : Bytes
  pub expires_at : ℕ

pub record LeasedChunk : Type 0 where
  pub chunk : Chunk
  pub lease : Lease

pub record Context : Type 0 where
  pub chunk_id : Bytes
  pub text : Bytes
  pub chunk_index : ℕ
  pub document_id : ℕ
  pub collection : Bytes
  pub lake_object_id : ℕ
  pub canonical_url : Bytes

-- The zero value of a field stands for no constraint.
pub record RequeueFilter : Type 0 where
  pub status : Option EmbedStatus
  pub worker_id : ℕ
  pub document_id : ℕ
