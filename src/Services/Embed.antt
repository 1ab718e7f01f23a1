-- ===== src/Services/Embed.antt =====
-- EmbedSvc (internal/app/embed.go).
use crawlerv.Prelude.{
  ℕ, Bool, true, false, Option, none, some, List, [], ◌∷◌, ◌++◌, Bytes, codes, leb, if◌then◌else◌,
  length,
}
use crawlerv.Store.World.{M, pure, fail, ◌>>=◌, ◌>>◌, external, refused}
use crawlerv.Chunker.Split.{pos}
use crawlerv.LeaseSigner.Token.{Crypto, sign_chunk, verify_chunk, raw_of}
use crawlerv.ChunkRepo.Types.{LeasedChunk, Context}
use crawlerv.ChunkRepo.Leases.{
  Engine, reserve_batch, mark_embedded, mark_embed_failed, sweep_expired,
}
use crawlerv.ChunkRepo.Reads.{get_context}
use crawlerv.Services.Tasks.{accepted_raw, signature}

-- What is pushed to the vector store: the id, the vector and the payload.
pub record Point (V : Type 0) : Type 0 where
  pub id : Bytes
  pub vector : List V
  pub payload : Context

-- The client of the vector store; `false` is an error.
pub record Qdrant (V : Type 0) : Type 0 where
  pub enabled : Bool
  pub ensure_collection : Bytes → ℕ → Bool
  pub upsert : Bytes → List (Point V) → Bool

pub record EmbedSvc (V : Type 0) : Type 0 where
  pub crypto : Crypto
  pub secret : Bytes
  pub lease_ttl : ℕ
  pub qdrant : Option (Qdrant V)

-- `now` stands for the readings of the clock in a call.
module _ {V : Type 0} (s : EmbedSvc V) (now : ℕ) where
  -- The hash of a chunk has the digest's 32 bytes, so that the signer never panics.
  unfoldable pub reserve_chunks : Engine → ℕ → ℕ → M (List LeasedChunk)
  unfolding sign_chunk
  reserve_chunks e worker batch =
      reserve_batch e
        (λ id expires. signature (sign_chunk s.crypto s.secret id (pos worker) expires)) now worker
        (if leb batch 0 then 1000 else batch) s.lease_ttl

  unfoldable pub chunk_raw : Bytes → Bytes → M Bytes
  unfolding verify_chunk raw_of
  chunk_raw id token =
      accepted_raw (verify_chunk s.crypto s.secret now token id) (raw_of s.crypto s.secret token)

  unfoldable pub accept_embedding : Bytes → Bytes → Bytes → M (Unit {0})
  unfolding chunk_raw
  accept_embedding id vector_id token = do raw ← chunk_raw id token; mark_embedded id vector_id raw

  abbrev pub found_context : Option Context → M Context
  found_context none = fail refused
  found_context (some c) = pure c

  abbrev pub or_default : Bytes → Bytes
  or_default [] = codes "_default"
  or_default (b ∷ bs) = b ∷ bs

  abbrev pub or_error : Bool → M (Unit {0})
  or_error true = pure tt
  or_error false = fail external

  -- The point is upserted only after the collection is there.
  unfoldable pub push : Qdrant V → Bytes → Bytes → List V → Context → M Bytes
  push q collection id vector c = do
    or_error (q.ensure_collection collection (length vector))
    or_error (
        q.upsert collection (
          record { id = id; vector = vector; payload = record c { collection = collection } } ∷ []))
    pure (codes "qdrant:" ++ collection ++ codes ":" ++ id)

  unfoldable pub vector_id_of : Bytes → List V → Context → M Bytes
  unfolding push
  vector_id_of id vector c = elim s.qdrant [
    | none ↦ pure (codes "raw:" ++ id)
    | some q ↦
        if q.enabled
        then push q (or_default c.collection) id vector c
        else pure (codes "raw:" ++ id)
  ]

  unfoldable pub accept_vector_result : Bytes → Bytes → List V → M (Unit {0})
  unfolding chunk_raw vector_id_of
  accept_vector_result id token [] = fail refused
  accept_vector_result id token (x ∷ xs) = do
    raw ← chunk_raw id token
    found ← get_context id
    c ← found_context found
    vector_id ← vector_id_of id (x ∷ xs) c
    mark_embedded id vector_id raw

  unfoldable pub embed_failure : Bytes → Bytes → Bytes → M (Unit {0})
  unfolding chunk_raw
  embed_failure id token reason = do raw ← chunk_raw id token; mark_embed_failed id raw reason

  unfoldable pub sweep_chunks : M ℕ
  sweep_chunks = sweep_expired now
