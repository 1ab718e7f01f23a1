-- ===== src/ChunkRepo/Reads.antt =====
-- ChunkRepo: ListSince, StatusCounts, CountPending and GetContext.
use crawlerv.Prelude.{
  ℕ, ◌&&◌, Option, none, some, List, [], ◌∷◌, ◌++◌, map, Bytes, bytes_eq, ltb, leb, ◌==◌,
  if◌then◌else◌, take,
}
use crawlerv.Store.Rows.{
  EmbedStatus, DocumentChunk, ExtractedDocument, LakeObject, Frontier, embed_status_eq,
}
use crawlerv.Store.Sql.{count, select, sort_by}
use crawlerv.Store.World.{Db, M, query}
use crawlerv.ChunkRepo.Types.{Chunk, Context}
use crawlerv.ChunkRepo.Leases.{Engine, has_id, is_pending, status_matches}

abbrev pub text_of : Option Bytes → Bytes
text_of none = []
text_of (some s) = s

abbrev pub listed : DocumentChunk → Chunk
listed m = record {
  id = m.id;
  document_id = m.document_id;
  chunk_index = m.chunk_index;
  text = m.text;
  token_count = m.token_count;
  vector_id = text_of m.vector_id;
  embed_status = m.embed_status;
  collection = [];
}

unfoldable pub list_since : Engine → Option EmbedStatus → ℕ → ℕ → M (List Chunk)
list_since e status since limit = query λ d. map listed (
    take (if leb limit 0 then 100 else limit) (
      sort_by (λ r. r.created_at)
        (e.by_id (
          select (λ r. ltb since r.created_at && status_matches status r.embed_status)
            d.document_chunks))))

unfoldable pub status_count : EmbedStatus → M ℕ
status_count s = query λ d. count (λ r. embed_status_eq r.embed_status s) d.document_chunks

unfoldable pub count_pending : M ℕ
count_pending = query λ d. count is_pending d.document_chunks

abbrev pub context : DocumentChunk → ExtractedDocument → LakeObject → Frontier → Context
context c d lo cf = record {
  chunk_id = c.id;
  text = c.text;
  chunk_index = c.chunk_index;
  document_id = c.document_id;
  collection = text_of d.collection;
  lake_object_id = d.source_lake_object_id;
  canonical_url = cf.canonical_url;
}

-- The joins, one table after the other.
abbrev pub bind_rows : {A B : Type 0} → List A → (A → List B) → List B
bind_rows [] f = []
bind_rows (x ∷ xs) f = f x ++ bind_rows xs f

unfoldable pub joined : Bytes → Db → List Context
joined h d = bind_rows (select (has_id h) d.document_chunks) λ c.
    bind_rows (select (λ x. x.id == c.document_id) d.extracted_documents) λ doc.
      bind_rows (select (λ lo. lo.id == doc.source_lake_object_id) d.lake_objects) λ lo.
        map (context c doc lo) (select (λ cf. bytes_eq cf.url_hash lo.url_hash) d.crawl_frontier)

abbrev pub scanned : List Context → Option Context
scanned [] = none
scanned (c ∷ cs) = if bytes_eq c.chunk_id [] then none else some c

unfoldable pub get_context : Bytes → M (Option Context)
unfolding joined
get_context h = query λ d. scanned (joined h d)
