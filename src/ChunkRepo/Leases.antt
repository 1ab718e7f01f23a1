-- ===== src/ChunkRepo/Leases.antt =====
-- ChunkRepo: ReserveBatch, MarkEmbedded, MarkEmbedFailed, SweepExpired and RequeueByFilter.
use crawlerv.Prelude.{
  ℕ, ◌+◌, Bool, true, false, ◌&&◌, ◌||◌, Option, none, some, List, [], ◌∷◌, ◌++◌, Bytes, bytes_eq,
  ltb, leb, ◌==◌, if◌then◌else◌, take,
}
use mathlib.Core.List.{Permᴰ}
use crawlerv.Store.Rows.{EmbedStatus, DocumentChunk, ExtractedDocument, embed_status_eq}
use crawlerv.Store.Sql.{first, count, update, select, sort_by}
use crawlerv.Store.World.{
  Db, ok, err, M, pure, fail, ◌>>=◌, query, execute, statement, write_tx, record_not_found,
  missing_where, lease_not_held,
}
use crawlerv.FrontierRepo.Queue.{token_is, token_held, id_is, before}
use crawlerv.FrontierRepo.Reserve.{Sign, among}
use crawlerv.ChunkRepo.Types.{LeasedChunk, RequeueFilter}
use crawlerv.ChunkRepo.Rows.{set_chunks}

-- What the queries leave to the engine: the order of rows with the same `created_at`, and the
-- collation that `id ASC` compares by.
pub record Engine : Type 0 where
  pub arrange : List DocumentChunk → List DocumentChunk
  pub arrange-perm : (rows : List DocumentChunk) → Permᴰ rows (arrange rows)
  pub by_id : List DocumentChunk → List DocumentChunk
  pub by_id-perm : (rows : List DocumentChunk) → Permᴰ rows (by_id rows)

abbrev pub has_id : Bytes → DocumentChunk → Bool
has_id h r = bytes_eq r.id h

abbrev pub is_pending : DocumentChunk → Bool
is_pending r = embed_status_eq r.embed_status EmbedStatus.pending

unfoldable pub picks : Engine → ℕ → Db → List DocumentChunk
picks e batch d =
    take batch (sort_by (λ r. r.created_at) (e.arrange (select is_pending d.document_chunks)))

-- `docIDs`: the documents of the picks, each once.
unfoldable pub doc_ids : List DocumentChunk → List ℕ → List ℕ
doc_ids [] out = out
doc_ids (c ∷ cs) out =
    doc_ids cs (if among out c.document_id then out else out ++ c.document_id ∷ [])

-- `collectionByDoc`: a later assignment stands before an earlier one.
unfoldable pub collection_map : List ExtractedDocument → List (ℕ × Bytes) → List (ℕ × Bytes)
collection_map [] m = m
collection_map (d ∷ ds) m =
    collection_map ds (elim d.collection [ none ↦ m | some c ↦ (d.id, c) ∷ m ])

abbrev pub lookup : List (ℕ × Bytes) → ℕ → Bytes
lookup [] n = []
lookup (p ∷ ps) n = if p.0 == n then p.1 else lookup ps n

unfoldable pub collections : List DocumentChunk → Db → List (ℕ × Bytes)
unfolding doc_ids collection_map
collections ps d =
    collection_map (select (λ x. among (doc_ids ps []) x.id) d.extracted_documents) []

-- `id = ? AND embed_status = 'pending'`
unfoldable pub is_free : Bytes → DocumentChunk → Bool
is_free h r = bytes_eq r.id h && embed_status_eq r.embed_status EmbedStatus.pending

unfoldable pub leased_row : ℕ → Bytes → ℕ → DocumentChunk → DocumentChunk
leased_row worker raw expires r = record r {
  embed_status = EmbedStatus.leased;
  leased_by_worker_id = some worker;
  lease_token = some raw;
  lease_expires_at = some expires;
  attempt_count = r.attempt_count + 1;
}

-- An UPDATE with the rows affected.
abbrev pub update_chunks : (DocumentChunk → Bool) → (DocumentChunk → DocumentChunk) → M ℕ
update_chunks test set =
    execute λ d. (count test d.document_chunks, set_chunks (update test set d.document_chunks) d)

abbrev pub leased_chunk : List (ℕ × Bytes) → Bytes → ℕ → DocumentChunk → LeasedChunk
leased_chunk cols token expires c = record {
  chunk = record {
    id = c.id;
    document_id = c.document_id;
    chunk_index = c.chunk_index;
    text = c.text;
    token_count = c.token_count;
    vector_id = [];
    embed_status = EmbedStatus.leased;
    collection = lookup cols c.document_id;
  };
  lease = record { chunk_id = c.id; token = token; expires_at = expires };
}

module _ (sign : Sign) (worker expires : ℕ) (cols : List (ℕ × Bytes)) where
  -- The loop over the picks.
  unfoldable pub lease_each : List DocumentChunk → List LeasedChunk → M (List LeasedChunk)
  lease_each [] out = pure out
  lease_each (c ∷ cs) out = do
    n ← update_chunks (is_free c.id) (leased_row worker (sign c.id expires).1 expires)
    lease_each cs
        (if n == 0 then out else out ++ leased_chunk cols (sign c.id expires).0 expires c ∷ [])

-- The callback of `ReserveBatch`, from the rows that it has read.
unfoldable pub lease_picks : Sign → ℕ → ℕ → List DocumentChunk → M (List LeasedChunk)
unfolding lease_each collections
lease_picks sign worker expires [] = pure []
lease_picks sign worker expires (p ∷ ps) = do
  cols ← query (collections (p ∷ ps))
  lease_each sign worker expires cols (p ∷ ps) []

unfoldable pub reserve_batch : Engine → Sign → ℕ → ℕ → ℕ → ℕ → M (List LeasedChunk)
unfolding picks lease_picks
reserve_batch e sign now worker batch ttl =
    if leb batch 0
    then pure []
    else write_tx do ps ← query (picks e batch); lease_picks sign worker (now + ttl) ps

-- `id = ? AND embed_status = 'leased' AND lease_token = ?`
unfoldable pub holds : Bytes → Bytes → DocumentChunk → Bool
holds h t r =
    bytes_eq r.id h && embed_status_eq r.embed_status EmbedStatus.leased && token_is t r.lease_token

unfoldable pub embedded : Bytes → DocumentChunk → DocumentChunk
embedded vector r = record r {
  embed_status = EmbedStatus.done;
  vector_id = some vector;
  lease_token = none;
  lease_expires_at = none;
  leased_by_worker_id = none;
}

unfoldable pub mark_embedded : Bytes → Bytes → Bytes → M (Unit {0})
mark_embedded h vector t = statement λ d.
    if count (holds h t) d.document_chunks == 0
    then (err lease_not_held, d)
    else (ok tt, set_chunks (update (holds h t) (embedded vector) d.document_chunks) d)

unfoldable pub find_row : Bytes → M DocumentChunk
find_row h = statement λ d. elim (first (has_id h) d.document_chunks) [
  | some m ↦ (ok m, d)
  | none ↦ (err record_not_found, d)
]

unfoldable pub failed_row : DocumentChunk → DocumentChunk → DocumentChunk
failed_row m r = record r {
  embed_status = if leb 3 m.attempt_count then EmbedStatus.failed else EmbedStatus.pending;
  lease_token = none;
  lease_expires_at = none;
  leased_by_worker_id = none;
}

-- The callback of `MarkEmbedFailed`, from the row that it has read.
unfoldable pub record_failure : Bytes → Bytes → DocumentChunk → M (Unit {0})
record_failure h t m =
    if token_held t m.lease_token
    then execute (λ d. (tt, set_chunks (update (has_id h) (failed_row m) d.document_chunks) d))
    else fail lease_not_held

-- The reason is not stored.
unfoldable pub mark_embed_failed : Bytes → Bytes → Bytes → M (Unit {0})
unfolding find_row record_failure
mark_embed_failed h t reason = write_tx do m ← find_row h; record_failure h t m

unfoldable pub released : DocumentChunk → DocumentChunk
released r = record r {
  embed_status = EmbedStatus.pending;
  lease_token = none;
  lease_expires_at = none;
  leased_by_worker_id = none;
}

unfoldable pub is_expired : ℕ → DocumentChunk → Bool
is_expired now r =
    embed_status_eq r.embed_status EmbedStatus.leased && before now r.lease_expires_at

unfoldable pub sweep_expired : ℕ → M ℕ
sweep_expired now = update_chunks (is_expired now) released

abbrev pub status_matches : Option EmbedStatus → EmbedStatus → Bool
status_matches none s = true
status_matches (some f) s = embed_status_eq s f

unfoldable pub filter_matches : RequeueFilter → DocumentChunk → Bool
filter_matches f r =
    status_matches f.status r.embed_status
    && (if ltb 0 f.worker_id then id_is f.worker_id r.leased_by_worker_id else true)
    && (if ltb 0 f.document_id then r.document_id == f.document_id else true)

-- gorm refuses an UPDATE with no condition.
abbrev pub has_condition : RequeueFilter → Bool
has_condition f =
    (elim f.status [ none ↦ false | some _ ↦ true ]) || ltb 0 f.worker_id || ltb 0 f.document_id

unfoldable pub requeue_by_filter : RequeueFilter → M ℕ
requeue_by_filter f =
    if has_condition f then update_chunks (filter_matches f) released else fail missing_where
