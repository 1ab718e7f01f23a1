-- ===== src/ChunkRepo/Rows.antt =====
-- ChunkRepo: InsertMany and ReplaceByDocument.
use crawlerv.Prelude.{
  ℕ, Bool, false, ◌&&◌, ◌||◌, Option, none, some, List, [], ◌∷◌, ◌++◌, map, Bytes, bytes_eq, ◌==◌,
  if◌then◌else◌,
}
use crawlerv.Store.Rows.{EmbedStatus, DocumentChunk}
use crawlerv.Store.Sql.{select, delete, sort_by}
use crawlerv.Store.World.{
  Db, Result, ok, err, M, pure, ◌>>=◌, ◌>>◌, query, execute, statement, write_tx, unique_violation,
}
use crawlerv.ChunkRepo.Types.{Chunk}

abbrev pub set_chunks : List DocumentChunk → Db → Db
set_chunks rows d = record d { document_chunks = rows }

-- The row that the inserts make of a chunk.
unfoldable pub new_row : ℕ → Chunk → DocumentChunk
new_row now c = record {
  id = c.id;
  document_id = c.document_id;
  chunk_index = c.chunk_index;
  text = c.text;
  token_count = c.token_count;
  vector_id = none;
  embed_status = EmbedStatus.pending;
  leased_by_worker_id = none;
  lease_token = none;
  lease_expires_at = none;
  attempt_count = 0;
  created_at = now;
}

-- The primary key and UNIQUE(document_id, chunk_index).
abbrev pub Key : Type 0
Key = Bytes × ℕ × ℕ

abbrev pub key : DocumentChunk → Key
key r = (r.id, r.document_id, r.chunk_index)

unfoldable pub clash : Key → Key → Bool
clash a b = bytes_eq a.0 b.0 || (a.1 == b.1 && a.2 == b.2)

unfoldable pub is_taken : List Key → Key → Bool
unfolding clash
is_taken [] k = false
is_taken (x ∷ xs) k = clash x k || is_taken xs k

-- An INSERT of several rows: all of them, or none if a key is taken.
unfoldable pub insert_rows : List DocumentChunk → List DocumentChunk → Option (List DocumentChunk)
unfolding is_taken
insert_rows [] rows = some rows
insert_rows (m ∷ ms) rows =
    let rest = insert_rows ms (rows ++ m ∷ []) in
    if is_taken (map key rows) (key m) then none else rest

abbrev pub inserted_db : Db → Option (List DocumentChunk) → Result (Unit {0}) × Db
inserted_db d none = (err unique_violation, d)
inserted_db d (some rows) = (ok tt, set_chunks rows d)

-- The batches of 500 rows are inserted in one transaction of the ORM.
unfoldable pub create_rows : List DocumentChunk → M (Unit {0})
unfolding insert_rows
create_rows ms = statement λ d. inserted_db d (insert_rows ms d.document_chunks)

-- `time.Now()` is read for each chunk: the instants stand beside the chunks.
abbrev pub new_rows : List (Chunk × ℕ) → List DocumentChunk
new_rows [] = []
new_rows (c ∷ cs) = new_row c.1 c.0 ∷ new_rows cs

unfoldable pub insert_many : List (Chunk × ℕ) → M (Unit {0})
unfolding create_rows
insert_many [] = pure tt
insert_many (c ∷ cs) = create_rows (new_rows (c ∷ cs))

abbrev pub of_document : ℕ → DocumentChunk → Bool
of_document doc r = r.document_id == doc

-- `Order("chunk_index ASC")`, then `Pluck("id")`.
unfoldable pub old_ids : ℕ → Db → List Bytes
old_ids doc d =
    map (λ r. r.id) (sort_by (λ r. r.chunk_index) (select (of_document doc) d.document_chunks))

unfoldable pub delete_document : ℕ → M (Unit {0})
delete_document doc = execute λ d. (tt, set_chunks (delete (of_document doc) d.document_chunks) d)

unfoldable pub insert_fresh : ℕ → List Chunk → M (Unit {0})
unfolding create_rows
insert_fresh now [] = pure tt
insert_fresh now (c ∷ cs) = create_rows (map (new_row now) (c ∷ cs))

unfoldable pub replace_by_document : ℕ → ℕ → List Chunk → M (List Bytes)
unfolding old_ids delete_document insert_fresh
replace_by_document now doc fresh =
    write_tx do ids ← query (old_ids doc); delete_document doc; insert_fresh now fresh; pure ids
