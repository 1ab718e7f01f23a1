-- ===== src/Examples/Chunks.antt =====
-- The chunks and the chunker at concrete inputs.
use crawlerv.Prelude.{
  ◌==◌, ℕ, ◌≡◌, refl, true, false, none, some, List, [], ◌∷◌, ◌++◌, map, Bytes, codes, All, length,
  get_elem?, arith,
}
use crawlerv.Store.Rows.{EmbedStatus, DocumentChunk}
use crawlerv.Store.Sql.{select, delete}
use crawlerv.Store.World.{Db, World, Result, ok, err, unique_violation}
use crawlerv.ChunkRepo.Rows.{new_row, of_document, old_ids, replace_by_document}
use crawlerv.ChunkRepo.Leases.{Engine}
use crawlerv.ChunkRepo.Calls.{Call, perform, run}
use crawlerv.ChunkRepo.Invariant.{Inv}
use crawlerv.ChunkRepo.Atomic.{failed_chunk_call_keeps}
use crawlerv.ChunkRepo.Preservation.{chunk_run-Inv}
use crawlerv.ChunkRepo.Replaced.{IsListing, ArePending, replace_effect}
use crawlerv.ChunkRepo.Types.{Chunk}
use crawlerv.Chunker.Split.{pos, negsuc, Tokenizer, Config, sizes, split}
use crawlerv.Chunker.Pieces.{Cover, split_covers}
use crawlerv.Chunker.Windows.{split_windows, split_short}
use crawlerv.Examples.Fixtures.{crawl_db, steady, value, unchanged, sign}

chunk : Bytes → ℕ → ℕ → Chunk
chunk id doc index = record {
  id = id;
  document_id = doc;
  chunk_index = index;
  text = codes "t";
  token_count = 1;
  vector_id = [];
  embed_status = EmbedStatus.pending;
  collection = [];
}

chunks_db : Db
chunks_db = record crawl_db {
  document_chunks = new_row 0 (chunk (1 ∷ []) 8 0) ∷ new_row 0 (chunk (2 ∷ []) 9 0) ∷ [];
}

chunks_db-Inv : Inv chunks_db
unfolding chunks_db new_row chunk crawlerv.ChunkRepo.Rows.is_taken crawlerv.Prelude.bytes_eq
chunks_db-Inv = record {
  keys = (refl, (refl, tt));
  leases = (
    record { token = refl; holder = refl; expiry = refl },
    (record { token = refl; holder = refl; expiry = refl }, tt),
  );
}

chunk_engine : Engine
chunk_engine = record {
  arrange = λ cs. cs;
  arrange-perm = λ cs. unchanged cs;
  by_id = λ cs. cs;
  by_id-perm = λ cs. unchanged cs;
}

chunk_history : List Call
chunk_history =
    Call.reserves 10 3 1 60
    ∷ Call.marks_embedded (1 ∷ []) (codes "v") (2 ∷ 1 ∷ [])
    ∷ Call.replaces 20 9 (chunk (3 ∷ []) 9 0 ∷ chunk (4 ∷ []) 9 1 ∷ [])
    ∷ Call.sweeps 100
    ∷ []

chunk_run-Inv_example : Inv (run chunk_engine sign (steady chunks_db) chunk_history).db
chunk_run-Inv_example =
    chunk_run-Inv chunk_engine sign (steady chunks_db) chunk_history chunks_db-Inv

-- The fresh chunk takes the id of a chunk of another document.
failed_chunk_call_keeps_example :
    (perform chunk_engine sign
      (Call.replaces 20 9 (chunk (1 ∷ []) 9 0 ∷ []))
      (steady chunks_db)).1.db
    ≡ chunks_db
unfolding perform chunks_db crawlerv.Store.World.◌>>=◌ replace_by_document
    crawlerv.Store.World.write_tx crawlerv.Store.World.query crawlerv.Store.World.execute delete
    new_row chunk crawlerv.Prelude.bytes_eq
failed_chunk_call_keeps_example =
    failed_chunk_call_keeps chunk_engine sign (Call.replaces 20 9 (chunk (1 ∷ []) 9 0 ∷ []))
      (steady chunks_db) unique_violation refl

fresh : List Chunk
fresh = chunk (3 ∷ []) 9 0 ∷ chunk (4 ∷ []) 9 1 ∷ []

replaced : Result (List Bytes) × World
replaced = replace_by_document 20 9 fresh (steady chunks_db)

replace_effect_example :
    ((olds : List DocumentChunk) × IsListing 9 chunks_db.document_chunks olds
      × (value [] replaced.0 ≡ map (λ r. r.id) olds))
    × ((rows : List DocumentChunk) × ArePending 20 fresh rows
        × (replaced.1.db.document_chunks
            ≡ delete (λ (r : DocumentChunk). r.document_id == 9) chunks_db.document_chunks ++ rows)
        × (select (λ (r : DocumentChunk). r.document_id == 9) replaced.1.db.document_chunks ≡ rows))
unfolding replaced replace_by_document chunks_db fresh chunk crawlerv.Store.World.write_tx
    crawlerv.Store.World.◌>>=◌ crawlerv.Store.World.query crawlerv.Store.World.execute delete
    new_row crawlerv.Prelude.bytes_eq crawlerv.Store.World.pure
replace_effect_example =
    replace_effect 20 9 fresh (steady chunks_db) replaced.1 (value [] replaced.0) refl
      (refl, (refl, tt))

-- One token a byte.
bytes : Tokenizer
bytes = record { name = codes "bytes"; encode = λ s. s; decode = λ s. s }

small : Config
small = record { chunk_tokens = pos 2; overlap_prev = pos 1; overlap_next = negsuc 0 }

-- "abcde" in cores of two: the second chunk is "bcd".
split_windows_example :
    get_elem? (split bytes (codes "abcde") small) 1
    ≡ some (record { index = 1; text = codes "bcd"; token_count = 2 })
unfolding bytes small sizes
split_windows_example = split_windows bytes 97 (codes "bcde") small 1

split_covers_example :
    Cover bytes (sizes small) [] (split bytes (codes "abcde") small) (codes "abcde")
unfolding bytes
split_covers_example = split_covers bytes 97 (codes "bcde") small

split_short_example :
    split bytes (codes "ab") small ≡ record { index = 0; text = codes "ab"; token_count = 2 } ∷ []
unfolding bytes small sizes
split_short_example =
    split_short bytes (λ s. s) 97 (codes "b") small (record { round_trip = λ s. refl })
      (omega arith) (omega arith)
