-- ===== src/Examples/Services.antt =====
-- The services at concrete inputs.
use crawlerv.Prelude.{
  ℕ, ◌≡◌, refl, Bool, true, false, Option, none, some, List, [], ◌∷◌, Bytes, codes, All, arith, suc,
}
use crawlerv.Store.Rows.{LakeObject, ExtractedDocument, DocumentChunk, EmbedStatus}
use crawlerv.Store.World.{Db, World, Result, ok, err, is_ok, unique_violation}
use crawlerv.Chunker.Split.{pos, Tokenizer, Config}
use crawlerv.LeaseSigner.Token.{Crypto, sign_task}
use crawlerv.Dispatcher.Triggers.{Codec}
use crawlerv.ProcessingRepo.Queue.{new_row}
use crawlerv.Repos.Extraction.{of_collection}
use crawlerv.Urls.{Net}
use crawlerv.Services.Pipeline.{Pipeline, Run, html_strip, text_passthrough, drain}
use crawlerv.Services.Storage.{Blobs}
use crawlerv.Services.Firing.{Clock}
use crawlerv.Services.Tasks.{TaskSvc, TextResult, signature, accept_text}
use crawlerv.Services.Tasks as Tasks
use crawlerv.Services.Crawl.{Service, enqueue_discovered}
use crawlerv.Services.Rechunk.Pages.{RechunkSvc, RechunkOpts, rechunk}
use crawlerv.Services.Rechunk.Pages as Pages
use crawlerv.Services.Rechunk.Selected.{selected}
use crawlerv.Services.Rechunk.Report.{Rebuilt, rechunk_report}
use crawlerv.Services.Drain.Holds.{is_waiting}
use crawlerv.Services.Drain.Ends.{drain_ends, drain_empties}
use crawlerv.Services.Again.{repeated_text-Refused}
use crawlerv.Services.Scope.Hosts.{RowsInScope}
use crawlerv.Services.Scope.Links.{discovered-InScope}
use crawlerv.Examples.Fixtures.{crawl_db, steady}

abbrev bytes : Tokenizer
bytes = record { name = codes "bytes"; encode = λ s. s; decode = λ s. s }

abbrev small : Config
small = record { chunk_tokens = pos 2; overlap_prev = pos 0; overlap_next = pos 0 }

abbrev page_object : LakeObject
page_object = record {
  id = 5;
  url_hash = 10 ∷ [];
  storage_backend = codes "local";
  storage_key = codes "k";
  content_type = some (codes "text/html");
  content_sha256 = [];
  file_size_bytes = 12;
  archived_at = 0;
  migrated_from = none;
}

-- The first task's object is there, the second's is not.
abbrev queued_db : Db
queued_db = record crawl_db {
  processing_jobs = new_row 0 html_strip 5 1 ∷ new_row 0 text_passthrough 6 2 ∷ [];
  lake_objects = page_object ∷ [];
  next_job_id = 3;
}

abbrev pipeline : Pipeline
pipeline = record {
  chunk_cfg = small;
  tokenizer = bytes;
  config_resolver = none;
  resolver = true;
  internal_processors = html_strip ∷ text_passthrough ∷ [];
  message = λ e. codes "e";
}

abbrev runs : Bytes → ℕ → Run
runs kind n = record {
  claimed_at = 10;
  extracted_at = 11;
  chunked_at = λ i. 12;
  finished_at = 13;
  random = λ i. i ∷ n ∷ 0 ∷ 0 ∷ 0 ∷ 0 ∷ 0 ∷ 0 ∷ 0 ∷ 0 ∷ 0 ∷ 0 ∷ 0 ∷ 0 ∷ 0 ∷ 0 ∷ [];
  blob = λ key. some (codes "text");
  strip = λ body. some body;
  is_blank = λ text. false;
}

drain_ends_example : (v : World) × (drain pipeline runs 9 (steady queued_db) ≡ some v)
unfolding new_row crawlerv.Services.Drain.Budget.budget
drain_ends_example = drain_ends pipeline runs 9 (steady queued_db) (refl, (refl, tt)) (omega arith)

drain_empties_example :
    (v : World) × (drain pipeline runs 9 (steady queued_db) ≡ some v)
    × All (λ r. is_waiting (html_strip ∷ text_passthrough ∷ []) r ≡ false) v.db.processing_jobs
unfolding new_row crawlerv.Services.Drain.Budget.budget
drain_empties_example =
    drain_empties pipeline runs 9 (steady queued_db) (refl, (refl, tt)) (omega arith) refl

abbrev document : ℕ → Bytes → ExtractedDocument
document id text = record {
  id = id;
  source_lake_object_id = id;
  text = text;
  language = none;
  page_count = none;
  extracted_at = 0;
  collection = some (codes "c");
}

abbrev first_chunk : DocumentChunk
first_chunk = record {
  id = codes "x";
  document_id = 5;
  chunk_index = 0;
  text = codes "old";
  token_count = 3;
  vector_id = none;
  embed_status = EmbedStatus.pending;
  leased_by_worker_id = none;
  lease_token = none;
  lease_expires_at = none;
  attempt_count = 0;
  created_at = 0;
}

abbrev chunked_db : Db
chunked_db = record queued_db {
  extracted_documents = document 5 (codes "old") ∷ document 3 (codes "text") ∷ [];
  document_chunks = first_chunk ∷ [];
}

abbrev rechunk_svc : RechunkSvc
rechunk_svc = record { defaults = small; tokenizer = bytes; resolver = none; delete_points = none }

abbrev pages_reads : Pages.Reads
pages_reads = record { replaced_at = λ doc. 20; random = λ doc i. doc ∷ i ∷ [] }

abbrev all_of_it : RechunkOpts
all_of_it = record { since_doc_id = 0; limit = 0; dry_run = false }

rechunk_report_example :
    Rebuilt
      (rechunk rechunk_svc pages_reads 3 (codes "c") all_of_it (steady chunked_db)).0
      (document 3 (codes "text") ∷ document 5 (codes "old") ∷ [])
unfolding of_collection crawlerv.Store.Sql.sort_by crawlerv.Store.Sql.select
    crawlerv.Prelude.bytes_eq selected
rechunk_report_example =
    rechunk_report rechunk_svc pages_reads 3 99 [] all_of_it (steady chunked_db) (refl, (refl, tt))
      (omega arith)

abbrev zeros : Bytes
zeros =
    0 ∷ 0 ∷ 0 ∷ 0 ∷ 0 ∷ 0 ∷ 0 ∷ 0 ∷ 0 ∷ 0 ∷ 0 ∷ 0 ∷ 0 ∷ 0 ∷ 0 ∷ 0 ∷ 0 ∷ 0 ∷ 0 ∷ 0 ∷ 0 ∷ 0 ∷ 0 ∷ 0
    ∷ 0 ∷ 0 ∷ 0 ∷ 0 ∷ 0 ∷ 0 ∷ 0 ∷ 0 ∷ []

abbrev toy : Crypto
toy = record { hmac = λ k b. zeros; sha256 = λ b. zeros; encode = λ b. b; decode = λ b. some b }

abbrev blobs : Blobs
blobs = record {
  backend = codes "local";
  put = λ key body meta. some (codes "h", 1);
  to_lower = λ b. b;
  trim_space = λ b. b;
}

abbrev codec : Codec
codec = record { unmarshal = λ b. none; to_lower = λ b. b }

abbrev task_svc : TaskSvc
task_svc = record {
  crypto = toy;
  secret = [];
  lease_ttl = 600;
  heartbeat_extend = 60;
  chunk_cfg = small;
  tokenizer = bytes;
  config_resolver = none;
  resolver = false;
  blobs = blobs;
  codec = codec;
}

abbrev clock : Clock
clock = record { first = 1; locked = 1; listed = 1; enqueued = 1 }

abbrev task_reads : Tasks.Reads
task_reads = record {
  verified_at = 1;
  written_at = 1;
  chunked_at = λ i. 1;
  finished_at = 1;
  random = λ i. i ∷ [];
  fired_at = clock;
}

abbrev text_result : TextResult
text_result = record {
  task_id = 1;
  lease_token = (signature (sign_task toy [] (pos 1) (pos 3) 100000000)).0;
  text = codes "new";
  language = [];
  page_count = 0;
}

repeated_text-Refused_example :
    is_ok (accept_text task_svc task_reads text_result (steady chunked_db)).0 ≡ false
unfolding crawlerv.Store.Sql.first new_row
repeated_text-Refused_example =
    repeated_text-Refused task_svc task_reads text_result (steady chunked_db)
      (new_row 0 html_strip 5 1) (document 5 (codes "old")) first_chunk 110 (101 ∷ 119 ∷ []) 110
      (101 ∷ 119 ∷ []) refl refl refl refl refl

-- The token is good: it is the chunks that are refused.
repeated_text_clashes :
    (accept_text task_svc task_reads text_result (steady chunked_db)).0 ≡ err unique_violation
unfolding accept_text crawlerv.Store.World.◌>>=◌ sign_task crawlerv.Prelude.bytes_eq
    crawlerv.Store.World.pure crawlerv.ProcessingRepo.Queue.get_by_id crawlerv.Store.World.query
    crawlerv.Store.Sql.first new_row crawlerv.Services.Collections.resolve_collection
    crawlerv.Repos.Extraction.upsert crawlerv.Store.World.write_tx crawlerv.Store.World.execute
    crawlerv.ChunkRepo.Rows.insert_many crawlerv.Chunker.Split.split crawlerv.ChunkRepo.Rows.new_row
repeated_text_clashes = refl

-- A toy of the packages: a URL is a host.
abbrev net : Net
net = record {
  Rest = Unit {0};
  parse = λ b. some (record {
    scheme = codes "https";
    host = b;
    path = codes "/";
    raw_query = [];
    fragment = [];
    rest = tt;
  });
  print = λ u. u.host;
  query = λ q. [];
  query_escape = λ s. s;
  sort_keys = λ ks. ks;
  sort_strings = λ ss. ss;
  to_lower = λ b. b;
  trim_space = λ b. b;
  sha256 = λ b. b;
}

abbrev crawl_service : Service
crawl_service = record {
  crypto = toy;
  secret = [];
  net = net;
  blobs = blobs;
  codec = codec;
  lease_ttl = 600;
  default_batch = 10;
  allow_auto_domains = false;
  max_depth = 2;
}

discovered-InScope_example :
    ((enqueue_discovered crawl_service 9
        (10 ∷ [])
        (record { url = codes "a.lt"; new_depth = 1 }
          ∷ record { url = codes "b.lt"; new_depth = 1 }
          ∷ [])
        (steady crawl_db)).1.db.domains
      ≡ crawl_db.domains)
    × RowsInScope crawl_service
        (enqueue_discovered crawl_service 9
          (10 ∷ [])
          (record { url = codes "a.lt"; new_depth = 1 }
            ∷ record { url = codes "b.lt"; new_depth = 1 }
            ∷ [])
          (steady crawl_db)).1.db
unfolding crawlerv.Services.Scope.Hosts.is_in_scope crawlerv.Store.Sql.count
discovered-InScope_example =
    discovered-InScope crawl_service 9 (10 ∷ []) _ (steady crawl_db) refl (refl, (refl, (refl, tt)))
