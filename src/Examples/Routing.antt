-- ===== src/Examples/Routing.antt =====
-- Triggers and worker headroom at concrete inputs.
use crawlerv.Prelude.{
  ℕ, ◌+◌, ◌≤◌, ◌≡◌, refl, ◌⊎◌, true, false, none, some, List, [], ◌∷◌, ◌++◌, Bytes, codes, max,
}
use crawlerv.Store.Sql.{count}
use crawlerv.Store.World.{World}
use crawlerv.Dispatcher.Triggers.{Trigger, EventPayload, Codec, build, Dispatcher, fire_each}
use crawlerv.Store.Rows.{ProcessingJob}
use crawlerv.Dispatcher.Cached.{Look}
use crawlerv.Dispatcher.Fired.{Fired, fire_tasks}
use crawlerv.Workers.Policy.{Worker, held_by, effective_batch}
use crawlerv.Workers.Headroom.{effective_batch_bounds}
use crawlerv.Examples.Fixtures.{crawl_db, steady}

rule : Trigger
rule = record {
  id = 1;
  when_event = codes "lake_object_inserted";
  when_filter = [];
  enqueue_kind = codes "html_strip";
  enabled = true;
}

off : Trigger
off = record {
  id = 2;
  when_event = codes "lake_object_inserted";
  when_filter = [];
  enqueue_kind = codes "pdf_ocr";
  enabled = false;
}

dispatcher : Dispatcher
dispatcher = record { cache_ttl = 5; cache = build (rule ∷ off ∷ []) []; expires = 10 }

abbrev inserted_event : Bytes
inserted_event = codes "lake_object_inserted"

-- Reads the table at 12; the cache lives until 17.
abbrev start : Look
start = record {
  first = 11;
  locked = 11;
  read = 12;
  listed = some (off ∷ rule ∷ []);
  event = inserted_event;
}

abbrev soon : Look
soon = record { first = 17; locked = 17; read = 17; listed = some []; event = inserted_event }

abbrev late : Look
late = record {
  first = 18;
  locked = 18;
  read = 18;
  listed = some (off ∷ []);
  event = inserted_event;
}

codec : Codec
codec = record { unmarshal = λ b. none; to_lower = λ b. b }

payload : EventPayload
payload = record { lake_object_id = 5; content_type = codes "text/html"; source_processor = [] }

fire_tasks_example :
    (rs : List ProcessingJob) × ((fire_each codec 20 payload
        (rule ∷ [])
        (steady crawl_db)).db.processing_jobs
      ≡ crawl_db.processing_jobs ++ rs)
    × Fired codec payload (rule ∷ []) rs
fire_tasks_example = fire_tasks codec 20 payload (rule ∷ []) (steady crawl_db) refl

-- Holds one lease of two.
worker : Worker
worker = record {
  id = 3;
  pat_hash = [];
  label = [];
  ip_last = [];
  reputation_score = 0;
  banned_at = none;
  created_at = 0;
  capabilities = [];
  max_concurrent = 2;
  last_seen_at = none;
}

abbrev one_task : ℕ
one_task = 1

effective_batch_bounds_example :
    (1 ≤ max 1 10)
    × ((worker.max_concurrent ≡ 0)
        ⊎ ((one_task + held_by worker.id crawl_db ≤ worker.max_concurrent) ⊎ (one_task ≡ 0)))
unfolding worker effective_batch crawlerv.Store.World.◌>>=◌ crawlerv.Store.World.query
    crawlerv.Store.World.pure count
effective_batch_bounds_example =
    effective_batch_bounds worker 10 1 (steady crawl_db) (steady crawl_db) refl
