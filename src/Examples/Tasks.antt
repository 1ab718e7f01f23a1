-- ===== src/Examples/Tasks.antt =====
-- The processing tasks at concrete inputs.
use crawlerv.Prelude.{
  ℕ, ◌≤◌, ◌≡◌, refl, Bool, true, false, none, some, List, [], ◌∷◌, Bytes, codes, All, length, arith,
}
use crawlerv.Store.Rows.{LakeObject, ProcessingJob}
use crawlerv.Store.Sql.{first}
use crawlerv.Store.World.{Db, World, Result, ok, err, driver}
use crawlerv.ProcessingRepo.Types.{Job, LeasedTask}
use crawlerv.ProcessingRepo.Queue.{new_row, has_id, claim_next, running_job}
use crawlerv.ProcessingRepo.Leases.{Sign, reserve_batch, fail_task}
use crawlerv.ProcessingRepo.Calls.{Call, perform, run}
use crawlerv.ProcessingRepo.Invariant.{Inv}
use crawlerv.ProcessingRepo.Atomic.{failed_task_call_keeps}
use crawlerv.ProcessingRepo.Preservation.{task_run-Inv}
use crawlerv.ProcessingRepo.Claimed.{Claimed, claim_next_oldest}
use crawlerv.ProcessingRepo.Offered.{IsOffer, reserve_batch_offers}
use crawlerv.ProcessingRepo.Failing.{Outcome, fail_task_effect}
use crawlerv.Examples.Fixtures.{crawl_db, steady, value}

lake : LakeObject
lake = record {
  id = 5;
  url_hash = 10 ∷ [];
  storage_backend = codes "local";
  storage_key = codes "k";
  content_type = some (codes "text/html");
  content_sha256 = [];
  file_size_bytes = 12;
  archived_at = 0;
  migrated_from = none;
}

tasks_db : Db
tasks_db = record crawl_db {
  processing_jobs = new_row 0 (codes "chunk") 5 1 ∷ new_row 0 (codes "pdf_ocr") 5 2 ∷ [];
  lake_objects = lake ∷ [];
  next_job_id = 3;
}

tasks_db-Inv : Inv tasks_db
unfolding tasks_db new_row
tasks_db-Inv = record {
  keys = (refl, (refl, tt));
  below = (omega arith, (omega arith, tt));
  leases = (record { holder = refl; expiry = refl }, (record { holder = refl; expiry = refl }, tt));
}

like : Bytes → Bytes → Bool
like prefix s = true

task_sign : Sign
task_sign id expires = (id ∷ [], id ∷ expires ∷ [])

task_history : List Call
task_history =
    Call.reserves 10 3 [] 1 60
    ∷ Call.claims 11 (codes "pdf_ocr")
    ∷ Call.fails 20 1 (1 ∷ 70 ∷ []) [] true
    ∷ Call.marks_done 30 2 none
    ∷ Call.enqueues_by_content_type 40 (codes "html_strip") (codes "text/") 0 0
    ∷ Call.sweeps 100
    ∷ []

task_run-Inv_example : Inv (run like task_sign (steady tasks_db) task_history).db
task_run-Inv_example = task_run-Inv like task_sign (steady tasks_db) task_history tasks_db-Inv

lost_tasks : World
lost_tasks = record { db = tasks_db; faults = false ∷ false ∷ false ∷ true ∷ [] }

failed_task_call_keeps_example :
    (perform like task_sign (Call.reserves 10 3 [] 1 60) lost_tasks).1.db ≡ tasks_db
unfolding perform lost_tasks crawlerv.Store.World.◌>>=◌ reserve_batch crawlerv.Store.World.write_tx
    crawlerv.Store.World.query crawlerv.Store.Sql.sort_by crawlerv.Store.Sql.select tasks_db
    crawlerv.ProcessingRepo.Leases.is_wanted new_row crawlerv.Store.World.execute
    crawlerv.Store.Sql.count crawlerv.ProcessingRepo.Queue.is_free
failed_task_call_keeps_example =
    failed_task_call_keeps like task_sign (Call.reserves 10 3 [] 1 60) lost_tasks driver refl

claimed : World
claimed = (claim_next 10 (codes "pdf_ocr") (steady tasks_db)).1

claimed_job : Job
claimed_job = running_job 10 (new_row 0 (codes "pdf_ocr") 5 2)

claim_next_oldest_example : Claimed 10 (codes "pdf_ocr") claimed_job tasks_db claimed.db
unfolding claimed claimed_job claim_next tasks_db crawlerv.Store.World.write_tx
    crawlerv.Store.World.◌>>=◌ crawlerv.Store.World.query crawlerv.Store.Sql.sort_by
    crawlerv.Store.Sql.select new_row crawlerv.Prelude.bytes_eq crawlerv.Store.World.execute
    crawlerv.Store.World.pure crawlerv.Store.Sql.count crawlerv.ProcessingRepo.Queue.is_free
claim_next_oldest_example =
    claim_next_oldest 10 (codes "pdf_ocr") (steady tasks_db) claimed claimed_job refl

offered : Result (List LeasedTask) × World
offered = reserve_batch task_sign 10 3 (codes "chunk" ∷ []) 4 60 (steady tasks_db)

reserve_batch_offers_example :
    All (IsOffer task_sign 70 (codes "chunk" ∷ [])) (value [] offered.0)
    × (length (value [] offered.0) ≤ 4)
unfolding offered reserve_batch tasks_db lake crawlerv.Store.World.write_tx
    crawlerv.Store.World.◌>>=◌ crawlerv.Store.World.query crawlerv.Store.Sql.sort_by
    crawlerv.Store.Sql.select crawlerv.ProcessingRepo.Leases.is_wanted new_row
    crawlerv.Prelude.contains crawlerv.Prelude.bytes_eq crawlerv.Store.World.execute
    crawlerv.Store.Sql.count crawlerv.ProcessingRepo.Queue.is_free first crawlerv.Store.World.pure
reserve_batch_offers_example =
    reserve_batch_offers task_sign 10 3 (codes "chunk" ∷ []) 4 60 (steady tasks_db) offered.1
      (value [] offered.0) refl

failed : World
failed = (fail_task 20 1 (1 ∷ 70 ∷ []) [] true offered.1).1

fail_task_effect_example :
    (m after : ProcessingJob) × (first (has_id 1) offered.1.db.processing_jobs ≡ some m)
    × (m.lease_token ≡ some (1 ∷ 70 ∷ []))
    × (first (has_id 1) failed.db.processing_jobs ≡ some after)
    × Outcome true m after
unfolding failed offered reserve_batch tasks_db lake fail_task crawlerv.Store.World.write_tx
    crawlerv.Store.World.◌>>=◌ crawlerv.Store.World.query crawlerv.Store.Sql.sort_by
    crawlerv.Store.Sql.select crawlerv.ProcessingRepo.Leases.is_wanted new_row
    crawlerv.Prelude.contains crawlerv.Prelude.bytes_eq crawlerv.Store.World.execute
    crawlerv.Store.Sql.count crawlerv.ProcessingRepo.Queue.is_free first crawlerv.Store.World.pure
    crawlerv.Store.Sql.update crawlerv.ProcessingRepo.Leases.leased_row task_sign
    crawlerv.ProcessingRepo.Leases.failed_row crawlerv.ProcessingRepo.Leases.find_lake
    crawlerv.ProcessingRepo.Leases.lease_each crawlerv.ProcessingRepo.Leases.record_failure
    crawlerv.ProcessingRepo.Queue.after_failure crawlerv.ProcessingRepo.Queue.find_row
    crawlerv.ProcessingRepo.Queue.in_order crawlerv.Store.Sql.insert_by crawlerv.Store.World.begin
    crawlerv.Store.World.commit crawlerv.Store.World.fail crawlerv.Store.World.statement
fail_task_effect_example = fail_task_effect 20 1 (1 ∷ 70 ∷ []) [] true offered.1 {w' = failed} refl
