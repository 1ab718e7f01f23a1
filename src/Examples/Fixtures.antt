-- ===== src/Examples/Fixtures.antt =====
-- The tables, engines and signers that the runs share.
use crawlerv.Prelude.{refl, contains, bytes_eq, true, none, some, List, [], ◌∷◌, Bytes, codes}
use mathlib.Core.List.{Permᴰ}
use crawlerv.Store.Rows.{Domain, Frontier, queued, leased}
use crawlerv.Store.World.{Db, World, Result, ok, err}
use crawlerv.FrontierRepo.Types.{Failure}
use crawlerv.FrontierRepo.Pick.{Engine}
use crawlerv.FrontierRepo.Reserve.{Sign}
use crawlerv.FrontierRepo.Invariant.{Inv}

abbrev pub site : Domain
site = record {
  id = 1;
  host = codes "a.lt";
  scheme = codes "https";
  is_active = true;
  crawl_delay_ms = 1000;
  parallel_fetches = 1;
  robots_body = none;
  robots_fetched_at = none;
  last_request_at = none;
  created_at = 0;
  embed_collection = none;
  required_capability = none;
}

abbrev pub waiting : Bytes → Frontier
waiting h = record {
  url_hash = h;
  url = codes "u";
  canonical_url = codes "u";
  domain_id = 1;
  depth = 0;
  priority = 0;
  status = queued;
  leased_by_worker_id = none;
  lease_token = none;
  lease_expires_at = none;
  attempt_count = 0;
  max_attempts = 5;
  next_retry_at = none;
  scheduled_for = 0;
  discovered_at = 0;
  completed_at = none;
  parent_url_hash = [];
  http_status = none;
  error_code = none;
  error_message = none;
}

-- Leased to worker 3 until 100, under the token 7.
abbrev pub taken : Frontier
taken = record (waiting (30 ∷ [])) {
  status = leased;
  leased_by_worker_id = some 3;
  lease_token = some (7 ∷ []);
  lease_expires_at = some 100;
}

abbrev pub crawl_db : Db
crawl_db = record {
  domains = site ∷ [];
  crawl_frontier = waiting (10 ∷ []) ∷ waiting (20 ∷ []) ∷ taken ∷ [];
  processing_jobs = [];
  document_chunks = [];
  lake_objects = [];
  extracted_documents = [];
  collections = [];
  capabilities = [];
  pipeline_triggers = [];
  workers = [];
  next_domain_id = 2;
  next_job_id = 1;
  next_lake_id = 1;
  next_document_id = 1;
  next_trigger_id = 1;
  next_worker_id = 1;
}

-- Every statement succeeds.
abbrev pub steady : Db → World
steady d = record { db = d; faults = [] }

pub unchanged : {A : Type 0} (xs : List A) → Permᴰ xs xs
unchanged [] = Permᴰ.nil
unchanged (x ∷ xs) = Permᴰ.cons refl (unchanged xs)

abbrev pub engine : Engine
engine = record {
  arrange = λ cs. cs;
  arrange-perm = λ cs. unchanged cs;
  emit = λ cs. cs;
  emit-perm = λ cs. unchanged cs;
}

abbrev pub sign : Sign
sign h expires = (1 ∷ h, 2 ∷ h)

abbrev pub failure : Failure
failure = record {
  http_status = 500;
  error_code = codes "e";
  error_message = codes "m";
  retryable = true;
}

abbrev pub value : {A : Type 0} → A → Result A → A
value d (ok a) = a
value d (err e) = d

pub crawl_db-Inv : Inv crawl_db
unfolding contains bytes_eq
crawl_db-Inv = record {
  keys = (refl, (refl, (refl, tt)));
  leases = (
    record { token = refl; holder = refl; expiry = refl },
    (
      record { token = refl; holder = refl; expiry = refl },
      (record { token = refl; holder = refl; expiry = refl }, tt),
    ),
  );
}
