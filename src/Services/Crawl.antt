-- ===== src/Services/Crawl.antt =====
-- Service (internal/app/service.go): what crawl workers call, beside LeaseSigner/Service.antt.
use crawlerv.Prelude.{
  ℕ, Bool, not, ◌&&◌, Option, none, some, List, [], ◌∷◌, ◌++◌, Bytes, bytes_eq, codes, ltb, leb,
  ◌==◌, if◌then◌else◌, length,
}
use crawlerv.Store.World.{Result, ok, err, M, pure, fail, ◌>>=◌, ◌>>◌, caught, refused}
use crawlerv.Chunker.Split.{pos}
use crawlerv.LeaseSigner.Token.{Crypto, sign, verify, raw_of}
use crawlerv.LeaseSigner.Service.{with_hash, raw_bytes}
use crawlerv.FrontierRepo.Types.{Job, LeasedJob}
use crawlerv.FrontierRepo.Queue.{enqueue_many, complete, sweep_expired}
use crawlerv.FrontierRepo.Pick.{Driver, Engine}
use crawlerv.FrontierRepo.Reserve.{reserve}
use crawlerv.FrontierRepo.Domains.{DomainRow, find_by_host, upsert_by_host}
use crawlerv.Repos.Lake.{insert}
use crawlerv.Dispatcher.Triggers.{Codec, Dispatcher}
use crawlerv.Urls.{Url, Net, canonical, hash}
use crawlerv.Services.Firing.{Clock, fire_if_set}
use crawlerv.Services.Storage.{Blobs, storage_key, or_panic, or_external}
use crawlerv.Services.Tasks.{signature}

-- internal/domain/frontier/job.go
pub record DiscoveredLink : Type 0 where
  pub url : Bytes
  pub new_depth : ℕ

-- The fields of Service and of its Config that the operations read, and the secret of its signer.
pub record Service : Type 1 where
  pub crypto : Crypto
  pub secret : Bytes
  pub net : Net
  pub blobs : Blobs
  pub codec : Codec
  pub lease_ttl : ℕ
  pub default_batch : ℕ
  pub allow_auto_domains : Bool
  pub max_depth : ℕ

pub record Reads : Type 0 where
  pub verified_at : ℕ
  pub written_at : ℕ
  pub finished_at : ℕ
  pub fired_at : Clock

pub record ResultIngest : Type 0 where
  pub lease_token : Bytes
  pub http_status : ℕ
  pub content_type : Bytes
  pub body : Bytes
  pub claimed_sha256 : Bytes
  pub discovered_links : List DiscoveredLink

module _ (s : Service) where
  -- Every hash in the queue has 32 bytes (`urls.Hash`), so that the signer never panics.
  unfoldable pub reserve_jobs : Engine → Driver → ℕ → ℕ → ℕ → List Bytes → ℕ → M (List LeasedJob)
  unfolding sign
  reserve_jobs e driver now db_now worker caps batch =
      reserve e driver (λ h expires. signature (sign s.crypto s.secret h (pos worker) expires)) now
        db_now worker caps (if leb batch 0 then s.default_batch else batch) s.lease_ttl

  unfoldable pub too_deep : DiscoveredLink → Bool
  too_deep l = ltb 0 s.max_depth && ltb s.max_depth l.new_depth

  -- `urls.Canonical`, then the parts of what it answers; a link without a host is dropped.
  unfoldable pub located : DiscoveredLink → Option (Bytes × Url s.net.Rest)
  unfolding canonical
  located l = elim (canonical s.net l.url) [
    | none ↦ none
    | some canon ↦ elim (s.net.parse canon) [
      | none ↦ none
      | some u ↦ if bytes_eq u.host [] then none else some (canon, u)
    ]
  ]

  -- The domain of a host, created if that is allowed; `none` drops the link.
  unfoldable pub domain_of : ℕ → Url s.net.Rest → Option DomainRow → M (Option DomainRow)
  domain_of now u (some dom) = pure (some dom)
  domain_of now u none =
      if s.allow_auto_domains
      then (upsert_by_host now u.host u.scheme 1000 >>= λ dom. pure (some dom))
      else pure none

  abbrev pub dropped : {A : Type 0} → Result (Option A) → Option A
  dropped (ok a) = a
  dropped (err e) = none

  unfoldable pub found_domain : ℕ → Url s.net.Rest → M (Option DomainRow)
  unfolding domain_of
  found_domain now u = do
    r ← caught do dom ← find_by_host u.host; domain_of now u dom
    pure (dropped r)

  unfoldable pub link_job : Bytes → DiscoveredLink → Bytes → DomainRow → Job
  unfolding hash
  link_job parent l canon dom = record {
    url_hash = hash s.net canon;
    url = l.url;
    canonical_url = canon;
    domain_id = dom.id;
    depth = l.new_depth;
    priority = 0;
    attempt_count = 0;
    max_attempts = 5;
    parent_url_hash = parent;
  }

  unfoldable pub active_job : Bytes → DiscoveredLink → Bytes → Option DomainRow → List Job
  unfolding link_job
  active_job parent l canon none = []
  active_job parent l canon (some dom) =
      if dom.is_active then link_job parent l canon dom ∷ [] else []

  -- The body of the loop: at most one job.
  unfoldable pub job_of : ℕ → Bytes → DiscoveredLink → M (List Job)
  unfolding too_deep located found_domain active_job
  job_of now parent l = if too_deep l then pure [] else elim (located l) [
    | none ↦ pure []
    | some at ↦ (found_domain now at.1 >>= λ dom. pure (active_job parent l at.0 dom))
  ]

  unfoldable pub jobs_of : ℕ → Bytes → List DiscoveredLink → M (List Job)
  unfolding job_of
  jobs_of now parent [] = pure []
  jobs_of now parent (l ∷ ls) = do
    j ← job_of now parent l
    js ← jobs_of now parent ls
    pure (j ++ js)

  unfoldable pub enqueue_discovered : ℕ → Bytes → List DiscoveredLink → M ℕ
  unfolding jobs_of
  enqueue_discovered now parent links = do js ← jobs_of now parent links; enqueue_many now js

  abbrev pub is_bad_sha : Bytes → Bool
  is_bad_sha sha = ltb 0 (length sha) && not (length sha == 32)

  -- The blob is stored and indexed before the lease is checked in the table.
  unfoldable pub ingest :
      Reads → Option Dispatcher → Bytes → ResultIngest → M (ℕ × Option Dispatcher)
  unfolding storage_key fire_if_set enqueue_discovered raw_of
  ingest t d h i = do
    key ← or_panic s.blobs (storage_key s.blobs h i.content_type)
    stat ← or_external s.blobs (
        s.blobs.put key i.body
          (record { content_type = i.content_type; sha256 = i.claimed_sha256 }))
    id ← insert t.written_at (record {
      id = 0;
      url_hash = h;
      storage_backend = s.blobs.backend;
      storage_key = key;
      content_type = i.content_type;
      content_sha256 = stat.0;
      file_size = stat.1;
      archived_at = 0;
      migrated_from = [];
    })
    complete t.finished_at h (raw_bytes (raw_of s.crypto s.secret i.lease_token)) i.http_status
    d' ←
        fire_if_set s.codec t.fired_at (codes "lake_object_inserted")
          (record { lake_object_id = id; content_type = i.content_type; source_processor = [] }) d
    n ← caught (enqueue_discovered t.finished_at h i.discovered_links)
    pure (id, d')

  -- Answers the lake object's id and the dispatcher's cache.
  unfoldable pub accept_result :
      Reads → Option Dispatcher → ResultIngest → M (ℕ × Option Dispatcher)
  unfolding ingest verify
  accept_result t d i =
      with_hash s.crypto s.secret (verify s.crypto s.secret t.verified_at i.lease_token)
        λ h. if is_bad_sha i.claimed_sha256 then fail refused else ingest t d h i

  unfoldable pub sweep_expired_leases : ℕ → M ℕ
  sweep_expired_leases now = sweep_expired now
