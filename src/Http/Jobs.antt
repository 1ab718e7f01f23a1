-- ===== src/Http/Jobs.antt =====
-- The handlers of internal/infra/http/jobs.go behind the authentication.
use crawlerv.Prelude.{
  ℕ, Bool, Option, none, some, List, [], ◌∷◌, map, Bytes, codes, leb, ◌==◌, if◌then◌else◌, take,
}
use crawlerv.Store.World.{Result, ok, err, panic, M, pure, fail, ◌>>=◌, caught}
use crawlerv.LeaseSigner.Token.{unix}
use crawlerv.LeaseSigner.Service.{service_heartbeat, accept_failure}
use crawlerv.FrontierRepo.Types.{LeasedJob, Failure}
use crawlerv.FrontierRepo.Pick.{Driver, Engine}
use crawlerv.Dispatcher.Triggers.{Dispatcher}
use crawlerv.Workers.Policy.{Worker, is_banned, can, effective_batch, count_held_leases}
use crawlerv.Services.Crawl.{Service, Reads, DiscoveredLink, reserve_jobs, accept_result}
use crawlerv.Http.Hex.{hex_lower, hex_decode}
use crawlerv.Http.Replies.{
  Reply, answered, rejected, Body, absent, unreadable, decoded, reject, with_optional, with_body,
  or_reject,
}

pub record JobDto : Type 0 where
  pub job_id : Bytes
  pub url : Bytes
  pub canonical_url : Bytes
  pub depth : ℕ
  pub attempt_count : ℕ
  pub lease_token : Bytes
  pub lease_expires : ℕ
  pub max_body_bytes : ℕ

pub record FailReq : Type 0 where
  pub lease_token : Bytes
  pub failure : Failure

pub record ResultMeta : Type 0 where
  pub lease_token : Bytes
  pub http_status : ℕ
  pub content_type : Bytes
  pub content_sha256 : Bytes
  pub discovered_links : List DiscoveredLink

-- The multipart form of a result.
pub record ResultForm : Type 0 where
  pub meta : Body ResultMeta
  pub blob : Option Bytes

unfoldable pub job_dto : ℕ → LeasedJob → JobDto
unfolding hex_lower
job_dto max_body lj = record {
  job_id = hex_lower lj.job.url_hash;
  url = lj.job.url;
  canonical_url = lj.job.canonical_url;
  depth = lj.job.depth;
  attempt_count = lj.job.attempt_count;
  lease_token = lj.lease.token;
  lease_expires = unix lj.lease.expires_at;
  max_body_bytes = max_body;
}

-- The digest that the worker claims; the empty text claims none.
unfoldable pub claimed_sha : Bytes → Option Bytes
unfolding hex_decode
claimed_sha [] = some []
claimed_sha (c ∷ cs) = hex_decode (c ∷ cs)

-- `backoff` and `extend` are of the service's Config.
module _ (s : Service) (max_body extend backoff : ℕ) where
  -- The decoded body is the batch that is asked for; the capabilities in it are not used.
  unfoldable pub reserve_handler :
      Engine → Driver → ℕ → ℕ → Option Worker → Body ℕ → M (Reply (List JobDto))
  unfolding reserve_jobs job_dto can effective_batch
  reserve_handler e driver now db_now none body = reject 401 (codes "no_worker")
  reserve_handler e driver now db_now (some k) body =
      if can k (codes "crawl")
      then with_optional 0 body (λ asked.
        or_reject 500 (codes "cap_check")
          (effective_batch k (if leb asked 0 then s.default_batch else asked))
          (λ batch.
            if batch == 0
            then pure (answered [])
            else or_reject 500 (codes "reserve_failed")
                (reserve_jobs s e driver now db_now k.id k.capabilities batch)
                (λ leased. pure (answered (map (job_dto max_body) leased)))))
      else reject 403 (codes "capability_denied")

  -- Answers the seconds of the new expiry.
  unfoldable pub heartbeat_handler : ℕ → Body Bytes → M (Reply ℕ)
  unfolding service_heartbeat
  heartbeat_handler now body = with_body body λ token.
      or_reject 409 (codes "heartbeat_failed")
        (service_heartbeat s.crypto s.secret now extend token)
        (λ expires. pure (answered (unix expires)))

  unfoldable pub fail_handler : ℕ → Body FailReq → M (Reply (Unit {0}))
  unfolding accept_failure
  fail_handler now body = with_body body λ req.
      or_reject 409 (codes "fail_failed")
        (accept_failure s.crypto s.secret now backoff req.lease_token req.failure)
        (λ _. pure (answered tt))

  module _ (t : Reads) (d : Option Dispatcher) where
    abbrev pub kept : Reply ℕ → M (Reply ℕ × Option Dispatcher)
    kept r = pure (r, d)

    -- The service fails only before it fires, so that an error leaves the dispatcher's cache.
    abbrev pub accepted_reply : Result (ℕ × Option Dispatcher) → M (Reply ℕ × Option Dispatcher)
    accepted_reply (ok (id, d')) = pure (answered id, d')
    accepted_reply (err panic) = fail panic
    accepted_reply (err _) = kept (rejected 409 (codes "result_failed"))

    -- The blob is cut at the limit.
    abbrev pub accept_blob_of : ResultMeta → Bytes → Option Bytes → M (Reply ℕ × Option Dispatcher)
    accept_blob_of m blob none = kept (rejected 400 (codes "bad_sha"))
    accept_blob_of m blob (some claimed) =
        caught (
          accept_result s t d (record {
            lease_token = m.lease_token;
            http_status = m.http_status;
            content_type = m.content_type;
            body = take max_body blob;
            claimed_sha256 = claimed;
            discovered_links = m.discovered_links;
          }))
        >>= accepted_reply

    abbrev pub read_form : Body ResultMeta → Option Bytes → M (Reply ℕ × Option Dispatcher)
    read_form absent blob = kept (rejected 400 (codes "missing_meta"))
    read_form unreadable blob = kept (rejected 400 (codes "bad_meta"))
    read_form (decoded m) none = kept (rejected 400 (codes "missing_blob"))
    read_form (decoded m) (some blob) = accept_blob_of m blob (claimed_sha m.content_sha256)

    -- `none` is a form that does not parse. Answers the lake object's id.
    unfoldable pub result_handler : Option ResultForm → M (Reply ℕ × Option Dispatcher)
    unfolding accept_result claimed_sha
    result_handler none = kept (rejected 400 (codes "bad_multipart"))
    result_handler (some f) = read_form f.meta f.blob

pub record Profile : Type 0 where
  pub worker : Worker
  pub banned : Bool
  pub held : ℕ

abbrev pub or_zero : Result ℕ → ℕ
or_zero (ok n) = n
or_zero (err _) = 0

-- The leases held read as 0 if they cannot be counted.
unfoldable pub me_handler : Option Worker → M (Reply Profile)
unfolding count_held_leases
me_handler none = reject 401 (codes "no_worker")
me_handler (some k) = do
  held ← caught (count_held_leases k.id)
  pure (answered (record { worker = k; banned = is_banned k; held = or_zero held }))
