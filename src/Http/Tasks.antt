-- ===== src/Http/Tasks.antt =====
-- The handlers of internal/infra/http/tasks.go behind the authentication.
use crawlerv.Prelude.{
  ℕ, zero, suc, ◌+◌, ◌/◌, ◌%◌, Bool, ◌&&◌, Option, none, some, List, [], ◌∷◌, ◌++◌, map, Bytes,
  codes, leb, ◌==◌, if◌then◌else◌, true,
}
use crawlerv.Store.World.{Result, ok, err, panic, M, pure, fail, ◌>>=◌, caught}
use crawlerv.LeaseSigner.Token.{unix}
use crawlerv.ProcessingRepo.Types.{LeasedTask}
use crawlerv.Dispatcher.Triggers.{Dispatcher}
use crawlerv.Workers.Policy.{Worker, can, effective_batch}
use crawlerv.Services.Tasks.{
  TaskSvc, Reads, reserve, task_heartbeat, accept_text, accept_blob, task_failure,
}
use crawlerv.Http.Jobs.{claimed_sha}
use crawlerv.Http.Replies.{
  Reply, answered, rejected, Body, absent, unreadable, decoded, reject, with_optional, with_body,
  or_reject,
}

-- `itoa64` of a number that is not negative, in its buffer of 20 bytes.
unfoldable pub digits : ℕ → ℕ → Bytes → Bytes
digits zero n out = out
digits (suc room) n out =
    let rest = digits room (n / 10) ((48 + n % 10) ∷ out) in if n == 0 then out else rest

unfoldable pub itoa64 : ℕ → Bytes
unfolding digits
itoa64 n = if n == 0 then codes "0" else digits 20 n []

unfoldable pub blob_url : ℕ → Bytes
unfolding itoa64
blob_url id = codes "/v1/blobs/" ++ itoa64 id

pub record TaskDto : Type 0 where
  pub task_id : ℕ
  pub processor : Bytes
  pub lake_object_id : ℕ
  pub blob_address : Bytes
  pub blob_content_type : Bytes
  pub blob_size_bytes : ℕ
  pub attempt_count : ℕ
  pub lease_token : Bytes
  pub lease_expires_at : ℕ

pub record ReserveReq : Type 0 where
  pub kinds : List Bytes
  pub batch : ℕ

pub record HeartbeatReq : Type 0 where
  pub task_id : ℕ
  pub lease_token : Bytes

pub record FailReq : Type 0 where
  pub task_id : ℕ
  pub lease_token : Bytes
  pub error_code : Bytes
  pub error_message : Bytes
  pub retryable : Bool

pub record ResultMeta : Type 0 where
  pub task_id : ℕ
  pub lease_token : Bytes
  pub extracted_text : Bytes
  pub language : Bytes
  pub page_count : ℕ
  pub output_content_type : Bytes
  pub output_sha256 : Bytes
  pub next_processor : Bytes

-- The form's file is missing, cannot be opened, or is there.
pub record ResultForm : Type 0 where
  pub meta : Body ResultMeta
  pub blob : Body Bytes

unfoldable pub task_dto : LeasedTask → TaskDto
unfolding blob_url
task_dto lt = record {
  task_id = lt.job.id;
  processor = lt.job.processor;
  lake_object_id = lt.job.lake_object_id;
  blob_address = blob_url lt.job.lake_object_id;
  blob_content_type = lt.blob_content_type;
  blob_size_bytes = lt.blob_size_bytes;
  attempt_count = lt.job.attempt_count;
  lease_token = lt.lease_token;
  lease_expires_at = unix lt.lease_expires_at;
}

unfoldable pub can_all : Worker → List Bytes → Bool
unfolding can
can_all k [] = true
can_all k (x ∷ xs) = can k x && can_all k xs

-- `errorCode: message`
abbrev pub coded : Bytes → Bytes → Bytes
coded [] message = message
coded (c ∷ cs) message = (c ∷ cs) ++ codes ": " ++ message

module _ (s : TaskSvc) (t : Reads) where
  unfoldable pub task_reserve_handler : Option Worker → Body ReserveReq → M (Reply (List TaskDto))
  unfolding can_all reserve task_dto effective_batch
  task_reserve_handler none body = reject 401 (codes "no_worker")
  task_reserve_handler (some k) body =
      with_optional (record { kinds = []; batch = 0 }) body
        λ req.
          if can_all k req.kinds
          then or_reject 500 (codes "cap_check")
              (effective_batch k (if leb req.batch 0 then 4 else req.batch))
              (λ batch.
                if batch == 0
                then pure (answered [])
                else or_reject 500 (codes "reserve_failed") (reserve s t k.id req.kinds batch)
                    (λ leased. pure (answered (map task_dto leased))))
          else reject 403 (codes "capability_denied")

  -- Answers the seconds of the new expiry.
  unfoldable pub task_heartbeat_handler : Body HeartbeatReq → M (Reply ℕ)
  unfolding task_heartbeat
  task_heartbeat_handler body = with_body body λ req.
      or_reject 409 (codes "heartbeat_failed") (task_heartbeat s t req.task_id req.lease_token)
        (λ expires. pure (answered (unix expires)))

  unfoldable pub task_fail_handler : Body FailReq → M (Reply (Unit {0}))
  unfolding task_failure
  task_fail_handler body = with_body body λ req.
      or_reject 409 (codes "fail_failed")
        (task_failure s t req.task_id req.lease_token (coded req.error_code req.error_message)
          req.retryable)
        (λ _. pure (answered tt))

  module _ (d : Option Dispatcher) where
    -- The id of the new object, if the result is a blob.
    abbrev pub Answer : Type 0
    Answer = Reply (Option ℕ) × Option Dispatcher

    abbrev pub kept : Reply (Option ℕ) → M Answer
    kept r = pure (r, d)

    -- The service fails only before it fires, so that an error leaves the dispatcher's cache.
    abbrev pub blob_reply : Result (ℕ × Option Dispatcher) → M Answer
    blob_reply (ok (id, d')) = pure (answered (some id), d')
    blob_reply (err panic) = fail panic
    blob_reply (err _) = kept (rejected 409 (codes "result_failed"))

    abbrev pub text_reply : Result (Unit {0}) → M Answer
    text_reply (ok _) = kept (answered none)
    text_reply (err panic) = fail panic
    text_reply (err _) = kept (rejected 409 (codes "result_failed"))

    abbrev pub blob_result : ResultMeta → Bytes → Option Bytes → M Answer
    blob_result m blob none = kept (rejected 400 (codes "bad_sha"))
    blob_result m blob (some sha) =
        caught (
          accept_blob s t d (record {
            task_id = m.task_id;
            lease_token = m.lease_token;
            output_content_type = m.output_content_type;
            output_body = blob;
            output_sha256 = sha;
            next_processor = m.next_processor;
          }))
        >>= blob_reply

    abbrev pub text_result : ResultMeta → M Answer
    text_result m =
        caught (
          accept_text s t (record {
            task_id = m.task_id;
            lease_token = m.lease_token;
            text = m.extracted_text;
            language = m.language;
            page_count = m.page_count;
          }))
        >>= text_reply

    abbrev pub read_form : Body ResultMeta → Body Bytes → M Answer
    read_form absent blob = kept (rejected 400 (codes "missing_meta"))
    read_form unreadable blob = kept (rejected 400 (codes "bad_meta"))
    read_form (decoded m) unreadable = kept (rejected 400 (codes "blob_error"))
    read_form (decoded m) absent = text_result m
    read_form (decoded m) (decoded blob) = blob_result m blob (claimed_sha m.output_sha256)

    -- `none` is a form that does not parse.
    unfoldable pub task_result_handler : Option ResultForm → M Answer
    unfolding accept_blob accept_text claimed_sha
    task_result_handler none = kept (rejected 400 (codes "bad_multipart"))
    task_result_handler (some f) = read_form f.meta f.blob
