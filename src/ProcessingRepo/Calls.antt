-- ===== src/ProcessingRepo/Calls.antt =====
-- The calls of ProcessingRepo that write, as data, and histories of them. A call that fails is part
-- of a history like any other.
use crawlerv.Prelude.{ℕ, Bool, Option, List, [], ◌∷◌, Bytes}
use crawlerv.Store.World.{M, World}
use crawlerv.FrontierRepo.Calls.{ignore}
use crawlerv.ProcessingRepo.Types.{TaskRequeueFilter}
use crawlerv.ProcessingRepo.Queue.{
  enqueue, claim_next, mark_done, mark_failed, mark_skipped, bulk_enqueue_by_lake_ids,
  bulk_enqueue_by_content_type,
}
use crawlerv.ProcessingRepo.Leases.{
  Sign, reserve_batch, heartbeat, complete, fail_task, requeue_by_filter, sweep_expired,
}

pub data Call : Type 0 where
  enqueues : (now lake_id : ℕ) (processor : Bytes) → Call
  claims : (now : ℕ) (processor : Bytes) → Call
  marks_done : (now id : ℕ) (output : Option ℕ) → Call
  marks_failed : (now id : ℕ) (message : Bytes) → Call
  marks_skipped : (now id : ℕ) (reason : Bytes) → Call
  enqueues_many : (now : ℕ) (processor : Bytes) (lake_ids : List ℕ) → Call
  enqueues_by_content_type : (now : ℕ) (processor prefix : Bytes) (since limit : ℕ) → Call
  reserves : (now worker : ℕ) (kinds : List Bytes) (batch ttl : ℕ) → Call
  heartbeats : (now id : ℕ) (token : Bytes) (extend : ℕ) → Call
  completes : (now id : ℕ) (token : Bytes) (output : Option ℕ) → Call
  fails : (now id : ℕ) (token message : Bytes) (retryable : Bool) → Call
  requeues : TaskRequeueFilter → Call
  sweeps : (now : ℕ) → Call

-- `like` is the engine's `content_type LIKE prefix || '%'`.
module _ (like : Bytes → Bytes → Bool) (sign : Sign) where
  unfoldable pub perform : Call → M (Unit {0})
  perform (enqueues now lake_id p) = ignore (enqueue now lake_id p)
  perform (claims now p) = ignore (claim_next now p)
  perform (marks_done now id output) = mark_done now id output
  perform (marks_failed now id message) = mark_failed now id message
  perform (marks_skipped now id reason) = mark_skipped now id reason
  perform (enqueues_many now p ids) = ignore (bulk_enqueue_by_lake_ids now p ids)
  perform (enqueues_by_content_type now p prefix since limit) =
      ignore (bulk_enqueue_by_content_type like now p prefix since limit)
  perform (reserves now worker kinds batch ttl) =
      ignore (reserve_batch sign now worker kinds batch ttl)
  perform (heartbeats now id t extend) = ignore (heartbeat now id t extend)
  perform (completes now id t output) = complete now id t output
  perform (fails now id t message retryable) = fail_task now id t message retryable
  perform (requeues f) = ignore (requeue_by_filter f)
  perform (sweeps now) = ignore (sweep_expired now)

  unfoldable pub run : World → List Call → World
  unfolding perform
  run w [] = w
  run w (c ∷ cs) = run (perform c w).1 cs
