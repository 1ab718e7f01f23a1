-- ===== src/ProcessingRepo/Atomic.antt =====
-- A call of ProcessingRepo that fails leaves every table as it was.
use crawlerv.Store.World.{Error, err, World}
use crawlerv.Prelude.{◌≡◌, ℕ, Bool, List, [], ◌∷◌, Bytes, arith}
use crawlerv.Store.Laws.{
  IsAtomic, write_tx-IsAtomic, statement-IsAtomic, execute-IsAtomic, pure-IsAtomic, fail-IsAtomic,
  then_pure-IsAtomic, query-IsAtomic, if-IsAtomic,
}
use crawlerv.Store.Rows.{ProcessingJob}
use crawlerv.ProcessingRepo.Queue.{
  enqueue, claim_next, mark_done, mark_failed, mark_skipped, bulk_enqueue_by_lake_ids,
  bulk_enqueue_by_content_type,
}
use crawlerv.ProcessingRepo.Leases.{
  Sign, reserve_batch, update_held, heartbeat, complete, fail_task, requeue_by_filter,
  sweep_expired,
}
use crawlerv.ProcessingRepo.Calls.{Call, perform}

held-IsAtomic :
    (test : ProcessingJob → Bool) (set : ProcessingJob → ProcessingJob)
    → IsAtomic (update_held test set)
unfolding update_held
held-IsAtomic test set = statement-IsAtomic _ (λ d x h. ground arith)

bulk-IsAtomic : (now : ℕ) (p : Bytes) (ids : List ℕ) → IsAtomic (bulk_enqueue_by_lake_ids now p ids)
unfolding bulk_enqueue_by_lake_ids
bulk-IsAtomic now p [] = pure-IsAtomic _
bulk-IsAtomic now p (i ∷ is) = execute-IsAtomic _

module _ (like : Bytes → Bytes → Bool) (sign : Sign) where
  pub task_call-IsAtomic : (c : Call) → IsAtomic (perform like sign c)
  unfolding perform
  task_call-IsAtomic (Call.enqueues now lake_id p) =
      then_pure-IsAtomic _ _ (unfold enqueue in execute-IsAtomic _)
  task_call-IsAtomic (Call.claims now p) =
      then_pure-IsAtomic _ _ (unfold claim_next in write_tx-IsAtomic _)
  task_call-IsAtomic (Call.marks_done now id output) = unfold mark_done in execute-IsAtomic _
  task_call-IsAtomic (Call.marks_failed now id message) = unfold mark_failed in write_tx-IsAtomic _
  task_call-IsAtomic (Call.marks_skipped now id reason) = unfold mark_skipped in execute-IsAtomic _
  task_call-IsAtomic (Call.enqueues_many now p ids) =
      then_pure-IsAtomic _ _ (bulk-IsAtomic now p ids)
  task_call-IsAtomic (Call.enqueues_by_content_type now p prefix since limit) =
      then_pure-IsAtomic _ _
        (unfold bulk_enqueue_by_content_type in query-IsAtomic _ _ (λ ids. bulk-IsAtomic now p ids))
  task_call-IsAtomic (Call.reserves now worker kinds batch ttl) =
      then_pure-IsAtomic _ _
        (unfold reserve_batch in if-IsAtomic _ _ _ (pure-IsAtomic _) (write_tx-IsAtomic _))
  task_call-IsAtomic (Call.heartbeats now id t extend) =
      then_pure-IsAtomic _ _ (unfold heartbeat in then_pure-IsAtomic _ _ (held-IsAtomic _ _))
  task_call-IsAtomic (Call.completes now id t output) = unfold complete in held-IsAtomic _ _
  task_call-IsAtomic (Call.fails now id t message retryable) =
      unfold fail_task in write_tx-IsAtomic _
  task_call-IsAtomic (Call.requeues f) =
      then_pure-IsAtomic _ _
        (unfold requeue_by_filter in if-IsAtomic _ _ _ (execute-IsAtomic _) (fail-IsAtomic _))
  task_call-IsAtomic (Call.sweeps now) =
      then_pure-IsAtomic _ _ (unfold sweep_expired in execute-IsAtomic _)

-- Whatever call on the tasks fails, for whatever reason and at whatever statement, no table has
-- changed.
pub failed_task_call_keeps :
    (like : Bytes → Bytes → Bool) (sign : Sign) (c : Call) (w : World) (x : Error)
    → (perform like sign c w).0 ≡ err x
    → (perform like sign c w).1.db ≡ w.db
failed_task_call_keeps like sign c w x h = (task_call-IsAtomic like sign c).apply w x h
