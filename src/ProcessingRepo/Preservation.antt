-- ===== src/ProcessingRepo/Preservation.antt =====
-- Every call keeps the tasks sound.
use crawlerv.Prelude.{ℕ, ◌+◌, ◌≡◌, refl, sym, subst, Bool, true, some, List, [], ◌∷◌, Bytes, arith}
use crawlerv.Store.Rows.{ProcessingJob}
use crawlerv.Store.Sql.{update, All-update, map-update}
use crawlerv.Store.World.{Db, World, M, pure, ◌>>=◌, execute}
use crawlerv.Store.Laws.{
  Keeps, statement-Keeps, execute-Keeps, query-Keeps, pure-Keeps, fail-Keeps, >>=-Keeps,
  write_tx-Keeps, if-Keeps,
}
use crawlerv.ProcessingRepo.Types.{LeasedTask}
use crawlerv.ProcessingRepo.Queue.{
  set_jobs, enqueue, claimed_row, claim, claim_next, mark_done, find_row, mark_failed, mark_skipped,
  insert_each, bulk_enqueue_by_lake_ids, bulk_enqueue_by_content_type,
}
use crawlerv.ProcessingRepo.Leases.{
  Sign, leased_row, find_lake, lease_each, reserve_batch, holds, update_held, heartbeat, completed,
  complete, failed_row, record_failure, fail_task, released, requeue_by_filter, sweep_expired,
}
use crawlerv.ProcessingRepo.Calls.{Call, perform, run}
use crawlerv.ProcessingRepo.Invariant.{IsTogether, Distinct, IsSound, Inv, inserted-Inv}

-- An UPDATE that leaves the key alone and sets the lease columns together.
update-IsSound :
    (test : ProcessingJob → Bool) (set : ProcessingJob → ProcessingJob)
    → ((r : ProcessingJob) → (set r).id ≡ r.id)
    → ((r : ProcessingJob) → test r ≡ true → IsTogether r → IsTogether (set r))
    → (d : Db) → Inv d
    → IsSound (update test set d.processing_jobs) d.next_job_id
update-IsSound test set same keep d s = record {
  keys = subst Distinct (sym (map-update (λ r. r.id) test set same d.processing_jobs)) s.keys;
  below = All-update _ test set (λ r _ h. omega (arith, same r, h)) d.processing_jobs s.below;
  leases = All-update IsTogether test set keep d.processing_jobs s.leases;
}

jobs-Keeps :
    {A : Type 0} (answer : Db → A) (test : ProcessingJob → Bool)
    (set : ProcessingJob → ProcessingJob)
    → ((r : ProcessingJob) → (set r).id ≡ r.id)
    → ((r : ProcessingJob) → test r ≡ true → IsTogether r → IsTogether (set r))
    → Keeps Inv (execute (λ d. (answer d, set_jobs (update test set d.processing_jobs) d)))
jobs-Keeps answer test set same keep =
    execute-Keeps _ (λ d s. update-IsSound test set same keep d s)

held-Keeps :
    (id : ℕ) (t : Bytes) (set : ProcessingJob → ProcessingJob)
    → ((r : ProcessingJob) → (set r).id ≡ r.id)
    → ((r : ProcessingJob) → holds id t r ≡ true → IsTogether r → IsTogether (set r))
    → Keeps Inv (update_held (holds id t) set)
unfolding update_held
held-Keeps id t set same keep =
    statement-Keeps _ (λ d s. ground (arith, s, update-IsSound (holds id t) set same keep d s))

ignore-Keeps : {A : Type 0} (m : M A) → Keeps Inv m → Keeps Inv (m >>= λ _. pure tt)
ignore-Keeps m k = >>=-Keeps k (λ _. pure-Keeps tt)

insert_each-Inv :
    (now : ℕ) (p : Bytes) (is : List ℕ) (d : Db) → Inv d → Inv (insert_each now p is d)
unfolding insert_each
insert_each-Inv now p [] d s = s
insert_each-Inv now p (i ∷ is) d s = insert_each-Inv now p is _ (inserted-Inv now p i d s)

bulk-Keeps : (now : ℕ) (p : Bytes) (is : List ℕ) → Keeps Inv (bulk_enqueue_by_lake_ids now p is)
unfolding bulk_enqueue_by_lake_ids
bulk-Keeps now p [] = pure-Keeps _
bulk-Keeps now p (i ∷ is) = execute-Keeps _ (insert_each-Inv now p (i ∷ is))

find_row-Keeps : (id : ℕ) → Keeps Inv (find_row id)
unfolding find_row
find_row-Keeps id = statement-Keeps _ (λ d s. ground (arith, s))

find_lake-Keeps : (id : ℕ) → Keeps Inv (find_lake id)
unfolding find_lake
find_lake-Keeps id = statement-Keeps _ (λ d s. ground (arith, s))

claim-Keeps : (now : ℕ) (ms : List ProcessingJob) → Keeps Inv (claim now ms)
unfolding claim claimed_row
claim-Keeps now [] = pure-Keeps _
claim-Keeps now (m ∷ ms) =
    >>=-Keeps
      (jobs-Keeps _ _ _ (λ r. refl) (λ r _ c. record { holder = c.holder; expiry = c.expiry }))
      (λ n. pure-Keeps _)

mark_failed-Keeps : (now id : ℕ) (message : Bytes) → Keeps Inv (mark_failed now id message)
unfolding mark_failed
mark_failed-Keeps now id message = write_tx-Keeps (
    >>=-Keeps (find_row-Keeps id) (λ m.
      jobs-Keeps _ _ _ (λ r. refl) (λ r _ c. record { holder = c.holder; expiry = c.expiry })))

fail_task-Keeps :
    (now id : ℕ) (t message : Bytes) (retryable : Bool)
    → Keeps Inv (fail_task now id t message retryable)
unfolding fail_task record_failure failed_row
fail_task-Keeps now id t message retryable = write_tx-Keeps (
    >>=-Keeps (find_row-Keeps id) (λ m.
      if-Keeps _ _ _
        (jobs-Keeps _ _ _ (λ r. refl) (λ r _ c. record { holder = refl; expiry = refl }))
        (fail-Keeps _)))

lease_each-Keeps :
    (sign : Sign) (worker now expires : ℕ) (ps : List ProcessingJob) (out : List LeasedTask)
    → Keeps Inv (lease_each sign worker now expires ps out)
unfolding lease_each leased_row
lease_each-Keeps sign worker now expires [] out = pure-Keeps _
lease_each-Keeps sign worker now expires (p ∷ ps) out =
    >>=-Keeps (jobs-Keeps _ _ _ (λ r. refl) (λ r _ c. record { holder = refl; expiry = refl }))
      (λ n.
        if-Keeps _ _ _ (lease_each-Keeps sign worker now expires ps out)
          (>>=-Keeps (find_lake-Keeps _) (λ lo. lease_each-Keeps sign worker now expires ps _)))

extend-keeps :
    (id : ℕ) (t : Bytes) (expiry : ℕ) (r : ProcessingJob)
    → holds id t r ≡ true
    → IsTogether r
    → IsTogether (record r { lease_expires_at = some expiry })
unfolding holds
extend-keeps id t expiry r e c = ground arith

release-Keeps :
    {A : Type 0} (answer : Db → A) (test : ProcessingJob → Bool)
    → Keeps Inv (execute (λ d. (answer d, set_jobs (update test released d.processing_jobs) d)))
unfolding released
release-Keeps answer test =
    jobs-Keeps _ _ _ (λ r. refl) (λ r _ c. record { holder = refl; expiry = refl })

module _ (like : Bytes → Bytes → Bool) (sign : Sign) where
  task_call-Keeps : (c : Call) → Keeps Inv (perform like sign c)
  unfolding perform
  task_call-Keeps (Call.enqueues now lake_id p) =
      ignore-Keeps _ (unfold enqueue in execute-Keeps _ (inserted-Inv now p lake_id))
  task_call-Keeps (Call.claims now p) =
      ignore-Keeps _
        (unfold claim_next in write_tx-Keeps (>>=-Keeps (query-Keeps _) (claim-Keeps now)))
  task_call-Keeps (Call.marks_done now id output) =
      unfold mark_done in
      jobs-Keeps _ _ _ (λ r. refl) (λ r _ c. record { holder = c.holder; expiry = c.expiry })
  task_call-Keeps (Call.marks_failed now id message) = mark_failed-Keeps now id message
  task_call-Keeps (Call.marks_skipped now id reason) =
      unfold mark_skipped in
      jobs-Keeps _ _ _ (λ r. refl) (λ r _ c. record { holder = c.holder; expiry = c.expiry })
  task_call-Keeps (Call.enqueues_many now p is) = ignore-Keeps _ (bulk-Keeps now p is)
  task_call-Keeps (Call.enqueues_by_content_type now p prefix since limit) =
      ignore-Keeps _
        (unfold bulk_enqueue_by_content_type in >>=-Keeps (query-Keeps _) (bulk-Keeps now p))
  task_call-Keeps (Call.reserves now worker kinds batch ttl) = ignore-Keeps _ (
      unfold reserve_batch in
      if-Keeps _ _ _ (pure-Keeps _) (
        write_tx-Keeps
          (>>=-Keeps (query-Keeps _) (λ ps. lease_each-Keeps sign worker now (now + ttl) ps []))))
  task_call-Keeps (Call.heartbeats now id t extend) = ignore-Keeps _ (
      unfold heartbeat in
      >>=-Keeps (held-Keeps id t _ (λ r. refl) (extend-keeps id t _)) (λ n. pure-Keeps _))
  task_call-Keeps (Call.completes now id t output) =
      unfold complete completed in
      held-Keeps id t _ (λ r. refl) (λ r _ c. record { holder = refl; expiry = refl })
  task_call-Keeps (Call.fails now id t message retryable) =
      fail_task-Keeps now id t message retryable
  task_call-Keeps (Call.requeues f) =
      ignore-Keeps _ (unfold requeue_by_filter in if-Keeps _ _ _ (release-Keeps _ _) (fail-Keeps _))
  task_call-Keeps (Call.sweeps now) = ignore-Keeps _ (unfold sweep_expired in release-Keeps _ _)

  -- After any history of calls, with any failures, no two tasks share an id, every id is below the
  -- table's counter, and a task has a lease token exactly if it has a holder and an expiry.
  pub task_run-Inv : (w : World) (cs : List Call) → Inv w.db → Inv (run like sign w cs).db
  unfolding run
  task_run-Inv w [] h = h
  task_run-Inv w (c ∷ cs) h =
      task_run-Inv (perform like sign c w).1 cs ((task_call-Keeps c).apply w h)
