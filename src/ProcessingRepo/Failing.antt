-- ===== src/ProcessingRepo/Failing.antt =====
-- Fail: the attempt budget of a task.
use crawlerv.Prelude.{
  ℕ, ◌<◌, ◌≤◌, ◌≡◌, refl, sym, subst, ap, Bool, true, false, Option, none, some, List, [], ◌∷◌,
  Bytes, bytes_eq-eq, arith, ltb, ◌⊎◌, Bool-cases, inl, inr,
}
use crawlerv.Store.Rows.{JobStatus, ProcessingJob}
use crawlerv.Store.Sql.{first, update}
use crawlerv.Store.World.{Db, ok, World, fail}
use crawlerv.Store.Laws.{statement-ok, execute-ok, >>=-ok, write_tx-ok}
use crawlerv.FrontierRepo.Queue.{token_held}
use crawlerv.ProcessingRepo.Queue.{has_id, set_jobs, find_row, after_failure}
use crawlerv.ProcessingRepo.Leases.{failed_row, record_failure, fail_task}

pub find_row-ok :
    (id : ℕ) (v : World) {m : ProcessingJob} {u : World}
    → find_row id v ≡ (ok m, u)
    → (first (has_id id) v.db.processing_jobs ≡ some m) × (u.db ≡ v.db)
unfolding find_row
find_row-ok id v {m} {u} h = ground (arith, statement-ok _ v h)

token_held-eq : (t : Bytes) (o : Option Bytes) → token_held t o ≡ true → o ≡ some t
token_held-eq t none h = ground arith
token_held-eq t (some []) h = ground arith
token_held-eq t (some (b ∷ bs)) h = ap some (bytes_eq-eq (b ∷ bs) t h)

record_failure-ok :
    (now id : ℕ) (t message : Bytes) (retryable : Bool) (m : ProcessingJob) (v : World) {w' : World}
    → record_failure now id t message retryable m v ≡ (ok tt, w')
    → (m.lease_token ≡ some t)
      × (w'.db
          ≡ set_jobs
              (update (has_id id) (failed_row now message retryable m) v.db.processing_jobs)
              v.db)
unfolding record_failure fail
record_failure-ok now id t message retryable m v {w'} e =
    elim (Bool-cases (token_held t m.lease_token)) [
      | inl y ↦ let k = rw y at e in (token_held-eq t _ y, ground (arith, execute-ok _ v k))
      | inr n ↦ let k = rw n at e in ground arith
    ]

pub first-update :
    (id : ℕ) (set : ProcessingJob → ProcessingJob) (rows : List ProcessingJob) (m : ProcessingJob)
    → ((r : ProcessingJob) → (set r).id ≡ r.id)
    → first (has_id id) rows ≡ some m
    → first (has_id id) (update (has_id id) set rows) ≡ some (set m)
unfolding first update
first-update id set [] m same h = ground arith
first-update id set (r ∷ rows) m same h = ground (arith, same r, first-update id set rows m same)

-- How the failure of an attempt ends.
abbrev pub Outcome : Bool → ProcessingJob → ProcessingJob → Type 0
Outcome retryable m after =
    (after.lease_token ≡ none)
    × (after.attempt_count ≡ m.attempt_count)
    × (((after.status ≡ JobStatus.queued) × (retryable ≡ true) × (m.attempt_count < m.max_attempts))
        ⊎ ((after.status ≡ JobStatus.failed)
            × ((retryable ≡ false) ⊎ (m.max_attempts ≤ m.attempt_count))))

outcome :
    (now : ℕ) (message : Bytes) (retryable : Bool) (m : ProcessingJob)
    → Outcome retryable m (failed_row now message retryable m m)
unfolding failed_row after_failure
outcome now message true m = elim (Bool-cases (ltb m.attempt_count m.max_attempts)) [
  | inl y ↦ (refl, refl, inl (ground arith, refl, ground arith))
  | inr n ↦ (refl, refl, inr (ground arith, inr (ground arith)))
]
outcome now message false m = (refl, refl, inr (refl, inl refl))

-- A failure that is recorded was reported under the token of the task. The task then has no lease
-- and as many attempts as before; it is queued again if the failure is retryable and an attempt is
-- left, and failed otherwise.
pub fail_task_effect :
    (now id : ℕ) (t message : Bytes) (retryable : Bool) (w : World) {w' : World}
    → fail_task now id t message retryable w ≡ (ok tt, w')
    → (m after : ProcessingJob) × (first (has_id id) w.db.processing_jobs ≡ some m)
      × (m.lease_token ≡ some t)
      × (first (has_id id) w'.db.processing_jobs ≡ some after)
      × Outcome retryable m after
unfolding fail_task
fail_task_effect now id t message retryable w {w'} e =
    let (v, v', start, body, end) = write_tx-ok _ w e in
    let (m, u, found, recorded) = >>=-ok _ _ v body in
    let (row, same) = find_row-ok id v found in
    let (held, after) = record_failure-ok now id t message retryable m u recorded in
    let at_start : first (has_id id) w.db.processing_jobs ≡ some m =
      subst (λ (d : Db). first (has_id id) d.processing_jobs ≡ some m) start row in
    let at_update =
      first-update id (failed_row now message retryable m) u.db.processing_jobs m
        (unfold failed_row in λ r. refl)
        (subst (λ (d : Db). first (has_id id) d.processing_jobs ≡ some m) (sym same) row) in
    let table : w'.db.processing_jobs
        ≡ update (has_id id) (failed_row now message retryable m) u.db.processing_jobs =
      cc (after, end) in
    (
      m,
      failed_row now message retryable m m,
      at_start,
      held,
      subst (λ l. first (has_id id) l ≡ some (failed_row now message retryable m m)) (sym table)
          at_update,
      outcome now message retryable m,
    )
