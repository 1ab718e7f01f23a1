-- ===== src/Services/Drain/Budget.antt =====
-- The attempts that the queued tasks may still take, and how an UPDATE of one task changes them.
use crawlerv.Prelude.{
  ℕ, suc, ◌+◌, ◌-◌, ◌≡◌, refl, true, false, some, List, [], ◌∷◌, arith, if◌then◌else◌, ◌==◌,
  Bool-cases, inl, inr,
}
use crawlerv.Store.Rows.{JobStatus, ProcessingJob, job_status_eq}
use crawlerv.Store.Sql.{first, update}
use crawlerv.ProcessingRepo.Queue.{has_id, is_free}
use crawlerv.ProcessingRepo.Invariant.{among, Distinct, ids}

-- The attempts left to a queued task, at least one.
unfoldable pub attempts_left : ProcessingJob → ℕ
attempts_left r =
    if job_status_eq r.status JobStatus.queued then suc (r.max_attempts - r.attempt_count) else 0

unfoldable pub budget : List ProcessingJob → ℕ
unfolding attempts_left
budget [] = 0
budget (r ∷ rows) = attempts_left r + budget rows

-- Where the id does not occur, the UPDATE does nothing.
update-absent :
    (id : ℕ) (set : ProcessingJob → ProcessingJob) (rows : List ProcessingJob)
    → among (ids rows) id ≡ false
    → update (has_id id) set rows ≡ rows
unfolding update
update-absent id set [] h = refl
update-absent id set (r ∷ rows) h = ground (arith, update-absent id set rows)

update-absent_free :
    (id : ℕ) (set : ProcessingJob → ProcessingJob) (rows : List ProcessingJob)
    → among (ids rows) id ≡ false
    → update (is_free id) set rows ≡ rows
unfolding update is_free
update-absent_free id set [] h = refl
update-absent_free id set (r ∷ rows) h = ground (arith, update-absent_free id set rows)

pub budget-update :
    (id : ℕ) (set : ProcessingJob → ProcessingJob) (rows : List ProcessingJob) (m : ProcessingJob)
    → Distinct (ids rows)
    → first (has_id id) rows ≡ some m
    → budget (update (has_id id) set rows) + attempts_left m ≡ budget rows + attempts_left (set m)
unfolding budget update first
budget-update id set [] m d h = ground arith
budget-update id set (r ∷ rows) m d h = elim (Bool-cases (r.id == id)) [
  | inl y ↦
      let k = rw y at h in
      let same = update-absent id set rows (ground arith) in ground (arith, k, same)
  | inr n ↦ let k = rw n at h in ground (arith, budget-update id set rows m d.1 k)
]

-- On distinct ids, the guard on the status changes nothing if the task is queued.
pub update-free :
    (id : ℕ) (set : ProcessingJob → ProcessingJob) (rows : List ProcessingJob) (m : ProcessingJob)
    → Distinct (ids rows)
    → first (has_id id) rows ≡ some m
    → job_status_eq m.status JobStatus.queued ≡ true
    → update (is_free id) set rows ≡ update (has_id id) set rows
unfolding update first is_free
update-free id set [] m d h q = ground arith
update-free id set (r ∷ rows) m d h q = elim (Bool-cases (r.id == id)) [
  | inl y ↦
      let k = rw y at h in
      let same = update-absent id set rows (ground arith) in
      let free = update-absent_free id set rows (ground arith) in ground (arith, k, same, free)
  | inr n ↦ let k = rw n at h in ground (arith, update-free id set rows m d.1 k q)
]
