-- ===== src/Services/Drain/Round.antt =====
-- One round of the drain: a task is claimed, executed and marked, and the budget shrinks.
use crawlerv.Prelude.{
  ℕ, suc, ◌+◌, ◌-◌, ◌≤◌, ◌≡◌, refl, sym, subst, ◌∙◌, inl, inr, &&-both, Bool-cases, Bool, true,
  false, some, List, [], ◌∷◌, Bytes, contains, arith, ◌==◌, All, ◌&&◌,
}
use crawlerv.Store.Rows.{JobStatus, ProcessingJob, job_status_eq}
use crawlerv.Store.Sql.{first, update}
use crawlerv.Store.World.{ok, World}
use crawlerv.ProcessingRepo.Types.{Job}
use crawlerv.ProcessingRepo.Queue.{has_id, claimed_row, claim_next}
use crawlerv.ProcessingRepo.Failing.{first-update}
use crawlerv.Services.Pipeline.{Pipeline, Run, exec}
use crawlerv.Services.Drain.Budget.{attempts_left, budget-update, update-free}
use crawlerv.Services.Drain.Claim.{claim_next-some}
use crawlerv.Services.Drain.Holds.{is_waiting, Holds, update-Holds}
use crawlerv.Services.Drain.Marks.{Marked, exec-Marked}

All-first :
    (P : ProcessingJob → Type 0) (id : ℕ) (rows : List ProcessingJob) (m : ProcessingJob)
    → first (has_id id) rows ≡ some m
    → All P rows
    → P m
unfolding first
All-first P id [] m h a = ground arith
All-first P id (r ∷ rows) m h a = elim (Bool-cases (r.id == id)) [
  | inl y ↦ let k = rw y at h in subst P (some_inj k) a.0
  | inr n ↦ let k = rw n at h in All-first P id rows m k a.1
]
  where
    some_inj : some r ≡ some m → r ≡ m
    some_inj e = ground arith

queued_cost :
    (m : ProcessingJob)
    → job_status_eq m.status JobStatus.queued ≡ true
    → attempts_left m ≡ suc (m.max_attempts - m.attempt_count)
unfolding attempts_left
queued_cost m h = rw h refl

not_waiting :
    (kinds : List Bytes) (m : ProcessingJob)
    → job_status_eq m.status JobStatus.queued ≡ true
    → is_waiting kinds m ≡ false
    → contains kinds m.processor ≡ false
not_waiting kinds m q h = rw q at h

quiet_of_processor :
    (kinds : List Bytes) (r m : ProcessingJob)
    → r.processor ≡ m.processor
    → contains kinds m.processor ≡ false
    → is_waiting kinds r ≡ false
quiet_of_processor kinds r m e h = rw (e, h) (and_false _)
  where
    and_false : (b : Bool) → (b && false) ≡ false
    and_false b = ground arith

-- After the claim, the task is running, and its attempts no longer count.
claimed-Holds_less :
    (kinds : List Bytes) (b now : ℕ) (rows : List ProcessingJob) (m : ProcessingJob)
    → Holds kinds b rows
    → job_status_eq m.status JobStatus.queued ≡ true
    → first (has_id m.id) rows ≡ some m
    → Holds kinds
        (b - suc (m.max_attempts - m.attempt_count))
        (update (has_id m.id) (claimed_row now) rows)
      × (suc (m.max_attempts - m.attempt_count) ≤ b)
unfolding claimed_row attempts_left
claimed-Holds_less kinds b now rows m h q f =
    let cost = budget-update m.id (claimed_row now) rows m h.keys f in
    let left = queued_cost m q in
    let fits : suc (m.max_attempts - m.attempt_count) ≤ b = omega (arith, cost, left, h.within) in
    (
      update-Holds kinds b _ m.id (claimed_row now) m rows (λ r. refl) f refl
          (omega (arith, left, fits)) h,
      fits,
    )

Marked-Holds :
    (kinds : List Bytes) (b id : ℕ) (m : ProcessingJob) (rows after : List ProcessingJob)
    → Holds kinds b rows
    → first (has_id id) rows ≡ some m
    → contains kinds m.processor ≡ false
    → Marked id rows after
    → Holds kinds (b + (suc m.max_attempts - m.attempt_count)) after
Marked-Holds kinds b id m rows after h f q (inl e) =
    subst (Holds kinds _) (sym e)
      (record { keys = h.keys; within = omega (arith, h.within); idle = h.idle })
Marked-Holds kinds b id m rows after h f q (inr (set, mark, e)) = subst (Holds kinds _) (sym e) (
    update-Holds kinds b _ id set m rows mark.same_id f
      (quiet_of_processor kinds (set m) m (mark.same_processor m) q) (omega (arith, mark.fewer m f))
      h)

module _ (p : Pipeline) (run : Run) where
  -- What holds before a claim that gets a task holds, with less budget, after the task's mark.
  pub round-Holds :
      (kinds : List Bytes) (b now : ℕ) (kind : Bytes) (w v : World) (j : Job)
      → Holds kinds b w.db.processing_jobs
      → claim_next now kind w ≡ (ok (some j), v)
      → Holds kinds (b - 1) (exec p run j v).1.db.processing_jobs × (1 ≤ b)
  unfolding claimed_row
  round-Holds kinds b now kind w v j h e =
      let (m, (claimable, f), same, table) = claim_next-some now kind w v j h.keys e in
      let q = (&&-both _ _ claimable).0 in
      let (less, fits) = claimed-Holds_less kinds b now w.db.processing_jobs m h q f in
      let rows : v.db.processing_jobs
          ≡ update (has_id m.id) (claimed_row now) w.db.processing_jobs =
        table ∙ update-free m.id (claimed_row now) w.db.processing_jobs m h.keys f q in
      let quiet = not_waiting kinds m q (All-first _ m.id _ m f h.idle) in
      let marked =
        Marked-Holds kinds _ m.id (claimed_row now m) v.db.processing_jobs _
          (subst (Holds kinds _) (sym rows) less)
          (subst (λ l. first (has_id m.id) l ≡ some (claimed_row now m)) (sym rows)
            (first-update m.id (claimed_row now) w.db.processing_jobs m (λ r. refl) f))
          quiet
          (subst (λ n. Marked n v.db.processing_jobs (exec p run j v).1.db.processing_jobs) same
            (exec-Marked p run j v)) in
      (
        record {
          keys = marked.keys;
          within = omega (arith, marked.within, fits);
          idle = marked.idle;
        },
        omega (arith, fits),
      )
