-- ===== src/Services/Drain/Marks.antt =====
-- What an executor and the mark after it do to the tasks: nothing, or an UPDATE of the one task.
use crawlerv.Prelude.{
  ℕ, suc, ◌-◌, ◌≤◌, ◌≡◌, refl, sym, subst, ap, ◌∙◌, ◌⊎◌, inl, inr, Bool, some, none, Option, List,
  Bytes, bytes_eq, arith, Bool-cases, ◌||◌, ltb, ltb→lt, if◌then◌else◌,
}
use crawlerv.Store.Rows.{ProcessingJob}
use crawlerv.Store.Sql.{first, update}
use crawlerv.Store.World.{Db, Result, ok, err, World, M, pure, ◌>>=◌, caught}
use crawlerv.Store.Laws.{
  IsAtomic, execute-IsAtomic, execute-ok, >>=-ok, write_tx-ok, write_tx-IsAtomic,
}
use crawlerv.ProcessingRepo.Types.{Job}
use crawlerv.ProcessingRepo.Queue.{has_id, after_failure, mark_done, mark_failed, mark_skipped}
use crawlerv.ProcessingRepo.Failing.{find_row-ok}
use crawlerv.Services.Pipeline.{
  Pipeline, Run, html_strip, text_passthrough, pdf_ocr, docx_to_pdf, office_to_pdf, mark_result,
  marked, exec,
}
use crawlerv.Services.Drain.Budget.{attempts_left}
use crawlerv.Services.Drain.Body.{
  IsApart, exec_html-IsApart, exec_text_passthrough-IsApart, exec_pdf-IsApart,
}

-- The mark leaves the id and the processor, and at most the attempts that are left.
pub record IsMark (id : ℕ) (rows : List ProcessingJob) (set : ProcessingJob → ProcessingJob)
    : Type 0 where
  pub same_id : (r : ProcessingJob) → (set r).id ≡ r.id
  pub same_processor : (r : ProcessingJob) → (set r).processor ≡ r.processor
  pub fewer :
      (m : ProcessingJob)
      → first (has_id id) rows ≡ some m
      → attempts_left (set m) ≤ suc m.max_attempts - m.attempt_count

abbrev pub Marked : ℕ → List ProcessingJob → List ProcessingJob → Type 0
Marked id rows after =
    (after ≡ rows)
    ⊎ ((set : ProcessingJob → ProcessingJob) × (IsMark id rows set)
        × (after ≡ update (has_id id) set rows))

-- An operation, by its result.
by_result :
    (m : M (Unit {0})) (id : ℕ) (w : World)
    → IsAtomic m
    → ((w' : World) → m w ≡ (ok tt, w') → Marked id w.db.processing_jobs w'.db.processing_jobs)
    → Marked id w.db.processing_jobs (m w).1.db.processing_jobs
by_result m id w atomic k = run (m w) refl
  where
    run :
        (r : Result (Unit {0}) × World)
        → m w ≡ r
        → Marked id w.db.processing_jobs (m w).1.db.processing_jobs
    run (ok tt, v) e = rw e (k v e)
    run (err x, v) e = inl (ap (λ (d : Db). d.processing_jobs) (atomic.apply w x (ap (λ r. r.0) e)))

done-Marked :
    (now id : ℕ) (o : Option ℕ) (w : World)
    → Marked id w.db.processing_jobs (mark_done now id o w).1.db.processing_jobs
unfolding mark_done attempts_left
done-Marked now id o w = by_result _ id w (execute-IsAtomic _) (λ v e. inr (
  _,
  record { same_id = λ r. refl; same_processor = λ r. refl; fewer = λ m h. omega arith },
  ap (λ (x : Unit {0} × Db). x.1.processing_jobs) (sym (execute-ok _ w e)),
))

skipped-Marked :
    (now id : ℕ) (s : Bytes) (w : World)
    → Marked id w.db.processing_jobs (mark_skipped now id s w).1.db.processing_jobs
unfolding mark_skipped attempts_left
skipped-Marked now id s w = by_result _ id w (execute-IsAtomic _) (λ v e. inr (
  _,
  record { same_id = λ r. refl; same_processor = λ r. refl; fewer = λ m h. omega arith },
  ap (λ (x : Unit {0} × Db). x.1.processing_jobs) (sym (execute-ok _ w e)),
))

abbrev failing : ProcessingJob → ℕ → Bytes → ProcessingJob → ProcessingJob
failing m now s r = record r {
  status = after_failure Bool.true m;
  last_error = some s;
  finished_at = some now;
}

-- A failed attempt leaves the task queued only if the budget allows another.
failure_cost :
    (m r : ProcessingJob) (now : ℕ) (s : Bytes)
    → r ≡ m
    → attempts_left (failing m now s r) ≤ suc r.max_attempts - r.attempt_count
unfolding attempts_left after_failure
failure_cost m r now s e = elim (Bool-cases (ltb m.attempt_count m.max_attempts)) [
  | inl y ↦ rw (e, y) (omega (arith, ltb→lt _ _ y))
  | inr n ↦ rw (e, n) (omega arith)
]

failed-Marked :
    (now id : ℕ) (s : Bytes) (w : World)
    → Marked id w.db.processing_jobs (mark_failed now id s w).1.db.processing_jobs
unfolding mark_failed
failed-Marked now id s w = by_result _ id w (write_tx-IsAtomic _) (λ w' e.
    let (v, v', start, body, end) = write_tx-ok _ w e in
    let (m, u, found, done) = >>=-ok _ _ v body in
    let (row, same) = find_row-ok id v found in
    let at_start : first (has_id id) w.db.processing_jobs ≡ some m =
      subst (λ (d : Db). first (has_id id) d.processing_jobs ≡ some m) start row in
    let table = ap (λ (x : Unit {0} × Db). x.1.processing_jobs) (execute-ok _ u done) in
    let whole : u.db.processing_jobs ≡ w.db.processing_jobs =
      ap (λ (d : Db). d.processing_jobs) (same ∙ start) in
    inr (
      failing m now s,
      record {
        same_id = λ r. refl;
        same_processor = λ r. refl;
        fewer = λ x h. failure_cost m x now s (some_inj (sym h ∙ at_start));
      },
      ap (λ (d : Db). d.processing_jobs) (sym end)
          ∙ sym table
          ∙ ap (λ l. update (has_id id) (failing m now s) l) whole,
    ))
  where
    some_inj : {A : Type 0} {a b : A} → some a ≡ some b → a ≡ b
    some_inj h = ground arith

module _ (p : Pipeline) (run : Run) where
  mark_result-Marked :
      (on_error : ℕ → ℕ → Bytes → M (Unit {0})) (id : ℕ)
      → ((now : ℕ) (s : Bytes) (w : World)
          → Marked id w.db.processing_jobs (on_error now id s w).1.db.processing_jobs)
      → (r : Result (Unit {0})) (w : World)
      → Marked id w.db.processing_jobs (mark_result p run on_error id r w).1.db.processing_jobs
  unfolding mark_result
  mark_result-Marked on_error id k (ok tt) w = done-Marked _ id none w
  mark_result-Marked on_error id k (err e) w = k _ _ w

  marked-Marked :
      (on_error : ℕ → ℕ → Bytes → M (Unit {0})) (job : Job)
      → ((now : ℕ) (s : Bytes) (w : World)
          → Marked job.id w.db.processing_jobs (on_error now job.id s w).1.db.processing_jobs)
      → (m : M (Unit {0})) → IsApart m
      → (w : World)
      → Marked job.id w.db.processing_jobs (marked p run on_error job m w).1.db.processing_jobs
  unfolding marked caught ◌>>=◌
  marked-Marked on_error job k m apart w =
      subst
        (λ rows.
          Marked job.id rows
            (mark_result p run on_error job.id (m w).0 (m w).1).1.db.processing_jobs)
        ((apart.keeps w.db.processing_jobs).apply w refl)
        (mark_result-Marked on_error job.id k (m w).0 (m w).1)

  pub exec-Marked :
      (job : Job) (w : World)
      → Marked job.id w.db.processing_jobs (exec p run job w).1.db.processing_jobs
  unfolding exec caught pure
  exec-Marked job w =
      branch (bytes_eq job.processor html_strip) _ _
        (marked-Marked mark_failed job (λ n s v. failed-Marked n job.id s v) _
          (exec_html-IsApart p run job) w)
        (branch (bytes_eq job.processor text_passthrough) _ _
          (marked-Marked mark_failed job (λ n s v. failed-Marked n job.id s v) _
            (exec_text_passthrough-IsApart p run job) w)
          (branch (bytes_eq job.processor pdf_ocr) _ _
            (marked-Marked mark_skipped job (λ n s v. skipped-Marked n job.id s v) _
              (exec_pdf-IsApart p run job) w)
            (branch (bytes_eq job.processor docx_to_pdf || bytes_eq job.processor office_to_pdf) _ _
              (skipped-Marked _ job.id _ w) (inl refl))))
    where
      branch :
          (b : Bool) (x y : M (Result (Unit {0})))
          → Marked job.id w.db.processing_jobs (x w).1.db.processing_jobs
          → Marked job.id w.db.processing_jobs (y w).1.db.processing_jobs
          → Marked job.id w.db.processing_jobs ((if b then x else y) w).1.db.processing_jobs
      branch Bool.true x y g h = g
      branch Bool.false x y g h = h
