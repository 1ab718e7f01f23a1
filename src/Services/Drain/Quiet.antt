-- ===== src/Services/Drain/Quiet.antt =====
-- A round of the drain adds no fault to the coming statements.
use crawlerv.Prelude.{ℕ, Bool, true, false, List, [], ◌∷◌, Bytes, bytes_eq, ◌||◌, if◌then◌else◌}
use crawlerv.Store.Rows.{ProcessingJob}
use crawlerv.Store.World.{Result, ok, err, M}
use crawlerv.Store.Steady.{
  IsSteady, statement-IsSteady, execute-IsSteady, query-IsSteady, pure-IsSteady, >>=-IsSteady,
  write_tx-IsSteady, caught-IsSteady,
}
use crawlerv.ProcessingRepo.Types.{Job}
use crawlerv.ProcessingRepo.Queue.{
  claim, claim_next, find_row, mark_done, mark_failed, mark_skipped,
}
use crawlerv.Services.Pipeline.{
  Pipeline, Run, html_strip, text_passthrough, pdf_ocr, docx_to_pdf, office_to_pdf, mark_result,
  marked, exec,
}
use crawlerv.Services.Drain.Body.{
  IsApart, exec_html-IsApart, exec_text_passthrough-IsApart, exec_pdf-IsApart,
}

claim-IsSteady : (now : ℕ) (ms : List ProcessingJob) → IsSteady (claim now ms)
unfolding claim
claim-IsSteady now [] = pure-IsSteady _
claim-IsSteady now (m ∷ ms) = >>=-IsSteady (execute-IsSteady _) (λ n. pure-IsSteady _)

pub claim_next-IsSteady : (now : ℕ) (kind : Bytes) → IsSteady (claim_next now kind)
unfolding claim_next
claim_next-IsSteady now kind =
    write_tx-IsSteady (>>=-IsSteady (query-IsSteady _) (claim-IsSteady now))

failed-IsSteady : (now id : ℕ) (s : Bytes) → IsSteady (mark_failed now id s)
unfolding mark_failed find_row
failed-IsSteady now id s =
    write_tx-IsSteady (>>=-IsSteady (statement-IsSteady _) (λ m. execute-IsSteady _))

skipped-IsSteady : (now id : ℕ) (s : Bytes) → IsSteady (mark_skipped now id s)
unfolding mark_skipped
skipped-IsSteady now id s = execute-IsSteady _

module _ (p : Pipeline) (run : Run) where
  mark_result-IsSteady :
      (on_error : ℕ → ℕ → Bytes → M (Unit {0})) (id : ℕ)
      → ((now : ℕ) (s : Bytes) → IsSteady (on_error now id s))
      → (r : Result (Unit {0})) → IsSteady (mark_result p run on_error id r)
  unfolding mark_result mark_done
  mark_result-IsSteady on_error id k (ok u) = execute-IsSteady _
  mark_result-IsSteady on_error id k (err e) = k _ _

  marked-IsSteady :
      (on_error : ℕ → ℕ → Bytes → M (Unit {0})) (job : Job)
      → ((now : ℕ) (s : Bytes) → IsSteady (on_error now job.id s))
      → (m : M (Unit {0})) → IsApart m
      → IsSteady (marked p run on_error job m)
  unfolding marked
  marked-IsSteady on_error job k m apart =
      >>=-IsSteady (caught-IsSteady apart.steady)
        (λ r. caught-IsSteady (mark_result-IsSteady on_error job.id k r))

  if-IsSteady :
      {A : Type 0} (b : Bool) (m n : M A) → IsSteady m → IsSteady n → IsSteady (if b then m else n)
  if-IsSteady true m n h k = h
  if-IsSteady false m n h k = k

  pub exec-IsSteady : (job : Job) → IsSteady (exec p run job)
  unfolding exec
  exec-IsSteady job =
      if-IsSteady (bytes_eq job.processor html_strip) _ _
        (marked-IsSteady mark_failed job (λ n s. failed-IsSteady n job.id s) _
          (exec_html-IsApart p run job))
        (if-IsSteady (bytes_eq job.processor text_passthrough) _ _
          (marked-IsSteady mark_failed job (λ n s. failed-IsSteady n job.id s) _
            (exec_text_passthrough-IsApart p run job))
          (if-IsSteady (bytes_eq job.processor pdf_ocr) _ _
            (marked-IsSteady mark_skipped job (λ n s. skipped-IsSteady n job.id s) _
              (exec_pdf-IsApart p run job))
            (if-IsSteady
              (bytes_eq job.processor docx_to_pdf || bytes_eq job.processor office_to_pdf) _ _
              (caught-IsSteady (skipped-IsSteady _ job.id _)) (pure-IsSteady _))))
