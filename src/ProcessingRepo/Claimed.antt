-- ===== src/ProcessingRepo/Claimed.antt =====
-- ClaimNext: which task the in-process worker gets.
use crawlerv.Prelude.{
  ℕ, ◌≤◌, ◌≡◌, refl, sym, subst, ap, ◌∙◌, bytes_eq-eq, &&-both, Bool, true, some, List, [], ◌∷◌,
  Bytes, arith, ◌==◌, All, Bool-cases, inl, inr,
}
use crawlerv.Store.Rows.{ProcessingJob}
use crawlerv.Store.Sql.{select, update, sort_by_least, All-select, All-sort_by}
use crawlerv.Store.World.{Db, ok, World, pure}
use crawlerv.Store.Laws.{execute-ok, query-ok, >>=-ok, write_tx-ok}
use crawlerv.ProcessingRepo.Types.{Job}
use crawlerv.ProcessingRepo.Queue.{
  set_jobs, is_claimable, is_free, in_order, claimed_row, running_job, claim, claim_next,
}

-- What a claim that gets a task did to the tables.
abbrev pub Claimed : ℕ → Bytes → Job → Db → Db → Type 0
Claimed now processor j before after =
    (j.processor ≡ processor)
    × All (λ r. j.id ≤ r.id) (select (is_claimable processor) before.processing_jobs)
    × (after ≡ set_jobs (update (is_free j.id) (claimed_row now) before.processing_jobs) before)

pub claim-ok :
    (now : ℕ) (ms : List ProcessingJob) (v v' : World) (j : Job)
    → claim now ms v ≡ (ok (some j), v')
    → (m : ProcessingJob) × (rest : List ProcessingJob) × (ms ≡ m ∷ rest)
      × (j ≡ running_job now m)
      × (v'.db ≡ set_jobs (update (is_free m.id) (claimed_row now) v.db.processing_jobs) v.db)
unfolding claim pure
claim-ok now [] v v' j h = ground arith
claim-ok now (m ∷ ms) v v' j h =
    let step = >>=-ok _ _ v h in
    let d = execute-ok _ v step.2 in
    elim (Bool-cases (step.0 == 0)) [
      | inl y ↦ let k = rw y at step.3 in ground (arith, k)
      | inr n ↦ let k = rw n at step.3 in (m, ms, refl, ground (arith, k), cc (d, k))
    ]

in_order-least :
    (test : ProcessingJob → Bool) (d : Db) (m : ProcessingJob) (rest : List ProcessingJob)
    → in_order test d ≡ m ∷ rest
    → (test m ≡ true) × All (λ r. m.id ≤ r.id) (select test d.processing_jobs)
unfolding in_order
in_order-least test d m rest h = (
  (subst (All (λ r. test r ≡ true)) h
      (All-sort_by _ (λ r. r.id) _ (All-select _ test (λ x e. e) d.processing_jobs))).0,
  sort_by_least (λ r. r.id) _ m rest h,
)

-- A claim that gets a task gets one of the processor, with the lowest id of its queued tasks; the
-- queued row of that id is now running, started at `now`, with one more attempt, and nothing else
-- has changed.
pub claim_next_oldest :
    (now : ℕ) (processor : Bytes) (w w' : World) (j : Job)
    → claim_next now processor w ≡ (ok (some j), w')
    → Claimed now processor j w.db w'.db
unfolding claim_next
claim_next_oldest now processor w w' j h =
    let tx = write_tx-ok _ w h in
    let listed = >>=-ok _ _ tx.0 tx.3 in
    let q = query-ok _ tx.0 listed.2 in
    let c = claim-ok now listed.0 listed.1 tx.1 j listed.3 in
    let l = in_order-least (is_claimable processor) w.db c.0 c.1 (cc (q.0, tx.2, c.2)) in
    let same : j.id ≡ c.0.id = ap (λ (x : Job). x.id) c.3 in
    let start : listed.1.db ≡ w.db = q.1 ∙ tx.2 in
    (
      ap (λ (x : Job). x.processor) c.3 ∙ bytes_eq-eq _ _ (&&-both _ _ l.0).1,
      subst (λ n. All (λ r. n ≤ r.id) (select (is_claimable processor) w.db.processing_jobs))
          (sym same) l.1,
      sym tx.4
          ∙ c.4
          ∙ ap
              (λ (d : Db). set_jobs (update (is_free c.0.id) (claimed_row now) d.processing_jobs) d)
              start
          ∙ ap (λ n. set_jobs (update (is_free n) (claimed_row now) w.db.processing_jobs) w.db)
              (sym same),
    )
