-- ===== src/Services/Drain/Ends.antt =====
-- The loop ends on enough fuel, and without faults it leaves none of its tasks waiting.
use crawlerv.Prelude.{
  ℕ, zero, suc, ◌-◌, ◌<◌, ◌≡◌, refl, sym, subst, inl, inr, false, Option, some, List, [], ◌∷◌,
  Bytes, contains, arith, ◌++◌, append-nil, All, All-of_forall, All-imp, Option-cases,
}
use crawlerv.Store.Rows.{ProcessingJob}
use crawlerv.Store.World.{Result, ok, err, World}
use crawlerv.FrontierRepo.Invariant.{bytes_eq_comm}
use crawlerv.ProcessingRepo.Types.{Job}
use crawlerv.ProcessingRepo.Queue.{is_claimable, claim_next}
use crawlerv.ProcessingRepo.Invariant.{Distinct, ids}
use crawlerv.Services.Pipeline.{Pipeline, Run, claimed_job, exec, drain_kind, drain_each, drain}
use crawlerv.Services.Drain.Budget.{budget}
use crawlerv.Services.Drain.Claim.{claim_next-none}
use crawlerv.Services.Drain.Holds.{is_waiting, Holds, claim_next-Holds}
use crawlerv.Services.Drain.Quiet.{claim_next-IsSteady, exec-IsSteady}
use crawlerv.Services.Drain.Round.{round-Holds}

claimed_job-some :
    (r : Result (Option Job) × World) (j : Job) → claimed_job r.0 ≡ some j → r ≡ (ok (some j), r.1)
claimed_job-some (ok o, v) j h = ground (arith, h)
claimed_job-some (err e, v) j h = ground arith

-- What a loop without faults leaves.
record IsDrained (kind : Bytes) (v : World) : Type 0 where
  pub quiet : v.faults ≡ []
  pub idle : All (λ r. is_claimable kind r ≡ false) v.db.processing_jobs

module _ (p : Pipeline) (runs : Bytes → ℕ → Run) (kinds : List Bytes) where
  -- One processor's loop, on more fuel than budget.
  drain_kind-Holds :
      (f b : ℕ) (kind : Bytes) (w : World)
      → b < f
      → Holds kinds b w.db.processing_jobs
      → (v : World) × (drain_kind p runs f kind w ≡ some v)
        × Holds kinds b v.db.processing_jobs
        × (w.faults ≡ [] → IsDrained kind v)
  unfolding drain_kind
  drain_kind-Holds zero b kind w lt h = elim lt [ ]
  drain_kind-Holds (suc f) b kind w lt h =
      let now = (runs kind f).claimed_at in
      elim (Option-cases (claimed_job (claim_next now kind w).0)) [
        | inl e ↦ (
          (claim_next now kind w).1,
          rw (e, drain_kind) refl,
          (claim_next-Holds kinds b now kind).apply w h,
          λ quiet.
              let (idle, same) = claim_next-none now kind w quiet h.keys e in
              subst (IsDrained kind) (sym same) (record { quiet = quiet; idle = idle }),
        )
        | inr (j, e) ↦
            let (less, some_budget) =
              round-Holds p (runs kind f) kinds b now kind w _ j h (claimed_job-some _ j e) in
            let (v, ends, kept, drained) =
              drain_kind-Holds f (b - 1) kind (exec p (runs kind f) j (claim_next now kind w).1).1
                (omega (arith, lt, some_budget)) less in
            (
              v,
              rw (e, drain_kind) ends,
              record { keys = kept.keys; within = omega (arith, kept.within); idle = kept.idle },
              λ quiet. drained (
                  (exec-IsSteady p (runs kind f) j).apply _
                    ((claim_next-IsSteady now kind).apply w quiet)),
            )
      ]

module _ (p : Pipeline) (runs : Bytes → ℕ → Run) where
  drain_each-Holds :
      (f b : ℕ) (ks : List Bytes) (w : World)
      → b < f
      → Holds [] b w.db.processing_jobs
      → (v : World) × (drain_each p runs f ks w ≡ some v) × Holds [] b v.db.processing_jobs
  unfolding drain_each
  drain_each-Holds f b [] w lt h = (w, refl, h)
  drain_each-Holds f b (k ∷ ks) w lt h =
      let (v, ends, kept, drained) = drain_kind-Holds p runs [] f b k w lt h in
      let (u, rest, last) = drain_each-Holds f b ks v lt kept in
      (u, rw (ends, drain_each) rest, last)

none_waits : (rows : List ProcessingJob) → All (λ r. is_waiting [] r ≡ false) rows
unfolding contains
none_waits rows = All-of_forall _ (λ r. ground arith) rows

-- The drain of the in-process worker ends, whatever statements, clients and libraries fail: fuel
-- beyond the attempts that the queued tasks have left gives a result, if the ids of the tasks are
-- distinct.
pub drain_ends :
    (p : Pipeline) (runs : Bytes → ℕ → Run) (f : ℕ) (w : World)
    → Distinct (ids w.db.processing_jobs)
    → budget w.db.processing_jobs < f
    → (v : World) × (drain p runs f w ≡ some v)
unfolding drain
drain_ends p runs f w d lt =
    let (v, ends, kept) =
      drain_each-Holds p runs f _ p.internal_processors w lt
        (record { keys = d; within = omega arith; idle = none_waits w.db.processing_jobs }) in
    (v, ends)

also_waits :
    (k : Bytes) (kinds : List Bytes) (rows : List ProcessingJob)
    → All (λ r. is_claimable k r ≡ false) rows
    → All (λ r. is_waiting kinds r ≡ false) rows
    → All (λ r. is_waiting (k ∷ kinds) r ≡ false) rows
unfolding contains
also_waits k kinds [] a h = tt
also_waits k kinds (r ∷ rows) a h =
    (ground (arith, a.0, h.0, bytes_eq_comm k r.processor), also_waits k kinds rows a.1 h.1)

contains_moved :
    (ks : List Bytes) (k : Bytes) (kinds : List Bytes) (a : Bytes)
    → contains (ks ++ k ∷ kinds) a ≡ contains (k ∷ ks ++ kinds) a
unfolding contains
contains_moved [] k kinds a = refl
contains_moved (x ∷ ks) k kinds a = ground (arith, contains_moved ks k kinds a)

moved :
    (ks : List Bytes) (k : Bytes) (kinds : List Bytes) (r : ProcessingJob)
    → is_waiting (ks ++ k ∷ kinds) r ≡ false
    → is_waiting (k ∷ ks ++ kinds) r ≡ false
moved ks k kinds r h = rw (contains_moved ks k kinds r.processor) at h

module _ (p : Pipeline) (runs : Bytes → ℕ → Run) where
  -- The processors drained so far stay without waiting tasks.
  drain_each-idle :
      (f b : ℕ) (ks kinds : List Bytes) (w : World)
      → b < f
      → w.faults ≡ []
      → Holds kinds b w.db.processing_jobs
      → (v : World) × (drain_each p runs f ks w ≡ some v)
        × All (λ r. is_waiting (ks ++ kinds) r ≡ false) v.db.processing_jobs
  unfolding drain_each
  drain_each-idle f b [] kinds w lt quiet h = (w, refl, h.idle)
  drain_each-idle f b (k ∷ ks) kinds w lt quiet h =
      let (v, ends, kept, drained) = drain_kind-Holds p runs kinds f b k w lt h in
      let d = drained quiet in
      let (u, rest, last) = drain_each-idle f b ks (k ∷ kinds) v lt d.quiet (record {
        keys = kept.keys;
        within = kept.within;
        idle = also_waits k kinds v.db.processing_jobs d.idle kept.idle;
      }) in
      (
        u,
        rw (ends, drain_each) rest,
        All-imp _ _ (λ r. moved ks k kinds r) u.db.processing_jobs last,
      )

-- Without faults, and if the ids of the tasks are distinct, the drain ends on fuel beyond the attempts
-- that the queued tasks have left, and no task of the in-process worker's processors is queued then.
pub drain_empties :
    (p : Pipeline) (runs : Bytes → ℕ → Run) (f : ℕ) (w : World)
    → Distinct (ids w.db.processing_jobs)
    → budget w.db.processing_jobs < f
    → w.faults ≡ []
    → (v : World) × (drain p runs f w ≡ some v)
      × All (λ r. is_waiting p.internal_processors r ≡ false) v.db.processing_jobs
unfolding drain
drain_empties p runs f w d lt quiet =
    let (v, ends, idle) =
      drain_each-idle p runs f _ p.internal_processors [] w lt quiet
        (record { keys = d; within = omega arith; idle = none_waits w.db.processing_jobs }) in
    (
      v,
      ends,
      subst (λ l. All (λ r. is_waiting l r ≡ false) v.db.processing_jobs)
          (append-nil p.internal_processors) idle,
    )
