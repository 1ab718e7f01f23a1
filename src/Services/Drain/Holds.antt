-- ===== src/Services/Drain/Holds.antt =====
-- What the drain keeps of the tasks: distinct ids, a bound on the budget, and processors that have
-- no queued task.
use crawlerv.Prelude.{
  ℕ, ◌+◌, ◌≤◌, ◌≡◌, refl, sym, subst, ◌&&◌, Bool, true, false, some, List, [], ◌∷◌, Bytes, contains,
  arith, ◌==◌, All, Bool-cases, inl, inr,
}
use crawlerv.Store.Rows.{JobStatus, ProcessingJob, job_status_eq}
use crawlerv.Store.Sql.{first, update, All-update, map-update}
use crawlerv.Store.Laws.{Keeps, execute-Keeps, query-Keeps, pure-Keeps, >>=-Keeps, write_tx-Keeps}
use crawlerv.ProcessingRepo.Queue.{has_id, is_free, claimed_row, claim, claim_next}
use crawlerv.ProcessingRepo.Invariant.{Distinct, ids}
use crawlerv.Services.Drain.Budget.{attempts_left, budget, budget-update}
use crawlerv.Services.Drain.Claim.{All-unique}

-- A task of one of the processors that nothing has taken.
abbrev pub is_waiting : List Bytes → ProcessingJob → Bool
is_waiting kinds r = job_status_eq r.status JobStatus.queued && contains kinds r.processor

pub record Holds (kinds : List Bytes) (b : ℕ) (rows : List ProcessingJob) : Type 0 where
  pub keys : Distinct (ids rows)
  pub within : budget rows ≤ b
  pub idle : All (λ r. is_waiting kinds r ≡ false) rows

budget-claimed :
    (now id : ℕ) (rows : List ProcessingJob)
    → budget (update (is_free id) (claimed_row now) rows) ≤ budget rows
unfolding budget update attempts_left claimed_row
budget-claimed now id [] = omega arith
budget-claimed now id (r ∷ rows) = ground (arith, budget-claimed now id rows)

claimed-Holds :
    (kinds : List Bytes) (b now id : ℕ) (rows : List ProcessingJob)
    → Holds kinds b rows
    → Holds kinds b (update (is_free id) (claimed_row now) rows)
unfolding claimed_row
claimed-Holds kinds b now id rows h = record {
  keys =
      subst Distinct (sym (map-update (λ r. r.id) (is_free id) (claimed_row now) (λ r. refl) rows))
        h.keys;
  within = omega (arith, budget-claimed now id rows, h.within);
  idle = All-update _ (is_free id) (claimed_row now) (λ r e p. refl) rows h.idle;
}

pub claim_next-Holds :
    (kinds : List Bytes) (b now : ℕ) (kind : Bytes)
    → Keeps (λ d. Holds kinds b d.processing_jobs) (claim_next now kind)
unfolding claim_next claim
claim_next-Holds kinds b now kind = write_tx-Keeps (>>=-Keeps (query-Keeps _) step)
  where
    step : (ms : List ProcessingJob) → Keeps (λ d. Holds kinds b d.processing_jobs) (claim now ms)
    step [] = pure-Keeps _
    step (m ∷ ms) =
        >>=-Keeps (execute-Keeps _ (λ d h. claimed-Holds kinds b now m.id d.processing_jobs h))
          (λ n. pure-Keeps _)

idle-update :
    (kinds : List Bytes) (id : ℕ) (set : ProcessingJob → ProcessingJob) (m : ProcessingJob)
    (rows : List ProcessingJob)
    → is_waiting kinds (set m) ≡ false
    → All (λ r. (r.id == id) ≡ true → r ≡ m) rows
    → All (λ r. is_waiting kinds r ≡ false) rows
    → All (λ r. is_waiting kinds r ≡ false) (update (has_id id) set rows)
unfolding update
idle-update kinds id set m [] q u h = tt
idle-update kinds id set m (r ∷ rows) q u h = elim (Bool-cases (r.id == id)) [
  | inl y ↦ let s = u.0 y in rw (y, s) (q, idle-update kinds id set m rows q u.1 h.1)
  | inr n ↦ rw n (h.0, idle-update kinds id set m rows q u.1 h.1)
]

-- An UPDATE of one task that leaves it unwanted costs at most what it leaves to that task.
pub update-Holds :
    (kinds : List Bytes) (b c id : ℕ) (set : ProcessingJob → ProcessingJob) (m : ProcessingJob)
    (rows : List ProcessingJob)
    → ((r : ProcessingJob) → (set r).id ≡ r.id)
    → first (has_id id) rows ≡ some m
    → is_waiting kinds (set m) ≡ false
    → attempts_left (set m) + b ≤ attempts_left m + c
    → Holds kinds b rows
    → Holds kinds c (update (has_id id) set rows)
update-Holds kinds b c id set m rows same found quiet cost h = record {
  keys = subst Distinct (sym (map-update (λ r. r.id) (has_id id) set same rows)) h.keys;
  within = omega (arith, budget-update id set rows m h.keys found, h.within, cost);
  idle = idle-update kinds id set m rows quiet (All-unique id rows m h.keys found) h.idle;
}
