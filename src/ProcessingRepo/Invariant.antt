-- ===== src/ProcessingRepo/Invariant.antt =====
-- What holds of the tasks between two calls, whatever calls were made and whichever failed.
use crawlerv.Prelude.{
  ℕ, ◌<◌, ◌≡◌, refl, ◌||◌, Bool, false, List, [], ◌∷◌, ◌++◌, map, map-append, Bytes, arith, is_some,
  ◌==◌, All, All-append, All-imp,
}
use crawlerv.Store.Rows.{ProcessingJob}
use crawlerv.Store.World.{Db}
use crawlerv.ProcessingRepo.Queue.{new_row, inserted}

-- The three columns of a lease are set together.
pub record IsTogether (r : ProcessingJob) : Type 0 where
  pub holder : is_some r.leased_by_worker_id ≡ is_some r.lease_token
  pub expiry : is_some r.lease_expires_at ≡ is_some r.lease_token

abbrev pub among : List ℕ → ℕ → Bool
among [] n = false
among (x ∷ xs) n = x == n || among xs n

abbrev pub Distinct : List ℕ → Type 0
Distinct [] = Unit {0}
Distinct (k ∷ ks) = (among ks k ≡ false) × Distinct ks

abbrev pub ids : List ProcessingJob → List ℕ
ids = map λ r. r.id

-- The primary key, the counter it comes from, and the lease columns.
pub record IsSound (rows : List ProcessingJob) (next : ℕ) : Type 0 where
  pub keys : Distinct (ids rows)
  pub below : All (λ r. r.id < next) rows
  pub leases : All IsTogether rows

abbrev pub Inv : Db → Type 0
Inv d = IsSound d.processing_jobs d.next_job_id

Distinct-append_one :
    (ks : List ℕ) (k : ℕ) → Distinct ks → among ks k ≡ false → Distinct (ks ++ k ∷ [])
Distinct-append_one [] k d h = (refl, tt)
Distinct-append_one (x ∷ ks) k d h =
    (last ks (ground arith) d.0, Distinct-append_one ks k d.1 (ground arith))
  where
    last : (ys : List ℕ) → (k == x) ≡ false → among ys x ≡ false → among (ys ++ k ∷ []) x ≡ false
    last [] p q = ground arith
    last (y ∷ ys) p q = ground (arith, last ys p)

not_among :
    (rows : List ProcessingJob) (n : ℕ) → All (λ r. r.id < n) rows → among (ids rows) n ≡ false
not_among [] n h = refl
not_among (r ∷ rows) n h = ground (arith, h.0, not_among rows n h.1)

pub inserted-Inv :
    (now : ℕ) (p : Bytes) (lake_id : ℕ) (d : Db) → Inv d → Inv (inserted now p lake_id d)
unfolding new_row
inserted-Inv now p lake_id d s = record {
  keys =
      rw
        (map-append (λ (r : ProcessingJob). r.id) d.processing_jobs
          (new_row now p lake_id d.next_job_id ∷ []))
        (Distinct-append_one _ _ s.keys (not_among _ _ s.below));
  below =
      All-append _ d.processing_jobs _
        (All-imp _ _ (λ r h. omega (arith, h)) d.processing_jobs s.below) (omega arith, tt);
  leases =
      All-append IsTogether d.processing_jobs _ s.leases
        (record { holder = refl; expiry = refl }, tt);
}
