-- ===== src/Services/Drain/Claim.antt =====
-- What the drain knows of the task that it has claimed, and when it finds none.
use crawlerv.Prelude.{
  ℕ, ◌≡◌, refl, sym, subst, ap, ◌∙◌, &&-both, true, false, none, some, List, [], ◌∷◌, Bytes, arith,
  ◌==◌, ==_refl, All, All-imp, Bool-cases, inl, inr,
}
use crawlerv.Store.Rows.{JobStatus, ProcessingJob, job_status_eq}
use crawlerv.Store.Sql.{
  first, count, update, sort_nil, All-select, All-select_of, All-sort_by, All-of_select_nil,
}
use crawlerv.Store.World.{
  Db, ok, World, pure, write_tx, begin, commit, query, execute, statement, ◌>>=◌,
}
use crawlerv.Services.Pipeline.{claimed_job}
use crawlerv.Store.Laws.{query-ok, >>=-ok, write_tx-ok}
use crawlerv.ProcessingRepo.Types.{Job}
use crawlerv.ProcessingRepo.Queue.{
  has_id, is_claimable, is_free, in_order, claimed_row, claim, claim_next,
}
use crawlerv.ProcessingRepo.Claimed.{claim-ok}
use crawlerv.ProcessingRepo.Invariant.{among, Distinct, ids}

not_first :
    (id : ℕ) (rows : List ProcessingJob)
    → among (ids rows) id ≡ false
    → All (λ r. (r.id == id) ≡ false) rows
not_first id [] h = tt
not_first id (r ∷ rows) h = (ground arith, not_first id rows (ground arith))

-- On distinct ids, the row that an id finds is the only one with it.
pub All-unique :
    (id : ℕ) (rows : List ProcessingJob) (m : ProcessingJob)
    → Distinct (ids rows)
    → first (has_id id) rows ≡ some m
    → All (λ r. (r.id == id) ≡ true → r ≡ m) rows
unfolding first
All-unique id [] m d h = tt
All-unique id (r ∷ rows) m d h = elim (Bool-cases (r.id == id)) [
  | inl y ↦
      let k = rw y at h in
      (
        λ e. ground (arith, k),
        All-imp _ _ (λ x e q. ground arith) rows (not_first id rows (ground arith)),
      )
  | inr n ↦ let k = rw n at h in (λ e. ground arith, All-unique id rows m d.1 k)
]

-- Every row is the one that its id finds.
All-found :
    (rows : List ProcessingJob)
    → Distinct (ids rows)
    → All (λ r. first (has_id r.id) rows ≡ some r) rows
unfolding first
All-found [] d = tt
All-found (r ∷ rows) d =
    (rw (==_refl r.id) refl, later rows (not_first r.id rows d.0) (All-found rows d.1))
  where
    later :
        (xs : List ProcessingJob)
        → All (λ x. (x.id == r.id) ≡ false) xs
        → All (λ x. first (has_id x.id) rows ≡ some x) xs
        → All (λ x. first (has_id x.id) (r ∷ rows) ≡ some x) xs
    later [] a b = tt
    later (x ∷ xs) a b = (ground (arith, a.0, b.0), later xs a.1 b.1)

-- The task of the claim is queued, of the processor, and found by its id.
abbrev pub IsClaimed : Bytes → List ProcessingJob → ProcessingJob → Type 0
IsClaimed kind rows m = (is_claimable kind m ≡ true) × (first (has_id m.id) rows ≡ some m)

All-in_order :
    (kind : Bytes) (d : Db)
    → Distinct (ids d.processing_jobs)
    → All (IsClaimed kind d.processing_jobs) (in_order (is_claimable kind) d)
unfolding in_order
All-in_order kind d k =
    All-sort_by _ (λ r. r.id) _
      (both _ (All-select _ (is_claimable kind) (λ x e. e) d.processing_jobs)
        (All-select_of _ (is_claimable kind) _ (All-found d.processing_jobs k)))
  where
    both :
        (xs : List ProcessingJob)
        → All (λ x. is_claimable kind x ≡ true) xs
        → All (λ x. first (has_id x.id) d.processing_jobs ≡ some x) xs
        → All (IsClaimed kind d.processing_jobs) xs
    both [] a b = tt
    both (x ∷ xs) a b = ((a.0, b.0), both xs a.1 b.1)

pub claim_next-some :
    (now : ℕ) (kind : Bytes) (w w' : World) (j : Job)
    → Distinct (ids w.db.processing_jobs)
    → claim_next now kind w ≡ (ok (some j), w')
    → (m : ProcessingJob) × (IsClaimed kind w.db.processing_jobs m)
      × (j.id ≡ m.id)
      × (w'.db.processing_jobs ≡ update (is_free m.id) (claimed_row now) w.db.processing_jobs)
unfolding claim_next
claim_next-some now kind w w' j d h =
    let tx = write_tx-ok _ w h in
    let listed = >>=-ok _ _ tx.0 tx.3 in
    let q = query-ok _ tx.0 listed.2 in
    let c = claim-ok now listed.0 listed.1 tx.1 j listed.3 in
    let order : in_order (is_claimable kind) w.db ≡ c.0 ∷ c.1 = cc (q.0, tx.2, c.2) in
    let start : listed.1.db ≡ w.db = q.1 ∙ tx.2 in
    (
      c.0,
      (subst (All (IsClaimed kind w.db.processing_jobs)) order (All-in_order kind w.db d)).0,
      ap (λ (x : Job). x.id) c.3,
      ap (λ (x : Db). x.processing_jobs) (sym tx.4)
          ∙ ap (λ (x : Db). x.processing_jobs) c.4
          ∙ ap (λ (x : Db). update (is_free c.0.id) (claimed_row now) x.processing_jobs) start,
    )

count_free :
    (id : ℕ) (rows : List ProcessingJob) (m : ProcessingJob)
    → first (has_id id) rows ≡ some m
    → job_status_eq m.status JobStatus.queued ≡ true
    → (count (is_free id) rows == 0) ≡ false
unfolding first count is_free
count_free id [] m h q = ground arith
count_free id (r ∷ rows) m h q = ground (arith, count_free id rows m)

-- What a claim without faults answers.
quiet_claim :
    (now : ℕ) (kind : Bytes) (d : Db)
    → Distinct (ids d.processing_jobs)
    → claimed_job (claim_next now kind (record { db = d; faults = [] })).0 ≡ none
    → (in_order (is_claimable kind) d ≡ [])
      × ((claim_next now kind (record { db = d; faults = [] })).1 ≡ record { db = d; faults = [] })
unfolding claim_next write_tx begin commit query execute statement ◌>>=◌ pure claim
quiet_claim now kind d k h = run (in_order (is_claimable kind) d) refl
  where
    run :
        (ms : List ProcessingJob)
        → in_order (is_claimable kind) d ≡ ms
        → (in_order (is_claimable kind) d ≡ [])
          × ((claim_next now kind (record { db = d; faults = [] })).1
              ≡ record { db = d; faults = [] })
    run [] e = (e, rw e refl)
    run (m ∷ ms) e =
        let c = (subst (All (IsClaimed kind d.processing_jobs)) e (All-in_order kind d k)).0 in
        let n = count_free m.id d.processing_jobs m c.1 (&&-both _ _ c.0).0 in
        let g = rw (e, n) at h in ground arith

-- Without faults, a loop that ends has found no task of the processor, and has changed nothing.
pub claim_next-none :
    (now : ℕ) (kind : Bytes) (w : World)
    → w.faults ≡ []
    → Distinct (ids w.db.processing_jobs)
    → claimed_job (claim_next now kind w).0 ≡ none
    → All (λ r. is_claimable kind r ≡ false) w.db.processing_jobs × ((claim_next now kind w).1 ≡ w)
unfolding in_order
claim_next-none now kind w f d h =
    let eta : w ≡ record { db = w.db; faults = [] } =
      ap (λ fs. record { db = w.db; faults = fs }) f in
    let q =
      quiet_claim now kind w.db d
        (subst (λ (x : World). claimed_job (claim_next now kind x).0 ≡ none) eta h) in
    (
      All-of_select_nil (is_claimable kind) _ (sort_nil (λ (r : ProcessingJob). r.id) _ q.0),
      ap (λ (x : World). (claim_next now kind x).1) eta ∙ q.1 ∙ sym eta,
    )
