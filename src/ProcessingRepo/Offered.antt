-- ===== src/ProcessingRepo/Offered.antt =====
-- ReserveBatch: which tasks an external worker gets.
use crawlerv.Prelude.{
  ℕ, ◌+◌, ◌≤◌, ◌≡◌, refl, subst, Bool, true, List, [], ◌∷◌, ◌++◌, Bytes, contains, arith, ◌==◌, leb,
  length, length-append, length-take, All, All-append, All-take, Bool-cases, inl, inr, &&-both,
}
use crawlerv.Store.Rows.{ProcessingJob}
use crawlerv.Store.Sql.{All-select, All-sort_by}
use crawlerv.Store.World.{ok, World, pure}
use crawlerv.Store.Laws.{query-ok, >>=-ok, write_tx-ok}
use crawlerv.ProcessingRepo.Types.{LeasedTask}
use crawlerv.ProcessingRepo.Queue.{in_order}
use crawlerv.ProcessingRepo.Leases.{Sign, is_wanted, leased_task, lease_each, reserve_batch}

-- A processor that the worker asked for: any, if it named none.
abbrev pub is_kind : List Bytes → Bytes → Bool
is_kind [] p = true
is_kind (k ∷ ks) p = contains (k ∷ ks) p

-- What the worker is told of a task: its processor, its token and its expiry.
abbrev pub IsOffer : Sign → ℕ → List Bytes → LeasedTask → Type 0
IsOffer sign expires kinds t =
    (is_kind kinds t.job.processor ≡ true)
    × (t.lease_token ≡ (sign t.job.id expires).0)
    × (t.lease_expires_at ≡ expires)

wanted-kind :
    (kinds : List Bytes) (r : ProcessingJob)
    → is_wanted kinds r ≡ true
    → is_kind kinds r.processor ≡ true
unfolding is_wanted
wanted-kind [] r h = refl
wanted-kind (k ∷ ks) r h = (&&-both _ _ h).1

module _ (sign : Sign) (worker now expires : ℕ) (kinds : List Bytes) where
  abbrev pub Good : LeasedTask → Type 0
  Good = IsOffer sign expires kinds

  lease_each-ok :
      (ps : List ProcessingJob) (out ts : List LeasedTask) (v v' : World)
      → All (λ p. is_kind kinds p.processor ≡ true) ps
      → All Good out
      → lease_each sign worker now expires ps out v ≡ (ok ts, v')
      → All Good ts × (length ts ≤ length out + length ps)
  unfolding lease_each pure
  lease_each-ok [] out ts v v' k g h = ground (arith, g)
  lease_each-ok (p ∷ ps) out ts v v' k g h =
      let step = >>=-ok _ _ v h in
      elim (Bool-cases (step.0 == 0)) [
        | inl y ↦
            let ih = lease_each-ok ps out ts step.1 v' k.1 g (rw y at step.3) in
            (ih.0, omega (arith, ih.1))
        | inr n ↦
            let next = >>=-ok _ _ step.1 (rw n at step.3) in
            let t = leased_task now p (sign p.id expires).0 expires next.0 in
            let ih =
              lease_each-ok ps (out ++ t ∷ []) ts next.1 v' k.1
                (All-append Good out _ g ((k.0, refl, refl), tt)) next.3 in
            (ih.0, omega (arith, ih.1, length-append out (t ∷ [])))
      ]

-- A reservation that succeeds offers at most `batch` tasks. Each is of a processor that the worker
-- asked for (of any, if it named none), with the token that was signed for this task and this expiry.
pub reserve_batch_offers :
    (sign : Sign) (now worker : ℕ) (kinds : List Bytes) (batch ttl : ℕ) (w w' : World)
    (ts : List LeasedTask)
    → reserve_batch sign now worker kinds batch ttl w ≡ (ok ts, w')
    → All (IsOffer sign (now + ttl) kinds) ts × (length ts ≤ batch)
unfolding reserve_batch pure in_order
reserve_batch_offers sign now worker kinds batch ttl w w' ts h = elim (Bool-cases (leb batch 0)) [
  | inl y ↦ let k = rw y at h in ground (arith, k)
  | inr n ↦
      let tx = write_tx-ok _ w (rw n at h) in
      let listed = >>=-ok _ _ tx.0 tx.3 in
      let q = query-ok _ tx.0 listed.2 in
      let kind = subst (All (λ p. is_kind kinds p.processor ≡ true)) q.0 (
        All-take _ batch _ (
          All-sort_by _ (λ r. r.id) _
            (All-select _ (is_wanted kinds) (wanted-kind kinds) tx.0.db.processing_jobs))) in
      let run =
        lease_each-ok sign worker now (now + ttl) kinds listed.0 [] ts listed.1 tx.1 kind tt
          listed.3 in
      let short : length listed.0 ≤ batch =
        subst (λ l. length l ≤ batch) q.0
          (omega (arith, length-take batch (in_order (is_wanted kinds) tx.0.db))) in
      (run.0, omega (arith, run.1, short))
]
