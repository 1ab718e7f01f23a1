-- ===== src/Workers/Headroom.antt =====
-- The batch that a worker is given stays within its headroom.
use crawlerv.Prelude.{
  ℕ, ◌+◌, ◌-◌, ◌≤◌, ◌≡◌, ◌⊎◌, arith, leb, if◌then◌else◌, max, Bool-cases, inl, inr,
}
use crawlerv.Store.World.{World, ok, pure}
use crawlerv.Store.Laws.{query-ok, >>=-ok}
use crawlerv.Workers.Policy.{Worker, held_by, count_held_leases, effective_batch, at_most}

-- A worker with a concurrency limit is given a batch that, beside the leases that it holds over the
-- three queues, stays within the limit, unless these exceed it already, and then the batch is 0; no
-- worker is given more than it asked for, counting a request of 0 as 1.
pub effective_batch_bounds :
    (k : Worker) (requested n : ℕ) (w w' : World)
    → effective_batch k requested w ≡ (ok n, w')
    → (n ≤ max 1 requested)
      × ((k.max_concurrent ≡ 0) ⊎ ((n + held_by k.id w.db ≤ k.max_concurrent) ⊎ (n ≡ 0)))
unfolding effective_batch count_held_leases pure
effective_batch_bounds k requested n w w' h = elim (Bool-cases (leb k.max_concurrent 0)) [
  | inl y ↦ let e = rw y at h in (ground (arith, e), inl (ground arith))
  | inr o ↦
      let e = rw o at h in
      let (held, v, counted, rest) = >>=-ok _ _ w e in
      let q = query-ok (held_by k.id) w counted in
      let size : n ≡ at_most (if leb requested 0 then 1 else requested) (k.max_concurrent - held) =
        ground (arith, rest) in
      (ground (arith, size), inr (bound held q.0 size))
]
  where
    bound :
        (held : ℕ)
        → held_by k.id w.db ≡ held
        → n ≡ at_most (if leb requested 0 then 1 else requested) (k.max_concurrent - held)
        → (n + held_by k.id w.db ≤ k.max_concurrent) ⊎ (n ≡ 0)
    bound held q size = elim (Bool-cases (leb k.max_concurrent held)) [
      | inl y ↦ inr (ground (arith, size, y))
      | inr o ↦ inl (ground (arith, size, o, q))
    ]
