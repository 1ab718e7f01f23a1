-- ===== src/FrontierRepo/Refines.antt =====
-- The calls of the crawl queue make only the moves that its life cycle allows.
use mathlib.Core.List.{Memᴰ}
use crawlerv.Prelude.{
  ℕ, ◌≡◌, refl, ap, ◌∙◌, true, Option, none, some, List, [], ◌∷◌, Bytes, bytes_eq-eq, arith,
}
use crawlerv.Store.Rows.{Status, queued, leased, Frontier, status_eq}
use crawlerv.Store.Laws.{
  Keeps, statement-Keeps, execute-Keeps, pure-Keeps, >>=-Keeps, write_tx-Keeps,
}
use crawlerv.FrontierRepo.Types.{Job}
use crawlerv.FrontierRepo.Queue.{
  enqueue, enqueue_each, enqueue_many, update_held, complete, sweep_expired, holds, token_is,
  completed, is_expired, released,
}
use crawlerv.FrontierRepo.Calls.{Call}
use crawlerv.FrontierRepo.Lifecycle.{Life, Url, life_of}
use crawlerv.FrontierRepo.Moved.{IsReached, rows-IsReached, create-IsReached}

life_held :
    (s : Status) (n : Option ℕ) (t : Option Bytes)
    → status_eq s leased ≡ true
    → life_of s n t ≡ Life.held n t
life_held Status.queued n t h = ground arith
life_held Status.leased n t h = refl
life_held Status.done n t h = ground arith
life_held Status.failed n t h = ground arith
life_held Status.dead n t h = ground arith

pub life_waiting :
    (s : Status) (n : Option ℕ) (t : Option Bytes)
    → status_eq s queued ≡ true
    → life_of s n t ≡ Life.waiting
life_waiting Status.queued n t h = refl
life_waiting Status.leased n t h = ground arith
life_waiting Status.done n t h = ground arith
life_waiting Status.failed n t h = ground arith
life_waiting Status.dead n t h = ground arith

token_is-eq : (t : Bytes) (o : Option Bytes) → token_is t o ≡ true → o ≡ some t
token_is-eq t none h = ground arith
token_is-eq t (some u) h = ap some (bytes_eq-eq u t h)

holds-life :
    (h t : Bytes) (r : Frontier)
    → holds h t r ≡ true
    → (r.url_hash ≡ h)
      × (life_of r.status r.leased_by_worker_id r.lease_token
          ≡ Life.held r.leased_by_worker_id (some t))
unfolding holds
holds-life h t r e =
    let s : status_eq r.status leased ≡ true = ground arith in
    let k : token_is t r.lease_token ≡ true = ground arith in
    (
      bytes_eq-eq r.url_hash h (ground arith),
      life_held r.status _ _ s ∙ ap (Life.held r.leased_by_worker_id) (token_is-eq t _ k),
    )

module _ (us : List Url) (now : ℕ) where
  pub enqueues-reach : (j : Job) → Keeps (IsReached (Call.enqueues now j) us) (enqueue now j)
  unfolding enqueue
  enqueues-reach j =
      >>=-Keeps (execute-Keeps _ (create-IsReached (Call.enqueues now j) us now j refl))
        (λ n. pure-Keeps _)

  enqueue_each-reach :
      (all js : List Job) (n : ℕ)
      → ((j : Job) → Memᴰ j js → Memᴰ j all)
      → Keeps (IsReached (Call.enqueues_many now all) us) (enqueue_each now js n)
  unfolding enqueue_each
  enqueue_each-reach all [] n k = pure-Keeps _
  enqueue_each-reach all (j ∷ js) n k =
      >>=-Keeps (execute-Keeps _ (create-IsReached _ us now j (j, k j (Memᴰ.head refl), refl)))
        (λ m. enqueue_each-reach all js _ (λ i h. k i (Memᴰ.tail h)))

  pub enqueues_many-reach :
      (js : List Job) → Keeps (IsReached (Call.enqueues_many now js) us) (enqueue_many now js)
  unfolding enqueue_many
  enqueues_many-reach [] = pure-Keeps _
  enqueues_many-reach (j ∷ js) = write_tx-Keeps (enqueue_each-reach (j ∷ js) (j ∷ js) 0 (λ i h. h))

  pub completes-reach :
      (h t : Bytes) (code : ℕ)
      → Keeps (IsReached (Call.completes now h t code) us) (complete now h t code)
  unfolding complete update_held
  completes-reach h t code = statement-Keeps _ (λ d s. ground (
    arith,
    s,
    rows-IsReached (Call.completes now h t code) us (holds h t) (completed now code)
        (λ r e c.
          let (same, held) = holds-life h t r e in
          record { hash = refl; move = (same, (r.leased_by_worker_id, held), refl) })
        (λ r. refl) (λ r _ c. ground arith) d s,
  ))

  pub sweeps-reach : Keeps (IsReached (Call.sweeps now) us) (sweep_expired now)
  unfolding sweep_expired is_expired
  sweeps-reach = execute-Keeps _ (
      rows-IsReached (Call.sweeps now) us (is_expired now) released
        (λ r e c. record {
          hash = refl;
          move = ((_, _, life_held r.status _ _ (ground arith)), refl);
        })
        (λ r. refl) (λ r _ c. ground arith))
