-- ===== src/FrontierRepo/Requeued.antt =====
-- The operator's requeue, row by row.
use crawlerv.Prelude.{
  ℕ, ◌≡◌, ◌⊎◌, inl, inr, refl, sym, subst, ap, ◌∙◌, true, Option, none, some, List, [], ◌∷◌, arith,
  ltb, ◌==◌, ==_iff, ==_refl, if◌then◌else◌, Bool-cases,
}
use crawlerv.Store.Rows.{Status, queued, Frontier, status_eq}
use crawlerv.Store.Sql.{update}
use crawlerv.Store.World.{Db, ok, World, fail}
use crawlerv.Store.Laws.{execute-ok}
use crawlerv.FrontierRepo.Types.{RequeueFilter}
use crawlerv.FrontierRepo.Queue.{
  status_matches, id_is, filter_matches, has_condition, requeued, requeue_by_filter,
}

-- A row that the filter asks for: of its status, holder and domain, as far as it names them.
pub record IsAsked (f : RequeueFilter) (r : Frontier) : Type 0 where
  pub status : (f.status ≡ none) ⊎ (f.status ≡ some r.status)
  pub holder : (f.worker_id ≡ 0) ⊎ (r.leased_by_worker_id ≡ some f.worker_id)
  pub domain : (f.domain_id ≡ 0) ⊎ (r.domain_id ≡ f.domain_id)

-- The row `q` is `r` queued again at once: without a lease and a retry time, and with the attempts
-- that it had.
pub record IsQueuedAgain (r q : Frontier) : Type 0 where
  pub url_hash : q.url_hash ≡ r.url_hash
  pub domain_id : q.domain_id ≡ r.domain_id
  pub status : q.status ≡ queued
  pub token : q.lease_token ≡ none
  pub holder : q.leased_by_worker_id ≡ none
  pub expiry : q.lease_expires_at ≡ none
  pub retry : q.next_retry_at ≡ none
  pub attempts : q.attempt_count ≡ r.attempt_count
  pub budget : q.max_attempts ≡ r.max_attempts
  pub scheduled : q.scheduled_for ≡ r.scheduled_for

-- Each row in its place: queued again if the filter asks for it, and else as it was.
pub data Requeued (f : RequeueFilter) : List Frontier → List Frontier → Type 0 where
  ends : Requeued f [] []
  takes :
      {r q : Frontier} {rs qs : List Frontier}
      → IsAsked f r
      → IsQueuedAgain r q
      → Requeued f rs qs
      → Requeued f (r ∷ rs) (q ∷ qs)
  leaves :
      {r : Frontier} {rs qs : List Frontier}
      → ¬ IsAsked f r
      → Requeued f rs qs
      → Requeued f (r ∷ rs) (r ∷ qs)

status_eq-eq : (s t : Status) → status_eq s t ≡ true → s ≡ t
status_eq-eq Status.queued Status.queued h = refl
status_eq-eq Status.leased Status.leased h = refl
status_eq-eq Status.done Status.done h = refl
status_eq-eq Status.failed Status.failed h = refl
status_eq-eq Status.dead Status.dead h = refl
status_eq-eq s t h = ground arith

status_eq_refl : (s : Status) → status_eq s s ≡ true
status_eq_refl Status.queued = refl
status_eq_refl Status.leased = refl
status_eq_refl Status.done = refl
status_eq_refl Status.failed = refl
status_eq_refl Status.dead = refl

status-asked :
    (o : Option Status) (s : Status) → status_matches o s ≡ true → (o ≡ none) ⊎ (o ≡ some s)
status-asked none s h = inl refl
status-asked (some t) s h = inr (ap some (sym (status_eq-eq s t h)))

asked-status :
    (o : Option Status) (s : Status) → (o ≡ none) ⊎ (o ≡ some s) → status_matches o s ≡ true
asked-status o s (inl e) = ap (λ x. status_matches x s) e
asked-status o s (inr e) = ap (λ x. status_matches x s) e ∙ status_eq_refl s

id_is-eq : (n : ℕ) (o : Option ℕ) → id_is n o ≡ true → o ≡ some n
id_is-eq n none h = ground arith
id_is-eq n (some m) h = ap some ((==_iff m n).0 h)

id_is-some : (n : ℕ) (o : Option ℕ) → o ≡ some n → id_is n o ≡ true
id_is-some n o e = ap (id_is n) e ∙ ==_refl n

matches-IsAsked : (f : RequeueFilter) (r : Frontier) → filter_matches f r ≡ true → IsAsked f r
unfolding filter_matches
matches-IsAsked f r h = record {
  status = status-asked f.status r.status (ground arith);
  holder = elim (Bool-cases (ltb 0 f.worker_id)) [
    | inl y ↦ inr (id_is-eq f.worker_id r.leased_by_worker_id (ground (arith, y)))
    | inr n ↦ inl (ground (arith, n))
  ];
  domain = elim (Bool-cases (ltb 0 f.domain_id)) [
    | inl y ↦ inr (ground (arith, y))
    | inr n ↦ inl (ground (arith, n))
  ];
}

holder_test :
    (f : RequeueFilter) (r : Frontier)
    → (f.worker_id ≡ 0) ⊎ (r.leased_by_worker_id ≡ some f.worker_id)
    → (if ltb 0 f.worker_id then id_is f.worker_id r.leased_by_worker_id else true) ≡ true
holder_test f r (inl e) = ground (arith, e)
holder_test f r (inr e) = ground (arith, id_is-some f.worker_id r.leased_by_worker_id e)

domain_test :
    (f : RequeueFilter) (r : Frontier)
    → (f.domain_id ≡ 0) ⊎ (r.domain_id ≡ f.domain_id)
    → (if ltb 0 f.domain_id then r.domain_id == f.domain_id else true) ≡ true
domain_test f r (inl e) = ground (arith, e)
domain_test f r (inr e) = ground (arith, e)

IsAsked-matches : (f : RequeueFilter) (r : Frontier) → IsAsked f r → filter_matches f r ≡ true
unfolding filter_matches
IsAsked-matches f r a = ground (
  arith,
  asked-status f.status r.status a.status,
  holder_test f r a.holder,
  domain_test f r a.domain,
)

requeued-IsQueuedAgain : (r : Frontier) → IsQueuedAgain r (requeued r)
requeued-IsQueuedAgain r = record {
  url_hash = refl;
  domain_id = refl;
  status = refl;
  token = refl;
  holder = refl;
  expiry = refl;
  retry = refl;
  attempts = refl;
  budget = refl;
  scheduled = refl;
}

update-Requeued :
    (f : RequeueFilter) (rows : List Frontier)
    → Requeued f rows (update (filter_matches f) requeued rows)
unfolding update
update-Requeued f [] = ends
update-Requeued f (r ∷ rows) = elim (Bool-cases (filter_matches f r)) [
  | inl y ↦
      rw (y, update)
        (takes (matches-IsAsked f r y) (requeued-IsQueuedAgain r) (update-Requeued f rows))
  | inr n ↦
      rw (n, update)
        (leaves (λ a. ground (arith, n, IsAsked-matches f r a)) (update-Requeued f rows))
]

-- A requeue that succeeds queues again every row that its filter asks for, whatever the row's status
-- if the filter names none: the done and the dead rows too. They have no lease and no retry time, and
-- keep their attempts. Every other row stays as it was.
pub requeue_effect :
    (f : RequeueFilter) (w : World) {n : ℕ} {w' : World}
    → requeue_by_filter f w ≡ (ok n, w')
    → Requeued f w.db.crawl_frontier w'.db.crawl_frontier
unfolding requeue_by_filter fail
requeue_effect f w {n} {w'} e = elim (Bool-cases (has_condition f)) [
  | inl y ↦
      let run = execute-ok _ w (rw y at e) in
      subst (λ (d : Db). Requeued f w.db.crawl_frontier d.crawl_frontier)
        (ap (λ (p : ℕ × Db). p.1) run) (update-Requeued f w.db.crawl_frontier)
  | inr z ↦ let bad = rw z at e in ground arith
]
