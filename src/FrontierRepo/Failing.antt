-- ===== src/FrontierRepo/Failing.antt =====
-- `Fail`: the attempt budget.
use crawlerv.Prelude.{
  ℕ, ◌+◌, ◌<◌, ◌≤◌, ◌≡◌, sym, subst, ap, ◌∙◌, true, false, Option, none, some, [], ◌∷◌, Bytes,
  bytes_eq-eq, arith, ◌⊎◌, inl, inr, Bool-cases, leb,
}
use crawlerv.Store.Rows.{Frontier, queued, leased, dead}
use crawlerv.Store.Sql.{first, first-some, update}
use crawlerv.Store.World.{Db, ok, World, fail}
use crawlerv.Store.Laws.{execute-ok, >>=-ok, write_tx-ok}
use crawlerv.FrontierRepo.Types.{Failure}
use crawlerv.FrontierRepo.Queue.{
  has_hash, set_frontier, is_final, failed_row, token_held, record_failure, fail_lease,
}
use crawlerv.FrontierRepo.Invariant.{IsConsistent, Inv}
use crawlerv.FrontierRepo.Taken.{All-at, find_row-ok}
use crawlerv.FrontierRepo.Leases.{IsHolder}

record_failure-ok :
    (now : ℕ) (h t : Bytes) (f : Failure) (backoff : ℕ) (m : Frontier) (v : World) {w' : World}
    → record_failure now h t f backoff m v ≡ (ok tt, w')
    → (token_held t m.lease_token ≡ true)
      × (w'.db
          ≡ set_frontier
              (update (has_hash h) (failed_row now backoff f m) v.db.crawl_frontier)
              v.db)
unfolding record_failure fail
record_failure-ok now h t f backoff m v {w'} e = elim (Bool-cases (token_held t m.lease_token)) [
  | inl y ↦ let k = rw y at e in (y, ground (arith, execute-ok _ v k))
  | inr n ↦ let k = rw n at e in ground arith
]

token_held-eq : (t : Bytes) (o : Option Bytes) → token_held t o ≡ true → o ≡ some t
token_held-eq t none h = ground arith
token_held-eq t (some []) h = ground arith
token_held-eq t (some (b ∷ bs)) h = ap some (bytes_eq-eq (b ∷ bs) t h)

leased_of_token :
    (r : Frontier) (t : Bytes) → IsConsistent r → r.lease_token ≡ some t → r.status ≡ leased
leased_of_token r t c e = ground arith

-- How an attempt ends: dead with no further try, or queued again for a later one.
abbrev pub Outcome : ℕ → ℕ → Failure → Frontier → Frontier → Type 0
Outcome now backoff f r after =
    ((after.status ≡ dead)
      × (after.next_retry_at ≡ none)
      × ((f.retryable ≡ false) ⊎ (r.max_attempts ≤ r.attempt_count)))
    ⊎ ((after.status ≡ queued)
        × (after.next_retry_at ≡ some (now + backoff))
        × (f.retryable ≡ true)
        × (r.attempt_count < r.max_attempts))

outcome :
    (now backoff : ℕ) (f : Failure) (r : Frontier)
    → Outcome now backoff f r (failed_row now backoff f r r)
unfolding is_final
outcome now backoff f r = elim (Bool-cases f.retryable) [
  | inl y ↦ elim (Bool-cases (leb r.max_attempts r.attempt_count)) [
    | inl z ↦ inl (ground arith, ground arith, inr (ground arith))
    | inr n ↦ inr (ground arith, ground arith, y, ground arith)
  ]
  | inr n ↦ inl (ground arith, ground arith, inl n)
]

-- `Fail` succeeds only under the token of a leased row of the URL, and changes that row alone. The
-- row is dead if the failure is final or the attempts are used up, and otherwise it is queued again
-- for a try at now + backoff.
pub fail_lease_effect :
    (now : ℕ) (h t : Bytes) (f : Failure) (backoff : ℕ) (w : World) {w' : World}
    → Inv w.db
    → fail_lease now h t f backoff w ≡ (ok tt, w')
    → (r : Frontier) × IsHolder w.db.crawl_frontier h t r
      × (w'.db
          ≡ set_frontier
              (update (has_hash h) (failed_row now backoff f r) w.db.crawl_frontier)
              w.db)
      × Outcome now backoff f r (failed_row now backoff f r r)
unfolding fail_lease
fail_lease_effect now h t f backoff w {w'} inv e =
    let (v, v', start, body, end) = write_tx-ok _ w e in
    let (m, u, found, recorded) = >>=-ok _ _ v body in
    let (row, same) = find_row-ok h v found in
    let (held, after) = record_failure-ok now h t f backoff m u recorded in
    let at_start : u.db ≡ w.db = same ∙ start in
    let (there, hit) =
      first-some (has_hash h) w.db.crawl_frontier
        (subst (λ (d : Db). first (has_hash h) d.crawl_frontier ≡ some m) start row) in
    let token = token_held-eq t m.lease_token held in
    (
      m,
      record {
        in_queue = there;
        url = bytes_eq-eq m.url_hash h hit;
        status = leased_of_token m t (All-at IsConsistent there inv.leases) token;
        token = token;
      },
      sym end
          ∙ after
          ∙ ap
              (λ (d : Db).
                set_frontier (update (has_hash h) (failed_row now backoff f m) d.crawl_frontier) d)
              at_start,
      outcome now backoff f m,
    )
