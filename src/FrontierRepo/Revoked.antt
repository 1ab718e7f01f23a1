-- ===== src/FrontierRepo/Revoked.antt =====
-- When a lease token is no good any more, and what the operator's requeue takes.
use crawlerv.Prelude.{
  false, ℕ, ◌≡◌, ◌≢◌, refl, sym, subst, ap, ◌∙◌, Bool, true, false, List, [], ◌∷◌, Bytes, ◌⊎◌,
  bytes_eq-eq, bytes_eq_refl, contains, arith, inl, inr,
}
use mathlib.Core.List.{Memᴰ}
use crawlerv.Store.Rows.{Frontier, leased}
use crawlerv.Store.Sql.{count, update}
use crawlerv.Store.World.{Result, err, is_ok, Db, Result, ok, World}
use crawlerv.Store.Laws.{execute-ok}
use crawlerv.FrontierRepo.Types.{Failure}
use crawlerv.FrontierRepo.Queue.{
  has_hash, holds, heartbeat, completed, complete, failed_row, fail_lease, is_expired, before,
  released, sweep_expired,
}
use crawlerv.FrontierRepo.Invariant.{Distinct, hashes, Inv}
use crawlerv.FrontierRepo.Reserved.{contains-mem}
use crawlerv.FrontierRepo.Leases.{IsHolder, IsLost, complete_effect, heartbeat_effect}
use crawlerv.FrontierRepo.Failing.{fail_lease_effect}
use crawlerv.FrontierRepo.Preservation.{complete-Keeps, fail_lease-Keeps, sweep_expired-Keeps}

-- No call under the token succeeds on these tables.
pub record IsRefused (h t : Bytes) (d : Db) : Type 0 where
  pub no_heartbeat :
      (now extend x : ℕ) (w w' : World) → w.db ≡ d → heartbeat now h t extend w ≢ (ok x, w')
  pub no_complete :
      (now http_status : ℕ) (w w' : World) → w.db ≡ d → complete now h t http_status w ≢ (ok tt, w')
  pub no_fail :
      (now backoff : ℕ) (f : Failure) (w w' : World)
      → w.db ≡ d
      → fail_lease now h t f backoff w ≢ (ok tt, w')

holder-held :
    (rows : List Frontier) (h t : Bytes) (r : Frontier) → IsHolder rows h t r → holds h t r ≡ true
unfolding holds
holder-held rows h t r k =
    ground (arith, k.url, bytes_eq_refl h, bytes_eq_refl t, k.status, k.token)

not-lost :
    (rows : List Frontier) (test : Frontier → Bool) (r : Frontier)
    → Memᴰ r rows
    → test r ≡ true
    → count test rows ≢ 0
unfolding count
not-lost [] test r m e = elim m [ ]
not-lost (x ∷ rows) test r (Memᴰ.head s) e = λ z. ground (arith, s)
not-lost (x ∷ rows) test r (Memᴰ.tail m) e = λ z. not-lost rows test r m e (ground arith)

lost-IsRefused : (h t : Bytes) (d : Db) → Inv d → IsLost h t d → IsRefused h t d
lost-IsRefused h t d inv lost = record {
  no_heartbeat = λ now extend x w w' at e.
      let (r, k, _, _) = heartbeat_effect now h t extend w (subst Inv (sym at) inv) e in
      no_holder r (subst (λ (z : Db). IsHolder z.crawl_frontier h t r) at k);
  no_complete = λ now s w w' at e.
      let (r, k, _) = complete_effect now h t s w (subst Inv (sym at) inv) e in
      no_holder r (subst (λ (z : Db). IsHolder z.crawl_frontier h t r) at k);
  no_fail = λ now backoff f w w' at e.
      let (r, k, _, _) = fail_lease_effect now h t f backoff w (subst Inv (sym at) inv) e in
      no_holder r (subst (λ (z : Db). IsHolder z.crawl_frontier h t r) at k);
}
  where
    no_holder : (r : Frontier) → ¬ IsHolder d.crawl_frontier h t r
    no_holder r k =
        not-lost d.crawl_frontier (holds h t) r k.in_queue (holder-held d.crawl_frontier h t r k)
          lost

count_zero :
    (hold test : Frontier → Bool) (set : Frontier → Frontier)
    → ((x : Frontier) → test x ≡ true → hold (set x) ≡ false)
    → ((x : Frontier) → test x ≡ false → hold x ≡ false)
    → (xs : List Frontier) → count hold (update test set xs) ≡ 0
unfolding count update
count_zero hold test set k l [] = refl
count_zero hold test set k l (x ∷ xs) = ground (arith, k x, l x, count_zero hold test set k l xs)

not_other : (h t : Bytes) (x : Frontier) → has_hash h x ≡ false → holds h t x ≡ false
unfolding holds
not_other h t x e = ground arith

pub spent-IsRefused :
    (h t : Bytes) (now backoff http_status : ℕ) (f : Failure) (w : World) {w' : World}
    → Inv w.db
    → (complete now h t http_status w ≡ (ok tt, w'))
      ⊎ (fail_lease now h t f backoff w ≡ (ok tt, w'))
    → IsRefused h t w'.db
spent-IsRefused h t now backoff s f w {w'} inv (inl e) =
    let (r, k, after) = complete_effect now h t s w inv e in
    lost-IsRefused h t w'.db
      (subst (λ (z : World). Inv z.db) (ap (λ (p : Result (Unit {0}) × World). p.1) e)
        ((complete-Keeps now h t s).apply w inv))
      (rw after (
        count_zero (holds h t) (has_hash h) (completed now s) (λ x _. completed-not-held x)
          (not_other h t) w.db.crawl_frontier))
  where
    completed-not-held : (x : Frontier) → holds h t (completed now s x) ≡ false
    completed-not-held x = unfold holds in ground arith
spent-IsRefused h t now backoff s f w {w'} inv (inr e) =
    let (r, k, after, _) = fail_lease_effect now h t f backoff w inv e in
    lost-IsRefused h t w'.db
      (subst (λ (z : World). Inv z.db) (ap (λ (p : Result (Unit {0}) × World). p.1) e)
        ((fail_lease-Keeps now h t f backoff).apply w inv))
      (rw after (
        count_zero (holds h t) (has_hash h) (failed_row now backoff f r)
          (λ x _. failed-not-held r x) (not_other h t) w.db.crawl_frontier))
  where
    failed-not-held : (r x : Frontier) → holds h t (failed_row now backoff f r x) ≡ false
    failed-not-held r x = unfold holds in ground arith

no_hash :
    (h t : Bytes) (s : ℕ) (rows : List Frontier)
    → contains (hashes rows) h ≡ false
    → count (holds h t) (update (is_expired s) released rows) ≡ 0
unfolding contains count update holds
no_hash h t s [] e = refl
no_hash h t s (x ∷ rows) e = ground (arith, no_hash h t s rows)

swept :
    (h t : Bytes) (s : ℕ) (rows : List Frontier) (r : Frontier)
    → Distinct (hashes rows)
    → Memᴰ r rows
    → r.url_hash ≡ h
    → is_expired s r ≡ true
    → count (holds h t) (update (is_expired s) released rows) ≡ 0
unfolding count update holds
swept h t s [] r d m u e = elim m [ ]
swept h t s (x ∷ rows) r d (Memᴰ.head p) u e =
    let same : x.url_hash ≡ h = ap (λ (z : Frontier). z.url_hash) (sym p) ∙ u in
    let others = no_hash h t s rows (subst (λ k. contains (hashes rows) k ≡ false) same d.0) in
    let expired : is_expired s x ≡ true = subst (λ z. is_expired s z ≡ true) p e in
    rw expired (ground (arith, others))
swept h t s (x ∷ rows) r d (Memᴰ.tail m) u e =
    let there = contains-mem rows m in
    ground (arith, u, swept h t s rows r d.1 m u e, bytes_eq-eq x.url_hash h)

pub sweep-IsRefused :
    (h t : Bytes) (s : ℕ) (r : Frontier) (w : World) {n : ℕ} {w' : World}
    → Inv w.db
    → IsHolder w.db.crawl_frontier h t r
    → before s r.lease_expires_at ≡ true
    → sweep_expired s w ≡ (ok n, w')
    → IsRefused h t w'.db
unfolding sweep_expired
sweep-IsRefused h t s r w {n} {w'} inv k late e =
    lost-IsRefused h t w'.db
      (subst (λ (z : World). Inv z.db) (ap (λ (p : Result ℕ × World). p.1) e)
        ((sweep_expired-Keeps s).apply w inv))
      (subst (λ (d : Db). IsLost h t d) (ap (λ (p : ℕ × Db). p.1) (execute-ok _ w e))
        (swept h t s w.db.crawl_frontier r inv.keys k.in_queue k.url (expired r k.status late)))
  where
    expired :
        (r : Frontier)
        → r.status ≡ leased
        → before s r.lease_expires_at ≡ true
        → is_expired s r ≡ true
    expired r a b = unfold is_expired in ground arith

not_ok :
    {A : Type 0} (p : Result A × World) → ((a : A) (w : World) → p ≢ (ok a, w)) → is_ok p.0 ≡ false
not_ok (ok a, w) h = absurd (h a w refl)
not_ok (err e, w) h = refl

-- A heartbeat, a completion and a failure report under the token, each at its own time, all fail.
abbrev pub Refused : Bytes → Bytes → ℕ → ℕ → ℕ → ℕ → Failure → World → Type 0
Refused h t now extend http_status backoff f w =
    (is_ok (heartbeat now h t extend w).0 ≡ false)
    × (is_ok (complete now h t http_status w).0 ≡ false)
    × (is_ok (fail_lease now h t f backoff w).0 ≡ false)

pub all-Refused :
    (h t : Bytes) (d : Db) (now extend http_status backoff : ℕ) (f : Failure) (w : World)
    → IsRefused h t d
    → w.db ≡ d
    → Refused h t now extend http_status backoff f w
all-Refused h t d now extend s backoff f w r at = (
  not_ok _ (λ a w'. r.no_heartbeat now extend a w w' at),
  not_ok _ (λ a w'. r.no_complete now s w w' at),
  not_ok _ (λ a w'. r.no_fail now backoff f w w' at),
)

-- A token is good for one ending: once `Complete` or `Fail` has succeeded under it, every further
-- heartbeat, completion and failure under it is refused on the tables that are left.
pub spent-Refused :
    (h t : Bytes) (now backoff http_status : ℕ) (f : Failure) (w : World) {w' : World}
    (now2 extend2 http_status2 backoff2 : ℕ) (f2 : Failure) (u : World)
    → Inv w.db
    → (complete now h t http_status w ≡ (ok tt, w'))
      ⊎ (fail_lease now h t f backoff w ≡ (ok tt, w'))
    → u.db ≡ w'.db
    → Refused h t now2 extend2 http_status2 backoff2 f2 u
spent-Refused h t now backoff s f w now2 extend2 s2 backoff2 f2 u inv e at =
    all-Refused h t _ now2 extend2 s2 backoff2 f2 u (spent-IsRefused h t now backoff s f w inv e) at

-- Once an expired lease has been swept, every heartbeat, completion and failure under its token is
-- refused on the tables that are left.
pub sweep-Refused :
    (h t : Bytes) (s : ℕ) (r : Frontier) (w : World) {n : ℕ} {w' : World}
    (now extend http_status backoff : ℕ) (f : Failure) (u : World)
    → Inv w.db
    → IsHolder w.db.crawl_frontier h t r
    → before s r.lease_expires_at ≡ true
    → sweep_expired s w ≡ (ok n, w')
    → u.db ≡ w'.db
    → Refused h t now extend http_status backoff f u
sweep-Refused h t s r w now extend hs backoff f u inv k b e at =
    all-Refused h t _ now extend hs backoff f u (sweep-IsRefused h t s r w inv k b e) at
