-- ===== src/FrontierRepo/Leases.antt =====
-- What a lease token is good for: heartbeat, completion, failure, and what takes it away.
use crawlerv.Prelude.{
  ℕ, ◌+◌, ◌≡◌, ◌≢◌, refl, subst, ap, ◌∙◌, Bool, true, false, Option, none, some, List, [], ◌∷◌,
  Bytes, bytes_eq-eq, contains, arith, ◌==◌, inl, inr, Bool-cases,
}
use mathlib.Core.List.{Memᴰ}
use crawlerv.Store.Rows.{Frontier, leased}
use crawlerv.Store.Sql.{count, update}
use crawlerv.Store.World.{Db, ok, World, pure, statement}
use crawlerv.Store.Laws.{statement-ok, >>=-ok}
use crawlerv.FrontierRepo.Queue.{
  has_hash, set_frontier, holds, token_is, update_held, extended, heartbeat, completed, complete,
}
use crawlerv.FrontierRepo.Invariant.{Distinct, hashes, Inv}
use crawlerv.FrontierRepo.Reserved.{contains-mem}

-- No row of the URL is leased under the token.
abbrev pub IsLost : Bytes → Bytes → Db → Type 0
IsLost h t d = count (holds h t) d.crawl_frontier ≡ 0

update_held-ok :
    (test : Frontier → Bool) (set : Frontier → Frontier) (w : World) {a : Unit {0}} {w' : World}
    → statement (update_held test set) w ≡ (ok a, w')
    → (count test w.db.crawl_frontier ≢ 0)
      × (w'.db ≡ set_frontier (update test set w.db.crawl_frontier) w.db)
unfolding update_held
update_held-ok test set w {a} {w'} h =
    let r = statement-ok _ w h in
    elim (Bool-cases (count test w.db.crawl_frontier == 0)) [
      | inl z ↦ ground arith
      | inr n ↦ (ground arith, ground arith)
    ]

count_none :
    {A : Type 0} (test : A → Bool) (set : A → A)
    → ((x : A) → test x ≡ true → test (set x) ≡ false)
    → (xs : List A) → count test (update test set xs) ≡ 0
unfolding count update
count_none test set k [] = refl
count_none test set k (x ∷ xs) = ground (arith, k x, count_none test set k xs)

count_some :
    {A : Type 0} (test : A → Bool) (xs : List A)
    → count test xs ≢ 0
    → (x : A) × Memᴰ x xs × (test x ≡ true)
unfolding count
count_some test [] h = absurd (h refl)
count_some test (x ∷ xs) h = elim (Bool-cases (test x)) [
  | inl e ↦ (x, Memᴰ.head refl, e)
  | inr n ↦ let (y, m, e) = count_some test xs (ground arith) in (y, Memᴰ.tail m, e)
]

nothing_else :
    (h t : Bytes) (set : Frontier → Frontier) (rows : List Frontier)
    → contains (hashes rows) h ≡ false
    → update (holds h t) set rows ≡ update (has_hash h) set rows
unfolding contains update holds
nothing_else h t set [] n = refl
nothing_else h t set (y ∷ ys) n = ground (arith, nothing_else h t set ys)

-- A held row is the only row of its URL.
holds_only :
    (h t : Bytes) (set : Frontier → Frontier) (rows : List Frontier) (r : Frontier)
    → Distinct (hashes rows)
    → Memᴰ r rows
    → holds h t r ≡ true
    → update (holds h t) set rows ≡ update (has_hash h) set rows
unfolding update holds
holds_only h t set [] r d m e = refl
holds_only h t set (x ∷ rows) r d (Memᴰ.head s) e = ground (
  arith,
  s,
  nothing_else h t set rows
      (subst (λ k. contains (hashes rows) k ≡ false) (bytes_eq-eq x.url_hash h (ground arith)) d.0),
)
holds_only h t set (x ∷ rows) r d (Memᴰ.tail m) e = ground (
  arith,
  holds_only h t set rows r d.1 m e,
  contains-mem rows m,
  bytes_eq-eq x.url_hash h,
  bytes_eq-eq r.url_hash h,
)

-- The one row of the queue that a token holds.
pub record IsHolder (rows : List Frontier) (h t : Bytes) (r : Frontier) : Type 0 where
  pub in_queue : Memᴰ r rows
  pub url : r.url_hash ≡ h
  pub status : r.status ≡ leased
  pub token : r.lease_token ≡ some t

IsHolder-of_holds :
    (rows : List Frontier) (h t : Bytes) (r : Frontier)
    → Memᴰ r rows
    → holds h t r ≡ true
    → IsHolder rows h t r
unfolding holds
IsHolder-of_holds rows h t r m e = record {
  in_queue = m;
  url = bytes_eq-eq r.url_hash h (ground arith);
  status = ground arith;
  token = token_eq r.lease_token (ground arith);
}
  where
    token_eq : (o : Option Bytes) → token_is t o ≡ true → o ≡ some t
    token_eq none k = ground arith
    token_eq (some u) k = ap some (bytes_eq-eq u t k)

-- A successful statement under a token changes the one row that the token holds.
held_effect :
    (h t : Bytes) (set : Frontier → Frontier) (w : World) {a : Unit {0}} {w' : World}
    → Inv w.db
    → statement (update_held (holds h t) set) w ≡ (ok a, w')
    → (r : Frontier) × IsHolder w.db.crawl_frontier h t r
      × (w'.db ≡ set_frontier (update (has_hash h) set w.db.crawl_frontier) w.db)
held_effect h t set w inv s =
    let (some_row, after) = update_held-ok (holds h t) set w s in
    let (r, m, e) = count_some (holds h t) w.db.crawl_frontier some_row in
    (
      r,
      IsHolder-of_holds w.db.crawl_frontier h t r m e,
      after
          ∙ ap (λ rows. set_frontier rows w.db)
              (holds_only h t set w.db.crawl_frontier r inv.keys m e),
    )

-- `Complete` succeeds only under the token of a leased row of the URL. It makes that row done, with
-- its lease cleared, and changes nothing else in the tables.
pub complete_effect :
    (now : ℕ) (h t : Bytes) (http_status : ℕ) (w : World) {w' : World}
    → Inv w.db
    → complete now h t http_status w ≡ (ok tt, w')
    → (r : Frontier) × IsHolder w.db.crawl_frontier h t r
      × (w'.db
          ≡ set_frontier (update (has_hash h) (completed now http_status) w.db.crawl_frontier) w.db)
unfolding complete
complete_effect now h t s w inv e = held_effect h t _ w inv e

-- `Heartbeat` succeeds only under the token of a leased row of the URL. It answers now + extend, sets
-- the expiry of that row to it, later or earlier than it was, and changes nothing else.
pub heartbeat_effect :
    (now : ℕ) (h t : Bytes) (extend : ℕ) (w : World) {expiry : ℕ} {w' : World}
    → Inv w.db
    → heartbeat now h t extend w ≡ (ok expiry, w')
    → (r : Frontier) × IsHolder w.db.crawl_frontier h t r
      × (expiry ≡ now + extend)
      × (w'.db
          ≡ set_frontier (update (has_hash h) (extended (now + extend)) w.db.crawl_frontier) w.db)
unfolding heartbeat pure
heartbeat_effect now h t extend w {expiry} {w'} inv e =
    let (a, u, held, answered) = >>=-ok _ _ w e in
    let (r, k, after) = held_effect h t _ w inv held in (r, k, ground arith, ground arith)
