-- ===== src/FrontierRepo/Moved.antt =====
-- Statements on the crawl queue as moves of its view.
use crawlerv.Prelude.{
  ℕ, ◌≡◌, refl, sym, subst, ap, Bool, true, false, List, [], ◌∷◌, ◌++◌, map, map-append, Bytes, All,
  All-imp, if◌then◌else◌, Option-cases, inl, inr,
}
use crawlerv.Store.Rows.{Frontier}
use crawlerv.Store.Sql.{first, update, map-update}
use crawlerv.Store.World.{Db}
use crawlerv.FrontierRepo.Types.{Job}
use crawlerv.FrontierRepo.Queue.{has_hash, new_row, set_frontier, first_or_create}
use crawlerv.FrontierRepo.Invariant.{
  IsConsistent, Inv, update-IsSound, create-IsSound, new_row-IsConsistent,
}
use crawlerv.FrontierRepo.Calls.{Call}
use crawlerv.FrontierRepo.Lifecycle.{
  Life, Url, url_of, view, Move, Brings, Step, moves, joins, passes, Steps, rest, next,
}

module _ (c : Call) where
  one : {us vs : List Url} → Step c us vs → Steps c us vs
  one {us} {vs} s = next {us = us} {vs = vs} s rest

  pub then-Steps : {us vs ws : List Url} → Steps c us vs → Steps c vs ws → Steps c us ws
  then-Steps {us} {vs} {ws} rest t = t
  then-Steps {us} {vs} {ws} (next {vs = xs} s r) t = next {vs = xs} s (then-Steps r t)

  pass_all : {u : Url} {us vs : List Url} → Steps c us vs → Steps c (u ∷ us) (u ∷ vs)
  pass_all {u} rest = rest
  pass_all {u} (next {vs = xs} s r) = next {vs = u ∷ xs} (passes s) (pass_all r)

  join_end :
      (h : Bytes) (us : List Url)
      → Brings c h
      → Step c us (us ++ record { hash = h; life = Life.waiting } ∷ [])
  join_end h [] b = joins b
  join_end h (u ∷ us) b = passes (join_end h us b)

  -- The move that an assignment to a row is.
  pub record IsMove (set : Frontier → Frontier) (r : Frontier) : Type 0 where
    pub hash : (set r).url_hash ≡ r.url_hash
    pub move : Move c (url_of r) (url_of (set r)).life

  moved_head :
      (set : Frontier → Frontier) (r : Frontier) (us : List Url)
      → IsMove set r
      → Step c (url_of r ∷ us) (url_of (set r) ∷ us)
  moved_head set r us m =
      subst (λ k. Step c (url_of r ∷ us) (record { hash = k; life = (url_of (set r)).life } ∷ us))
        (sym m.hash) (moves m.move)

  update_head :
      (set : Frontier → Frontier) (r : Frontier) (us vs : List Url) (b : Bool)
      → (b ≡ true → IsMove set r)
      → Steps c us vs
      → Steps c (url_of r ∷ us) (url_of (if b then set r else r) ∷ vs)
  update_head set r us vs true k s = next (moved_head set r us (k refl)) (pass_all s)
  update_head set r us vs false k s = pass_all s

  -- An UPDATE makes the moves of the rows that it assigns to.
  pub update-Steps :
      (test : Frontier → Bool) (set : Frontier → Frontier) (rows : List Frontier)
      → All (λ r. test r ≡ true → IsMove set r) rows
      → Steps c (map url_of rows) (map url_of (update test set rows))
  unfolding update
  update-Steps test set [] h = rest
  update-Steps test set (r ∷ rows) h =
      update_head set r _ _ (test r) h.0 (update-Steps test set rows h.1)

-- The queue is sound, and it came from `us` by moves of the call.
pub record IsReached (c : Call) (us : List Url) (d : Db) : Type 0 where
  pub sound : Inv d
  pub steps : Steps c us (view d)

module _ (c : Call) (us : List Url) where
  -- Statements that update the rows.
  pub rows-IsReached :
      (test : Frontier → Bool) (set : Frontier → Frontier)
      → ((r : Frontier) → test r ≡ true → IsConsistent r → IsMove c set r)
      → ((r : Frontier) → (set r).url_hash ≡ r.url_hash)
      → ((r : Frontier) → test r ≡ true → IsConsistent r → IsConsistent (set r))
      → (d : Db) → IsReached c us d
      → IsReached c us (set_frontier (update test set d.crawl_frontier) d)
  rows-IsReached test set move same keep d s = record {
    sound = update-IsSound test set same keep d.crawl_frontier s.sound;
    steps = then-Steps c s.steps (
        update-Steps c test set d.crawl_frontier (
          All-imp IsConsistent (λ r. test r ≡ true → IsMove c set r) (λ r k e. move r e k)
            d.crawl_frontier s.sound.leases));
  }

  -- Statements that leave the view alone.
  pub same-IsReached :
      (test : Frontier → Bool) (set : Frontier → Frontier)
      → ((r : Frontier) → url_of (set r) ≡ url_of r)
      → ((r : Frontier) → test r ≡ true → IsConsistent r → IsConsistent (set r))
      → (d : Db) → IsReached c us d
      → IsReached c us (set_frontier (update test set d.crawl_frontier) d)
  same-IsReached test set same keep d s = record {
    sound =
        update-IsSound test set (λ r. ap (λ (u : Url). u.hash) (same r)) keep d.crawl_frontier
          s.sound;
    steps = subst (Steps c us) (sym (map-update url_of test set same d.crawl_frontier)) s.steps;
  }

  -- The statement that adds a URL.
  pub create-IsReached :
      (now : ℕ) (j : Job)
      → Brings c j.url_hash
      → (d : Db) → IsReached c us d
      → IsReached c us (first_or_create (new_row now j) d).1
  unfolding first_or_create new_row
  create-IsReached now j b d s = record {
    sound = create-IsSound (new_row now j) (new_row-IsConsistent now j) d s.sound;
    steps = elim (Option-cases (first (has_hash j.url_hash) d.crawl_frontier)) [
      | inl e ↦
          rw (e, first_or_create, map-append url_of d.crawl_frontier (new_row now j ∷ []))
            (then-Steps c s.steps (one c (join_end c _ _ b)))
      | inr (r, e) ↦ rw (e, first_or_create) s.steps
    ];
  }
