-- ===== src/ChunkRepo/Preservation.antt =====
-- Every call keeps the chunks sound.
use crawlerv.Prelude.{
  ℕ, ◌+◌, ◌≡◌, refl, sym, subst, Bool, true, Option, none, some, List, [], ◌∷◌, map, Bytes, arith,
  All,
}
use crawlerv.Store.Rows.{DocumentChunk}
use crawlerv.Store.Sql.{update, All-update, map-update}
use crawlerv.Store.World.{Db, World, execute}
use crawlerv.Store.Laws.{
  Keeps, statement-Keeps, execute-Keeps, query-Keeps, pure-Keeps, fail-Keeps, >>=-Keeps,
  write_tx-Keeps, if-Keeps,
}
use crawlerv.FrontierRepo.Reserve.{Sign}
use crawlerv.ChunkRepo.Types.{Chunk, LeasedChunk}
use crawlerv.ChunkRepo.Rows.{
  set_chunks, new_row, key, insert_rows, inserted_db, create_rows, new_rows, insert_many,
  delete_document, insert_fresh, replace_by_document,
}
use crawlerv.ChunkRepo.Leases.{
  Engine, leased_row, lease_each, lease_picks, reserve_batch, holds, embedded, mark_embedded,
  find_row, failed_row, record_failure, mark_embed_failed, released, sweep_expired,
  requeue_by_filter,
}
use crawlerv.ChunkRepo.Calls.{Call, perform, run}
use crawlerv.ChunkRepo.Invariant.{
  IsConsistent, Distinct, IsSound, Inv, delete-IsSound, insert_rows-IsSound,
}

new_row-IsConsistent : (now : ℕ) (c : Chunk) → IsConsistent (new_row now c)
unfolding new_row
new_row-IsConsistent now c = record { token = refl; holder = refl; expiry = refl }

new_rows-IsConsistent : (cs : List (Chunk × ℕ)) → All IsConsistent (new_rows cs)
new_rows-IsConsistent [] = tt
new_rows-IsConsistent (c ∷ cs) = (new_row-IsConsistent c.1 c.0, new_rows-IsConsistent cs)

map-IsConsistent : (now : ℕ) (cs : List Chunk) → All IsConsistent (map (new_row now) cs)
map-IsConsistent now [] = tt
map-IsConsistent now (c ∷ cs) = (new_row-IsConsistent now c, map-IsConsistent now cs)

create_rows-Keeps : (ms : List DocumentChunk) → All IsConsistent ms → Keeps Inv (create_rows ms)
unfolding create_rows
create_rows-Keeps ms c = statement-Keeps _ (λ d s.
    pass d (insert_rows ms d.document_chunks) s
      (λ out. insert_rows-IsSound ms d.document_chunks out c s))
  where
    pass :
        (d : Db) (o : Option (List DocumentChunk))
        → Inv d
        → ((out : List DocumentChunk) → o ≡ some out → IsSound out)
        → Inv (inserted_db d o).1
    pass d none s k = s
    pass d (some rows) s k = k rows refl

insert_many-Keeps : (cs : List (Chunk × ℕ)) → Keeps Inv (insert_many cs)
unfolding insert_many
insert_many-Keeps [] = pure-Keeps _
insert_many-Keeps (c ∷ cs) = create_rows-Keeps (new_rows (c ∷ cs)) (new_rows-IsConsistent (c ∷ cs))

insert_fresh-Keeps : (now : ℕ) (cs : List Chunk) → Keeps Inv (insert_fresh now cs)
unfolding insert_fresh
insert_fresh-Keeps now [] = pure-Keeps _
insert_fresh-Keeps now (c ∷ cs) =
    create_rows-Keeps (map (new_row now) (c ∷ cs)) (map-IsConsistent now (c ∷ cs))

-- An UPDATE that leaves the keys alone and keeps the lease columns consistent.
update-IsSound :
    (test : DocumentChunk → Bool) (set : DocumentChunk → DocumentChunk)
    → ((r : DocumentChunk) → key (set r) ≡ key r)
    → ((r : DocumentChunk) → test r ≡ true → IsConsistent r → IsConsistent (set r))
    → (rows : List DocumentChunk) → IsSound rows
    → IsSound (update test set rows)
update-IsSound test set same keep rows s = record {
  keys = subst Distinct (sym (map-update key test set same rows)) s.keys;
  leases = All-update IsConsistent test set keep rows s.leases;
}

chunks-Keeps :
    {A : Type 0} (answer : Db → A) (test : DocumentChunk → Bool)
    (set : DocumentChunk → DocumentChunk)
    → ((r : DocumentChunk) → key (set r) ≡ key r)
    → ((r : DocumentChunk) → test r ≡ true → IsConsistent r → IsConsistent (set r))
    → Keeps Inv (execute (λ d. (answer d, set_chunks (update test set d.document_chunks) d)))
chunks-Keeps answer test set same keep =
    execute-Keeps _ (λ d s. update-IsSound test set same keep d.document_chunks s)

replace-Keeps : (now doc : ℕ) (fresh : List Chunk) → Keeps Inv (replace_by_document now doc fresh)
unfolding replace_by_document delete_document
replace-Keeps now doc fresh = write_tx-Keeps (
    >>=-Keeps (query-Keeps _) (λ is.
      >>=-Keeps (execute-Keeps _ (λ d s. delete-IsSound _ _ s))
        (λ _. >>=-Keeps (insert_fresh-Keeps now fresh) (λ _. pure-Keeps _))))

lease_each-Keeps :
    (sign : Sign) (worker expires : ℕ) (cols : List (ℕ × Bytes)) (ps : List DocumentChunk)
    (out : List LeasedChunk)
    → Keeps Inv (lease_each sign worker expires cols ps out)
unfolding lease_each leased_row
lease_each-Keeps sign worker expires cols [] out = pure-Keeps _
lease_each-Keeps sign worker expires cols (p ∷ ps) out =
    >>=-Keeps
      (chunks-Keeps _ _ _ (λ r. refl)
        (λ r _ c. record { token = refl; holder = refl; expiry = refl }))
      (λ n. lease_each-Keeps sign worker expires cols ps _)

lease_picks-Keeps :
    (sign : Sign) (worker expires : ℕ) (ps : List DocumentChunk)
    → Keeps Inv (lease_picks sign worker expires ps)
unfolding lease_picks
lease_picks-Keeps sign worker expires [] = pure-Keeps _
lease_picks-Keeps sign worker expires (p ∷ ps) =
    >>=-Keeps (query-Keeps _) (λ cols. lease_each-Keeps sign worker expires cols (p ∷ ps) [])

mark_embedded-Keeps : (h vector t : Bytes) → Keeps Inv (mark_embedded h vector t)
unfolding mark_embedded embedded
mark_embedded-Keeps h vector t = statement-Keeps _ (λ d s. ground (
  arith,
  s,
  update-IsSound (holds h t) (embedded vector) (λ r. refl)
      (λ r _ c. record { token = refl; holder = refl; expiry = refl }) d.document_chunks s,
))

failed_row-IsConsistent : (m r : DocumentChunk) → IsConsistent (failed_row m r)
unfolding failed_row
failed_row-IsConsistent m r = record {
  token = ground arith;
  holder = ground arith;
  expiry = ground arith;
}

mark_embed_failed-Keeps : (h t reason : Bytes) → Keeps Inv (mark_embed_failed h t reason)
unfolding mark_embed_failed find_row record_failure
mark_embed_failed-Keeps h t reason = write_tx-Keeps (
    >>=-Keeps (statement-Keeps _ (λ d s. ground (arith, s))) (λ m.
      if-Keeps _ _ _
        (chunks-Keeps _ _ (failed_row m) (unfold failed_row in λ r. refl)
          (λ r _ c. failed_row-IsConsistent m r))
        (fail-Keeps _)))

release-Keeps :
    {A : Type 0} (answer : Db → A) (test : DocumentChunk → Bool)
    → Keeps Inv (execute (λ d. (answer d, set_chunks (update test released d.document_chunks) d)))
unfolding released
release-Keeps answer test =
    chunks-Keeps _ _ _ (λ r. refl) (λ r _ c. record { token = refl; holder = refl; expiry = refl })

module _ (e : Engine) (sign : Sign) where
  chunk_call-Keeps : (c : Call) → Keeps Inv (perform e sign c)
  unfolding perform
  chunk_call-Keeps (Call.inserts cs) = insert_many-Keeps cs
  chunk_call-Keeps (Call.replaces now doc fresh) =
      >>=-Keeps (replace-Keeps now doc fresh) (λ _. pure-Keeps tt)
  chunk_call-Keeps (Call.reserves now worker batch ttl) =
      >>=-Keeps
        (unfold reserve_batch in
          if-Keeps _ _ _ (pure-Keeps _) (
            write_tx-Keeps (>>=-Keeps (query-Keeps _) (lease_picks-Keeps sign worker (now + ttl)))))
        (λ _. pure-Keeps tt)
  chunk_call-Keeps (Call.marks_embedded h vector t) = mark_embedded-Keeps h vector t
  chunk_call-Keeps (Call.marks_failed h t reason) = mark_embed_failed-Keeps h t reason
  chunk_call-Keeps (Call.sweeps now) =
      >>=-Keeps (unfold sweep_expired in release-Keeps _ _) (λ _. pure-Keeps tt)
  chunk_call-Keeps (Call.requeues f) =
      >>=-Keeps (unfold requeue_by_filter in if-Keeps _ _ _ (release-Keeps _ _) (fail-Keeps _))
        (λ _. pure-Keeps tt)

  -- After any history of calls, with any failures, no two chunks share an id or a place in a
  -- document, and a chunk has a lease token, a holder and an expiry exactly while it is leased.
  pub chunk_run-Inv : (w : World) (cs : List Call) → Inv w.db → Inv (run e sign w cs).db
  unfolding run
  chunk_run-Inv w [] h = h
  chunk_run-Inv w (c ∷ cs) h =
      chunk_run-Inv (perform e sign c w).1 cs ((chunk_call-Keeps c).apply w h)
