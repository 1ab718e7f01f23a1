-- ===== src/ChunkRepo/Atomic.antt =====
-- A call of ChunkRepo that fails leaves every table as it was.
use crawlerv.Prelude.{ℕ, ◌≡◌, refl, Option, none, some, List, [], ◌∷◌, arith}
use crawlerv.Store.World.{World, Db, Error, err}
use crawlerv.Store.Laws.{
  IsAtomic, write_tx-IsAtomic, statement-IsAtomic, execute-IsAtomic, pure-IsAtomic, fail-IsAtomic,
  then_pure-IsAtomic, if-IsAtomic,
}
use crawlerv.Store.Rows.{DocumentChunk}
use crawlerv.FrontierRepo.Reserve.{Sign}
use crawlerv.ChunkRepo.Types.{Chunk}
use crawlerv.ChunkRepo.Rows.{inserted_db, create_rows, new_rows, insert_many, replace_by_document}
use crawlerv.ChunkRepo.Leases.{
  Engine, reserve_batch, mark_embedded, mark_embed_failed, sweep_expired, requeue_by_filter,
}
use crawlerv.ChunkRepo.Calls.{Call, perform}

inserted_db-err :
    (d : Db) (o : Option (List DocumentChunk)) (x : Error)
    → (inserted_db d o).0 ≡ err x
    → (inserted_db d o).1 ≡ d
inserted_db-err d none x h = refl
inserted_db-err d (some rows) x h = ground arith

create_rows-IsAtomic : (ms : List DocumentChunk) → IsAtomic (create_rows ms)
unfolding create_rows
create_rows-IsAtomic ms = statement-IsAtomic _ (λ d. inserted_db-err d _)

insert_many-IsAtomic : (cs : List (Chunk × ℕ)) → IsAtomic (insert_many cs)
unfolding insert_many
insert_many-IsAtomic [] = pure-IsAtomic _
insert_many-IsAtomic (c ∷ cs) = create_rows-IsAtomic (new_rows (c ∷ cs))

module _ (e : Engine) (sign : Sign) where
  pub chunk_call-IsAtomic : (c : Call) → IsAtomic (perform e sign c)
  unfolding perform
  chunk_call-IsAtomic (Call.inserts cs) = insert_many-IsAtomic cs
  chunk_call-IsAtomic (Call.replaces now doc fresh) =
      then_pure-IsAtomic _ _ (unfold replace_by_document in write_tx-IsAtomic _)
  chunk_call-IsAtomic (Call.reserves now worker batch ttl) =
      then_pure-IsAtomic _ _
        (unfold reserve_batch in if-IsAtomic _ _ _ (pure-IsAtomic _) (write_tx-IsAtomic _))
  chunk_call-IsAtomic (Call.marks_embedded id vector t) =
      unfold mark_embedded in statement-IsAtomic _ (λ d x h. ground arith)
  chunk_call-IsAtomic (Call.marks_failed id t reason) =
      unfold mark_embed_failed in write_tx-IsAtomic _
  chunk_call-IsAtomic (Call.sweeps now) =
      then_pure-IsAtomic _ _ (unfold sweep_expired in execute-IsAtomic _)
  chunk_call-IsAtomic (Call.requeues f) =
      then_pure-IsAtomic _ _
        (unfold requeue_by_filter in if-IsAtomic _ _ _ (execute-IsAtomic _) (fail-IsAtomic _))

-- Whatever call on the chunks fails, for whatever reason and at whatever statement, no table has
-- changed: a failed replacement leaves the old chunks of the document, all of them.
pub failed_chunk_call_keeps :
    (e : Engine) (sign : Sign) (c : Call) (w : World) (x : Error)
    → (perform e sign c w).0 ≡ err x
    → (perform e sign c w).1.db ≡ w.db
failed_chunk_call_keeps e sign c w x h = (chunk_call-IsAtomic e sign c).apply w x h
