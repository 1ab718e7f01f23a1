-- ===== src/ChunkRepo/Calls.antt =====
-- The calls of ChunkRepo that write, as data, and histories of them.
use crawlerv.Prelude.{ℕ, List, [], ◌∷◌, Bytes}
use crawlerv.Store.World.{M, World}
use crawlerv.FrontierRepo.Calls.{ignore}
use crawlerv.FrontierRepo.Reserve.{Sign}
use crawlerv.ChunkRepo.Types.{Chunk, RequeueFilter}
use crawlerv.ChunkRepo.Rows.{insert_many, replace_by_document}
use crawlerv.ChunkRepo.Leases.{
  Engine, reserve_batch, mark_embedded, mark_embed_failed, sweep_expired, requeue_by_filter,
}

pub data Call : Type 0 where
  inserts : List (Chunk × ℕ) → Call
  replaces : (now document : ℕ) → List Chunk → Call
  reserves : (now worker batch ttl : ℕ) → Call
  marks_embedded : (id vector token : Bytes) → Call
  marks_failed : (id token reason : Bytes) → Call
  sweeps : (now : ℕ) → Call
  requeues : RequeueFilter → Call

module _ (e : Engine) (sign : Sign) where
  unfoldable pub perform : Call → M (Unit {0})
  perform (inserts cs) = insert_many cs
  perform (replaces now doc fresh) = ignore (replace_by_document now doc fresh)
  perform (reserves now worker batch ttl) = ignore (reserve_batch e sign now worker batch ttl)
  perform (marks_embedded id vector t) = mark_embedded id vector t
  perform (marks_failed id t reason) = mark_embed_failed id t reason
  perform (sweeps now) = ignore (sweep_expired now)
  perform (requeues f) = ignore (requeue_by_filter f)

  unfoldable pub run : World → List Call → World
  unfolding perform
  run w [] = w
  run w (c ∷ cs) = run (perform c w).1 cs
