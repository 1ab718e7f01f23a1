-- ===== src/Http/Embed.antt =====
-- The handlers of internal/infra/http/embed.go behind the authentication.
use crawlerv.Prelude.{
  ℕ, suc, Bool, Option, none, some, List, [], ◌∷◌, map, Bytes, codes, leb, ◌==◌, if◌then◌else◌,
}
use crawlerv.Store.World.{Error, Result, ok, err, panic, refused, M, pure, fail, ◌>>=◌, caught}
use crawlerv.LeaseSigner.Token.{unix}
use crawlerv.ChunkRepo.Types.{LeasedChunk}
use crawlerv.ChunkRepo.Leases.{Engine}
use crawlerv.Workers.Policy.{Worker, can, effective_batch}
use crawlerv.Services.Embed.{
  EmbedSvc, reserve_chunks, accept_embedding, accept_vector_result, embed_failure,
}
use crawlerv.Http.Replies.{Reply, answered, Body, reject, with_optional, with_body, or_reject}

pub record ChunkDto : Type 0 where
  pub chunk_id : Bytes
  pub document_id : ℕ
  pub chunk_index : ℕ
  pub text : Bytes
  pub token_count : ℕ
  pub collection : Bytes
  pub lease_token : Bytes
  pub lease_expires : ℕ

pub record ResultItem (V : Type 0) : Type 0 where
  pub chunk_id : Bytes
  pub vector : List V
  pub vector_id : Bytes
  pub lease_token : Bytes
  pub failed : Bool
  pub reason : Bytes

pub record Tally : Type 0 where
  pub accepted : ℕ
  pub failed_recorded : ℕ
  pub first_error : Option Error

abbrev pub chunk_dto : LeasedChunk → ChunkDto
chunk_dto lc = record {
  chunk_id = lc.chunk.id;
  document_id = lc.chunk.document_id;
  chunk_index = lc.chunk.chunk_index;
  text = lc.chunk.text;
  token_count = lc.chunk.token_count;
  collection = lc.chunk.collection;
  lease_token = lc.lease.token;
  lease_expires = unix lc.lease.expires_at;
}

abbrev pub or_first : Option Error → Error → Option Error
or_first none e = some e
or_first (some x) e = some x

abbrev pub noted : Tally → Result (Unit {0}) → M Tally
noted n (ok _) = pure (record n { accepted = suc n.accepted })
noted n (err panic) = fail panic
noted n (err e) = pure (record n { first_error = or_first n.first_error e })

abbrev pub failure_noted : Tally → Result (Unit {0}) → M Tally
failure_noted n (ok _) = pure (record n { failed_recorded = suc n.failed_recorded })
failure_noted n (err panic) = fail panic
failure_noted n (err _) = pure n

module _ {V : Type 0} (s : EmbedSvc V) (now : ℕ) where
  unfoldable pub embed_reserve_handler : Engine → Option Worker → Body ℕ → M (Reply (List ChunkDto))
  unfolding can reserve_chunks effective_batch
  embed_reserve_handler e none body = reject 401 (codes "no_worker")
  embed_reserve_handler e (some k) body =
      if can k (codes "embed")
      then with_optional 0 body (λ asked.
        or_reject 500 (codes "cap_check") (effective_batch k (if leb asked 0 then 1000 else asked))
          (λ batch.
            if batch == 0
            then pure (answered [])
            else or_reject 500 (codes "reserve_failed") (reserve_chunks s now e k.id batch)
                (λ leased. pure (answered (map chunk_dto leased)))))
      else reject 403 (codes "capability_denied")

  -- A vector comes before an id; without either, the item is an error.
  unfoldable pub accept_item : ResultItem V → List V → Bytes → M (Unit {0})
  unfolding accept_vector_result accept_embedding
  accept_item i (x ∷ xs) id = accept_vector_result s now i.chunk_id i.lease_token (x ∷ xs)
  accept_item i [] (b ∷ bs) = accept_embedding s now i.chunk_id (b ∷ bs) i.lease_token
  accept_item i [] [] = fail refused

  unfoldable pub tally_item : Tally → ResultItem V → M Tally
  unfolding embed_failure accept_item
  tally_item n i =
      if i.failed
      then (caught (embed_failure s now i.chunk_id i.lease_token i.reason) >>= failure_noted n)
      else (caught (accept_item i i.vector i.vector_id) >>= noted n)

  -- The loop over the results: an error of one does not stop the others.
  unfoldable pub tally_each : List (ResultItem V) → Tally → M Tally
  unfolding tally_item
  tally_each [] n = pure n
  tally_each (i ∷ is) n = do n' ← tally_item n i; tally_each is n'

  unfoldable pub embed_result_handler : Body (List (ResultItem V)) → M (Reply Tally)
  unfolding tally_each
  embed_result_handler body = with_body body λ items. do
    n ← tally_each items (record { accepted = 0; failed_recorded = 0; first_error = none })
    pure (answered n)
