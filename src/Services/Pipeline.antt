-- ===== src/Services/Pipeline.antt =====
-- Pipeline (internal/app/pipeline.go): the in-process worker, without its optional full-text mirror.
use crawlerv.Prelude.{
  ℕ, suc, ◌+◌, ◌%◌, Bool, ◌||◌, Option, none, some, List, [], ◌∷◌, ◌++◌, Bytes, bytes_eq, codes,
  if◌then◌else◌, take, drop,
}
use crawlerv.Store.Rows.{EmbedStatus}
use crawlerv.Store.World.{
  Error, Result, ok, err, World, M, pure, fail, ◌>>=◌, caught, external, refused,
}
use crawlerv.Http.Hex.{hex_lower}
use crawlerv.Chunker.Split.{Config, Tokenizer, Chunk as Piece, split}
use crawlerv.ChunkRepo.Types.{Chunk}
use crawlerv.ChunkRepo.Rows.{insert_many}
use crawlerv.ProcessingRepo.Types.{Job}
use crawlerv.ProcessingRepo.Queue.{claim_next, mark_done, mark_failed, mark_skipped}
use crawlerv.Repos.Lake.{Object, get_by_id}
use crawlerv.Repos.Extraction.{upsert}
use crawlerv.Repos.CollectionConfig.{Resolved, resolve_config}
use crawlerv.Services.Collections.{resolve_collection}

-- `config_resolver` holds the defaults of the per-collection resolver, if one is wired, and
-- `resolver` tells whether the collection resolver is. `message` is `Error()`.
pub record Pipeline : Type 0 where
  pub chunk_cfg : Config
  pub tokenizer : Tokenizer
  pub config_resolver : Option Config
  pub resolver : Bool
  pub internal_processors : List Bytes
  pub message : Error → Bytes

-- What one task reads from outside the tables: the clock, the random bytes of the n-th chunk, the
-- blob under a key, and the HTML library that makes text of it. `none` is an error.
pub record Run : Type 0 where
  pub claimed_at : ℕ
  pub extracted_at : ℕ
  pub chunked_at : ℕ → ℕ
  pub finished_at : ℕ
  pub random : ℕ → Bytes
  pub blob : Bytes → Option Bytes
  pub strip : Bytes → Option Bytes
  pub is_blank : Bytes → Bool

abbrev pub html_strip : Bytes
html_strip = codes "html_strip"

abbrev pub text_passthrough : Bytes
text_passthrough = codes "text_passthrough"

abbrev pub pdf_ocr : Bytes
pdf_ocr = codes "pdf_ocr"

abbrev pub docx_to_pdf : Bytes
docx_to_pdf = codes "docx_to_pdf"

abbrev pub office_to_pdf : Bytes
office_to_pdf = codes "office_to_pdf"

-- internal/infra/pipeline/pdfproc: a stub that refuses every document.
unfoldable pub extract_pdf : Bytes → Option (Bytes × ℕ)
extract_pdf body = none

-- `b[i] = f(b[i])`
abbrev pub modify_at : ℕ → (ℕ → ℕ) → Bytes → Bytes
modify_at i f [] = []
modify_at ℕ.zero f (b ∷ bs) = f b ∷ bs
modify_at (suc i) f (b ∷ bs) = b ∷ modify_at i f bs

abbrev pub segment : ℕ → ℕ → Bytes → Bytes
segment lo n b = hex_lower (take n (drop lo b))

-- The version and the variant replace the high bits of bytes 6 and 8.
abbrev pub stamped : Bytes → Bytes
stamped b = modify_at 8 (λ x. x % 64 + 128) (modify_at 6 (λ x. x % 16 + 64) b)

-- From the sixteen random bytes.
unfoldable pub new_uuid : Bytes → Bytes
unfolding hex_lower
new_uuid b =
    segment 0 4 (stamped b)
    ++ 45 ∷ segment 4 2 (stamped b)
    ++ 45 ∷ segment 6 2 (stamped b)
    ++ 45 ∷ segment 8 2 (stamped b)
    ++ 45 ∷ segment 10 6 (stamped b)

-- The insert sets the status itself, so it is immaterial that the source leaves it empty.
unfoldable pub chunk_row : (ℕ → Bytes) → ℕ → ℕ → Piece → Chunk
unfolding new_uuid
chunk_row random doc n c = record {
  id = new_uuid (random n);
  document_id = doc;
  chunk_index = c.index;
  text = c.text;
  token_count = c.token_count;
  vector_id = [];
  embed_status = EmbedStatus.pending;
  collection = [];
}

-- The loop over the pieces, with the instants that the insert reads for each.
unfoldable pub chunk_rows : (ℕ → Bytes) → (ℕ → ℕ) → ℕ → ℕ → List Piece → List (Chunk × ℕ)
unfolding chunk_row
chunk_rows random at doc n [] = []
chunk_rows random at doc n (c ∷ cs) =
    (chunk_row random doc n c, at n) ∷ chunk_rows random at doc (suc n) cs

-- The default, unless the resolver answers without an error.
abbrev pub chosen : Config → Resolved → Config
chosen cfg r = elim r.error [ none ↦ r.config | some e ↦ cfg ]

unfoldable pub chunk_config : Config → Option Config → Bytes → M Config
chunk_config cfg none collection = pure cfg
chunk_config cfg (some base) collection = do r ← resolve_config base collection; pure (chosen cfg r)

abbrev pub or_external : {A : Type 0} → Option A → M A
or_external none = fail external
or_external (some a) = pure a

abbrev pub found_object : Option Object → M Object
found_object none = fail refused
found_object (some o) = pure o

module _ (p : Pipeline) (run : Run) where
  unfoldable pub write_chunks : ℕ → Bytes → Bytes → M (Unit {0})
  unfolding chunk_config chunk_rows
  write_chunks doc text collection = do
    cfg ← chunk_config p.chunk_cfg p.config_resolver collection
    insert_many (chunk_rows run.random run.chunked_at doc 0 (split p.tokenizer text cfg))

  unfoldable pub lake_object_by_id : ℕ → M Object
  lake_object_by_id id = do o ← get_by_id id; found_object o

  -- The object, and what the store holds under its key.
  unfoldable pub body_of : Job → M Bytes
  unfolding lake_object_by_id
  body_of job = do o ← lake_object_by_id job.lake_object_id; or_external (run.blob o.storage_key)

  -- The end that the executors share: the document, then its chunks.
  unfoldable pub store_text : Job → Bytes → ℕ → M (Unit {0})
  unfolding write_chunks
  store_text job text pages = do
    collection ← resolve_collection p.resolver job.lake_object_id
    doc ← upsert run.extracted_at (record {
      id = 0;
      source_lake_object_id = job.lake_object_id;
      text = text;
      language = [];
      page_count = pages;
      collection = collection;
      extracted_at = 0;
    })
    write_chunks doc text collection

  unfoldable pub exec_html : Job → M (Unit {0})
  unfolding body_of store_text
  exec_html job = do
    body ← body_of job
    text ← or_external (run.strip body)
    if run.is_blank text then pure tt else store_text job text 0

  unfoldable pub exec_text_passthrough : Job → M (Unit {0})
  unfolding body_of store_text
  exec_text_passthrough job = do
    body ← body_of job
    if run.is_blank body then pure tt else store_text job body 0

  unfoldable pub exec_pdf : Job → M (Unit {0})
  unfolding body_of store_text extract_pdf
  exec_pdf job = do
    body ← body_of job
    extracted ← or_external (extract_pdf body)
    store_text job extracted.0 extracted.1

  -- The mark after an executor: `on_error` or done.
  unfoldable pub mark_result : (ℕ → ℕ → Bytes → M (Unit {0})) → ℕ → Result (Unit {0}) → M (Unit {0})
  mark_result on_error id (ok u) = mark_done run.finished_at id none
  mark_result on_error id (err e) = on_error run.finished_at id (p.message e)

  -- The error of the mark is dropped.
  unfoldable pub marked :
      (ℕ → ℕ → Bytes → M (Unit {0})) → Job → M (Unit {0}) → M (Result (Unit {0}))
  unfolding mark_result
  marked on_error job m = do r ← caught m; caught (mark_result on_error job.id r)

  -- A processor that the switch does not name is left running.
  unfoldable pub exec : Job → M (Result (Unit {0}))
  unfolding exec_html exec_text_passthrough exec_pdf marked
  exec job =
      if bytes_eq job.processor html_strip
      then marked mark_failed job (exec_html job)
      else if bytes_eq job.processor text_passthrough
      then marked mark_failed job (exec_text_passthrough job)
      else if bytes_eq job.processor pdf_ocr
      then marked mark_skipped job (exec_pdf job)
      else if bytes_eq job.processor docx_to_pdf || bytes_eq job.processor office_to_pdf
      then caught (mark_skipped run.finished_at job.id (p.message external))
      else pure (ok tt)

-- An error of `ClaimNext` ends the loop as an empty queue does.
abbrev pub claimed_job : Result (Option Job) → Option Job
claimed_job (ok job) = job
claimed_job (err e) = none

module _ (p : Pipeline) (runs : Bytes → ℕ → Run) where
  -- The inner loop, on fuel; `none` means that the fuel ran out.
  unfoldable pub drain_kind : ℕ → Bytes → World → Option World
  unfolding exec
  drain_kind ℕ.zero kind w = none
  drain_kind (suc f) kind w =
      let run = runs kind f in
      let c = claim_next run.claimed_at kind w in
      elim (claimed_job c.0) [
        | none ↦ some c.1
        | some job ↦ drain_kind f kind (exec p run job c.1).1
      ]

  unfoldable pub drain_each : ℕ → List Bytes → World → Option World
  unfolding drain_kind
  drain_each f [] w = some w
  drain_each f (k ∷ ks) w = elim (drain_kind f k w) [ none ↦ none | some v ↦ drain_each f ks v ]

  unfoldable pub drain : ℕ → World → Option World
  unfolding drain_each
  drain f w = drain_each f p.internal_processors w
