-- ===== src/Services/Rechunk/Pages.antt =====
-- Rechunk (internal/app/rechunk.go): the configuration, the loop over pages, and one document.
use crawlerv.Prelude.{
  ℕ, zero, suc, ◌+◌, ◌-◌, Bool, true, false, ◌&&◌, ◌||◌, not, Option, none, some, List, [], ◌∷◌,
  ◌++◌, Bytes, bytes_eq, codes, ltb, leb, if◌then◌else◌, length,
}
use crawlerv.Store.Rows.{EmbedStatus}
use crawlerv.Store.World.{Error, Result, ok, err, M, pure, fail, ◌>>=◌, caught, refused}
use crawlerv.Chunker.Split.{Config, Tokenizer, Chunk as Piece, split}
use crawlerv.ChunkRepo.Types.{Chunk}
use crawlerv.ChunkRepo.Rows.{replace_by_document}
use crawlerv.Repos.Extraction.{Document, list_by_collection}
use crawlerv.Repos.CollectionConfig.{Resolved, resolve_config}
use crawlerv.Services.Pipeline.{new_uuid}

-- `delete_points` is the optional client of the vector store; `false` is an error.
pub record RechunkSvc : Type 0 where
  pub defaults : Config
  pub tokenizer : Tokenizer
  pub resolver : Option Config
  pub delete_points : Option (Bytes → List Bytes → Bool)

pub record RechunkOpts : Type 0 where
  pub since_doc_id : ℕ
  pub limit : ℕ
  pub dry_run : Bool

pub record RechunkDoc : Type 0 where
  pub document_id : ℕ
  pub old_count : ℕ
  pub new_count : ℕ
  pub old_chunk_ids : List Bytes
  pub qdrant_deleted : ℕ
  pub qdrant_failed : Bool
  pub error : Option Error

pub record RechunkReport : Type 0 where
  pub collection : Bytes
  pub config : Config
  pub from_table : Bool
  pub documents : List RechunkDoc
  pub total_old : ℕ
  pub total_new : ℕ
  pub total_qdrant : ℕ
  pub qdrant_errors : ℕ
  pub errors : ℕ
  pub dry_run : Bool

-- What a run reads from outside the tables, by document: the clock, and the random bytes of its
-- n-th chunk.
pub record Reads : Type 0 where
  pub replaced_at : ℕ → ℕ
  pub random : ℕ → ℕ → Bytes

unfoldable pub to_chunks : (ℕ → Bytes) → ℕ → ℕ → List Piece → List Chunk
unfolding new_uuid
to_chunks random doc n [] = []
to_chunks random doc n (p ∷ ps) =
    record {
      id = new_uuid (random n);
      document_id = doc;
      chunk_index = p.index;
      text = p.text;
      token_count = p.token_count;
      vector_id = [];
      embed_status = EmbedStatus.pending;
      collection = [];
    }
    ∷ to_chunks random doc (suc n) ps

abbrev pub old_ids : Result (List Bytes) → List Bytes
old_ids (ok ids) = ids
old_ids (err e) = []

abbrev pub error_of : {A : Type 0} → Result A → Option Error
error_of (ok a) = none
error_of (err e) = some e

abbrev pub to_ℕ : Bool → ℕ
to_ℕ true = 1
to_ℕ false = 0

abbrev pub has_error : Option Error → Bool
has_error none = false
has_error (some e) = true

-- The line of a document is appended, and counted.
unfoldable pub add_doc : RechunkReport → RechunkDoc → RechunkReport
add_doc rep i = record rep {
  documents = rep.documents ++ i ∷ [];
  total_old = rep.total_old + i.old_count;
  total_new = rep.total_new + i.new_count;
  total_qdrant = rep.total_qdrant + i.qdrant_deleted;
  qdrant_errors = rep.qdrant_errors + to_ℕ i.qdrant_failed;
  errors = rep.errors + to_ℕ (has_error i.error);
}

-- The page size, at most the limit.
unfoldable pub fetch_of : ℕ → ℕ
fetch_of limit = if ltb 0 limit && ltb limit 100 then limit else 100

-- `since` after the documents of a page.
unfoldable pub last_id : ℕ → List Document → ℕ
last_id since [] = since
last_id since (d ∷ ds) = last_id d.id ds

-- The two tests that break the loop after a page of `n` documents.
unfoldable pub is_last : ℕ → ℕ → Bool
unfolding fetch_of
is_last limit n = (ltb 0 limit && leb limit n) || ltb n (fetch_of limit)

module _ (s : RechunkSvc) (t : Reads) (coll : Bytes) (cfg : Config) (dry_run : Bool) where
  -- Whether the points of the old chunks are deleted, and whether that fails: (tried, failed).
  unfoldable pub delete_old : List Bytes → Bool × Bool
  delete_old [] = (false, false)
  delete_old (i ∷ is) = elim s.delete_points [
    | none ↦ (false, false)
    | some f ↦ if bytes_eq coll [] then (false, false) else (true, not (f coll (i ∷ is)))
  ]

  unfoldable pub item_of : Document → Result (List Bytes) → RechunkDoc
  unfolding delete_old
  item_of d r = record {
    document_id = d.id;
    old_count = length (old_ids r);
    new_count = length (split s.tokenizer d.text cfg);
    old_chunk_ids = old_ids r;
    qdrant_deleted =
        if (delete_old (old_ids r)).0 && not (delete_old (old_ids r)).1
        then length (old_ids r)
        else 0;
    qdrant_failed = (delete_old (old_ids r)).1;
    error = error_of r;
  }

  unfoldable pub dry_item : Document → RechunkDoc
  dry_item d = record {
    document_id = d.id;
    old_count = 0;
    new_count = length (split s.tokenizer d.text cfg);
    old_chunk_ids = [];
    qdrant_deleted = 0;
    qdrant_failed = false;
    error = none;
  }

  -- One document: a dry run only counts; an error is a line of the report.
  unfoldable pub rechunk_doc : Document → M RechunkDoc
  unfolding to_chunks item_of dry_item
  rechunk_doc d =
      if dry_run
      then pure (dry_item d)
      else (caught (
            replace_by_document (t.replaced_at d.id) d.id
              (to_chunks (t.random d.id) d.id 0 (split s.tokenizer d.text cfg)))
          >>= λ r. pure (item_of d r))

  unfoldable pub rechunk_docs : List Document → RechunkReport → M RechunkReport
  unfolding rechunk_doc add_doc
  rechunk_docs [] rep = pure rep
  rechunk_docs (d ∷ ds) rep = do i ← rechunk_doc d; rechunk_docs ds (add_doc rep i)

  -- The outer loop, on fuel; `none` means that the fuel ran out. It answers the report, with the
  -- error if the list of the documents could not be read.
  unfoldable pub rechunk_pages :
      ℕ → ℕ → ℕ → RechunkReport → M (Option (RechunkReport × Option Error))
  unfolding rechunk_docs fetch_of last_id is_last
  rechunk_pages zero since limit rep = pure none
  rechunk_pages (suc f) since limit rep = do
    r ← caught (list_by_collection coll since (fetch_of limit))
    elim r [
      | err e ↦ pure (some (rep, some e))
      | ok [] ↦ pure (some (rep, none))
      | ok (d ∷ ds) ↦
          (rechunk_docs (d ∷ ds) rep >>= λ rep'.
          if is_last limit (length (d ∷ ds))
          then pure (some (rep', none))
          else rechunk_pages f (last_id since (d ∷ ds)) (limit - length (d ∷ ds)) rep')
    ]

-- "-" stands for the documents without a collection.
abbrev pub query_collection : Bytes → Bytes
query_collection c = if bytes_eq c (codes "-") then [] else c

abbrev pub chosen : Config → Resolved → Config × Bool
chosen base r = elim r.error [ none ↦ (r.config, r.from_table) | some e ↦ (base, false) ]

-- The resolver is not asked for the default bucket; its error leaves the defaults.
unfoldable pub rechunk_config : RechunkSvc → Bytes → M (Config × Bool)
rechunk_config s coll = elim s.resolver [
  | none ↦ pure (s.defaults, false)
  | some base ↦
      if bytes_eq coll []
      then pure (s.defaults, false)
      else (resolve_config base coll >>= λ r. pure (chosen s.defaults r))
]

abbrev pub empty_report : Bytes → Config × Bool → Bool → RechunkReport
empty_report collection cfg dry_run = record {
  collection = collection;
  config = cfg.0;
  from_table = cfg.1;
  documents = [];
  total_old = 0;
  total_new = 0;
  total_qdrant = 0;
  qdrant_errors = 0;
  errors = 0;
  dry_run = dry_run;
}

unfoldable pub rechunk :
    RechunkSvc → Reads → ℕ → Bytes → RechunkOpts → M (Option (RechunkReport × Option Error))
unfolding rechunk_config rechunk_pages
rechunk s t fuel [] opts = fail refused
rechunk s t fuel (c ∷ cs) opts = do
  cfg ← rechunk_config s (query_collection (c ∷ cs))
  rechunk_pages s t (query_collection (c ∷ cs)) cfg.0 opts.dry_run fuel opts.since_doc_id opts.limit
      (empty_report (c ∷ cs) cfg opts.dry_run)
