-- ===== src/Services/Again.antt =====
-- A text that arrives for a document which has chunks already.
use crawlerv.Prelude.{
  ℕ, suc, ◌≡◌, refl, sym, subst, ap, ◌∙◌, ◌&&◌, ◌+◌, Bool, true, false, Option, none, some, List,
  [], ◌∷◌, map, Bytes, arith, ◌==◌, ltb, length, if◌then◌else◌,
}
use crawlerv.Store.Rows.{DocumentChunk, ExtractedDocument, ProcessingJob}
use crawlerv.Store.Sql.{first}
use crawlerv.Store.World.{Db, Result, ok, err, is_ok, World, M, pure}
use crawlerv.Store.Laws.{
  Keeps, statement-Keeps, query-Keeps, pure-Keeps, fail-Keeps, >>=-Keeps, statement-ok, execute-ok,
  query-ok, >>=-ok, write_tx-ok,
}
use crawlerv.Store.Steady.{caught-Keeps}
use crawlerv.Chunker.Split.{
  Config, Tokenizer, Chunk as Piece, Sizes, sizes, cores, chunk_at, chunks_from, chunk_tokens,
  split,
}
use crawlerv.ChunkRepo.Rows.{key, clash, is_taken, insert_rows, create_rows, insert_many, new_row}
use crawlerv.LeaseSigner.Token.{
  Verdict, accepted, bad_encoding, bad_length, bad_signature, expired, mismatch,
}
use crawlerv.FrontierRepo.Queue.{domain_id_by_url_hash}
use crawlerv.FrontierRepo.Domains.{get_by_id as get_domain_by_id}
use crawlerv.ProcessingRepo.Types.{Job}
use crawlerv.ProcessingRepo.Queue.{has_id, get_by_id}
use crawlerv.Repos.Lake.{Object, get_by_id as get_object}
use crawlerv.Repos.Extraction.{Document, has_source, rewrite, create_or_rewrite, upsert}
use crawlerv.Repos.CollectionConfig.{get, resolve_config}
use crawlerv.Services.Collections.{walk_domain, resolve_for_lake_object, resolve_collection}
use crawlerv.Services.Pipeline.{new_uuid, chunk_row, chunk_rows, chunk_config}
use crawlerv.Services.Tasks.{
  TaskSvc, Reads, TextResult, verified_raw, accepted_raw, fetch_task, found_job, write_text_chunks,
  accept_text,
}

-- The place of a document's first chunk.
abbrev pub is_first_of : ℕ → DocumentChunk → Bool
is_first_of doc r = r.document_id == doc && r.chunk_index == 0

taken_key :
    (doc : ℕ) (id : Bytes) (rows : List DocumentChunk) (r : DocumentChunk)
    → first (is_first_of doc) rows ≡ some r
    → is_taken (map key rows) (id, doc, 0) ≡ true
unfolding first is_taken clash
taken_key doc id [] r h = ground arith
taken_key doc id (x ∷ rows) r h = ground (arith, taken_key doc id rows r)

-- A text with tokens has a first chunk.
cores-head :
    (f core n : ℕ)
    → cores (suc f) core (suc n) 0
      ≡ record { start = 0; end = if ltb (suc n) (0 + core) then suc n else 0 + core }
        ∷ cores f core (suc n) (0 + core)
unfolding cores
cores-head f core n = ground arith

chunk_tokens-head :
    (tok : Tokenizer) (z : Sizes) (t : ℕ) (ts : List ℕ)
    → (c : Piece) × (rest : List Piece) × (chunk_tokens tok z (t ∷ ts) ≡ c ∷ rest) × (c.index ≡ 0)
unfolding chunk_tokens chunks_from chunk_at
chunk_tokens-head tok z t ts =
    let cs = cores (suc (length (t ∷ ts))) z.core (length (t ∷ ts)) 0 in
    (
      _,
      _,
      ap (chunks_from tok z (t ∷ ts) cs 0) (cores-head (length (t ∷ ts)) z.core (length ts)),
      refl,
    )

split-head :
    (tok : Tokenizer) (cfg : Config) (b : ℕ) (bs : Bytes) (t : ℕ) (ts : List ℕ)
    → tok.encode (b ∷ bs) ≡ t ∷ ts
    → (c : Piece) × (rest : List Piece) × (split tok (b ∷ bs) cfg ≡ c ∷ rest) × (c.index ≡ 0)
unfolding split
split-head tok cfg b bs t ts h =
    let (c, rest, e, i) = chunk_tokens-head tok (sizes cfg) t ts in
    (c, rest, ap (chunk_tokens tok (sizes cfg)) h ∙ e, i)

insert_clashes :
    (random : ℕ → Bytes) (at : ℕ → ℕ) (doc : ℕ) (c : Piece) (rest : List Piece) (r : DocumentChunk)
    (w w' : World)
    → c.index ≡ 0
    → first (is_first_of doc) w.db.document_chunks ≡ some r
    → insert_many (chunk_rows random at doc 0 (c ∷ rest)) w ≡ (ok tt, w')
    → ◌≡◌ {A = Bool} true false
unfolding insert_many chunk_rows create_rows chunk_row insert_rows new_row
insert_clashes random at doc c rest r w w' zero_index h e =
    let k = statement-ok _ w e in
    let taken =
      subst (λ n. is_taken (map key w.db.document_chunks) (new_uuid (random 0), doc, n) ≡ true)
        (sym zero_index) (taken_key doc (new_uuid (random 0)) w.db.document_chunks r h) in
    let refused = rw taken at k in ground arith

-- The reads before the document is written leave the tables.
abbrev Same : Db → Db → Type 0
Same d x = x ≡ d

found-Keeps : (d : Db) (h : Bytes) → Keeps (Same d) (domain_id_by_url_hash h)
unfolding domain_id_by_url_hash
found-Keeps d h = statement-Keeps _ (λ x e. ground (arith, e))

walk-Keeps : (d : Db) (o : Option Object) → Keeps (Same d) (walk_domain o)
unfolding walk_domain get_domain_by_id
walk-Keeps d none = pure-Keeps _
walk-Keeps d (some o) =
    >>=-Keeps (found-Keeps d o.url_hash)
      (λ id. >>=-Keeps (>>=-Keeps (query-Keeps _) (λ x. pure-Keeps _)) (λ x. pure-Keeps _))

resolve-Keeps : (d : Db) (b : Bool) (id : ℕ) → Keeps (Same d) (resolve_collection b id)
unfolding resolve_collection resolve_for_lake_object get_object
resolve-Keeps d true id =
    >>=-Keeps (caught-Keeps (>>=-Keeps (query-Keeps _) (walk-Keeps d))) (λ r. pure-Keeps _)
resolve-Keeps d false id = pure-Keeps _

get-Keeps : (d : Db) (name : Bytes) → Keeps (Same d) (get name)
unfolding get
get-Keeps d name = statement-Keeps _ (λ x e. ground (arith, e))

config-Keeps :
    (d : Db) (cfg : Config) (o : Option Config) (c : Bytes) → Keeps (Same d) (chunk_config cfg o c)
unfolding chunk_config resolve_config
config-Keeps d cfg none c = pure-Keeps _
config-Keeps d cfg (some base) [] = >>=-Keeps (pure-Keeps _) (λ r. pure-Keeps _)
config-Keeps d cfg (some base) (b ∷ bs) =
    >>=-Keeps (>>=-Keeps (caught-Keeps (get-Keeps d _)) (λ r. pure-Keeps _)) (λ r. pure-Keeps _)

-- An operation that succeeds leaves the tables as its rule says.
kept_by :
    {A : Type 0} {m : M A} (d : Db)
    → Keeps (Same d) m
    → (w w' : World) (a : A) → w.db ≡ d
    → m w ≡ (ok a, w')
    → w'.db ≡ d
kept_by d k w w' a h e = ap (λ (r : Result _ × World). r.1.db) (sym e) ∙ k.apply w h

upsert-ok :
    (now : ℕ) (x : Document) (w w' : World) (id : ℕ) (m : ExtractedDocument)
    → first (has_source x.source_lake_object_id) w.db.extracted_documents ≡ some m
    → upsert now x w ≡ (ok id, w')
    → (id ≡ m.id) × (w'.db.document_chunks ≡ w.db.document_chunks)
unfolding upsert create_or_rewrite rewrite
upsert-ok now x w w' id m h e =
    let (v, v', start, body, end) = write_tx-ok _ w e in
    let (o, u, read, written) = >>=-ok _ _ v body in
    let (found, same) = query-ok _ v read in
    let o_some : o ≡ some m =
      sym found
      ∙ ap (λ (d : Db). first (has_source x.source_lake_object_id) d.extracted_documents) start
      ∙ h in
    let step = subst (λ y. create_or_rewrite now x y u ≡ (ok id, v')) o_some written in
    let done = execute-ok _ u step in
    (
      sym (ap (λ (y : ℕ × Db). y.0) done),
      ap (λ (d : Db). d.document_chunks) (sym end)
          ∙ sym (ap (λ (y : ℕ × Db). y.1.document_chunks) done)
          ∙ ap (λ (d : Db). d.document_chunks) (same ∙ start),
    )

accepted-Keeps : (d : Db) (v : Verdict) (o : Option Bytes) → Keeps (Same d) (accepted_raw v o)
accepted-Keeps d (accepted v) (some raw) = pure-Keeps _
accepted-Keeps d (accepted v) none = fail-Keeps _
accepted-Keeps d bad_encoding o = fail-Keeps _
accepted-Keeps d bad_length o = fail-Keeps _
accepted-Keeps d bad_signature o = fail-Keeps _
accepted-Keeps d (expired v) o = fail-Keeps _
accepted-Keeps d mismatch o = fail-Keeps _

verified-Keeps :
    (d : Db) (s : TaskSvc) (now : Reads) (id : ℕ) (token : Bytes)
    → Keeps (Same d) (verified_raw s now id token)
unfolding verified_raw
verified-Keeps d s now id token = accepted-Keeps d _ _

fetched :
    (s : TaskSvc) (now : Reads) (id : ℕ) (j : ProcessingJob) (w w' : World) (job : Job)
    → first (has_id id) w.db.processing_jobs ≡ some j
    → fetch_task s now id w ≡ (ok job, w')
    → (job.lake_object_id ≡ j.lake_object_id) × (w'.db ≡ w.db)
unfolding fetch_task get_by_id pure
fetched s now id j w w' job h e =
    let (o, u, read, found) = >>=-ok _ _ w e in
    let (value, same) = query-ok _ w read in
    let k = rw h at value in
    let r = subst (λ y. found_job y u ≡ (ok job, w')) (sym k) found in (ground arith, ground arith)

refuses :
    (r : Result (Unit {0}) × World)
    → ((w' : World) → r ≡ (ok tt, w') → ◌≡◌ {A = Bool} true false)
    → is_ok r.0 ≡ false
refuses (ok tt, w') k = k w' refl
refuses (err e, w') k = refl

write_clashes :
    (s : TaskSvc) (now : Reads) (doc b : ℕ) (bs : Bytes) (t : ℕ) (ts : List ℕ) (c : Bytes)
    (r : DocumentChunk) (w w' : World)
    → s.tokenizer.encode (b ∷ bs) ≡ t ∷ ts
    → first (is_first_of doc) w.db.document_chunks ≡ some r
    → write_text_chunks s now doc (b ∷ bs) c w ≡ (ok tt, w')
    → ◌≡◌ {A = Bool} true false
unfolding write_text_chunks
write_clashes s now doc b bs t ts c r w w' tokens h e =
    let (cfg, u, chosen, inserted) = >>=-ok _ _ w e in
    let same =
      kept_by w.db (config-Keeps w.db s.chunk_cfg s.config_resolver c) w u cfg refl chosen in
    let (p, rest, pieces, zero_index) = split-head s.tokenizer cfg b bs t ts tokens in
    insert_clashes now.random now.chunked_at doc p rest r u w' zero_index
      (subst (λ (d : Db). first (is_first_of doc) d.document_chunks ≡ some r) (sym same) h)
      (subst (λ l. insert_many (chunk_rows now.random now.chunked_at doc 0 l) u ≡ (ok tt, w'))
        pieces inserted)

-- A text result for a task whose object has a document with a first chunk never succeeds, if the text
-- has tokens: the chunks that it brings clash with those that are there.
pub repeated_text-Refused :
    (s : TaskSvc) (now : Reads) (i : TextResult) (w : World) (j : ProcessingJob)
    (m : ExtractedDocument) (r : DocumentChunk) (b : ℕ) (bs : Bytes) (t : ℕ) (ts : List ℕ)
    → first (has_id i.task_id) w.db.processing_jobs ≡ some j
    → first (has_source j.lake_object_id) w.db.extracted_documents ≡ some m
    → first (is_first_of m.id) w.db.document_chunks ≡ some r
    → i.text ≡ b ∷ bs
    → s.tokenizer.encode (b ∷ bs) ≡ t ∷ ts
    → is_ok (accept_text s now i w).0 ≡ false
unfolding accept_text
repeated_text-Refused s now i w j m r b bs t ts task document chunk text tokens = refuses _ (λ w' e.
    let (raw, w1, verified, e1) = >>=-ok _ _ w e in
    let same1 =
      kept_by w.db (verified-Keeps w.db s now i.task_id i.lease_token) w w1 raw refl verified in
    let (job, w2, read, e2) = >>=-ok _ _ w1 e1 in
    let (lake, same2) =
      fetched s now i.task_id j w1 w2 job
        (subst (λ (d : Db). first (has_id i.task_id) d.processing_jobs ≡ some j) (sym same1) task)
        read in
    let (c, w3, resolved, e3) = >>=-ok _ _ w2 e2 in
    let same3 =
      kept_by w.db (resolve-Keeps w.db s.resolver job.lake_object_id) w2 w3 c (same2 ∙ same1)
        resolved in
    let (doc, w4, upserted, e4) = >>=-ok _ _ w3 e3 in
    let there =
      subst (λ (d : Db). first (has_source job.lake_object_id) d.extracted_documents ≡ some m)
        (sym same3)
        (subst (λ n. first (has_source n) w.db.extracted_documents ≡ some m) (sym lake) document) in
    let (same_doc, same4) = upsert-ok now.written_at _ w3 w4 doc m there upserted in
    let (u, w5, written, e5) = >>=-ok _ _ w4 e4 in
    write_clashes s now doc b bs t ts c r w4 w5 tokens
      (subst (λ l. first (is_first_of doc) l ≡ some r)
        (sym (same4 ∙ ap (λ (d : Db). d.document_chunks) same3))
        (subst (λ n. first (is_first_of n) w.db.document_chunks ≡ some r) (sym same_doc) chunk))
      (subst (λ x. write_text_chunks s now doc x c w4 ≡ (ok u, w5)) text written))
