-- ===== src/Services/Drain/Body.antt =====
-- The executors leave the tasks alone; only the marks after them write to that table.
use crawlerv.Prelude.{
  ℕ, ◌≡◌, refl, Bool, true, false, Option, none, some, List, [], ◌∷◌, Bytes, if◌then◌else◌, arith,
}
use crawlerv.Store.Rows.{ProcessingJob, ExtractedDocument}
use crawlerv.Store.World.{
  Db, Error, Result, M, pure, fail, ◌>>=◌, caught, query, execute, statement, write_tx,
}
use crawlerv.Store.Laws.{
  Keeps, statement-Keeps, execute-Keeps, query-Keeps, pure-Keeps, fail-Keeps, >>=-Keeps,
  write_tx-Keeps,
}
use crawlerv.Store.Steady.{
  IsSteady, statement-IsSteady, execute-IsSteady, query-IsSteady, pure-IsSteady, fail-IsSteady,
  >>=-IsSteady, write_tx-IsSteady, caught-IsSteady, caught-Keeps,
}
use crawlerv.Chunker.Split.{Config}
use crawlerv.ChunkRepo.Types.{Chunk}
use crawlerv.ChunkRepo.Rows.{inserted_db, insert_rows, create_rows, insert_many, new_rows}
use crawlerv.ProcessingRepo.Types.{Job}
use crawlerv.FrontierRepo.Queue.{domain_id_by_url_hash}
use crawlerv.FrontierRepo.Domains.{get_by_id as get_domain_by_id}
use crawlerv.Repos.Lake.{Object, get_by_id}
use crawlerv.Repos.Extraction.{Document, create, rewrite, create_or_rewrite, upsert}
use crawlerv.Repos.CollectionConfig.{get, resolve_config}
use crawlerv.Services.Collections.{walk_domain, resolve_for_lake_object, resolve_collection}
use crawlerv.Services.Pipeline.{
  Pipeline, Run, chunk_config, write_chunks, or_external, found_object, lake_object_by_id, body_of,
  store_text, exec_html, exec_text_passthrough, exec_pdf, extract_pdf,
}

-- An operation that leaves the tasks alone, and is steady.
pub record IsApart {A : Type 0} (m : M A) : Type 0 where
  pub keeps : (js : List ProcessingJob) → Keeps (λ d. d.processing_jobs ≡ js) m
  pub steady : IsSteady m

module _ {A : Type 0} where
  statement-IsApart :
      (f : Db → Result A × Db)
      → ((d : Db) → (f d).1.processing_jobs ≡ d.processing_jobs)
      → IsApart (statement f)
  statement-IsApart f k = record {
    keeps = λ js. statement-Keeps f (λ d h. cc (k d, h));
    steady = statement-IsSteady f;
  }

  execute-IsApart :
      (f : Db → A × Db)
      → ((d : Db) → (f d).1.processing_jobs ≡ d.processing_jobs)
      → IsApart (execute f)
  execute-IsApart f k = record {
    keeps = λ js. execute-Keeps f (λ d h. cc (k d, h));
    steady = execute-IsSteady f;
  }

  query-IsApart : (f : Db → A) → IsApart (query f)
  query-IsApart f = record { keeps = λ js. query-Keeps f; steady = query-IsSteady f }

  pure-IsApart : (a : A) → IsApart (pure a)
  pure-IsApart a = record { keeps = λ js. pure-Keeps a; steady = pure-IsSteady a }

  fail-IsApart : (e : Error) → IsApart (fail {A = A} e)
  fail-IsApart e = record { keeps = λ js. fail-Keeps e; steady = fail-IsSteady e }

  caught-IsApart : {m : M A} → IsApart m → IsApart (caught m)
  caught-IsApart k = record {
    keeps = λ js. caught-Keeps (k.keeps js);
    steady = caught-IsSteady k.steady;
  }

  write_tx-IsApart : {m : M A} → IsApart m → IsApart (write_tx m)
  write_tx-IsApart k = record {
    keeps = λ js. write_tx-Keeps (k.keeps js);
    steady = write_tx-IsSteady k.steady;
  }

  >>=-IsApart :
      {B : Type 0} {m : M A} {f : A → M B}
      → IsApart m
      → ((a : A) → IsApart (f a))
      → IsApart (m >>= f)
  >>=-IsApart hm hf = record {
    keeps = λ js. >>=-Keeps (hm.keeps js) (λ a. (hf a).keeps js);
    steady = >>=-IsSteady hm.steady (λ a. (hf a).steady);
  }

found-IsApart : (h : Bytes) → IsApart (domain_id_by_url_hash h)
unfolding domain_id_by_url_hash
found-IsApart h = statement-IsApart _ (λ d. ground arith)

walk_domain-IsApart : (o : Option Object) → IsApart (walk_domain o)
unfolding walk_domain get_domain_by_id
walk_domain-IsApart none = pure-IsApart _
walk_domain-IsApart (some o) =
    >>=-IsApart (found-IsApart o.url_hash) (λ id.
      >>=-IsApart (>>=-IsApart (query-IsApart _) (λ x. pure-IsApart _)) (λ x. pure-IsApart _))

resolve_collection-IsApart : (b : Bool) (id : ℕ) → IsApart (resolve_collection b id)
unfolding resolve_collection resolve_for_lake_object get_by_id
resolve_collection-IsApart true id =
    >>=-IsApart (caught-IsApart (>>=-IsApart (query-IsApart _) walk_domain-IsApart))
      (λ r. pure-IsApart _)
resolve_collection-IsApart false id = pure-IsApart _

get-IsApart : (name : Bytes) → IsApart (get name)
unfolding get
get-IsApart name = statement-IsApart _ (λ d. ground arith)

chunk_config-IsApart :
    (cfg : Config) (o : Option Config) (c : Bytes) → IsApart (chunk_config cfg o c)
unfolding chunk_config resolve_config
chunk_config-IsApart cfg none c = pure-IsApart _
chunk_config-IsApart cfg (some base) [] = >>=-IsApart (pure-IsApart _) (λ r. pure-IsApart _)
chunk_config-IsApart cfg (some base) (b ∷ bs) =
    >>=-IsApart (>>=-IsApart (caught-IsApart (get-IsApart _)) (λ r. pure-IsApart _))
      (λ r. pure-IsApart _)

insert_many-IsApart : (cs : List (Chunk × ℕ)) → IsApart (insert_many cs)
unfolding insert_many create_rows
insert_many-IsApart [] = pure-IsApart _
insert_many-IsApart (c ∷ cs) =
    statement-IsApart _ (λ d. same d (insert_rows (new_rows (c ∷ cs)) d.document_chunks))
  where
    same : (d : Db) (o : Option _) → (inserted_db d o).1.processing_jobs ≡ d.processing_jobs
    same d none = refl
    same d (some rows) = refl

create_or_rewrite-IsApart :
    (now : ℕ) (x : Document) (o : Option ExtractedDocument) → IsApart (create_or_rewrite now x o)
unfolding create_or_rewrite create rewrite
create_or_rewrite-IsApart now x none = execute-IsApart _ (λ d. refl)
create_or_rewrite-IsApart now x (some m) = execute-IsApart _ (λ d. refl)

upsert-IsApart : (now : ℕ) (x : Document) → IsApart (upsert now x)
unfolding upsert
upsert-IsApart now x =
    write_tx-IsApart (>>=-IsApart (query-IsApart _) (create_or_rewrite-IsApart now x))

if-IsApart :
    {A : Type 0} (b : Bool) {m n : M A} → IsApart m → IsApart n → IsApart (if b then m else n)
if-IsApart true p q = p
if-IsApart false p q = q

module _ (p : Pipeline) (run : Run) where
  or_external-IsApart : {A : Type 0} (o : Option A) → IsApart (or_external o)
  or_external-IsApart none = fail-IsApart _
  or_external-IsApart (some a) = pure-IsApart a

  found_object-IsApart : (o : Option Object) → IsApart (found_object o)
  found_object-IsApart none = fail-IsApart _
  found_object-IsApart (some o) = pure-IsApart o

  body_of-IsApart : (job : Job) → IsApart (body_of p run job)
  unfolding body_of lake_object_by_id get_by_id
  body_of-IsApart job =
      >>=-IsApart (>>=-IsApart (query-IsApart _) found_object-IsApart) (λ o. or_external-IsApart _)

  store_text-IsApart : (job : Job) (text : Bytes) (n : ℕ) → IsApart (store_text p run job text n)
  unfolding store_text write_chunks
  store_text-IsApart job text n = >>=-IsApart (resolve_collection-IsApart _ _) (λ c.
      >>=-IsApart (upsert-IsApart _ _)
        (λ doc. >>=-IsApart (chunk_config-IsApart _ _ _) (λ cfg. insert_many-IsApart _)))

  pub exec_html-IsApart : (job : Job) → IsApart (exec_html p run job)
  unfolding exec_html
  exec_html-IsApart job = >>=-IsApart (body_of-IsApart job) (λ body.
      >>=-IsApart (or_external-IsApart _)
        (λ text. if-IsApart _ (pure-IsApart tt) (store_text-IsApart job text 0)))

  pub exec_text_passthrough-IsApart : (job : Job) → IsApart (exec_text_passthrough p run job)
  unfolding exec_text_passthrough
  exec_text_passthrough-IsApart job =
      >>=-IsApart (body_of-IsApart job)
        (λ body. if-IsApart _ (pure-IsApart tt) (store_text-IsApart job body 0))

  pub exec_pdf-IsApart : (job : Job) → IsApart (exec_pdf p run job)
  unfolding exec_pdf
  exec_pdf-IsApart job = >>=-IsApart (body_of-IsApart job) (λ body.
      >>=-IsApart (or_external-IsApart (extract_pdf body)) (λ x. store_text-IsApart job x.0 x.1))
