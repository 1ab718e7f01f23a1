-- ===== src/Services/Rechunk/Page.antt =====
-- One page of a rebuild: its list, and the lines that it adds to the report.
use crawlerv.Prelude.{
  ℕ, ◌≡◌, refl, sym, ap, ◌∙◌, ◌⊎◌, inl, inr, Bool, Option, none, some, List, [], ◌∷◌, ◌++◌, map,
  append-nil, append_assoc, map-append, Bytes, arith, take, Bool-cases,
}
use crawlerv.Store.Rows.{ExtractedDocument}
use crawlerv.Store.World.{Db, Error, ok, err, World, pure, ◌>>=◌, caught}
use crawlerv.Store.Laws.{
  Keeps, query-cases, query-Keeps, statement-Keeps, execute-Keeps, pure-Keeps, >>=-Keeps,
  write_tx-Keeps,
}
use crawlerv.ChunkRepo.Types.{Chunk}
use crawlerv.ChunkRepo.Rows.{
  replace_by_document, delete_document, insert_fresh, create_rows, inserted_db, insert_rows,
  new_row,
}
use crawlerv.Chunker.Split.{Config, split}
use crawlerv.Repos.Extraction.{Document, map_extracted, of_collection, list_by_collection}
use crawlerv.Services.Rechunk.Pages.{
  RechunkSvc, RechunkDoc, RechunkReport, Reads, to_chunks, add_doc, item_of, dry_item, rechunk_doc,
  rechunk_docs, fetch_of,
}

abbrev pub SameDocs : List ExtractedDocument → Db → Type 0
SameDocs docs d = d.extracted_documents ≡ docs

create-Keeps :
    (docs : List ExtractedDocument) (now : ℕ) (cs : List Chunk)
    → Keeps (SameDocs docs) (insert_fresh now cs)
unfolding insert_fresh create_rows
create-Keeps docs now [] = pure-Keeps _
create-Keeps docs now (c ∷ cs) =
    statement-Keeps _ (λ d h. same d (insert_rows (map (new_row now) (c ∷ cs)) d.document_chunks) h)
  where
    same : (d : Db) (o : Option _) → SameDocs docs d → SameDocs docs (inserted_db d o).1
    same d none h = h
    same d (some rows) h = h

replace-Keeps :
    (docs : List ExtractedDocument) (now doc : ℕ) (cs : List Chunk)
    → Keeps (SameDocs docs) (replace_by_document now doc cs)
unfolding replace_by_document delete_document
replace-Keeps docs now doc cs = write_tx-Keeps (
    >>=-Keeps (query-Keeps _) (λ ids.
      >>=-Keeps (execute-Keeps _ (λ d h. h))
        (λ u. >>=-Keeps (create-Keeps docs now cs) (λ v. pure-Keeps _))))

abbrev pub ids_of : RechunkReport → List ℕ
ids_of rep = map (λ (i : RechunkDoc). i.document_id) rep.documents

module _ (s : RechunkSvc) (t : Reads) (coll : Bytes) (cfg : Config) (dry_run : Bool) where
  doc_done :
      (d : Document) (w : World)
      → (i : RechunkDoc) × (w' : World) × (rechunk_doc s t coll cfg dry_run d w ≡ (ok i, w'))
        × (i.document_id ≡ d.id)
        × SameDocs w.db.extracted_documents w'.db
  unfolding rechunk_doc item_of dry_item caught pure ◌>>=◌
  doc_done d w = elim (Bool-cases dry_run) [
    | inl y ↦ (dry_item s t coll cfg dry_run d, w, rw y refl, refl, refl)
    | inr n ↦
        let m =
          replace_by_document (t.replaced_at d.id) d.id
            (to_chunks (t.random d.id) d.id 0 (split s.tokenizer d.text cfg)) in
        (
          item_of s t coll cfg dry_run d (m w).0,
          (m w).1,
          rw n refl,
          refl,
          (replace-Keeps w.db.extracted_documents _ _ _).apply w refl,
        )
  ]

  pub docs_done :
      (ds : List Document) (rep : RechunkReport) (w : World)
      → (rep' : RechunkReport) × (w' : World) × (rechunk_docs s t coll cfg dry_run ds rep w
          ≡ (ok rep', w'))
        × (ids_of rep' ≡ ids_of rep ++ map (λ (d : Document). d.id) ds)
        × SameDocs w.db.extracted_documents w'.db
  unfolding rechunk_docs add_doc pure ◌>>=◌
  docs_done [] rep w = (rep, w, refl, sym (append-nil _), refl)
  docs_done (d ∷ ds) rep w =
      let (i, v, done, same, keep) = doc_done d w in
      let (rep', w', rest, ids, kept) = docs_done ds (add_doc rep i) v in
      (
        rep',
        w',
        rw (done, rechunk_docs) rest,
        ids
            ∙ ap (λ l. l ++ map (λ (x : Document). x.id) ds)
                (map-append (λ (x : RechunkDoc). x.document_id) rep.documents (i ∷ []))
            ∙ append_assoc (ids_of rep) (i.document_id ∷ []) _
            ∙ ap (λ n. ids_of rep ++ n ∷ map (λ (x : Document). x.id) ds) same,
        kept ∙ keep,
      )

-- The list of a page, or an error, and the tables as they were.
pub listed :
    (coll : Bytes) (since limit : ℕ) (w : World)
    → ((list_by_collection coll since (fetch_of limit) w).1.db ≡ w.db)
      × (((e : Error) × ((list_by_collection coll since (fetch_of limit) w).0 ≡ err e))
          ⊎ ((list_by_collection coll since (fetch_of limit) w).0
              ≡ ok (
                  map map_extracted
                    (take (fetch_of limit) (of_collection coll since w.db.extracted_documents)))))
unfolding list_by_collection fetch_of
listed coll since limit w =
    let (same, r) = query-cases _ w in
    (same, elim r [ inl (e, p) ↦ inl (e, p) | inr p ↦ inr (p ∙ ground arith) ])
