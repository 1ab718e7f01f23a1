-- ===== src/Services/Rechunk/Report.antt =====
-- Rechunk: what its report lists.
use crawlerv.Prelude.{
  ℕ, ◌<◌, ◌≡◌, refl, sym, subst, ap, ◌∙◌, Bool, false, Option, none, some, List, [], ◌∷◌, Bytes,
  bytes_eq, length, inl, inr, Option-cases, ◌⊎◌, arith,
}
use crawlerv.Store.Rows.{ExtractedDocument}
use crawlerv.Store.World.{Error, Result, ok, World, pure, ◌>>=◌, caught}
use crawlerv.Store.Laws.{Keeps, statement-Keeps}
use crawlerv.Chunker.Split.{Config}
use crawlerv.ProcessingRepo.Invariant.{Distinct}
use crawlerv.Repos.Extraction.{of_collection}
use crawlerv.Repos.CollectionConfig.{get, resolve_config, resolved}
use crawlerv.Services.Rechunk.Pages.{
  RechunkSvc, RechunkOpts, RechunkReport, Reads, query_collection, chosen, rechunk_config,
  empty_report, rechunk,
}
use crawlerv.Services.Rechunk.Page.{SameDocs, ids_of}
use crawlerv.Services.Rechunk.Selected.{selected}
use crawlerv.Services.Rechunk.Ends.{row_ids, pages_end}

get-Keeps : (name : Bytes) (docs : List ExtractedDocument) → Keeps (SameDocs docs) (get name)
unfolding get
get-Keeps name docs = statement-Keeps _ (λ d h. ground (arith, h))

-- The configuration is found whatever fails, and the documents stay.
config_found :
    (s : RechunkSvc) (coll : Bytes) (w : World)
    → (cfg : Config × Bool) × (v : World) × (rechunk_config s coll w ≡ (ok cfg, v))
      × SameDocs w.db.extracted_documents v.db
unfolding rechunk_config resolve_config bytes_eq caught pure ◌>>=◌
config_found s coll w = elim (Option-cases s.resolver) [
  | inl n ↦ ((s.defaults, false), w, rw n refl, refl)
  | inr (base, y) ↦ by_name coll base y
]
  where
    by_name :
        (name : Bytes) (base : Config)
        → s.resolver ≡ some base
        → (cfg : Config × Bool) × (v : World) × (rechunk_config s name w ≡ (ok cfg, v))
          × SameDocs w.db.extracted_documents v.db
    by_name [] base y = ((s.defaults, false), w, rw y refl, refl)
    by_name (b ∷ bs) base y = (
      chosen s.defaults (resolved base (get (b ∷ bs) w).0),
      (get (b ∷ bs) w).1,
      rw y refl,
      (get-Keeps (b ∷ bs) w.db.extracted_documents).apply w refl,
    )

-- How a run ends: with an error of a list of documents, or with every document in its report.
abbrev pub Rebuilt :
    Result (Option (RechunkReport × Option Error)) → List ExtractedDocument → Type 0
Rebuilt r rows =
    ((rep : RechunkReport) × (e : Error) × (r ≡ ok (some (rep, some e))))
    ⊎ ((rep : RechunkReport) × (r ≡ ok (some (rep, none))) × (ids_of rep ≡ row_ids rows))

-- A run over a named collection ends on fuel beyond the documents of the collection after
-- `since_doc_id`, if the ids of the documents are distinct, whatever statements and deletions of
-- points fail. Unless a list of documents has failed, the lines of its report are the documents of
-- the collection after `since_doc_id` in the order of their ids, each once, and at most `limit` of
-- them if that is positive.
pub rechunk_report :
    (s : RechunkSvc) (t : Reads) (f : ℕ) (c : ℕ) (cs : Bytes) (opts : RechunkOpts) (w : World)
    → Distinct (row_ids w.db.extracted_documents)
    → length (of_collection (query_collection (c ∷ cs)) opts.since_doc_id w.db.extracted_documents)
      < f
    → Rebuilt (rechunk s t f (c ∷ cs) opts w).0 (
        selected opts.limit
          (of_collection (query_collection (c ∷ cs)) opts.since_doc_id w.db.extracted_documents))
unfolding rechunk ◌>>=◌
rechunk_report s t f c cs opts w d lt =
    let coll = query_collection (c ∷ cs) in
    let (cfg, v, found, same) = config_found s coll w in
    let run =
      pages_end s t coll cfg.0 opts.dry_run f opts.since_doc_id opts.limit
        (empty_report (c ∷ cs) cfg opts.dry_run) v (subst (λ l. Distinct (row_ids l)) (sym same) d)
        (subst (λ l. length (of_collection coll opts.since_doc_id l) < f) (sym same) lt) in
    elim (Option-cases run.failure) [
      | inl n ↦ inr (
        run.report,
        rw found (ap (λ r. r.0) run.ends ∙ ap (λ e. ok (some (run.report, e))) n),
        run.complete n
            ∙ ap (λ l. row_ids (selected opts.limit (of_collection coll opts.since_doc_id l))) same,
      )
      | inr (e, y) ↦
          inl (
            run.report,
            e,
            rw found (ap (λ r. r.0) run.ends ∙ ap (λ x. ok (some (run.report, x))) y),
          )
    ]
