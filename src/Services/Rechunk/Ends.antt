-- ===== src/Services/Rechunk/Ends.antt =====
-- The loop over pages ends, and meets every document of the collection once.
use crawlerv.Prelude.{
  ℕ, zero, suc, ◌-◌, ◌<◌, ◌≤◌, ◌≡◌, refl, sym, subst, ap, ◌∙◌, inl, inr, Bool, true, false, Option,
  none, some, List, [], ◌∷◌, ◌++◌, map, append-nil, append_assoc, map-append, Bytes, arith, length,
  length-take, length-drop, length-map, take, drop, Bool-cases,
}
use crawlerv.Store.Rows.{ExtractedDocument}
use crawlerv.Store.World.{Db, Error, ok, err, World, pure, ◌>>=◌, caught}
use crawlerv.Chunker.Split.{Config}
use crawlerv.ProcessingRepo.Invariant.{Distinct}
use crawlerv.Repos.Extraction.{Document, map_extracted, of_collection, list_by_collection}
use crawlerv.Services.Rechunk.Pages.{
  RechunkSvc, RechunkReport, Reads, fetch_of, last_id, is_last, rechunk_pages,
}
use crawlerv.Services.Rechunk.Order.{last_row, of_collection-drop}
use crawlerv.Services.Rechunk.Page.{ids_of, docs_done, listed}
use crawlerv.Services.Rechunk.Selected.{selected, fetch_positive, last_page, next_page, last_id-map}

abbrev pub row_ids : List ExtractedDocument → List ℕ
row_ids = map λ (r : ExtractedDocument). r.id

ids_of_page :
    (rows : List ExtractedDocument)
    → map (λ (d : Document). d.id) (map map_extracted rows) ≡ row_ids rows
unfolding map_extracted
ids_of_page [] = refl
ids_of_page (r ∷ rows) = ap (◌∷◌ r.id) (ids_of_page rows)

selected_none :
    (limit : ℕ) (rows : List ExtractedDocument)
    → (n : ℕ) → 1 ≤ n
    → take n rows ≡ []
    → selected limit rows ≡ []
unfolding selected
selected_none zero [] n l h = refl
selected_none (suc limit) [] n l h = ground arith
selected_none limit (r ∷ rows) zero l h = absurd (omega (arith, l))
selected_none limit (r ∷ rows) (suc n) l h = ground arith

module _ (s : RechunkSvc) (t : Reads) (coll : Bytes) (cfg : Config) (dry_run : Bool) where
  -- How a run of the loop ends.
  pub record HasEnd (f since limit : ℕ) (rep : RechunkReport) (w : World) : Type 0 where
    pub report : RechunkReport
    pub failure : Option Error
    pub after : World
    pub ends :
        rechunk_pages s t coll cfg dry_run f since limit rep w
        ≡ (ok (some (report, failure)), after)
    pub complete :
        failure ≡ none
        → ids_of report
          ≡ ids_of rep
            ++ row_ids (selected limit (of_collection coll since w.db.extracted_documents))

  -- A round whose list failed, and one whose page is empty.
  failed_round :
      (f since limit : ℕ) (rep : RechunkReport) (w : World) (e : Error)
      → (list_by_collection coll since (fetch_of limit) w).0 ≡ err e
      → HasEnd (suc f) since limit rep w
  unfolding rechunk_pages caught pure ◌>>=◌
  failed_round f since limit rep w e p = record {
    report = rep;
    failure = some e;
    after = (list_by_collection coll since (fetch_of limit) w).1;
    ends = rw p refl;
    complete = λ h. ground arith;
  }

  empty_round :
      (f since limit : ℕ) (rep : RechunkReport) (w : World)
      → (list_by_collection coll since (fetch_of limit) w).0 ≡ ok []
      → take (fetch_of limit) (of_collection coll since w.db.extracted_documents) ≡ []
      → HasEnd (suc f) since limit rep w
  unfolding rechunk_pages caught pure ◌>>=◌
  empty_round f since limit rep w p none_left = record {
    report = rep;
    failure = none;
    after = (list_by_collection coll since (fetch_of limit) w).1;
    ends = rw p refl;
    complete = λ h.
        sym (append-nil (ids_of rep))
        ∙ ap (λ l. ids_of rep ++ row_ids l)
            (sym (selected_none limit _ _ (fetch_positive limit) none_left));
  }

  -- What the documents of a page come to, and the round after it.
  page_round :
      (f since limit : ℕ) (rep : RechunkReport) (w : World) (r : ExtractedDocument)
      (rs : List ExtractedDocument)
      → (list_by_collection coll since (fetch_of limit) w).0 ≡ ok (map map_extracted (r ∷ rs))
      → (list_by_collection coll since (fetch_of limit) w).1.db ≡ w.db
      → take (fetch_of limit) (of_collection coll since w.db.extracted_documents) ≡ r ∷ rs
      → Distinct (row_ids w.db.extracted_documents)
      → length (of_collection coll since w.db.extracted_documents) < suc f
      → ((since limit : ℕ) (rep : RechunkReport) (v : World)
          → Distinct (row_ids v.db.extracted_documents)
          → length (of_collection coll since v.db.extracted_documents) < f
          → HasEnd f since limit rep v)
      → HasEnd (suc f) since limit rep w
  unfolding rechunk_pages caught pure ◌>>=◌
  page_round f since limit rep w r rs p same page d lt next =
      let rows = of_collection coll since w.db.extracted_documents in
      let q = list_by_collection coll since (fetch_of limit) w in
      let (rep', v, done, ids, kept) =
        docs_done s t coll cfg dry_run (map map_extracted (r ∷ rs)) rep q.1 in
      let docs : v.db.extracted_documents ≡ w.db.extracted_documents =
        kept ∙ ap (λ (x : Db). x.extracted_documents) same in
      let size : length (map map_extracted (r ∷ rs)) ≡ length (take (fetch_of limit) rows) =
        length-map (r ∷ rs) map_extracted ∙ ap length (sym page) in
      let lines : ids_of rep' ≡ ids_of rep ++ row_ids (take (fetch_of limit) rows) =
        ids
        ∙ ap (λ l. ids_of rep ++ l) (ids_of_page (r ∷ rs))
        ∙ ap (λ l. ids_of rep ++ row_ids l) (sym page) in
      elim (Bool-cases (is_last limit (length (map map_extracted (r ∷ rs))))) [
        | inl y ↦ record {
          report = rep';
          failure = none;
          after = v;
          ends = rw (p, done, y) refl;
          complete = λ h.
              lines
              ∙ ap (λ l. ids_of rep ++ row_ids l)
                  (sym (last_page limit rows (subst (λ n. is_last limit n ≡ true) size y)));
        }
        | inr n ↦
            let since' = last_id since (map map_extracted (r ∷ rs)) in
            let limit' = limit - length (map map_extracted (r ∷ rs)) in
            let start : since' ≡ last_row since (take (fetch_of limit) rows) =
              last_id-map since (r ∷ rs) ∙ ap (last_row since) (sym page) in
            let rest : of_collection coll since' v.db.extracted_documents
                ≡ drop (fetch_of limit) rows =
              ap (of_collection coll since') docs
              ∙ ap (λ m. of_collection coll m w.db.extracted_documents) start
              ∙ of_collection-drop coll since (fetch_of limit) w.db.extracted_documents d in
            let shorter : length (of_collection coll since' v.db.extracted_documents) < f = omega (
              arith,
              ap length rest,
              length-drop (fetch_of limit) rows,
              fetch_positive limit,
              lt,
              length-take (fetch_of limit) rows,
              ap length page,
            ) in
            let tail =
              next since' limit' rep' v (subst (λ l. Distinct (row_ids l)) (sym docs) d) shorter in
            record {
              report = tail.report;
              failure = tail.failure;
              after = tail.after;
              ends = rw (p, done, n) tail.ends;
              complete = λ h.
                  tail.complete h
                  ∙ ap (λ l. ids_of rep' ++ row_ids (selected limit' l)) rest
                  ∙ ap (λ l. l ++ row_ids (selected limit' (drop (fetch_of limit) rows))) lines
                  ∙ append_assoc (ids_of rep) (row_ids (take (fetch_of limit) rows)) _
                  ∙ ap (λ l. ids_of rep ++ l)
                      (sym (
                        map-append (λ (x : ExtractedDocument). x.id) (take (fetch_of limit) rows)
                          _))
                  ∙ ap
                      (λ m.
                        ids_of rep
                        ++ row_ids (
                            take (fetch_of limit) rows
                            ++ selected (limit - m) (drop (fetch_of limit) rows)))
                      size
                  ∙ ap (λ l. ids_of rep ++ row_ids l)
                      (sym (next_page limit rows (subst (λ m. is_last limit m ≡ false) size n)));
            }
      ]

  -- The round after the list of its page is read.
  any_round :
      (f since limit : ℕ) (rep : RechunkReport) (w : World) (page : List ExtractedDocument)
      → take (fetch_of limit) (of_collection coll since w.db.extracted_documents) ≡ page
      → (list_by_collection coll since (fetch_of limit) w).0 ≡ ok (map map_extracted page)
      → (list_by_collection coll since (fetch_of limit) w).1.db ≡ w.db
      → Distinct (row_ids w.db.extracted_documents)
      → length (of_collection coll since w.db.extracted_documents) < suc f
      → ((since limit : ℕ) (rep : RechunkReport) (v : World)
          → Distinct (row_ids v.db.extracted_documents)
          → length (of_collection coll since v.db.extracted_documents) < f
          → HasEnd f since limit rep v)
      → HasEnd (suc f) since limit rep w
  any_round f since limit rep w [] page p same d lt next = empty_round f since limit rep w p page
  any_round f since limit rep w (r ∷ rs) page p same d lt next =
      page_round f since limit rep w r rs p same page d lt next

  pub pages_end :
      (f since limit : ℕ) (rep : RechunkReport) (w : World)
      → Distinct (row_ids w.db.extracted_documents)
      → length (of_collection coll since w.db.extracted_documents) < f
      → HasEnd f since limit rep w
  pages_end zero since limit rep w d lt = elim lt [ ]
  pages_end (suc f) since limit rep w d lt =
      let (same, r) = listed coll since limit w in
      elim r [
        | inl (e, p) ↦ failed_round f since limit rep w e p
        | inr p ↦
            any_round f since limit rep w _ refl p same d lt
              (λ since' limit' rep' v. pages_end f since' limit' rep' v)
      ]
