-- ===== src/Repos/Extraction.antt =====
-- ExtractionRepo (internal/infra/db/gormrepo/extraction_repo.go) and
-- internal/domain/extraction/document.go.
use crawlerv.Prelude.{
  ℕ, suc, Bool, ◌&&◌, Option, none, some, List, [], ◌∷◌, ◌++◌, map, Bytes, bytes_eq, ltb, leb, ◌==◌,
  if◌then◌else◌, take,
}
use crawlerv.Store.Rows.{ExtractedDocument}
use crawlerv.Store.Sql.{first, select, update, sort_by}
use crawlerv.Store.World.{M, ◌>>=◌, query, execute, write_tx}
use crawlerv.FrontierRepo.Domains.{text_or_empty, null_if_empty}

pub record Document : Type 0 where
  pub id : ℕ
  pub source_lake_object_id : ℕ
  pub text : Bytes
  pub language : Bytes
  pub page_count : ℕ
  pub collection : Bytes
  pub extracted_at : ℕ

abbrev pub has_source : ℕ → ExtractedDocument → Bool
has_source lake_id r = r.source_lake_object_id == lake_id

abbrev pub null_if_zero : ℕ → Option ℕ
null_if_zero n = if ltb 0 n then some n else none

unfoldable pub new_row : ℕ → Document → ℕ → ExtractedDocument
new_row now x id = record {
  id = id;
  source_lake_object_id = x.source_lake_object_id;
  text = x.text;
  language = null_if_empty x.language;
  page_count = null_if_zero x.page_count;
  extracted_at = now;
  collection = null_if_empty x.collection;
}

unfoldable pub create : ℕ → Document → M ℕ
unfolding new_row
create now x = execute λ d. (
  d.next_document_id,
  record d {
    extracted_documents = d.extracted_documents ++ new_row now x d.next_document_id ∷ [];
    next_document_id = suc d.next_document_id;
  },
)

abbrev pub or_old {ℓ} : {A : Type ℓ} → Option A → Option A → Option A
or_old none old = old
or_old (some a) old = some a

-- An empty language or collection, and a page count of 0, leave the column as it is.
unfoldable pub replaced : ℕ → Document → ExtractedDocument → ExtractedDocument
replaced now x r = record r {
  text = x.text;
  extracted_at = now;
  language = or_old (null_if_empty x.language) r.language;
  page_count = or_old (null_if_zero x.page_count) r.page_count;
  collection = or_old (null_if_empty x.collection) r.collection;
}

unfoldable pub rewrite : ℕ → Document → ℕ → M ℕ
unfolding replaced
rewrite now x id = execute λ d. (
  id,
  record d {
    extracted_documents =
        update (λ (r : ExtractedDocument). r.id == id) (replaced now x) d.extracted_documents;
  },
)

-- The callback, from the row that it has read.
unfoldable pub create_or_rewrite : ℕ → Document → Option ExtractedDocument → M ℕ
unfolding create rewrite
create_or_rewrite now x none = create now x
create_or_rewrite now x (some m) = rewrite now x m.id

unfoldable pub upsert : ℕ → Document → M ℕ
unfolding create_or_rewrite
upsert now x = write_tx do
  found ← query (λ d. first (has_source x.source_lake_object_id) d.extracted_documents)
  create_or_rewrite now x found

unfoldable pub map_extracted : ExtractedDocument → Document
map_extracted m = record {
  id = m.id;
  source_lake_object_id = m.source_lake_object_id;
  text = m.text;
  language = text_or_empty m.language;
  page_count = elim m.page_count [ none ↦ 0 | some n ↦ n ];
  collection = text_or_empty m.collection;
  extracted_at = m.extracted_at;
}

unfoldable pub get_by_id : ℕ → M (Option Document)
unfolding map_extracted
get_by_id id = query λ d.
    elim (first (λ (r : ExtractedDocument). r.id == id) d.extracted_documents) [
      | none ↦ none
      | some m ↦ some (map_extracted m)
    ]

unfoldable pub list_since : ℕ → ℕ → M (List Document)
unfolding map_extracted
list_since since limit = query λ d. map map_extracted (
    take (if leb limit 0 then 100 else limit)
      (sort_by (λ r. r.id) (select (λ r. ltb since r.id) d.extracted_documents)))

-- `collection IS NULL OR collection = ''` for the empty name.
unfoldable pub is_of : Bytes → ExtractedDocument → Bool
is_of collection r = elim r.collection [
  | none ↦ bytes_eq collection []
  | some c ↦ bytes_eq c collection
]

unfoldable pub of_collection : Bytes → ℕ → List ExtractedDocument → List ExtractedDocument
unfolding is_of
of_collection collection since rows =
    sort_by (λ r. r.id) (select (λ r. ltb since r.id && is_of collection r) rows)

unfoldable pub list_by_collection : Bytes → ℕ → ℕ → M (List Document)
unfolding of_collection map_extracted
list_by_collection collection since limit = query λ d.
    let rows = of_collection collection since d.extracted_documents in
    map map_extracted (if ltb 0 limit then take limit rows else rows)

-- Unlike the other readers, this one leaves the collection empty.
unfoldable pub get_by_source : ℕ → M (Option Document)
unfolding map_extracted
get_by_source lake_id = query λ d. elim (first (has_source lake_id) d.extracted_documents) [
  | none ↦ none
  | some m ↦ some (record (map_extracted m) { collection = [] })
]
