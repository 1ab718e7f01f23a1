-- ===== src/Services/Fts.antt =====
-- FTSSvc (internal/app/fts.go) over the clients of the text rewriter and of the text index.
use crawlerv.Prelude.{ℕ, Bool, Option, none, some, [], ◌∷◌, List, Bytes, bytes_eq, if◌then◌else◌}

pub record Doc : Type 0 where
  pub document_id : ℕ
  pub lake_object_id : ℕ
  pub collection : Bytes
  pub text : Bytes

-- The index: a query gives hits, or an error.
pub record Quickwit (Hit : Type 0) : Type 0 where
  pub enabled : Bool
  pub search : Bytes → Bytes → ℕ → Option (List Hit)

-- `rewrite` is none if the rewriter fails.
pub record FtsSvc (Hit : Type 0) : Type 0 where
  pub rewrite : Bytes → Option Bytes
  pub quickwit : Option (Quickwit Hit)
  pub index : Bytes

module _ {Hit : Type 0} (f : FtsSvc Hit) where
  -- The client, if it is there and enabled.
  abbrev pub enabled : Option (Quickwit Hit)
  enabled = elim f.quickwit [ none ↦ none | some q ↦ if q.enabled then some q else none ]

  -- The raw text if the rewriter fails.
  abbrev pub rewritten : Bytes → Bytes
  rewritten raw = elim (f.rewrite raw) [ none ↦ raw | some r ↦ r ]

  -- The index and the document that are pushed, if any; an error of the push is only logged.
  unfoldable pub on_extracted : ℕ → ℕ → Bytes → Bytes → Option (Bytes × Doc)
  on_extracted doc lake collection text = elim enabled [
    | none ↦ none
    | some q ↦
        if bytes_eq text []
        then none
        else some (
          f.index,
          record {
            document_id = doc;
            lake_object_id = lake;
            collection = collection;
            text = rewritten text;
          },
        )
  ]

  abbrev pub index_or_default : Bytes → Bytes
  index_or_default [] = f.index
  index_or_default (b ∷ bs) = b ∷ bs

  -- The client, the index and the text that are asked; `none` is an error before the search.
  unfoldable pub search_by_text : Bytes → Bytes → ℕ → Option (List Hit)
  search_by_text index query limit = elim enabled [
    | none ↦ none
    | some q ↦
        if bytes_eq (index_or_default index) []
        then none
        else q.search (index_or_default index) (rewritten query) limit
  ]
