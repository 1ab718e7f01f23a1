-- ===== src/ChunkRepo/Replaced.antt =====
-- ReplaceByDocument, when it succeeds.
use crawlerv.Prelude.{
  ℕ, ◌≡◌, refl, ap, ◌∙◌, Option, none, some, List, [], ◌∷◌, ◌++◌, map, Bytes, arith, All, ◌==◌,
  Bool-cases, inl, inr,
}
use mathlib.Core.List.{Permᴰ}
use crawlerv.Store.Rows.{EmbedStatus, DocumentChunk}
use crawlerv.Store.Sorted.{Sorted, sort_by-perm, sort_by-Sorted}
use crawlerv.Store.Sql.{select, delete, sort_by}
use crawlerv.Store.World.{Db, ok, World, pure}
use crawlerv.Store.Laws.{statement-ok, execute-ok, query-ok, >>=-ok, write_tx-ok}
use crawlerv.ChunkRepo.Types.{Chunk}
use crawlerv.ChunkRepo.Rows.{
  new_row, key, is_taken, insert_rows, inserted_db, create_rows, of_document, old_ids,
  delete_document, insert_fresh, replace_by_document,
}

insert_rows-append :
    (ms rows out : List DocumentChunk) → insert_rows ms rows ≡ some out → out ≡ rows ++ ms
unfolding insert_rows
insert_rows-append [] rows out h = ground (arith, append_nil rows)
  where
    append_nil : (xs : List DocumentChunk) → xs ++ [] ≡ xs
    append_nil [] = refl
    append_nil (x ∷ xs) = ground (arith, append_nil xs)
insert_rows-append (m ∷ ms) rows out h = elim (Bool-cases (is_taken (map key rows) (key m))) [
  | inl e ↦ ground (arith, e)
  | inr e ↦ insert_rows-append ms (rows ++ m ∷ []) out (ground (arith, e)) ∙ assoc rows
]
  where
    assoc : (xs : List DocumentChunk) → (xs ++ m ∷ []) ++ ms ≡ xs ++ m ∷ ms
    assoc [] = refl
    assoc (x ∷ xs) = ground (arith, assoc xs)

insert_fresh-ok :
    (now : ℕ) (fresh : List Chunk) (v v' : World)
    → insert_fresh now fresh v ≡ (ok tt, v')
    → v'.db.document_chunks ≡ v.db.document_chunks ++ map (new_row now) fresh
unfolding insert_fresh create_rows pure
insert_fresh-ok now [] v v' h = ground (arith, append_nil v.db.document_chunks)
  where
    append_nil : (xs : List DocumentChunk) → xs ++ [] ≡ xs
    append_nil [] = refl
    append_nil (x ∷ xs) = ground (arith, append_nil xs)
insert_fresh-ok now (c ∷ cs) v v' h = run _ refl (statement-ok _ v h)
  where
    run :
        (o : Option (List DocumentChunk))
        → insert_rows (map (new_row now) (c ∷ cs)) v.db.document_chunks ≡ o
        → inserted_db v.db o ≡ (ok tt, v'.db)
        → v'.db.document_chunks ≡ v.db.document_chunks ++ map (new_row now) (c ∷ cs)
    run none e k = ground arith
    run (some rows) e k =
        ground
          (arith, k, insert_rows-append (map (new_row now) (c ∷ cs)) v.db.document_chunks rows e)

module _ (doc : ℕ) where
  select_deleted :
      (rows : List DocumentChunk) → select (of_document doc) (delete (of_document doc) rows) ≡ []
  unfolding select delete
  select_deleted [] = refl
  select_deleted (r ∷ rows) = ground (arith, select_deleted rows)

  select_fresh :
      (now : ℕ) (rows : List DocumentChunk) (fresh : List Chunk)
      → All (λ c. c.document_id ≡ doc) fresh
      → select (of_document doc) rows ≡ []
      → select (of_document doc) (rows ++ map (new_row now) fresh) ≡ map (new_row now) fresh
  unfolding select new_row
  select_fresh now [] [] a h = refl
  select_fresh now [] (c ∷ cs) a h = ground (arith, a.0, select_fresh now [] cs a.1 refl)
  select_fresh now (r ∷ rows) fresh a h = ground (arith, h, select_fresh now rows fresh a)

-- The row of a fresh chunk: its text and its place, waiting for an embedding, without a lease.
pub record IsPending (now : ℕ) (c : Chunk) (r : DocumentChunk) : Type 0 where
  pub id : r.id ≡ c.id
  pub document_id : r.document_id ≡ c.document_id
  pub chunk_index : r.chunk_index ≡ c.chunk_index
  pub text : r.text ≡ c.text
  pub token_count : r.token_count ≡ c.token_count
  pub status : r.embed_status ≡ EmbedStatus.pending
  pub vector_id : r.vector_id ≡ none
  pub holder : r.leased_by_worker_id ≡ none
  pub token : r.lease_token ≡ none
  pub expiry : r.lease_expires_at ≡ none
  pub attempts : r.attempt_count ≡ 0
  pub created_at : r.created_at ≡ now

abbrev pub ArePending : ℕ → List Chunk → List DocumentChunk → Type 0
ArePending now [] [] = Unit {0}
ArePending now (c ∷ cs) (r ∷ rs) = IsPending now c r × ArePending now cs rs
ArePending now _ _ = ⊥

new_rows-ArePending : (now : ℕ) (cs : List Chunk) → ArePending now cs (map (new_row now) cs)
unfolding new_row
new_rows-ArePending now [] = tt
new_rows-ArePending now (c ∷ cs) = (
  record {
    id = refl;
    document_id = refl;
    chunk_index = refl;
    text = refl;
    token_count = refl;
    status = refl;
    vector_id = refl;
    holder = refl;
    token = refl;
    expiry = refl;
    attempts = refl;
    created_at = refl;
  },
  new_rows-ArePending now cs,
)

-- The rows of the document in a table, in the order of their chunk indices.
pub record IsListing (doc : ℕ) (table olds : List DocumentChunk) : Type 0 where
  pub rows : Permᴰ (select (λ (r : DocumentChunk). r.document_id == doc) table) olds
  pub order : Sorted (λ (r : DocumentChunk). r.chunk_index) olds

old_ids-IsListing :
    (doc : ℕ) (d : Db)
    → (olds : List DocumentChunk) × IsListing doc d.document_chunks olds
      × (old_ids doc d ≡ map (λ r. r.id) olds)
unfolding old_ids
old_ids-IsListing doc d = (
  sort_by (λ (r : DocumentChunk). r.chunk_index) (select (of_document doc) d.document_chunks),
  record { rows = sort_by-perm _ _; order = sort_by-Sorted _ _ },
  refl,
)

replaced :
    (now doc : ℕ) (fresh : List Chunk) (w w' : World) (ids : List Bytes)
    → replace_by_document now doc fresh w ≡ (ok ids, w')
    → (ids ≡ old_ids doc w.db)
      × (w'.db.document_chunks
          ≡ delete (of_document doc) w.db.document_chunks ++ map (new_row now) fresh)
unfolding replace_by_document delete_document pure
replaced now doc fresh w w' ids h =
    let tx = write_tx-ok _ w h in
    let listed = >>=-ok _ _ tx.0 tx.3 in
    let emptied = >>=-ok _ _ listed.1 listed.3 in
    let filled = >>=-ok _ _ emptied.1 emptied.3 in
    let q = query-ok _ tx.0 listed.2 in
    let d = execute-ok _ listed.1 emptied.2 in
    let f = insert_fresh-ok now fresh emptied.1 filled.1 filled.2 in
    (cc (q.0, tx.2, filled.3), cc (q.1, d, f, filled.3, tx.2, tx.4))

-- A replacement that succeeds returns the ids of the chunks that the document had, by chunk index.
-- The table then holds the rows of the other documents, followed by one row for each fresh chunk, in
-- their order, with the chunk's own text and place, pending and without a lease. If the fresh chunks
-- name the document, these rows are all that it has.
pub replace_effect :
    (now doc : ℕ) (fresh : List Chunk) (w w' : World) (ids : List Bytes)
    → replace_by_document now doc fresh w ≡ (ok ids, w')
    → All (λ c. c.document_id ≡ doc) fresh
    → ((olds : List DocumentChunk) × IsListing doc w.db.document_chunks olds
        × (ids ≡ map (λ r. r.id) olds))
      × ((rows : List DocumentChunk) × ArePending now fresh rows
          × (w'.db.document_chunks
              ≡ delete (λ (r : DocumentChunk). r.document_id == doc) w.db.document_chunks ++ rows)
          × (select (λ (r : DocumentChunk). r.document_id == doc) w'.db.document_chunks ≡ rows))
replace_effect now doc fresh w w' ids h a =
    let (listed, table) = replaced now doc fresh w w' ids h in
    let (olds, listing, named) = old_ids-IsListing doc w.db in
    (
      (olds, listing, listed ∙ named),
      (
        map (new_row now) fresh,
        new_rows-ArePending now fresh,
        table,
        ap (select (of_document doc)) table ∙ select_fresh doc now _ fresh a (select_deleted doc _),
      ),
    )
