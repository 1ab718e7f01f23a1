-- ===== src/Store/World.antt =====
-- Statements on the database, and transactions. A list of faults tells which of the coming
-- statements the driver refuses (a lost connection, a busy lock, a failed commit): a theorem over
-- every list holds whatever fails, and when.
use crawlerv.Prelude.{ℕ, Bool, true, false, List, [], ◌∷◌}
use crawlerv.Store.Rows.{
  Domain, Frontier, ProcessingJob, DocumentChunk, LakeObject, ExtractedDocument, Collection,
  Capability, PipelineTrigger, WorkerRow,
}

pub record Db : Type 0 where
  pub domains : List Domain
  pub crawl_frontier : List Frontier
  pub processing_jobs : List ProcessingJob
  pub document_chunks : List DocumentChunk
  pub lake_objects : List LakeObject
  pub extracted_documents : List ExtractedDocument
  pub collections : List Collection
  pub capabilities : List Capability
  pub pipeline_triggers : List PipelineTrigger
  pub workers : List WorkerRow
  -- The AUTOINCREMENT counters.
  pub next_domain_id : ℕ
  pub next_job_id : ℕ
  pub next_lake_id : ℕ
  pub next_document_id : ℕ
  pub next_trigger_id : ℕ
  pub next_worker_id : ℕ

pub data Error : Type 0 where
  driver : Error  -- a statement or a commit failed
  record_not_found : Error  -- gorm.ErrRecordNotFound
  missing_where : Error  -- gorm.ErrMissingWhereClause
  lease_not_held : Error
  domain_not_found : Error
  unique_violation : Error
  bad_lease : Error  -- a token that the signer refuses
  collection_not_found : Error  -- chunking.ErrCollectionNotFound
  external : Error  -- a client or a library that the source calls failed
  refused : Error  -- a check of a service
  panic : Error  -- of the run time

pub data Result (A : Type 0) : Type 0 where
  ok : A → Result A
  err : Error → Result A

abbrev pub is_ok : {A : Type 0} → Result A → Bool
is_ok (ok a) = true
is_ok (err e) = false

pub record World : Type 0 where
  pub db : Db
  pub faults : List Bool

abbrev pub M : Type 0 → Type 0
M A = World → Result A × World

unfoldable pub pure : {A : Type 0} → A → M A
pure a w = (ok a, w)

unfoldable pub fail : {A : Type 0} → Error → M A
fail e w = (err e, w)

abbrev pub continue : {A B : Type 0} → Result A × World → (A → M B) → Result B × World
continue (ok a, w) f = f a w
continue (err e, w) f = (err e, w)

infixl 5 ◌>>=◌ ◌>>◌
unfoldable pub ◌>>=◌ : {A B : Type 0} → M A → (A → M B) → M B
◌>>=◌ m f w = continue (m w) f

abbrev pub ◌>>◌ : {A B : Type 0} → M A → M B → M B
m >> k = m >>= λ _. k

-- An error that the code looks at, drops or logs, and goes on.
unfoldable pub caught : {A : Type 0} → M A → M (Result A)
caught m w = (ok (m w).0, (m w).1)

abbrev pub finish : {A : Type 0} → Result A × Db → List Bool → Result A × World
finish (r, d) faults = (r, record { db = d; faults = faults })

abbrev pub attempt : {A : Type 0} → List Bool → (Db → Result A × Db) → Db → Result A × World
attempt [] f d = finish (f d) []
attempt (true ∷ rest) f d = (err driver, record { db = d; faults = rest })
attempt (false ∷ rest) f d = finish (f d) rest

-- One statement, committed by itself.
unfoldable pub statement : {A : Type 0} → (Db → Result A × Db) → M A
statement f w = attempt w.faults f w.db

-- A statement that reads, and one that writes and cannot be refused by a constraint.
unfoldable pub query : {A : Type 0} → (Db → A) → M A
unfolding statement
query f = statement (λ d. (ok (f d), d))

unfoldable pub execute : {A : Type 0} → (Db → A × Db) → M A
unfolding statement
execute f = statement (λ d. (ok (f d).0, (f d).1))

abbrev pub settle : {A : Type 0} → Db → Result A × World → Result A × World
settle d (ok a, w) = (ok a, w)
settle d (err e, w) = (err e, record w { db = d })

-- The start and the end of a transaction can fail like any statement.
unfoldable pub begin : M (Unit {0})
begin = query (λ _. tt)

unfoldable pub commit : M (Unit {0})
commit = query (λ _. tt)

-- rwdb.WriteTX: begin, the callback, commit; an error of any of them rolls back.
unfoldable pub write_tx : {A : Type 0} → M A → M A
unfolding begin commit
write_tx {A} m w = settle w.db (bracketed w)
  where
    bracketed : M A
    bracketed = do begin; a ← m; commit; pure a
