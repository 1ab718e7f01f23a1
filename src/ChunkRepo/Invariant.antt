-- ===== src/ChunkRepo/Invariant.antt =====
-- What holds of the chunks between two calls, whatever calls were made and whichever failed.
use crawlerv.Prelude.{
  ◌≡◌, refl, ◌||◌, Bool, true, false, some, List, [], ◌∷◌, ◌++◌, map, map-append, Bytes, bytes_eq,
  arith, is_some, if◌then◌else◌, All, All-append, Bool-cases, inl, inr,
}
use crawlerv.Store.Rows.{EmbedStatus, DocumentChunk, embed_status_eq}
use crawlerv.Store.Sql.{delete, All-delete}
use crawlerv.Store.World.{Db}
use crawlerv.ChunkRepo.Rows.{Key, key, clash, is_taken, insert_rows}

-- A chunk has a token, a holder and an expiry exactly while it is leased.
pub record IsConsistent (r : DocumentChunk) : Type 0 where
  pub token : is_some r.lease_token ≡ embed_status_eq r.embed_status EmbedStatus.leased
  pub holder : is_some r.leased_by_worker_id ≡ embed_status_eq r.embed_status EmbedStatus.leased
  pub expiry : is_some r.lease_expires_at ≡ embed_status_eq r.embed_status EmbedStatus.leased

abbrev pub Distinct : List Key → Type 0
Distinct [] = Unit {0}
Distinct (k ∷ ks) = (is_taken ks k ≡ false) × Distinct ks

abbrev pub keys_of : List DocumentChunk → List Key
keys_of = map key

-- The primary key, UNIQUE(document_id, chunk_index), and the lease columns.
pub record IsSound (rows : List DocumentChunk) : Type 0 where
  pub keys : Distinct (keys_of rows)
  pub leases : All IsConsistent rows

abbrev pub Inv : Db → Type 0
Inv d = IsSound d.document_chunks

bytes_eq_comm : (a b : Bytes) → bytes_eq a b ≡ bytes_eq b a
unfolding bytes_eq
bytes_eq_comm [] [] = refl
bytes_eq_comm [] (b ∷ bs) = refl
bytes_eq_comm (a ∷ as') [] = refl
bytes_eq_comm (a ∷ as') (b ∷ bs) = ground (arith, bytes_eq_comm as' bs)

clash_comm : (a b : Key) → clash a b ≡ clash b a
unfolding clash
clash_comm a b = ground (arith, bytes_eq_comm a.0 b.0)

is_taken-append_one :
    (ks : List Key) (k x : Key) → is_taken (ks ++ k ∷ []) x ≡ (is_taken ks x || clash k x)
unfolding is_taken
is_taken-append_one [] k x = ground arith
is_taken-append_one (y ∷ ks) k x = ground (arith, is_taken-append_one ks k x)

Distinct-append_one :
    (ks : List Key) (k : Key) → Distinct ks → is_taken ks k ≡ false → Distinct (ks ++ k ∷ [])
unfolding is_taken
Distinct-append_one [] k d h = (refl, tt)
Distinct-append_one (x ∷ ks) k d h = (
  ground (arith, is_taken-append_one ks k x, clash_comm k x),
  Distinct-append_one ks k d.1 (ground arith),
)

is_taken-delete :
    (test : DocumentChunk → Bool) (rows : List DocumentChunk) (k : Key)
    → is_taken (keys_of rows) k ≡ false
    → is_taken (keys_of (delete test rows)) k ≡ false
unfolding is_taken delete
is_taken-delete test [] k h = h
is_taken-delete test (r ∷ rows) k h = elim (Bool-cases (test r)) [
  | inl e ↦ ground (arith, e, is_taken-delete test rows k)
  | inr e ↦ ground (arith, e, is_taken-delete test rows k)
]

Distinct-delete :
    (test : DocumentChunk → Bool) (rows : List DocumentChunk)
    → Distinct (keys_of rows)
    → Distinct (keys_of (delete test rows))
unfolding delete
Distinct-delete test [] d = d
Distinct-delete test (r ∷ rows) d = pass (test r) (Distinct-delete test rows d.1)
  where
    pass :
        (b : Bool)
        → Distinct (keys_of (delete test rows))
        → Distinct (keys_of (if b then delete test rows else r ∷ delete test rows))
    pass true ih = ih
    pass false ih = (is_taken-delete test rows (key r) d.0, ih)

pub delete-IsSound :
    (test : DocumentChunk → Bool) (rows : List DocumentChunk)
    → IsSound rows
    → IsSound (delete test rows)
delete-IsSound test rows s = record {
  keys = Distinct-delete test rows s.keys;
  leases = All-delete IsConsistent test rows s.leases;
}

append-IsSound :
    (rows : List DocumentChunk) (m : DocumentChunk)
    → IsSound rows
    → IsConsistent m
    → is_taken (keys_of rows) (key m) ≡ false
    → IsSound (rows ++ m ∷ [])
append-IsSound rows m s c h = record {
  keys = rw (map-append key rows (m ∷ [])) (Distinct-append_one _ _ s.keys h);
  leases = All-append IsConsistent rows (m ∷ []) s.leases (c, tt);
}

pub insert_rows-IsSound :
    (ms rows out : List DocumentChunk)
    → All IsConsistent ms
    → IsSound rows
    → insert_rows ms rows ≡ some out
    → IsSound out
unfolding insert_rows
insert_rows-IsSound [] rows out c s h = ground (arith, s)
insert_rows-IsSound (m ∷ ms) rows out c s h = elim (Bool-cases (is_taken (keys_of rows) (key m))) [
  | inl e ↦ ground (arith, e)
  | inr e ↦
      insert_rows-IsSound ms (rows ++ m ∷ []) out c.1 (append-IsSound rows m s c.0 e)
        (ground (arith, e))
]
