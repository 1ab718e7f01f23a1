-- ===== src/FrontierRepo/Invariant.antt =====
-- What holds of the crawl queue between two calls, whatever calls were made and whichever failed.
use crawlerv.Prelude.{
  ℕ, ◌≡◌, refl, sym, subst, ◌||◌, Bool, true, false, none, List, [], ◌∷◌, ◌++◌, map, map-append,
  Bytes, bytes_eq, contains, arith, is_some, All, All-append, Option-cases, inl, inr,
}
use crawlerv.Store.Rows.{leased, Frontier, status_eq}
use crawlerv.Store.Sql.{first, update, All-update, map-update}
use crawlerv.Store.World.{Db}
use crawlerv.FrontierRepo.Types.{Job}
use crawlerv.FrontierRepo.Queue.{has_hash, new_row, first_or_create}

-- A row has a token, a holder and an expiry exactly while it is leased.
pub record IsConsistent (r : Frontier) : Type 0 where
  pub token : is_some r.lease_token ≡ status_eq r.status leased
  pub holder : is_some r.leased_by_worker_id ≡ status_eq r.status leased
  pub expiry : is_some r.lease_expires_at ≡ status_eq r.status leased

abbrev pub Distinct : List Bytes → Type 0
Distinct [] = Unit {0}
Distinct (k ∷ ks) = (contains ks k ≡ false) × Distinct ks

abbrev pub hashes : List Frontier → List Bytes
hashes = map λ r. r.url_hash

-- The primary key, and the lease columns of every row.
pub record IsSound (rows : List Frontier) : Type 0 where
  pub keys : Distinct (hashes rows)
  pub leases : All IsConsistent rows

abbrev pub Inv : Db → Type 0
Inv d = IsSound d.crawl_frontier

contains-append :
    (xs ys : List Bytes) (k : Bytes) → contains (xs ++ ys) k ≡ (contains xs k || contains ys k)
unfolding contains
contains-append [] ys k = refl
contains-append (x ∷ xs) ys k = ground (arith, contains-append xs ys k)

pub bytes_eq_comm : (a b : Bytes) → bytes_eq a b ≡ bytes_eq b a
unfolding bytes_eq
bytes_eq_comm [] [] = refl
bytes_eq_comm [] (b ∷ bs) = refl
bytes_eq_comm (a ∷ as') [] = refl
bytes_eq_comm (a ∷ as') (b ∷ bs) = ground (arith, bytes_eq_comm as' bs)

Distinct-append_one :
    (ks : List Bytes) (k : Bytes) → Distinct ks → contains ks k ≡ false → Distinct (ks ++ k ∷ [])
unfolding contains
Distinct-append_one [] k d h = (refl, tt)
Distinct-append_one (x ∷ ks) k d h = (
  ground (arith, contains-append ks (k ∷ []) x, bytes_eq_comm x k),
  Distinct-append_one ks k d.1 (ground arith),
)

contains_of_first :
    (rows : List Frontier) (h : Bytes)
    → first (has_hash h) rows ≡ none
    → contains (hashes rows) h ≡ false
unfolding first contains
contains_of_first [] h e = refl
contains_of_first (r ∷ rows) h e = ground (arith, contains_of_first rows h)

-- An UPDATE that leaves the key alone and keeps the lease columns consistent.
pub update-IsSound :
    (test : Frontier → Bool) (set : Frontier → Frontier)
    → ((r : Frontier) → (set r).url_hash ≡ r.url_hash)
    → ((r : Frontier) → test r ≡ true → IsConsistent r → IsConsistent (set r))
    → (rows : List Frontier) → IsSound rows
    → IsSound (update test set rows)
update-IsSound test set same keep rows s = record {
  keys = subst Distinct (sym (map-update (λ r. r.url_hash) test set same rows)) s.keys;
  leases = All-update IsConsistent test set keep rows s.leases;
}

pub create-IsSound :
    (m : Frontier) → IsConsistent m → (d : Db) → Inv d → Inv (first_or_create m d).1
unfolding first_or_create
create-IsSound m c d s = elim (Option-cases (first (has_hash m.url_hash) d.crawl_frontier)) [
  | inl e ↦
      rw (e, first_or_create)
        (record {
          keys =
              rw (map-append (λ (r : Frontier). r.url_hash) d.crawl_frontier (m ∷ []))
                (Distinct-append_one _ _ s.keys (contains_of_first _ _ e));
          leases = All-append IsConsistent d.crawl_frontier (m ∷ []) s.leases (c, tt);
        })
  | inr (r, e) ↦ rw (e, first_or_create) s
]

pub new_row-IsConsistent : (now : ℕ) (j : Job) → IsConsistent (new_row now j)
unfolding new_row
new_row-IsConsistent now j = record { token = refl; holder = refl; expiry = refl }
