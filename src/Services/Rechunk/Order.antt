-- ===== src/Services/Rechunk/Order.antt =====
-- A table's rows in the order of their ids, after an id: what a page takes, and what remains.
use crawlerv.Prelude.{
  ℕ, zero, suc, ◌≤◌, ◌<◌, ◌≡◌, refl, sym, ◌∙◌, ◌&&◌, Bool, true, false, List, [], ◌∷◌, map, Bytes,
  arith, ◌==◌, ltb, leb, if◌then◌else◌, take, drop, All, Bool-cases, inl, inr,
}
use crawlerv.Store.Rows.{ExtractedDocument}
use crawlerv.Store.Sql.{select, insert_by, sort_by, All-select_of, All-sort_by}
use crawlerv.ProcessingRepo.Invariant.{among, Distinct}
use crawlerv.Repos.Extraction.{is_of, of_collection}

abbrev id_of : ExtractedDocument → ℕ
id_of r = r.id

-- Strictly ascending, above a bound.
abbrev pub Rising : ℕ → List ExtractedDocument → Type 0
Rising lo [] = Unit {0}
Rising lo (r ∷ rows) = (lo < r.id) × Rising r.id rows

insert-Rising :
    (lo : ℕ) (x : ExtractedDocument) (rows : List ExtractedDocument)
    → lo < x.id
    → All (λ r. (r.id == x.id) ≡ false) rows
    → Rising lo rows
    → Rising lo (insert_by id_of x rows)
unfolding insert_by
insert-Rising lo x [] l a h = (l, tt)
insert-Rising lo x (r ∷ rows) l a h = elim (Bool-cases (leb x.id r.id)) [
  | inl y ↦ rw y (l, (ground (arith, a.0), h.1))
  | inr n ↦ rw n (h.0, insert-Rising r.id x rows (ground arith) a.1 h.1)
]

distinct_head :
    (rows : List ExtractedDocument) (n : ℕ)
    → among (map id_of rows) n ≡ false
    → All (λ r. (r.id == n) ≡ false) rows
distinct_head [] n h = tt
distinct_head (r ∷ rows) n h = (ground arith, distinct_head rows n (ground arith))

sorted-Rising :
    (lo : ℕ) (test : ExtractedDocument → Bool) (rows : List ExtractedDocument)
    → ((r : ExtractedDocument) → test r ≡ true → lo < r.id)
    → Distinct (map id_of rows)
    → Rising lo (sort_by id_of (select test rows))
unfolding select sort_by
sorted-Rising lo test [] above d = tt
sorted-Rising lo test (r ∷ rows) above d = elim (Bool-cases (test r)) [
  | inl y ↦ rw y (
      insert-Rising lo r _ (above r y)
        (All-sort_by _ id_of _ (All-select_of _ test rows (distinct_head rows r.id d.0)))
        (sorted-Rising lo test rows above d.1))
  | inr n ↦ rw n (sorted-Rising lo test rows above d.1)
]

-- A later bound selects from the sorted rows what it selects from the table.
select-insert :
    (m : ℕ) (x : ExtractedDocument) (rows : List ExtractedDocument)
    → select (λ r. ltb m r.id) (insert_by id_of x rows) ≡ (
        if ltb m x.id
        then insert_by id_of x (select (λ r. ltb m r.id) rows)
        else select (λ r. ltb m r.id) rows)
unfolding select insert_by
select-insert m x [] = ground arith
select-insert m x (r ∷ rows) = ground (arith, select-insert m x rows)

select-sort :
    (m lo : ℕ) (of : ExtractedDocument → Bool) (rows : List ExtractedDocument)
    → lo ≤ m
    → select (λ r. ltb m r.id) (sort_by id_of (select (λ r. ltb lo r.id && of r) rows))
      ≡ sort_by id_of (select (λ r. ltb m r.id && of r) rows)
unfolding select sort_by
select-sort m lo of [] l = refl
select-sort m lo of (r ∷ rows) l = ground (
  arith,
  select-sort m lo of rows l,
  select-insert m r (sort_by id_of (select (λ x. ltb lo x.id && of x) rows)),
)

-- The last id of a page.
abbrev pub last_row : ℕ → List ExtractedDocument → ℕ
last_row lo [] = lo
last_row lo (r ∷ rows) = last_row r.id rows

pub last_row-le :
    (n lo : ℕ) (rows : List ExtractedDocument) → Rising lo rows → lo ≤ last_row lo (take n rows)
last_row-le zero lo rows h = omega arith
last_row-le (suc n) lo [] h = omega arith
last_row-le (suc n) lo (r ∷ rows) h = omega (arith, h.0, last_row-le n r.id rows h.1)

all_above :
    (lo : ℕ) (rows : List ExtractedDocument)
    → Rising lo rows
    → select (λ r. ltb lo r.id) rows ≡ rows
unfolding select
all_above lo [] h = refl
all_above lo (r ∷ rows) h = ground (arith, all_above lo rows (lower lo r.id rows h.0 h.1))
  where
    lower : (a b : ℕ) (xs : List ExtractedDocument) → a < b → Rising b xs → Rising a xs
    lower a b [] l k = tt
    lower a b (x ∷ xs) l k = (omega (arith, l, k.0), k.1)

rest_of_page :
    (n lo : ℕ) (rows : List ExtractedDocument)
    → Rising lo rows
    → select (λ r. ltb (last_row lo (take n rows)) r.id) rows ≡ drop n rows
unfolding select
rest_of_page zero lo rows h = all_above lo rows h
rest_of_page (suc n) lo [] h = refl
rest_of_page (suc n) lo (r ∷ rows) h =
    ground (arith, last_row-le n r.id rows h.1, rest_of_page n r.id rows h.1)

pub of_collection-Rising :
    (c : Bytes) (lo : ℕ) (rows : List ExtractedDocument)
    → Distinct (map id_of rows)
    → Rising lo (of_collection c lo rows)
unfolding of_collection
of_collection-Rising c lo rows d = sorted-Rising lo _ rows (λ r h. ground arith) d

-- After a page, the same query continues where the page ended.
pub of_collection-drop :
    (c : Bytes) (lo n : ℕ) (rows : List ExtractedDocument)
    → Distinct (map id_of rows)
    → of_collection c (last_row lo (take n (of_collection c lo rows))) rows
      ≡ drop n (of_collection c lo rows)
unfolding of_collection
of_collection-drop c lo n rows d =
    let up = of_collection-Rising c lo rows d in
    sym (select-sort _ lo (is_of c) rows (last_row-le n lo _ up)) ∙ rest_of_page n lo _ up
