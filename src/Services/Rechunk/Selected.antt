-- ===== src/Services/Rechunk/Selected.antt =====
-- The documents that a run is for, page by page.
use crawlerv.Prelude.{
  ℕ, zero, suc, ◌-◌, ◌≤◌, ◌<◌, ◌≡◌, refl, sym, ap, ◌∙◌, true, false, List, [], ◌∷◌, ◌++◌, map,
  arith, ltb, leb, if◌then◌else◌, length, length-take, take, drop, take-append-drop, Bool-cases,
  inl, inr,
}
use crawlerv.Store.Rows.{ExtractedDocument}
use crawlerv.Repos.Extraction.{map_extracted}
use crawlerv.Services.Rechunk.Pages.{fetch_of, last_id, is_last}
use crawlerv.Services.Rechunk.Order.{last_row}

-- At most `limit` of them, if it is positive.
unfoldable pub selected : ℕ → List ExtractedDocument → List ExtractedDocument
selected limit rows = if ltb 0 limit then take limit rows else rows

take_all : (n : ℕ) (rows : List ExtractedDocument) → length rows ≤ n → take n rows ≡ rows
take_all zero [] h = refl
take_all zero (r ∷ rows) h = absurd (omega (arith, h))
take_all (suc n) [] h = refl
take_all (suc n) (r ∷ rows) h = ap (◌∷◌ r) (take_all n rows (omega (arith, h)))

take_add :
    (n limit : ℕ) (rows : List ExtractedDocument)
    → n ≤ limit
    → take limit rows ≡ take n rows ++ take (limit - n) (drop n rows)
take_add zero limit rows h = ap (λ n. take n rows) (omega arith)
take_add (suc n) zero rows h = absurd (omega (arith, h))
take_add (suc n) (suc limit) [] h = nil (suc limit - suc n)
  where
    nil : (k : ℕ) → [] ≡ take {A = ExtractedDocument} k []
    nil zero = refl
    nil (suc k) = refl
take_add (suc n) (suc limit) (r ∷ rows) h = ap (◌∷◌ r) (
    take_add n limit rows (omega (arith, h))
    ∙ ap (λ k. take n rows ++ take k (drop n rows)) (omega arith))

pub fetch_positive : (limit : ℕ) → 1 ≤ fetch_of limit
unfolding fetch_of
fetch_positive limit = ground arith

fetch-le : (limit : ℕ) → 0 < limit → fetch_of limit ≤ limit
unfolding fetch_of
fetch-le limit h = ground arith

selected_limited :
    (limit : ℕ) (rows : List ExtractedDocument)
    → ltb 0 limit ≡ true
    → selected limit rows ≡ take limit rows
unfolding selected
selected_limited limit rows h = rw h refl

selected_all :
    (limit : ℕ) (rows : List ExtractedDocument) → ltb 0 limit ≡ false → selected limit rows ≡ rows
unfolding selected
selected_all limit rows h = rw h refl

-- The page that ends the loop holds all that is left.
pub last_page :
    (limit : ℕ) (rows : List ExtractedDocument)
    → is_last limit (length (take (fetch_of limit) rows)) ≡ true
    → selected limit rows ≡ take (fetch_of limit) rows
unfolding is_last
last_page limit rows h =
    let size = length-take (fetch_of limit) rows in
    elim (Bool-cases (ltb 0 limit)) [
      | inl y ↦
          let below = fetch-le limit (ground arith) in
          elim (Bool-cases (leb limit (length (take (fetch_of limit) rows)))) [
            | inl a ↦
                let same : limit ≡ fetch_of limit = ground (arith, size, below) in
                selected_limited limit rows y ∙ ap (λ n. take n rows) same
            | inr b ↦
                let short : length rows < fetch_of limit = ground (arith, size) in
                selected_limited limit rows y
                ∙ take_all limit rows (omega (arith, short, below))
                ∙ sym (take_all (fetch_of limit) rows (omega (arith, short)))
          ]
      | inr n ↦
          let short : length rows < fetch_of limit = ground (arith, size) in
          selected_all limit rows n ∙ sym (take_all (fetch_of limit) rows (omega (arith, short)))
    ]

-- Otherwise the rest is selected from what the page leaves.
pub next_page :
    (limit : ℕ) (rows : List ExtractedDocument)
    → is_last limit (length (take (fetch_of limit) rows)) ≡ false
    → selected limit rows
      ≡ take (fetch_of limit) rows
        ++ selected (limit - length (take (fetch_of limit) rows)) (drop (fetch_of limit) rows)
unfolding is_last
next_page limit rows h =
    let size = length-take (fetch_of limit) rows in
    let full : length (take (fetch_of limit) rows) ≡ fetch_of limit = ground (arith, size) in
    elim (Bool-cases (ltb 0 limit)) [
      | inl y ↦
          let below = fetch-le limit (ground arith) in
          let more : ltb 0 (limit - length (take (fetch_of limit) rows)) ≡ true = ground arith in
          selected_limited limit rows y
          ∙ take_add (fetch_of limit) limit rows below
          ∙ ap (λ n. take (fetch_of limit) rows ++ take (limit - n) (drop (fetch_of limit) rows))
              (sym full)
          ∙ ap (λ l. take (fetch_of limit) rows ++ l) (sym (selected_limited _ _ more))
      | inr n ↦
          let none : ltb 0 (limit - length (take (fetch_of limit) rows)) ≡ false = ground arith in
          selected_all limit rows n
          ∙ sym (take-append-drop (fetch_of limit) rows)
          ∙ ap (λ l. take (fetch_of limit) rows ++ l) (sym (selected_all _ _ none))
    ]

pub last_id-map :
    (lo : ℕ) (rows : List ExtractedDocument)
    → last_id lo (map map_extracted rows) ≡ last_row lo rows
unfolding last_id map_extracted
last_id-map lo [] = refl
last_id-map lo (r ∷ rows) = last_id-map r.id rows
