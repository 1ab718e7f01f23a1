-- ===== src/Store/Sorted.antt =====
-- ORDER BY: the same rows, ascending by the column.
use crawlerv.Prelude.{ℕ, ◌≤◌, refl, List, [], ◌∷◌, leb, arith, All, All-imp, Bool-cases, inl, inr}
use mathlib.Core.List.{Permᴰ}
use crawlerv.Store.Sql.{insert_by, sort_by, All-insert_by}

module _ {A : Type 0} (key : A → ℕ) where
  abbrev pub Sorted : List A → Type 0
  Sorted [] = Unit {0}
  Sorted (x ∷ xs) = All (λ y. key x ≤ key y) xs × Sorted xs

  same_rows : (xs : List A) → Permᴰ xs xs
  same_rows [] = Permᴰ.nil
  same_rows (x ∷ xs) = Permᴰ.cons refl (same_rows xs)

  insert-perm : (x : A) (xs : List A) → Permᴰ (x ∷ xs) (insert_by key x xs)
  unfolding insert_by
  insert-perm x [] = same_rows (x ∷ [])
  insert-perm x (y ∷ ys) = elim (Bool-cases (leb (key x) (key y))) [
    | inl k ↦ rw (k, insert_by) (same_rows (x ∷ y ∷ ys))
    | inr k ↦
        rw (k, insert_by) (Permᴰ.trans (Permᴰ.swap refl refl) (Permᴰ.cons refl (insert-perm x ys)))
  ]

  pub sort_by-perm : (xs : List A) → Permᴰ xs (sort_by key xs)
  unfolding sort_by
  sort_by-perm [] = Permᴰ.nil
  sort_by-perm (x ∷ xs) =
      Permᴰ.trans (Permᴰ.cons refl (sort_by-perm xs)) (insert-perm x (sort_by key xs))

  insert-Sorted : (x : A) (xs : List A) → Sorted xs → Sorted (insert_by key x xs)
  unfolding insert_by
  insert-Sorted x [] h = (tt, tt)
  insert-Sorted x (y ∷ ys) h = elim (Bool-cases (leb (key x) (key y))) [
    | inl k ↦
        let le : key x ≤ key y = ground arith in
        rw (k, insert_by)
          ((le, All-imp (λ z. key y ≤ key z) _ (λ z l. omega (arith, le, l)) ys h.0), h)
    | inr k ↦
        let le : key y ≤ key x = ground arith in
        rw (k, insert_by)
          (All-insert_by (λ z. key y ≤ key z) key x ys le h.0, insert-Sorted x ys h.1)
  ]

  pub sort_by-Sorted : (xs : List A) → Sorted (sort_by key xs)
  unfolding sort_by
  sort_by-Sorted [] = tt
  sort_by-Sorted (x ∷ xs) = insert-Sorted x (sort_by key xs) (sort_by-Sorted xs)
