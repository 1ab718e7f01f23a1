-- ===== src/Store/Sql.antt =====
-- SELECT, UPDATE, COUNT and DELETE with a WHERE clause, over the list of a table's rows.
use crawlerv.Prelude.{
  ℕ, suc, ◌+◌, ◌≤◌, ◌≡◌, refl, ◌⊎◌, inl, inr, Bool, true, false, Option, none, some, List, [], ◌∷◌,
  ◌++◌, map, arith, if◌then◌else◌, length, leb, All, All-imp,
}
use mathlib.Core.List.{Memᴰ}

module _ {A : Type 0} (test : A → Bool) where
  unfoldable pub select : List A → List A
  select [] = []
  select (x ∷ xs) = if test x then x ∷ select xs else select xs

  -- `First`: the first row that passes, if any.
  unfoldable pub first : List A → Option A
  first [] = none
  first (x ∷ xs) = if test x then some x else first xs

  -- `COUNT(*)`, and the `RowsAffected` of an UPDATE.
  unfoldable pub count : List A → ℕ
  count [] = 0
  count (x ∷ xs) = if test x then suc (count xs) else count xs

  unfoldable pub update : (A → A) → List A → List A
  update set [] = []
  update set (x ∷ xs) = (if test x then set x else x) ∷ update set xs

  unfoldable pub delete : List A → List A
  delete [] = []
  delete (x ∷ xs) = if test x then delete xs else x ∷ delete xs

module _ {A : Type 0} (test : A → Bool) where
  pub first-some : (xs : List A) {x : A} → first test xs ≡ some x → Memᴰ x xs × (test x ≡ true)
  unfolding first
  first-some [] h = ground arith
  first-some (y ∷ xs) {x} h = elim (Bool-split (test y)) [
    | inl e ↦ (Memᴰ.head (ground arith), ground arith)
    | inr e ↦ let ih = first-some xs {x = x} (ground arith) in (Memᴰ.tail ih.0, ih.1)
  ]
    where
      Bool-split : (b : Bool) → (b ≡ true) ⊎ (b ≡ false)
      Bool-split true = inl refl
      Bool-split false = inr refl

  pub length-select : (xs : List A) → length (select test xs) ≡ count test xs
  unfolding select count
  length-select [] = refl
  length-select (x ∷ xs) = ground (arith, length-select xs)

  pub count-append : (xs ys : List A) → count test (xs ++ ys) ≡ count test xs + count test ys
  unfolding count
  count-append [] ys = omega arith
  count-append (x ∷ xs) ys = ground (arith, count-append xs ys)

  pub first-eq-none : (xs : List A) → count test xs ≡ 0 → first test xs ≡ none
  unfolding first count
  first-eq-none [] h = refl
  first-eq-none (x ∷ xs) h = ground (arith, first-eq-none xs)

  pub count_zero_of_first : (xs : List A) → first test xs ≡ none → count test xs ≡ 0
  unfolding first count
  count_zero_of_first [] h = refl
  count_zero_of_first (x ∷ xs) h = ground (arith, count_zero_of_first xs)

  pub update_none : (set : A → A) (xs : List A) → count test xs ≡ 0 → update test set xs ≡ xs
  unfolding update count
  update_none set [] h = refl
  update_none set (x ∷ xs) h = ground (arith, update_none set xs)

-- A property of rows that the assignment keeps, on the rows that it is made on, is kept.
module _ {κ} {A : Type 0} (P : A → Type κ) (test : A → Bool) where
  pub All-update :
      (set : A → A)
      → ((x : A) → test x ≡ true → P x → P (set x))
      → (xs : List A) → All P xs
      → All P (update test set xs)
  unfolding update
  All-update set keep [] h = tt
  All-update set keep (x ∷ xs) h = (pass (test x) (keep x), All-update set keep xs h.1)
    where
      pass : (b : Bool) → (b ≡ true → P x → P (set x)) → P (if b then set x else x)
      pass true k = k refl h.0
      pass false k = h.0

  pub All-delete : (xs : List A) → All P xs → All P (delete test xs)
  unfolding delete
  All-delete [] h = tt
  All-delete (x ∷ xs) h = pass (test x) (All-delete xs h.1)
    where
      pass :
          (b : Bool)
          → All P (delete test xs)
          → All P (if b then delete test xs else x ∷ delete test xs)
      pass true rest = rest
      pass false rest = (h.0, rest)

-- A column that the assignment leaves alone.
module _ {A B : Type 0} (column : A → B) (test : A → Bool) where
  pub map-update :
      (set : A → A)
      → ((x : A) → column (set x) ≡ column x)
      → (xs : List A) → map column (update test set xs) ≡ map column xs
  unfolding update
  map-update set same [] = refl
  map-update set same (x ∷ xs) = ground (arith, same x, map-update set same xs)

-- `ORDER BY` a column, ascending.
module _ {A : Type 0} (key : A → ℕ) where
  unfoldable pub insert_by : A → List A → List A
  insert_by x [] = x ∷ []
  insert_by x (y ∷ ys) = if leb (key x) (key y) then x ∷ y ∷ ys else y ∷ insert_by x ys

  unfoldable pub sort_by : List A → List A
  unfolding insert_by
  sort_by [] = []
  sort_by (x ∷ xs) = insert_by x (sort_by xs)

module _ {κ} {A : Type 0} (P : A → Type κ) where
  pub All-select :
      (test : A → Bool) → ((x : A) → test x ≡ true → P x) → (xs : List A) → All P (select test xs)
  unfolding select
  All-select test h [] = tt
  All-select test h (x ∷ xs) = pass (test x) (h x) (All-select test h xs)
    where
      pass :
          (b : Bool)
          → (b ≡ true → P x)
          → All P (select test xs)
          → All P (if b then x ∷ select test xs else select test xs)
      pass true k rest = (k refl, rest)
      pass false k rest = rest

  -- A property of every row holds of the selected ones.
  pub All-select_of : (test : A → Bool) (xs : List A) → All P xs → All P (select test xs)
  unfolding select
  All-select_of test [] h = tt
  All-select_of test (x ∷ xs) h = pass (test x) (All-select_of test xs h.1)
    where
      pass :
          (b : Bool)
          → All P (select test xs)
          → All P (if b then x ∷ select test xs else select test xs)
      pass true rest = (h.0, rest)
      pass false rest = rest

  -- What holds of the selected rows holds of every row that passes.
  pub All-of_select :
      (test : A → Bool) (xs : List A) → All P (select test xs) → All (λ x. test x ≡ true → P x) xs
  unfolding select
  All-of_select test [] h = tt
  All-of_select test (x ∷ xs) h = (here (test x) h, All-of_select test xs (there (test x) h))
    where
      here : (b : Bool) → All P (if b then x ∷ select test xs else select test xs) → b ≡ true → P x
      here true k e = k.0
      here false k e = ground arith

      there :
          (b : Bool)
          → All P (if b then x ∷ select test xs else select test xs)
          → All P (select test xs)
      there true k = k.1
      there false k = k

  module _ (key : A → ℕ) where
    pub All-insert_by : (x : A) (xs : List A) → P x → All P xs → All P (insert_by key x xs)
    unfolding insert_by
    All-insert_by x [] p h = (p, tt)
    All-insert_by x (y ∷ ys) p h = pass (leb (key x) (key y)) (All-insert_by x ys p h.1)
      where
        pass :
            (b : Bool)
            → All P (insert_by key x ys)
            → All P (if b then x ∷ y ∷ ys else y ∷ insert_by key x ys)
        pass true rest = (p, h)
        pass false rest = (h.0, rest)

    pub All-sort_by : (xs : List A) → All P xs → All P (sort_by key xs)
    unfolding sort_by
    All-sort_by [] h = tt
    All-sort_by (x ∷ xs) h = All-insert_by x (sort_by key xs) h.0 (All-sort_by xs h.1)

module _ {A : Type 0} (key : A → ℕ) where
  pub sort_nil : (xs : List A) → sort_by key xs ≡ [] → xs ≡ []
  unfolding sort_by insert_by
  sort_nil [] h = refl
  sort_nil (x ∷ xs) h = run (sort_by key xs) h
    where
      run : (l : List A) → insert_by key x l ≡ [] → x ∷ xs ≡ []
      run [] k = ground arith
      run (z ∷ zs) k = ground arith

  head_insert :
      (x z y : A) (zs ys : List A)
      → insert_by key x (z ∷ zs) ≡ y ∷ ys
      → (key y ≤ key x) × (key y ≤ key z)
  unfolding insert_by
  head_insert x z y zs ys h = ground arith

  -- The first row in order is the least.
  pub sort_by_least :
      (xs : List A) (y : A) (ys : List A) → sort_by key xs ≡ y ∷ ys → All (λ x. key y ≤ key x) xs
  unfolding sort_by insert_by
  sort_by_least [] y ys h = tt
  sort_by_least (x ∷ xs) y ys h = run (sort_by key xs) refl h (sort_by_least xs)
    where
      run :
          (l : List A)
          → sort_by key xs ≡ l
          → insert_by key x l ≡ y ∷ ys
          → ((z : A) (zs : List A) → sort_by key xs ≡ z ∷ zs → All (λ v. key z ≤ key v) xs)
          → All (λ z. key y ≤ key z) (x ∷ xs)
      run [] e k ih = (ground arith, ground (arith, sort_nil xs e))
      run (z ∷ zs) e k ih =
          let m = head_insert x z y zs ys k in
          (m.0, All-imp _ _ (λ v g. omega (arith, g, m.1)) xs (ih z zs e))

module _ {A : Type 0} (test : A → Bool) where
  pub All-of_select_nil : (xs : List A) → select test xs ≡ [] → All (λ x. test x ≡ false) xs
  unfolding select
  All-of_select_nil [] h = tt
  All-of_select_nil (x ∷ xs) h = ground (arith, All-of_select_nil xs)
