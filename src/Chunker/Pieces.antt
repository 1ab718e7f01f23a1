-- ===== src/Chunker/Pieces.antt =====
-- The chunks of a text as pieces that partition its tokens.
use crawlerv.Prelude.{
  ℕ, zero, suc, ◌+◌, ◌-◌, ◌*◌, ◌≤◌, ◌<◌, min, ◌≡◌, refl, sym, subst, ap, ◌∙◌, List, [], ◌∷◌, ◌++◌,
  Bytes, arith, ltb, if◌then◌else◌, length, take, drop, Bool-cases, inl, inr,
}
use crawlerv.Chunker.Split.{
  Tokenizer, Config, Chunk, Sizes, sizes, cores, slice, chunk_at, chunks_from, chunk_tokens, split,
}
use crawlerv.Chunker.Cores.{core_from}
use crawlerv.Chunker.Windows.{IsValid, sizes-IsValid, all_cores, window_lem}

take_nil : (n : ℕ) → take {A = ℕ} n [] ≡ []
take_nil zero = refl
take_nil (suc n) = refl

drop_nil : (n : ℕ) → drop {A = ℕ} n [] ≡ []
drop_nil zero = refl
drop_nil (suc n) = refl

take-add : (a b : ℕ) (xs : List ℕ) → take (a + b) xs ≡ take a xs ++ take b (drop a xs)
take-add zero b xs = ground arith
take-add (suc a) b [] = ground (arith, take_nil (suc a + b), take_nil b)
take-add (suc a) b (x ∷ xs) =
    let e : suc a + b ≡ suc (a + b) = omega arith in
    ap (λ n. take n (x ∷ xs)) e ∙ ap (◌∷◌ x) (take-add a b xs)

drop-drop : (a b : ℕ) (xs : List ℕ) → drop b (drop a xs) ≡ drop (a + b) xs
drop-drop zero b xs = ground arith
drop-drop (suc a) b [] = ground (arith, drop_nil (suc a + b), drop_nil b)
drop-drop (suc a) b (x ∷ xs) =
    let e : suc a + b ≡ suc (a + b) = omega arith in
    drop-drop a b xs ∙ sym (ap (λ n. drop n (x ∷ xs)) e)

length-drop : (n : ℕ) (xs : List ℕ) → length (drop n xs) ≡ length xs - n
length-drop zero xs = ground arith
length-drop (suc n) [] = ground arith
length-drop (suc n) (x ∷ xs) = ground (arith, length-drop n xs)

length-take_le : (n : ℕ) (xs : List ℕ) → n ≤ length xs → length (take n xs) ≡ n
length-take_le zero xs h = refl
length-take_le (suc n) [] h = ground arith
length-take_le (suc n) (x ∷ xs) h = ground (arith, length-take_le n xs)

slice-append :
    (lo m hi : ℕ) (xs : List ℕ) → lo ≤ m → m ≤ hi → slice lo hi xs ≡ slice lo m xs ++ slice m hi xs
slice-append lo m hi xs l h =
    let total : hi - lo ≡ (m - lo) + (hi - m) = omega (arith, l, h) in
    let there : lo + (m - lo) ≡ m = omega (arith, l) in
    ap (λ n. take n (drop lo xs)) total
    ∙ take-add (m - lo) (hi - m) (drop lo xs)
    ∙ ap (λ ys. slice lo m xs ++ take (hi - m) ys)
        (drop-drop lo (m - lo) xs ∙ ap (λ n. drop n xs) there)

length-slice :
    (lo hi : ℕ) (xs : List ℕ) → lo ≤ hi → hi ≤ length xs → length (slice lo hi xs) ≡ hi - lo
length-slice lo hi xs l h =
    length-take_le (hi - lo) (drop lo xs) (omega (arith, l, h, length-drop lo xs))

slice_empty : (n : ℕ) (xs : List ℕ) → slice n n xs ≡ []
slice_empty n xs = let e : n - n ≡ 0 = omega arith in ap (λ k. take k (drop n xs)) e

slice_all : (xs : List ℕ) → slice 0 (length xs) xs ≡ xs
slice_all [] = refl
slice_all (x ∷ xs) = ground (arith, slice_all xs)

-- A chunk's own piece of the tokens, between those `before` it and those `after` it. The text decodes
-- the piece with a lead, the last tokens before it, and a trail, the first ones after it, as many as
-- the overlaps allow.
pub record IsPiece (tok : Tokenizer) (z : Sizes) (before piece after : List ℕ) (c : Chunk)
    : Type 0 where
  pub positive : 0 < length piece
  pub limited : length piece ≤ z.core
  pub count : c.token_count ≡ length piece
  pub lead : List ℕ
  pub trail : List ℕ
  pub text : c.text ≡ tok.decode (lead ++ (piece ++ trail))
  pub lead_of : (rest : List ℕ) × (before ≡ rest ++ lead)
  pub lead_length : length lead ≡ min z.prev (length before)
  pub trail_of : (rest : List ℕ) × (after ≡ trail ++ rest)
  pub trail_length : length trail ≡ min z.next (length after)

-- The chunks' pieces are, one after another, exactly the tokens that follow `before`.
abbrev pub Cover : Tokenizer → Sizes → List ℕ → List Chunk → List ℕ → Type 0
Cover tok z before [] tokens = tokens ≡ []
Cover tok z before (c ∷ cs) tokens =
    (piece : List ℕ) × (after : List ℕ) × (tokens ≡ piece ++ after)
    × IsPiece tok z before piece after c
    × Cover tok z (before ++ piece) cs after

module _ (tok : Tokenizer) (z : Sizes) (v : IsValid z) (all : List ℕ) where
  abbrev len : ℕ
  len = length all

  -- The piece that starts at `s` ends here.
  abbrev stop : ℕ → ℕ
  stop s = min (s + z.core) len

  IsPiece-at :
      (i : ℕ)
      → i * z.core < len
      → IsPiece tok z
          (slice 0 (i * z.core) all)
          (slice (i * z.core) (stop (i * z.core)) all)
          (slice (stop (i * z.core)) len all)
          (chunk_at tok z all (all_cores z v len) i (core_from z.core len (i * z.core)))
  IsPiece-at i h =
      let s = i * z.core in
      let e = stop s in
      let lo = s - z.prev in
      let hi = min len (suc i * z.core + z.next) in
      let own = length-slice s e all (omega arith) (omega arith) in
      let se : s ≤ e = omega (arith, h) in
      let eh : e ≤ hi = omega arith in
      let here = window_lem tok z v all i h in
      rw here (record {
        positive = omega (arith, own, h, v.core_pos);
        limited = omega (arith, own);
        count = omega (arith, own);
        lead = slice lo s all;
        trail = slice e hi all;
        text = ap tok.decode (
            slice-append lo s hi all (omega arith) (omega (arith, se, eh))
            ∙ ap (λ ys. slice lo s all ++ ys) (slice-append s e hi all se eh));
        lead_of = (slice 0 lo all, slice-append 0 lo s all (omega arith) (omega arith));
        lead_length = omega (
          arith,
          length-slice lo s all (omega arith) (omega (arith, h)),
          length-slice 0 s all (omega arith) (omega (arith, h)),
        );
        trail_of = (slice hi len all, slice-append e hi len all eh (omega arith));
        trail_length = omega (
          arith,
          length-slice e hi all eh (omega arith),
          length-slice e len all (omega arith) (omega arith),
        );
      })

  range_lem :
      (s : ℕ)
      → record { start = s; end = if ltb len (s + z.core) then len else s + z.core }
        ≡ core_from z.core len s
  range_lem s = ground arith

  Cover-step :
      (i : ℕ)
      → i * z.core < len
      → (cs : List Chunk)
      → Cover tok z (slice 0 (stop (i * z.core)) all) cs (slice (stop (i * z.core)) len all)
      → Cover tok z
          (slice 0 (i * z.core) all)
          (chunk_at tok z all (all_cores z v len) i (core_from z.core len (i * z.core)) ∷ cs)
          (slice (i * z.core) len all)
  Cover-step i h cs rest =
      let s = i * z.core in
      let e = stop s in
      (
        slice s e all,
        slice e len all,
        slice-append s e len all (omega (arith, h)) (omega arith),
        IsPiece-at i h,
        subst (λ b. Cover tok z b cs (slice e len all))
            (slice-append 0 s e all (omega arith) (omega (arith, h))) rest,
      )

  min_step : (i : ℕ) → min (suc i * z.core) len ≡ stop (i * z.core)
  min_step i =
      let move : suc i * z.core ≡ i * z.core + z.core = omega arith in ap (λ n. min n len) move

  -- The chunks of the cores from `k` on cover the tokens from `n` on.
  abbrev Later : ℕ → ℕ → ℕ → ℕ → Type 0
  Later i fuel n k =
      Cover tok z (slice 0 n all)
        (chunks_from tok z all (all_cores z v len) i (cores fuel z.core len k)) (slice n len all)

  -- The chunks of the cores that start at `i * core` and later cover the tokens from there.
  Cover-from :
      (fuel i : ℕ)
      → len < i * z.core + fuel
      → Cover tok z
          (slice 0 (min (i * z.core) len) all)
          (chunks_from tok z all (all_cores z v len) i (cores fuel z.core len (i * z.core)))
          (slice (min (i * z.core) len) len all)
  unfolding cores chunks_from
  Cover-from zero i h =
      let past : min (i * z.core) len ≡ len = omega (arith, h) in
      ap (λ n. slice n len all) past ∙ slice_empty len all
  Cover-from (suc fuel) i h = elim (Bool-cases (ltb (i * z.core) len)) [
    | inr n ↦
        let past : min (i * z.core) len ≡ len = ground (arith, n) in
        rw (n, cores, chunks_from) (ap (λ k. slice k len all) past ∙ slice_empty len all)
    | inl y ↦
        let s = i * z.core in
        let e = stop s in
        let lt : s < len = ground (arith, y) in
        let at : min s len ≡ s = omega (arith, lt) in
        let next : min (suc i * z.core) len ≡ e = min_step i in
        let move : suc i * z.core ≡ s + z.core = omega arith in
        let rest = subst (Later (suc i) fuel e) move (
          subst (λ n. Later (suc i) fuel n (suc i * z.core)) next
            (Cover-from fuel (suc i) (omega (arith, h, v.core_pos)))) in
        rw (y, cores, chunks_from)
          (subst
            (λ n.
              Cover tok z (slice 0 n all)
                (chunk_at tok z all (all_cores z v len) i
                    (record { start = s; end = if ltb len (s + z.core) then len else s + z.core })
                  ∷ chunks_from tok z all (all_cores z v len) (suc i)
                      (cores fuel z.core len (s + z.core)))
                (slice n len all))
            (sym at)
            (subst
              (λ r.
                Cover tok z (slice 0 s all)
                  (chunk_at tok z all (all_cores z v len) i r
                    ∷ chunks_from tok z all (all_cores z v len) (suc i)
                        (cores fuel z.core len (s + z.core)))
                  (slice s len all))
              (sym (range_lem s)) (Cover-step i lt _ rest)))
  ]

  Cover-all :
      Cover tok z []
        (chunks_from tok z all (all_cores z v len) 0 (cores (suc len) z.core len 0))
        all
  Cover-all =
      let none_before : 0 * z.core ≡ 0 = omega arith in
      let at_start : min 0 len ≡ 0 = omega arith in
      let from_start =
        subst (λ k. Later 0 (suc len) (min k len) k) none_before
          (Cover-from (suc len) 0 (omega arith)) in
      subst
        (λ xs.
          Cover tok z []
            (chunks_from tok z all (all_cores z v len) 0 (cores (suc len) z.core len 0)) xs)
        (slice_all all) (subst (λ n. Later 0 (suc len) n 0) at_start from_start)

-- The chunks of a text partition its tokens: taken in order, their pieces are all the tokens, none
-- twice and none left out. Each piece has at least one token and at most a core of them, and its
-- chunk counts them; the chunk's text decodes the piece with the last tokens before it and the first
-- ones after it, as many as the overlaps allow.
pub split_covers :
    (tok : Tokenizer) (b : ℕ) (bs : Bytes) (cfg : Config)
    → Cover tok (sizes cfg) [] (split tok (b ∷ bs) cfg) (tok.encode (b ∷ bs))
unfolding split
split_covers tok b bs cfg = covers (tok.encode (b ∷ bs))
  where
    covers : (all : List ℕ) → Cover tok (sizes cfg) [] (chunk_tokens tok (sizes cfg) all) all
    covers [] = unfold chunk_tokens in refl
    covers (t ∷ ts) = unfold chunk_tokens in Cover-all tok (sizes cfg) (sizes-IsValid cfg) (t ∷ ts)
