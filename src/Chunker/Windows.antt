-- ===== src/Chunker/Windows.antt =====
-- What `Split` returns, chunk by chunk.
use crawlerv.Prelude.{
  ℕ, zero, suc, ◌+◌, ◌-◌, ◌*◌, ◌≤◌, ◌<◌, min, ◌≡◌, refl, none, some, List, [], ◌∷◌, Bytes, arith,
  ltb, if◌then◌else◌, length, get_elem?, take, Bool-cases, inl, inr, is_some,
}
use crawlerv.Chunker.Split.{
  ℤ, pos, negsuc, Tokenizer, IsRoundTrip, Config, Chunk, Sizes, core_size, overlap_size, sizes,
  Range, cores, tail_start, head_end, window_start, window_end, slice, chunk_at, chunks_from,
  chunk_tokens, split,
}
use crawlerv.Chunker.Cores.{core_from, get_elem?-cores}

-- The overlaps and the core size after the defaults: no overlap is longer than a core.
pub record IsValid (z : Sizes) : Type 0 where
  pub core_pos : 0 < z.core
  pub prev_le : z.prev ≤ z.core
  pub next_le : z.next ≤ z.core

core_size_pos : (n : ℤ) → 0 < core_size n
unfolding core_size
core_size_pos (pos n) = ground arith
core_size_pos (negsuc n) = ground arith

overlap_size_le : (core : ℕ) (n : ℤ) → overlap_size core n ≤ core
unfolding overlap_size
overlap_size_le core (pos n) = ground arith
overlap_size_le core (negsuc n) = ground arith

pub sizes-IsValid : (cfg : Config) → IsValid (sizes cfg)
unfolding sizes
sizes-IsValid cfg = record {
  core_pos = core_size_pos cfg.chunk_tokens;
  prev_le = overlap_size_le _ cfg.overlap_prev;
  next_le = overlap_size_le _ cfg.overlap_next;
}

-- Chunk `i` of a text of the tokens `all`: the core is [i * core, (i + 1) * core), cut at the end of
-- the text, and the window reaches `prev` tokens before it and `next` after it.
abbrev pub window : Tokenizer → Sizes → List ℕ → ℕ → Chunk
window tok z all i = record {
  index = i;
  text = tok.decode (slice (i * z.core - z.prev) (min (length all) (suc i * z.core + z.next)) all);
  token_count = min (i * z.core + z.core) (length all) - i * z.core;
}

index_lt : {A : Type 0} (xs : List A) (i : ℕ) → ltb i (length xs) ≡ is_some (get_elem? xs i)
index_lt [] i = ground arith
index_lt (x ∷ xs) zero = ground arith
index_lt (x ∷ xs) (suc i) = ground (arith, index_lt xs i)

module _ (tok : Tokenizer) (z : Sizes) (all : List ℕ) (cs : List Range) where
  get_elem?-chunks_from :
      (l : List Range) (j i : ℕ)
      → get_elem? (chunks_from tok z all cs j l) i
        ≡ (elim (get_elem? l i) [ some c ↦ some (chunk_at tok z all cs (j + i) c) | none ↦ none ])
  unfolding chunks_from
  get_elem?-chunks_from [] j i = refl
  get_elem?-chunks_from (c ∷ l) j zero = ground arith
  get_elem?-chunks_from (c ∷ l) j (suc i) = ground (arith, get_elem?-chunks_from l (suc j) i)

module _ (z : Sizes) (v : IsValid z) (len : ℕ) where
  abbrev pub all_cores : List Range
  all_cores = cores (suc len) z.core len 0

  core_at :
      (i : ℕ)
      → get_elem? all_cores i
        ≡ (if ltb (i * z.core) len then some (core_from z.core len (i * z.core)) else none)
  core_at i = ground (arith, get_elem?-cores (suc len) z.core len 0 i v.core_pos (omega arith))

  window_start_lem :
      (i : ℕ)
      → i * z.core < len
      → window_start z all_cores i (core_from z.core len (i * z.core)) ≡ i * z.core - z.prev
  unfolding window_start tail_start
  window_start_lem zero h = ground arith
  window_start_lem (suc k) h =
      let lt : k * z.core < len = omega (arith, v.core_pos, h) in
      ground (arith, core_at k, v.prev_le)

  window_end_lem :
      (i : ℕ)
      → i * z.core < len
      → window_end z all_cores i (core_from z.core len (i * z.core))
        ≡ min len (suc i * z.core + z.next)
  unfolding window_end head_end
  window_end_lem i h = ground (arith, core_at (suc i), index_lt all_cores (suc i), v.next_le)

module _ (tok : Tokenizer) (z : Sizes) (v : IsValid z) (all : List ℕ) where
  pub window_lem :
      (i : ℕ)
      → i * z.core < length all
      → chunk_at tok z all
          (all_cores z v (length all))
          i
          (core_from z.core (length all) (i * z.core))
        ≡ window tok z all i
  unfolding chunk_at
  window_lem i h =
      rw (window_start_lem z v (length all) i h, window_end_lem z v (length all) i h) refl

  cores_windows :
      (i : ℕ)
      → get_elem?
          (chunks_from tok z all (all_cores z v (length all)) 0 (all_cores z v (length all)))
          i
        ≡ (if ltb (i * z.core) (length all) then some (window tok z all i) else none)
  cores_windows i =
      let at = core_at z v (length all) i in
      let from =
        get_elem?-chunks_from tok z all (all_cores z v (length all)) (all_cores z v (length all)) 0
          i in
      elim (Bool-cases (ltb (i * z.core) (length all))) [
        | inl y ↦ ground (arith, y, at, from, window_lem i)
        | inr n ↦ ground (arith, n, at, from)
      ]

chunk_tokens_windows :
    (tok : Tokenizer) (z : Sizes)
    → IsValid z
    → (all : List ℕ) (i : ℕ)
    → get_elem? (chunk_tokens tok z all) i
      ≡ (if ltb (i * z.core) (length all) then some (window tok z all i) else none)
unfolding chunk_tokens
chunk_tokens_windows tok z v [] i = ground arith
chunk_tokens_windows tok z v (t ∷ ts) i = cores_windows tok z v (t ∷ ts) i

-- Splitting a non-empty text: there is a chunk `i` exactly while `i` cores of tokens do not cover
-- the text. It is numbered `i`, counts the tokens of its core, and its text decodes the core with
-- `prev` tokens of the core before and `next` of the core after it, as far as the text goes; `core`,
-- `prev` and `next` are the configured sizes after the defaults and the clamping.
pub split_windows :
    (tok : Tokenizer) (b : ℕ) (bs : Bytes) (cfg : Config) (i : ℕ)
    → get_elem? (split tok (b ∷ bs) cfg) i ≡ (
        if ltb (i * (sizes cfg).core) (length (tok.encode (b ∷ bs)))
        then some (window tok (sizes cfg) (tok.encode (b ∷ bs)) i)
        else none)
unfolding split
split_windows tok b bs cfg i =
    chunk_tokens_windows tok (sizes cfg) (sizes-IsValid cfg) (tok.encode (b ∷ bs)) i

take_all : (xs : List ℕ) (n : ℕ) → length xs ≤ n → take n xs ≡ xs
take_all [] zero h = refl
take_all [] (suc n) h = refl
take_all (x ∷ xs) zero h = ground arith
take_all (x ∷ xs) (suc n) h = ground (arith, take_all xs n)

cores_short :
    (fuel core len : ℕ)
    → len ≤ core
    → 0 < len
    → cores (suc (suc fuel)) core len 0 ≡ record { start = 0; end = len } ∷ []
unfolding cores
cores_short fuel core len h positive = ground arith

short_text :
    (tok : Tokenizer) (z : Sizes) (all : List ℕ)
    → length all ≤ z.core
    → 0 < length all
    → chunk_tokens tok z all
      ≡ record { index = 0; text = tok.decode all; token_count = length all } ∷ []
unfolding chunk_tokens chunks_from chunk_at window_start window_end
short_text tok z [] h positive = ground arith
short_text tok z (t ∷ ts) h positive =
    rw (cores_short (length ts) z.core (length (t ∷ ts)) h positive)
      (ground (arith, take_all (t ∷ ts) (suc (length ts)) (omega arith)))

-- A text of at most one core, under a tokenizer that keeps its round-trip contract up to a
-- normalization, gives one chunk, which holds the whole text as the tokenizer normalizes it.
pub split_short :
    (tok : Tokenizer) (normal : Bytes → Bytes) (b : ℕ) (bs : Bytes) (cfg : Config)
    → IsRoundTrip tok normal
    → length (tok.encode (b ∷ bs)) ≤ (sizes cfg).core
    → 0 < length (tok.encode (b ∷ bs))
    → split tok (b ∷ bs) cfg
      ≡ record { index = 0; text = normal (b ∷ bs); token_count = length (tok.encode (b ∷ bs)) }
        ∷ []
unfolding split
split_short tok normal b bs cfg rt h positive =
    ground
      (arith, short_text tok (sizes cfg) (tok.encode (b ∷ bs)) h positive, rt.round_trip (b ∷ bs))
