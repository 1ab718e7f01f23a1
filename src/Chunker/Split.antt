-- ===== src/Chunker/Split.antt =====
-- chunker.Split. The tokenizer is an interface of the source; its implementation wraps a library.
use crawlerv.Prelude.{
  ℕ, zero, suc, ◌+◌, ◌-◌, ◌≡◌, none, some, List, [], ◌∷◌, Bytes, ltb, leb, if◌then◌else◌, length,
  get_elem?, take, drop,
}

-- A Go `int` of a configuration: `negsuc n` is -(n + 1).
pub data ℤ : Type 0 where
  pos : ℕ → ℤ
  negsuc : ℕ → ℤ

pub record Tokenizer : Type 0 where
  pub name : Bytes
  pub encode : Bytes → List ℕ
  pub decode : List ℕ → Bytes

-- The round-trip contract of tokenizer.go, up to the normalization that the tokenizer applies.
pub record IsRoundTrip (tok : Tokenizer) (normal : Bytes → Bytes) : Type 0 where
  pub round_trip : (s : Bytes) → tok.decode (tok.encode s) ≡ normal s

pub record Config : Type 0 where
  pub chunk_tokens : ℤ
  pub overlap_prev : ℤ
  pub overlap_next : ℤ

unfoldable pub defaults : Config
defaults = record { chunk_tokens = pos 2800; overlap_prev = pos 400; overlap_next = pos 400 }

pub record Chunk : Type 0 where
  pub index : ℕ
  pub text : Bytes
  pub token_count : ℕ

-- The sizes that `Split` goes on with.
pub record Sizes : Type 0 where
  pub core : ℕ
  pub prev : ℕ
  pub next : ℕ

-- `if cfg.ChunkTokens <= 0 { cfg.ChunkTokens = 2800 }`
unfoldable pub core_size : ℤ → ℕ
core_size (pos n) = if leb n 0 then 2800 else n
core_size (negsuc n) = 2800

-- A negative overlap is 0; one above the core size is the core size.
unfoldable pub overlap_size : ℕ → ℤ → ℕ
overlap_size core (pos n) = if ltb core n then core else n
overlap_size core (negsuc n) = 0

unfoldable pub sizes : Config → Sizes
unfolding core_size overlap_size
sizes cfg = record {
  core = core_size cfg.chunk_tokens;
  prev = overlap_size (core_size cfg.chunk_tokens) cfg.overlap_prev;
  next = overlap_size (core_size cfg.chunk_tokens) cfg.overlap_next;
}

pub record Range : Type 0 where
  pub start : ℕ
  pub end : ℕ

-- `for start := 0; start < len(all); start += cfg.ChunkTokens`, on fuel.
unfoldable pub cores : ℕ → ℕ → ℕ → ℕ → List Range
cores zero core len start = []
cores (suc fuel) core len start =
    let rest = cores fuel core len (start + core) in
    if ltb start len
    then record { start = start; end = if ltb len (start + core) then len else start + core } ∷ rest
    else []

-- `pl := p.end - prev`, raised to `p.start`.
unfoldable pub tail_start : ℕ → Range → ℕ
tail_start prev p = if ltb (p.end - prev) p.start then p.start else p.end - prev

-- `nh := n.start + next`, lowered to `n.end`.
unfoldable pub head_end : ℕ → Range → ℕ
head_end next n = if ltb n.end (n.start + next) then n.end else n.start + next

-- An index out of range does not occur: `cores[i-1]` and `cores[i+1]` are read where they exist.
unfoldable pub window_start : Sizes → List Range → ℕ → Range → ℕ
unfolding tail_start
window_start z cs i c =
    if ltb 0 i
    then elim (get_elem? cs (i - 1)) [ some p ↦ tail_start z.prev p | none ↦ c.start ]
    else c.start

unfoldable pub window_end : Sizes → List Range → ℕ → Range → ℕ
unfolding head_end
window_end z cs i c =
    if ltb (suc i) (length cs)
    then elim (get_elem? cs (suc i)) [ some n ↦ head_end z.next n | none ↦ c.end ]
    else c.end

-- `all[lo:hi]`
abbrev pub slice : ℕ → ℕ → List ℕ → List ℕ
slice lo hi all = take (hi - lo) (drop lo all)

module _ (tok : Tokenizer) (z : Sizes) (all : List ℕ) (cs : List Range) where
  unfoldable pub chunk_at : ℕ → Range → Chunk
  unfolding window_start window_end
  chunk_at i c = record {
    index = i;
    text = tok.decode (slice (window_start z cs i c) (window_end z cs i c) all);
    token_count = c.end - c.start;
  }

  unfoldable pub chunks_from : ℕ → List Range → List Chunk
  unfolding chunk_at
  chunks_from i [] = []
  chunks_from i (c ∷ rest) = chunk_at i c ∷ chunks_from (suc i) rest

-- The part of `Split` after the tokens are known. Fuel: each round advances by at least one token.
unfoldable pub chunk_tokens : Tokenizer → Sizes → List ℕ → List Chunk
unfolding cores chunks_from
chunk_tokens tok z [] = []
chunk_tokens tok z (t ∷ ts) =
    let all = t ∷ ts in
    let cs = cores (suc (length all)) z.core (length all) 0 in chunks_from tok z all cs 0 cs

unfoldable pub split : Tokenizer → Bytes → Config → List Chunk
unfolding sizes chunk_tokens
split tok [] cfg = []
split tok (b ∷ bs) cfg = chunk_tokens tok (sizes cfg) (tok.encode (b ∷ bs))
