-- ===== src/Chunker/Cores.antt =====
-- The core ranges: what the loop makes of them, and that they cover the tokens.
use crawlerv.Prelude.{
  ℕ, zero, suc, ◌+◌, ◌*◌, ◌<◌, min, ◌≡◌, none, some, arith, ltb, if◌then◌else◌, get_elem?,
  Bool-cases, inl, inr,
}
use crawlerv.Chunker.Split.{Range, cores}

-- The range of the core that starts at `s`.
abbrev pub core_from : ℕ → ℕ → ℕ → Range
core_from core len s = record { start = s; end = min (s + core) len }

-- The i-th core starts at start + i * core, and there is one exactly while that is below the length.
pub get_elem?-cores :
    (fuel core len start i : ℕ)
    → 0 < core
    → len < start + fuel
    → get_elem? (cores fuel core len start) i
      ≡ (if ltb (start + i * core) len then some (core_from core len (start + i * core)) else none)
unfolding cores
get_elem?-cores zero core len start i positive h = ground arith
get_elem?-cores (suc fuel) core len start zero positive h = ground arith
get_elem?-cores (suc fuel) core len start (suc i) positive h =
    let ih = get_elem?-cores fuel core len (start + core) i positive (omega arith) in
    let move : start + core + i * core ≡ start + suc i * core = omega arith in
    elim (Bool-cases (ltb start len)) [
      | inl y ↦ ground (arith, y, move, ih)
      | inr n ↦ ground (arith, n)
    ]
