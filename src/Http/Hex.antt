-- ===== src/Http/Hex.antt =====
-- hexLower, hexDecode and hexNyb of internal/infra/http/jobs.go.
use crawlerv.Prelude.{
  ℕ, ◌+◌, ◌-◌, ◌*◌, ◌/◌, ◌%◌, ◌<◌, ◌≡◌, refl, Bool, ◌&&◌, Option, none, some, [], ◌∷◌, Bytes, arith,
  leb, ltb, if◌then◌else◌, All,
}
use crawlerv.LeaseSigner.Token.{IsByte}

-- `hexd[n]`
abbrev pub hexd : ℕ → ℕ
hexd n = if ltb n 10 then 48 + n else 87 + n

-- `v>>4` and `v&0x0f` of a byte.
unfoldable pub hex_lower : Bytes → Bytes
hex_lower [] = []
hex_lower (v ∷ vs) = hexd (v / 16) ∷ hexd (v % 16) ∷ hex_lower vs

abbrev pub within : ℕ → ℕ → ℕ → Bool
within lo hi c = leb lo c && leb c hi

unfoldable pub hex_nyb : ℕ → Option ℕ
hex_nyb c =
    if within 48 57 c
    then some (c - 48)
    else if within 97 102 c
    then some (c - 97 + 10)
    else if within 65 70 c
    then some (c - 65 + 10)
    else none

-- `hi<<4 | lo` of two numbers below 16.
abbrev pub join_nybs : Option ℕ → Option ℕ → Option Bytes → Option Bytes
join_nybs (some hi) (some lo) (some rest) = some ((hi * 16 + lo) ∷ rest)
join_nybs _ _ _ = none

-- An odd length is refused as a bad character is: `none`.
unfoldable pub hex_decode : Bytes → Option Bytes
unfolding hex_nyb
hex_decode [] = some []
hex_decode (a ∷ []) = none
hex_decode (a ∷ b ∷ rest) = join_nybs (hex_nyb a) (hex_nyb b) (hex_decode rest)

hex_nyb-hexd : (n : ℕ) → n < 16 → hex_nyb (hexd n) ≡ some n
unfolding hex_nyb
hex_nyb-hexd n h = ground (arith, h)

-- Decoding the hexadecimal text of any bytes gives them back.
pub hex_decode-hex_lower : (bs : Bytes) → All IsByte bs → hex_decode (hex_lower bs) ≡ some bs
unfolding hex_decode hex_lower
hex_decode-hex_lower [] h = refl
hex_decode-hex_lower (v ∷ vs) h =
    let whole : v / 16 * 16 + v % 16 ≡ v = omega arith in
    rw
      (
        hex_nyb-hexd (v / 16) (omega (arith, h.0)),
        hex_nyb-hexd (v % 16) (omega arith),
        hex_decode-hex_lower vs h.1,
        whole,
      )
      refl
