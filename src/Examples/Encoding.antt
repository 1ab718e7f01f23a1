-- ===== src/Examples/Encoding.antt =====
-- Hexadecimal text at a concrete input.
use crawlerv.Prelude.{◌≡◌, some, [], ◌∷◌, arith}
use crawlerv.Http.Hex.{hex_lower, hex_decode, hex_decode-hex_lower}

hex_decode-hex_lower_example :
    hex_decode (hex_lower (0 ∷ 171 ∷ 255 ∷ [])) ≡ some (0 ∷ 171 ∷ 255 ∷ [])
hex_decode-hex_lower_example =
    hex_decode-hex_lower (0 ∷ 171 ∷ 255 ∷ []) (omega arith, (omega arith, (omega arith, tt)))
