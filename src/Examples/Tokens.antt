-- ===== src/Examples/Tokens.antt =====
-- Lease tokens at concrete inputs.
use crawlerv.Prelude.{
  ℕ, ◌<◌, ◌≡◌, refl, true, false, Option, none, some, List, [], ◌∷◌, Bytes, codes, All, length,
  take, drop, arith,
}
use crawlerv.Store.World.{err, bad_lease}
use crawlerv.Chunker.Split.{pos}
use crawlerv.LeaseSigner.Token.{
  Crypto, IsCrypto, IsByte, accepted, sign, verify, verified, sign_chunk, verify_chunk, is_after,
}
use crawlerv.LeaseSigner.RoundTrip.{verdict_on, verify_signed, verify_signed_chunk}
use crawlerv.LeaseSigner.Sound.{verify_sound}
use crawlerv.LeaseSigner.Service.{service_heartbeat, accept_failure, expired-IsRefused}
use crawlerv.Examples.Fixtures.{crawl_db, steady, failure}

zeros : Bytes
zeros =
    0 ∷ 0 ∷ 0 ∷ 0 ∷ 0 ∷ 0 ∷ 0 ∷ 0 ∷ 0 ∷ 0 ∷ 0 ∷ 0 ∷ 0 ∷ 0 ∷ 0 ∷ 0 ∷ 0 ∷ 0 ∷ 0 ∷ 0 ∷ 0 ∷ 0 ∷ 0 ∷ 0
    ∷ 0 ∷ 0 ∷ 0 ∷ 0 ∷ 0 ∷ 0 ∷ 0 ∷ 0 ∷ []

-- Toy digests of the right length.
toy : Crypto
toy = record { hmac = λ k b. zeros; sha256 = λ b. zeros; encode = λ b. b; decode = λ b. some b }

zeros-bytes : All IsByte zeros
unfolding zeros
zeros-bytes = ground arith

toy-IsCrypto : IsCrypto toy
unfolding toy zeros
toy-IsCrypto = record {
  length-hmac = λ k b. refl;
  hmac-bytes = λ k b. zeros-bytes;
  length-sha256 = λ b. refl;
  sha256-bytes = λ b. zeros-bytes;
  decode-encode = λ b h. refl;
}

secret : Bytes
secret = codes "0123456789abcdef"

pair : Option (Bytes × Bytes) → Bytes × Bytes
pair none = ([], [])
pair (some p) = p

-- Worker 3, until the second 100.
signed : Bytes × Bytes
signed = pair (sign toy secret zeros (pos 3) 100000000)

verify_signed_example : verify toy secret 99000000 signed.0 ≡ verdict_on 99000000 zeros 3 100000000
unfolding signed pair sign toy zeros
verify_signed_example =
    verify_signed toy toy-IsCrypto secret 99000000 zeros 3 100000000 signed.0 signed.1 zeros-bytes
      (omega arith) (omega arith) refl

verify_signed_chunk_example :
    verify_chunk toy secret 99000000 signed.0 (codes "y")
    ≡ accepted (record { url_hash = zeros; worker_id = pos 3; expires = pos 100 })
unfolding signed pair sign_chunk toy zeros crawlerv.Prelude.bytes_eq
verify_signed_chunk_example =
    verify_signed_chunk toy toy-IsCrypto secret 99000000 (codes "x") (codes "y") 3 100000000
      signed.0 signed.1 (omega arith) (omega arith) (omega arith) refl

verify_sound_example :
    (raw : Bytes) × (toy.decode signed.0 ≡ some raw)
    × (length raw ≡ 64)
    × (drop 48 raw ≡ take 16 (toy.hmac secret (take 48 raw)))
    × (verified toy secret signed.1 ≡ verified toy secret raw)
    × (is_after 99000000 (verified toy secret signed.1).expires ≡ false)
unfolding signed pair sign verify toy zeros crawlerv.Prelude.bytes_eq
verify_sound_example = verify_sound toy secret 99000000 signed.0 (verified toy secret signed.1) refl

expired-IsRefused_example :
    (service_heartbeat toy secret 100000001 60000000 signed.0 (steady crawl_db)
      ≡ (err bad_lease, steady crawl_db))
    × (accept_failure toy secret 100000001 30000000 signed.0 failure (steady crawl_db)
        ≡ (err bad_lease, steady crawl_db))
unfolding signed pair sign toy zeros
expired-IsRefused_example =
    expired-IsRefused toy secret 100000001 60000000 30000000 zeros 3 100000000 signed.0 signed.1
      failure (steady crawl_db) toy-IsCrypto zeros-bytes (omega arith) (omega arith) (omega arith)
      refl
