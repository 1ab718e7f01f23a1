-- ===== src/LeaseSigner/Sound.antt =====
-- What an accepted token guarantees.
use crawlerv.Prelude.{
  ℕ, ◌≡◌, sym, ap, ◌∙◌, false, some, Bytes, bytes_eq, bytes_eq-eq, arith, ◌==◌, length, take, drop,
  Bool-cases, Option-cases, ==_iff, inl, inr,
}
use crawlerv.LeaseSigner.Token.{Crypto, is_after, Verified, accepted, verified, verify_raw, verify}

-- Whatever `Verify` accepts was decoded from 64 bytes of which the last 16 are the MAC of the first
-- 48 under the secret, and the time it names is not over.
pub verify_sound :
    (c : Crypto) (secret : Bytes) (now : ℕ) (token : Bytes) (v : Verified)
    → verify c secret now token ≡ accepted v
    → (raw : Bytes) × (c.decode token ≡ some raw)
      × (length raw ≡ 64)
      × (drop 48 raw ≡ take 16 (c.hmac secret (take 48 raw)))
      × (v ≡ verified c secret raw)
      × (is_after now v.expires ≡ false)
unfolding verify verify_raw
verify_sound c secret now token v h = elim (Option-cases (c.decode token)) [
  | inl e ↦ let k = rw (verify, e) at h in ground arith
  | inr (raw, e) ↦
      let k = rw (verify, e) at h in
      elim (Bool-cases (length raw == 64)) [
        | inr n ↦ let k2 = rw (verify_raw, n) at k in ground arith
        | inl y ↦
            let k2 = rw (verify_raw, y) at k in
            elim (Bool-cases (bytes_eq (take 16 (c.hmac secret (take 48 raw))) (drop 48 raw))) [
              | inr n ↦ let k3 = rw n at k2 in ground arith
              | inl z ↦
                  let k3 = rw z at k2 in
                  elim (Bool-cases (is_after now (verified c secret raw).expires)) [
                    | inl a ↦ let k4 = rw a at k3 in ground arith
                    | inr a ↦
                        let k4 = rw a at k3 in
                        let same : v ≡ verified c secret raw = ground (arith, k4) in
                        (
                          raw,
                          e,
                          (==_iff _ _).0 y,
                          sym (bytes_eq-eq _ _ z),
                          same,
                          ap (λ (u : Verified). is_after now u.expires) same ∙ a,
                        )
                  ]
            ]
      ]
]
