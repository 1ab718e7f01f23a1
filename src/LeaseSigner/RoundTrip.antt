-- ===== src/LeaseSigner/RoundTrip.antt =====
-- What a signed token verifies to.
use crawlerv.Prelude.{
  ℕ, zero, suc, ◌+◌, ◌*◌, ◌/◌, ◌%◌, ◌^◌, ◌<◌, ◌≤◌, ◌≡◌, refl, ap, ◌∙◌, false, some, [], ◌∷◌, ◌++◌,
  Bytes, bytes_eq, bytes_eq_refl, arith, ltb, ◌==◌, if◌then◌else◌, length, length-append,
  length-take, take, drop, All, All-append, All-take, Bool-cases, ==_iff, inl, inr,
}
use crawlerv.Chunker.Split.{pos}
use crawlerv.LeaseSigner.Token.{
  Crypto, IsCrypto, IsByte, uint64, int64, put_be, get_be, unix, is_after, signed_part, Verified,
  Verdict, accepted, expired, mismatch, sign, verified, verify_raw, verify, sign_chunk,
  verify_chunk,
}

get_be-append : (acc : ℕ) (xs : Bytes) (b : ℕ) → get_be acc (xs ++ b ∷ []) ≡ get_be acc xs * 256 + b
unfolding get_be
get_be-append acc [] b = refl
get_be-append acc (x ∷ xs) b = get_be-append (acc * 256 + x) xs b

abbrev bound : ℕ → ℕ
bound zero = 1
bound (suc k) = bound k * 256

get_be-put_be : (k n : ℕ) → n < bound k → get_be 0 (put_be k n) ≡ n
unfolding put_be get_be
get_be-put_be zero n h = omega (arith, h)
get_be-put_be (suc k) n h = omega (
  arith,
  get_be-append 0 (put_be k (n / 256)) (n % 256),
  get_be-put_be k (n / 256) (omega (arith, h)),
)

length-put_be : (k n : ℕ) → length (put_be k n) ≡ k
unfolding put_be
length-put_be zero n = refl
length-put_be (suc k) n =
    omega (arith, length-append (put_be k (n / 256)) ((n % 256) ∷ []), length-put_be k (n / 256))

put_be-bytes : (k n : ℕ) → All IsByte (put_be k n)
unfolding put_be
put_be-bytes zero n = tt
put_be-bytes (suc k) n =
    All-append IsByte (put_be k (n / 256)) _ (put_be-bytes k (n / 256)) (omega arith, tt)

take-append : (k : ℕ) (xs ys : Bytes) → length xs ≡ k → take k (xs ++ ys) ≡ xs
take-append zero [] ys h = ground arith
take-append zero (x ∷ xs) ys h = ground arith
take-append (suc k) [] ys h = ground arith
take-append (suc k) (x ∷ xs) ys h = ground (arith, take-append k xs ys)

drop-append : (k : ℕ) (xs ys : Bytes) → length xs ≡ k → drop k (xs ++ ys) ≡ ys
drop-append zero [] ys h = ground arith
drop-append zero (x ∷ xs) ys h = ground arith
drop-append (suc k) [] ys h = ground arith
drop-append (suc k) (x ∷ xs) ys h = ground (arith, drop-append k xs ys)

append_assoc : (xs ys zs : Bytes) → xs ++ ys ++ zs ≡ xs ++ (ys ++ zs)
append_assoc [] ys zs = refl
append_assoc (x ∷ xs) ys zs = ground (arith, append_assoc xs ys zs)

-- An id or a time that fits an int64 and is not negative.
int64-uint64 : (n : ℕ) → n < 2 ^ 63 → int64 (get_be 0 (put_be 8 (uint64 (pos n)))) ≡ pos n
unfolding int64 uint64
int64-uint64 n h =
    let small : n % 2 ^ 64 ≡ n = omega (arith, h) in
    rw (small, get_be-put_be 8 n (omega (arith, h))) (ground (arith, h))

-- The four fields of a token, at their offsets.
record IsLaidOut (raw hash worker expires mac : Bytes) : Type 0 where
  size : length raw ≡ 64
  at_part : take 48 raw ≡ hash ++ worker ++ expires
  at_mac : drop 48 raw ≡ mac
  at_hash : take 32 raw ≡ hash
  at_worker : take 8 (drop 32 raw) ≡ worker
  at_expires : take 8 (drop 40 raw) ≡ expires

fields-IsLaidOut :
    (hash worker expires mac : Bytes)
    → length hash ≡ 32
    → length worker ≡ 8
    → length expires ≡ 8
    → length mac ≡ 16
    → IsLaidOut ((hash ++ worker ++ expires) ++ mac) hash worker expires mac
fields-IsLaidOut hash worker expires mac h w e m =
    let part = hash ++ worker ++ expires in
    let l1 = length-append hash worker in
    let l2 = length-append (hash ++ worker) expires in
    let raw1 : part ++ mac ≡ hash ++ worker ++ (expires ++ mac) =
      append_assoc (hash ++ worker) expires mac in
    let raw2 : part ++ mac ≡ hash ++ (worker ++ (expires ++ mac)) =
      raw1 ∙ append_assoc hash worker (expires ++ mac) in
    record {
      size = omega (arith, length-append part mac, l1, l2, h, w, e, m);
      at_part = take-append 48 part mac (omega (arith, l1, l2, h, w, e));
      at_mac = drop-append 48 part mac (omega (arith, l1, l2, h, w, e));
      at_hash = ap (take 32) raw2 ∙ take-append 32 hash _ h;
      at_worker =
          ap (λ t. take 8 (drop 32 t)) raw2
          ∙ ap (take 8) (drop-append 32 hash _ h)
          ∙ take-append 8 worker _ w;
      at_expires =
          ap (λ t. take 8 (drop 40 t)) raw1
          ∙ ap (take 8) (drop-append 40 (hash ++ worker) _ (omega (arith, l1, h, w)))
          ∙ take-append 8 expires _ e;
    }

-- What a fresh token says, and until when: the whole second of its expiry.
abbrev pub verdict_on : ℕ → Bytes → ℕ → ℕ → Verdict
verdict_on now hash worker expires =
    let v : Verified = record {
      url_hash = hash;
      worker_id = pos worker;
      expires = pos (unix expires);
    } in
    if ltb (unix expires * 1000000) now then expired v else accepted v

module _ (c : Crypto) (law : IsCrypto c) (secret : Bytes) where
  abbrev raw_token : Bytes → ℕ → ℕ → Bytes
  raw_token hash worker expires =
      signed_part hash (pos worker) expires
      ++ take 16 (c.hmac secret (signed_part hash (pos worker) expires))

  token-IsLaidOut :
      (hash : Bytes) (worker expires : ℕ)
      → length hash ≡ 32
      → IsLaidOut
          (raw_token hash worker expires)
          hash
          (put_be 8 (uint64 (pos worker)))
          (put_be 8 (uint64 (pos (unix expires))))
          (take 16 (c.hmac secret (signed_part hash (pos worker) expires)))
  token-IsLaidOut hash worker expires h =
      fields-IsLaidOut hash _ _ _ h (length-put_be 8 _) (length-put_be 8 _) (
        omega (
          arith,
          length-take 16 (c.hmac secret (signed_part hash (pos worker) expires)),
          law.length-hmac secret (signed_part hash (pos worker) expires),
        ))

  verify_raw_signed :
      (now : ℕ) (hash : Bytes) (worker expires : ℕ)
      → length hash ≡ 32
      → worker < 2 ^ 63
      → unix expires < 2 ^ 63
      → verify_raw c secret now (raw_token hash worker expires) ≡ verdict_on now hash worker expires
  unfolding verify_raw
  verify_raw_signed now hash worker expires h w x =
      let l = token-IsLaidOut hash worker expires h in
      let content : verified c secret (raw_token hash worker expires)
          ≡ record { url_hash = hash; worker_id = pos worker; expires = pos (unix expires) } =
        rw
          (
            l.at_hash,
            l.at_worker,
            l.at_expires,
            int64-uint64 worker w,
            int64-uint64 (unix expires) x,
          )
          refl in
      let time : int64 (get_be 0 (take 8 (drop 40 (raw_token hash worker expires))))
          ≡ pos (unix expires) =
        ap (λ (v : Verified). v.expires) content in
      rw
        (
          l.size,
          l.at_part,
          l.at_mac,
          bytes_eq_refl (take 16 (c.hmac secret (signed_part hash (pos worker) expires))),
          content,
          time,
        )
        (unfold is_after in refl)

  raw_token-bytes :
      (hash : Bytes) (worker expires : ℕ)
      → All IsByte hash
      → All IsByte (raw_token hash worker expires)
  raw_token-bytes hash worker expires b =
      All-append IsByte (signed_part hash (pos worker) expires) _
        (All-append IsByte (hash ++ put_be 8 (uint64 (pos worker))) _
          (All-append IsByte hash _ b (put_be-bytes 8 _)) (put_be-bytes 8 _))
        (All-take IsByte 16 _ (law.hmac-bytes secret (signed_part hash (pos worker) expires)))

  -- A token that was signed for a hash of 32 bytes, a worker and an expiry verifies to these: accepted
  -- until the whole second of the expiry is over, and expired from then on. The ids and times are
  -- those of a non-negative int64.
  pub verify_signed :
      (now : ℕ) (hash : Bytes) (worker expires : ℕ) (token raw : Bytes)
      → All IsByte hash
      → worker < 2 ^ 63
      → unix expires < 2 ^ 63
      → sign c secret hash (pos worker) expires ≡ some (token, raw)
      → verify c secret now token ≡ verdict_on now hash worker expires
  unfolding sign verify
  verify_signed now hash worker expires token raw b w x h = elim (Bool-cases (length hash == 32)) [
    | inl y ↦
        let k = rw y at h in
        let t : token ≡ c.encode (raw_token hash worker expires) = ground (arith, k) in
        let d =
          law.decode-encode (raw_token hash worker expires)
            (raw_token-bytes hash worker expires b) in
        rw (t, verify, d) (verify_raw_signed now hash worker expires ((==_iff _ _).0 y) w x)
    | inr n ↦ let k = rw n at h in ground arith
  ]

  -- A chunk's token is accepted for a chunk until its expiry, if the two ids have the same SHA-256, and
  -- refused for any other.
  pub verify_signed_chunk :
      (now : ℕ) (uuid other : Bytes) (worker expires : ℕ) (token raw : Bytes)
      → worker < 2 ^ 63
      → unix expires < 2 ^ 63
      → now ≤ unix expires * 1000000
      → sign_chunk c secret uuid (pos worker) expires ≡ some (token, raw)
      → verify_chunk c secret now token other ≡ (
          if bytes_eq (c.sha256 uuid) (c.sha256 other)
          then accepted (record {
            url_hash = c.sha256 uuid;
            worker_id = pos worker;
            expires = pos (unix expires);
          })
          else mismatch)
  unfolding sign_chunk verify_chunk
  verify_signed_chunk now uuid other worker expires token raw w x t h =
      let fresh : ltb (unix expires * 1000000) now ≡ false = ground (arith, t) in
      rw
        (
          verify_signed now (c.sha256 uuid) worker expires token raw (law.sha256-bytes uuid) w x h,
          fresh,
        )
        refl
