-- ===== src/LeaseSigner/Token.antt =====
-- internal/infra/lease: lease.go, chunk_lease.go and task_lease.go.
use crawlerv.Prelude.{
  ℕ, zero, suc, ◌+◌, ◌-◌, ◌*◌, ◌/◌, ◌%◌, ◌^◌, ◌<◌, ◌≡◌, Bool, true, not, Option, none, some, [],
  ◌∷◌, ◌++◌, Bytes, bytes_eq, ltb, ◌==◌, if◌then◌else◌, length, take, drop, All,
}
use crawlerv.Chunker.Split.{ℤ, pos, negsuc}

-- The packages of the standard library that the signer calls: crypto/hmac over crypto/sha256,
-- crypto/sha256, and base64.RawURLEncoding.
pub record Crypto : Type 0 where
  pub hmac : Bytes → Bytes → Bytes
  pub sha256 : Bytes → Bytes
  pub encode : Bytes → Bytes
  pub decode : Bytes → Option Bytes

abbrev pub IsByte : ℕ → Type 0
IsByte n = n < 256

-- What the signer relies on: digests of 32 bytes, and an encoding that decodes.
pub record IsCrypto (c : Crypto) : Type 0 where
  pub length-hmac : (secret text : Bytes) → length (c.hmac secret text) ≡ 32
  pub hmac-bytes : (secret text : Bytes) → All IsByte (c.hmac secret text)
  pub length-sha256 : (text : Bytes) → length (c.sha256 text) ≡ 32
  pub sha256-bytes : (text : Bytes) → All IsByte (c.sha256 text)
  pub decode-encode : (b : Bytes) → All IsByte b → c.decode (c.encode b) ≡ some b

-- `uint64(n)` of an int64, and back.
unfoldable pub uint64 : ℤ → ℕ
uint64 (pos n) = n % 2 ^ 64
uint64 (negsuc n) = 2 ^ 64 - 1 - n % 2 ^ 64

unfoldable pub int64 : ℕ → ℤ
int64 n = if ltb n (2 ^ 63) then pos n else negsuc (2 ^ 64 - 1 - n)

-- `binary.BigEndian.PutUint64` into `k` bytes, and `Uint64` after the value `acc`.
unfoldable pub put_be : ℕ → ℕ → Bytes
put_be zero n = []
put_be (suc k) n = put_be k (n / 256) ++ (n % 256) ∷ []

unfoldable pub get_be : ℕ → Bytes → ℕ
get_be acc [] = acc
get_be acc (b ∷ bs) = get_be (acc * 256 + b) bs

-- `expires.Unix()`: the whole seconds of an instant in microseconds.
abbrev pub unix : ℕ → ℕ
unix t = t / 1000000

-- `time.Now().After(time.Unix(seconds, 0))`
unfoldable pub is_after : ℕ → ℤ → Bool
is_after now (pos s) = ltb (s * 1000000) now
is_after now (negsuc s) = true

abbrev pub signed_part : Bytes → ℤ → ℕ → Bytes
signed_part hash worker expires =
    hash ++ put_be 8 (uint64 worker) ++ put_be 8 (uint64 (pos (unix expires)))

pub record Verified : Type 0 where
  pub url_hash : Bytes
  pub worker_id : ℤ
  pub expires : ℤ

pub data Verdict : Type 0 where
  accepted : Verified → Verdict
  bad_encoding : Verdict
  bad_length : Verdict
  bad_signature : Verdict
  expired : Verified → Verdict  -- the values are returned beside the error
  mismatch : Verdict

module _ (c : Crypto) (secret : Bytes) where
  -- `none` is the panic on a hash that has not 32 bytes.
  unfoldable pub sign : Bytes → ℤ → ℕ → Option (Bytes × Bytes)
  unfolding uint64 put_be
  sign hash worker expires =
      let raw =
        signed_part hash worker expires
        ++ take 16 (c.hmac secret (signed_part hash worker expires)) in
      if length hash == 32 then some (c.encode raw, raw) else none

  abbrev pub verified : Bytes → Verified
  verified raw = record {
    url_hash = take 32 raw;
    worker_id = int64 (get_be 0 (take 8 (drop 32 raw)));
    expires = int64 (get_be 0 (take 8 (drop 40 raw)));
  }

  unfoldable pub verify_raw : ℕ → Bytes → Verdict
  unfolding int64 get_be is_after
  verify_raw now raw =
      if not (length raw == 64)
      then bad_length
      else if not (bytes_eq (take 16 (c.hmac secret (take 48 raw))) (drop 48 raw))
      then bad_signature
      else if is_after now (verified raw).expires
      then expired (verified raw)
      else accepted (verified raw)

  unfoldable pub verify : ℕ → Bytes → Verdict
  unfolding verify_raw
  verify now token = elim (c.decode token) [ none ↦ bad_encoding | some raw ↦ verify_raw now raw ]

  unfoldable pub raw_of : Bytes → Option Bytes
  raw_of token = elim (c.decode token) [
    | none ↦ none
    | some raw ↦ if length raw == 64 then some raw else none
  ]

  unfoldable pub sign_chunk : Bytes → ℤ → ℕ → Option (Bytes × Bytes)
  unfolding sign
  sign_chunk uuid worker expires = sign (c.sha256 uuid) worker expires

  -- `equalConstantTime` after `Verify`; an error of `Verify` is passed on.
  abbrev pub match_hash : Bytes → Verdict → Verdict
  match_hash want (accepted v) = if bytes_eq v.url_hash want then accepted v else mismatch
  match_hash want other = other

  unfoldable pub verify_chunk : ℕ → Bytes → Bytes → Verdict
  unfolding verify
  verify_chunk now token uuid = match_hash (c.sha256 uuid) (verify now token)

  -- "task:", three zero bytes, and the id.
  unfoldable pub task_hash : ℤ → Bytes
  unfolding uint64 put_be
  task_hash id = c.sha256 ((116 ∷ 97 ∷ 115 ∷ 107 ∷ 58 ∷ 0 ∷ 0 ∷ 0 ∷ []) ++ put_be 8 (uint64 id))

  unfoldable pub sign_task : ℤ → ℤ → ℕ → Option (Bytes × Bytes)
  unfolding sign task_hash
  sign_task id worker expires = sign (task_hash id) worker expires

  unfoldable pub verify_task : ℕ → Bytes → ℤ → Verdict
  unfolding verify task_hash
  verify_task now token id = match_hash (task_hash id) (verify now token)
