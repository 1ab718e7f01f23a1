-- ===== src/LeaseSigner/Service.antt =====
-- internal/app/service.go: ReserveJobs, Heartbeat and AcceptFailure, which check a token before the
-- repository does.
use crawlerv.Prelude.{
  ℕ, ◌*◌, ◌<◌, ◌^◌, ◌≡◌, refl, true, Option, none, some, [], Bytes, arith, ltb, All,
}
use crawlerv.Chunker.Split.{pos}
use crawlerv.Store.World.{err, World, M, fail, bad_lease}
use crawlerv.FrontierRepo.Types.{Failure}
use crawlerv.FrontierRepo.Queue.{heartbeat, fail_lease}
use crawlerv.LeaseSigner.Token.{
  Crypto, IsCrypto, IsByte, unix, Verdict, accepted, sign, verify, raw_of,
}
use crawlerv.LeaseSigner.RoundTrip.{verify_signed}

-- `raw, _ := lease.Raw(token)`: nil if it fails.
abbrev pub raw_bytes : Option Bytes → Bytes
raw_bytes none = []
raw_bytes (some b) = b

module _ (c : Crypto) (secret : Bytes) where
  -- What follows an accepted token; every other verdict is an error before any statement.
  abbrev pub with_hash : {A : Type 0} → Verdict → (Bytes → M A) → M A
  with_hash (accepted v) k = k v.url_hash
  with_hash other k = fail bad_lease

  -- `extend` is Cfg.HeartbeatExtend; the token's check and the repository read the clock.
  unfoldable pub service_heartbeat : ℕ → ℕ → Bytes → M ℕ
  unfolding verify raw_of
  service_heartbeat now extend token =
      with_hash (verify c secret now token)
        λ h. heartbeat now h (raw_bytes (raw_of c secret token)) extend

  -- `backoff` is Cfg.DefaultBackoff.
  unfoldable pub accept_failure : ℕ → ℕ → Bytes → Failure → M (Unit {0})
  unfolding verify raw_of
  accept_failure now backoff token f =
      with_hash (verify c secret now token)
        λ h. fail_lease now h (raw_bytes (raw_of c secret token)) f backoff

-- Once the second of the expiry that a token was signed with is over, the service refuses a heartbeat
-- and a failure report under it, and touches no table, even if earlier heartbeats have moved the
-- expiry in the table further.
pub expired-IsRefused :
    (c : Crypto) (secret : Bytes) (now extend backoff : ℕ) (hash : Bytes) (worker expires : ℕ)
    (token raw : Bytes) (f : Failure) (w : World)
    → IsCrypto c
    → All IsByte hash
    → worker < 2 ^ 63
    → unix expires < 2 ^ 63
    → unix expires * 1000000 < now
    → sign c secret hash (pos worker) expires ≡ some (token, raw)
    → (service_heartbeat c secret now extend token w ≡ (err bad_lease, w))
      × (accept_failure c secret now backoff token f w ≡ (err bad_lease, w))
unfolding service_heartbeat accept_failure fail
expired-IsRefused c secret now extend backoff hash worker expires token raw f w law b wk x late h =
    let over : ltb (unix expires * 1000000) now ≡ true = ground (arith, late) in
    let v = verify_signed c law secret now hash worker expires token raw b wk x h in
    (rw (v, over) refl, rw (v, over) refl)
