-- ===== src/FrontierRepo/Operator.antt =====
-- A heartbeat that shortens a lease.
use crawlerv.Prelude.{
  ℕ, ◌+◌, ◌<◌, ◌≤◌, ◌≡◌, sym, subst, ap, true, false, some, Bytes, bytes_eq_refl, arith,
}
use mathlib.Core.List.{Memᴰ}
use crawlerv.Store.Rows.{Frontier}
use crawlerv.Store.World.{Db, Result, ok, World}
use crawlerv.FrontierRepo.Types.{Failure}
use crawlerv.FrontierRepo.Queue.{has_hash, extended, heartbeat, is_expired, sweep_expired}
use crawlerv.FrontierRepo.Invariant.{Inv}
use crawlerv.FrontierRepo.Preservation.{heartbeat-Keeps}
use crawlerv.FrontierRepo.Held.{Memᴰ-update_self}
use crawlerv.FrontierRepo.Leases.{IsHolder, heartbeat_effect}
use crawlerv.FrontierRepo.Revoked.{Refused, all-Refused, IsRefused, sweep-IsRefused}

shortened-IsRefused :
    (h t : Bytes) (now extend x s : ℕ) (r : Frontier) (w : World) {e : ℕ} {w' : World} {n : ℕ}
    {u : World}
    → Inv w.db
    → IsHolder w.db.crawl_frontier h t r
    → r.lease_expires_at ≡ some x
    → now + extend < s
    → s ≤ x
    → heartbeat now h t extend w ≡ (ok e, w')
    → sweep_expired s w' ≡ (ok n, u)
    → (is_expired s r ≡ false) × IsRefused h t u.db
unfolding is_expired
shortened-IsRefused h t now extend x s r w {e} {w'} {n} {u} inv k until early late beat sweep =
    let (_, _, _, after) = heartbeat_effect now h t extend w inv beat in
    let hit : has_hash h r ≡ true = rw k.url (bytes_eq_refl h) in
    let there =
      Memᴰ-update_self (has_hash h) (extended (now + extend)) w.db.crawl_frontier r k.in_queue
        hit in
    (
      ground arith,
      sweep-IsRefused h t s (extended (now + extend) r) w'
          (subst (λ (z : World). Inv z.db) (ap (λ (p : Result ℕ × World). p.1) beat)
            ((heartbeat-Keeps now h t extend).apply w inv))
          (record {
            in_queue =
                subst (λ (d : Db). Memᴰ (extended (now + extend) r) d.crawl_frontier) (sym after)
                  there;
            url = k.url;
            status = k.status;
            token = k.token;
          })
          (ground arith) sweep,
    )

-- A heartbeat can take a lease away. Where a row was leased until x and the heartbeat's now + extend
-- is earlier, a sweep at a time s between the two would have left the row, and now takes it: from
-- then on every heartbeat, completion and failure under the token is refused.
pub heartbeat_shortens :
    (h t : Bytes) (now extend x s : ℕ) (r : Frontier) (w : World) {e : ℕ} {w' : World} {n : ℕ}
    {u : World} (now2 extend2 http_status2 backoff2 : ℕ) (f2 : Failure) (v : World)
    → Inv w.db
    → IsHolder w.db.crawl_frontier h t r
    → r.lease_expires_at ≡ some x
    → now + extend < s
    → s ≤ x
    → heartbeat now h t extend w ≡ (ok e, w')
    → sweep_expired s w' ≡ (ok n, u)
    → v.db ≡ u.db
    → (is_expired s r ≡ false) × Refused h t now2 extend2 http_status2 backoff2 f2 v
heartbeat_shortens h t now extend x s r w now2 extend2 s2 backoff2 f2 v inv k lease early late beat
      sweep at =
    let p = shortened-IsRefused h t now extend x s r w inv k lease early late beat sweep in
    (p.0, all-Refused h t _ now2 extend2 s2 backoff2 f2 v p.1 at)
