-- ===== src/Http/Auth.antt =====
-- internal/infra/http/auth.go.
use crawlerv.Prelude.{
  ℕ, suc, Option, none, some, [], ◌∷◌, Bytes, bytes_eq, codes, ◌==◌, ltb, if◌then◌else◌, take,
}
use crawlerv.Store.World.{M, ◌>>=◌, caught}
use crawlerv.Workers.Policy.{Worker, is_banned}
use crawlerv.Repos.Workers.{CapsCodec, find_by_pat_hash, touch_ip}
use crawlerv.Http.Replies.{Reply, reject, or_reject}

-- The parts of a request that are read, and the functions of packages strings and sha256.
pub record Request : Type 0 where
  pub authorization : Bytes
  pub forwarded_for : Bytes
  pub remote_addr : Bytes

pub record Text : Type 0 where
  pub trim_space : Bytes → Bytes
  pub sha256 : Bytes → Bytes

-- What follows a prefix.
unfoldable pub after_prefix : Bytes → Bytes → Option Bytes
after_prefix [] s = some s
after_prefix (p ∷ ps) [] = none
after_prefix (p ∷ ps) (b ∷ bs) = let rest = after_prefix ps bs in if p == b then rest else none

-- The first and the last index of a byte, from `i` on.
unfoldable pub index_from : ℕ → ℕ → Bytes → Option ℕ
index_from c i [] = none
index_from c i (b ∷ bs) = let rest = index_from c (suc i) bs in if b == c then some i else rest

abbrev pub later : Option ℕ → Option ℕ → Option ℕ
later i none = i
later i (some j) = some j

unfoldable pub last_index_from : ℕ → ℕ → Bytes → Option ℕ
last_index_from c i [] = none
last_index_from c i (b ∷ bs) =
    later (if b == c then some i else none) (last_index_from c (suc i) bs)

-- What stands before an index beyond 0, and otherwise all of it.
abbrev pub before_index : Bytes → Option ℕ → Bytes
before_index s none = s
before_index s (some i) = if ltb 0 i then take i s else s

module _ (t : Text) where
  unfoldable pub bearer : Request → Bytes
  unfolding after_prefix
  bearer r = elim (after_prefix (codes "Bearer ") r.authorization) [
    | none ↦ []
    | some token ↦ t.trim_space token
  ]

  unfoldable pub client_ip : Request → Bytes
  unfolding index_from last_index_from
  client_ip r =
      if bytes_eq r.forwarded_for []
      then before_index r.remote_addr (last_index_from 58 0 r.remote_addr)
      else t.trim_space (before_index r.forwarded_for (index_from 44 0 r.forwarded_for))

  module _ {A : Type 0} (j : CapsCodec) (now : ℕ) (r : Request) (next : Worker → M (Reply A)) where
    abbrev pub serve : Option Worker → M (Reply A)
    serve none = reject 401 (codes "unknown_pat")
    serve (some k) =
        if is_banned k
        then reject 403 (codes "banned")
        else (caught (touch_ip now k.id (client_ip r)) >>= λ _. next k)

    -- The worker of the request's token is the argument of the next handler.
    unfoldable pub pat_auth : M (Reply A)
    unfolding bearer client_ip
    pat_auth =
        let token = bearer r in
        if bytes_eq token []
        then reject 401 (codes "missing_bearer")
        else or_reject 500 (codes "auth_lookup") (find_by_pat_hash j (t.sha256 token)) serve
