-- ===== src/Http/Replies.antt =====
-- What an HTTP handler answers (internal/infra/http/json.go), and the bodies that it reads. Parsing
-- and printing of JSON and of multipart forms are outside: a body comes parsed or as unreadable.
use crawlerv.Prelude.{ℕ, Bytes, codes}
use crawlerv.Store.World.{panic, Result, ok, err, M, pure, fail, ◌>>=◌, caught}

-- `writeJSON` with 200, or `writeError` with a status and a code.
pub data Reply (A : Type 0) : Type 0 where
  answered : A → Reply A
  rejected : (status : ℕ) → (code : Bytes) → Reply A

pub data Body (A : Type 0) : Type 0 where
  absent unreadable : Body A
  decoded : A → Body A

abbrev pub reject : {A : Type 0} → ℕ → Bytes → M (Reply A)
reject status code = pure (rejected status code)

-- A body that the handler may do without.
abbrev pub with_optional : {A B : Type 0} → A → Body A → (A → M (Reply B)) → M (Reply B)
with_optional zero absent k = k zero
with_optional zero unreadable k = reject 400 (codes "bad_json")
with_optional zero (decoded a) k = k a

-- A body that it needs: an absent one is an error of the decoder.
abbrev pub with_body : {A B : Type 0} → Body A → (A → M (Reply B)) → M (Reply B)
with_body (decoded a) k = k a
with_body _ k = reject 400 (codes "bad_json")

-- An error of the service is a reply; a panic is not.
abbrev pub outcome_of : {A B : Type 0} → ℕ → Bytes → (A → M (Reply B)) → Result A → M (Reply B)
outcome_of status code k (ok a) = k a
outcome_of status code k (err panic) = fail panic
outcome_of status code k (err _) = reject status code

abbrev pub or_reject : {A B : Type 0} → ℕ → Bytes → M A → (A → M (Reply B)) → M (Reply B)
or_reject status code m k = caught m >>= outcome_of status code k
