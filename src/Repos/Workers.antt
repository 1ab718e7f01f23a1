-- ===== src/Repos/Workers.antt =====
-- WorkerRepo (internal/infra/db/gormrepo/worker_repo.go).
use crawlerv.Prelude.{
  ℕ, suc, Bool, Option, none, some, List, [], ◌∷◌, ◌++◌, map, Bytes, bytes_eq, ◌==◌, if◌then◌else◌,
  codes,
}
use crawlerv.Store.Rows.{WorkerRow}
use crawlerv.Store.Sql.{first, count, update, sort_by}
use crawlerv.Store.World.{ok, err, M, query, execute, statement, unique_violation}
use crawlerv.FrontierRepo.Domains.{text_or_empty}
use crawlerv.Chunker.Split.{ℤ, pos, negsuc}
use crawlerv.Workers.Policy.{Worker}

-- encoding/json on the array of capabilities; what cannot be decoded is nil.
pub record CapsCodec : Type 0 where
  pub marshal : List Bytes → Bytes
  pub unmarshal : Bytes → List Bytes

unfoldable pub encode_caps : CapsCodec → List Bytes → Bytes
encode_caps j [] = codes "[]"
encode_caps j (c ∷ cs) = j.marshal (c ∷ cs)

unfoldable pub decode_caps : CapsCodec → Option Bytes → List Bytes
decode_caps j none = []
decode_caps j (some []) = []
decode_caps j (some (b ∷ bs)) = j.unmarshal (b ∷ bs)

unfoldable pub map_worker : CapsCodec → WorkerRow → Worker
unfolding decode_caps
map_worker j m = record {
  id = m.id;
  pat_hash = m.pat_hash;
  label = m.label;
  ip_last = text_or_empty m.ip_last;
  reputation_score = m.reputation_score;
  banned_at = m.banned_at;
  created_at = m.created_at;
  capabilities = decode_caps j m.capabilities;
  max_concurrent = m.max_concurrent;
  last_seen_at = m.last_seen_at;
}

abbrev pub stored_caps : CapsCodec → List Bytes → Option Bytes
stored_caps j [] = none
stored_caps j (c ∷ cs) = some (encode_caps j (c ∷ cs))

-- A reputation of 0 becomes 100, a limit of 0 becomes 4.
unfoldable pub new_row : CapsCodec → ℕ → Worker → ℕ → WorkerRow
unfolding encode_caps
new_row j now w id = record {
  id = id;
  pat_hash = w.pat_hash;
  label = w.label;
  ip_last = none;
  reputation_score = if w.reputation_score == 0 then 100 else w.reputation_score;
  banned_at = none;
  created_at = now;
  capabilities = stored_caps j w.capabilities;
  max_concurrent = if w.max_concurrent == 0 then 4 else w.max_concurrent;
  last_seen_at = none;
}

abbrev pub has_hash : Bytes → WorkerRow → Bool
has_hash h r = bytes_eq r.pat_hash h

unfoldable pub create : CapsCodec → ℕ → Worker → M ℕ
unfolding new_row
create j now w = statement λ d.
    if count (has_hash w.pat_hash) d.workers == 0
    then (
      ok d.next_worker_id,
      record d {
        workers = d.workers ++ new_row j now w d.next_worker_id ∷ [];
        next_worker_id = suc d.next_worker_id;
      },
    )
    else (err unique_violation, d)

abbrev pub mapped : CapsCodec → Option WorkerRow → Option Worker
mapped j none = none
mapped j (some m) = some (map_worker j m)

unfoldable pub find_by_pat_hash : CapsCodec → Bytes → M (Option Worker)
unfolding map_worker
find_by_pat_hash j h = query λ d. mapped j (first (has_hash h) d.workers)

unfoldable pub find_by_id : CapsCodec → ℕ → M (Option Worker)
unfolding map_worker
find_by_id j id = query λ d. mapped j (first (λ (r : WorkerRow). r.id == id) d.workers)

-- `Updates` of the row with an id: no row affected is no error.
abbrev pub update_worker : ℕ → (WorkerRow → WorkerRow) → M (Unit {0})
update_worker id set =
    execute λ d. (tt, record d { workers = update (λ (r : WorkerRow). r.id == id) set d.workers })

unfoldable pub touch_ip : ℕ → ℕ → Bytes → M (Unit {0})
touch_ip now id ip = update_worker id λ r. record r { ip_last = some ip; last_seen_at = some now }

unfoldable pub list : CapsCodec → M (List Worker)
unfolding map_worker
list j = query λ d. map (map_worker j) (sort_by (λ r. r.id) d.workers)

unfoldable pub update_capabilities : CapsCodec → ℕ → List Bytes → M (Unit {0})
unfolding encode_caps
update_capabilities j id caps =
    update_worker id λ r. record r { capabilities = some (encode_caps j caps) }

-- A negative limit is 0.
abbrev pub at_least_zero : ℤ → ℕ
at_least_zero (pos n) = n
at_least_zero (negsuc n) = 0

unfoldable pub update_max_concurrent : ℕ → ℤ → M (Unit {0})
update_max_concurrent id n = update_worker id λ r. record r { max_concurrent = at_least_zero n }

unfoldable pub ban : ℕ → ℕ → M (Unit {0})
ban now id = update_worker id λ r. record r { banned_at = some now }

unfoldable pub unban : ℕ → M (Unit {0})
unban id = update_worker id λ r. record r { banned_at = none }
