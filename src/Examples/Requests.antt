-- ===== src/Examples/Requests.antt =====
-- A request of a known worker at a concrete input.
use crawlerv.Prelude.{ℕ, ◌≡◌, refl, none, some, List, [], ◌∷◌, Bytes, codes}
use crawlerv.Store.Rows.{WorkerRow}
use crawlerv.Store.World.{Db, World, ok, M, pure}
use crawlerv.Workers.Policy.{Worker}
use crawlerv.Repos.Workers.{CapsCodec}
use crawlerv.Http.Replies.{Reply, answered}
use crawlerv.Http.Auth.{Request, Text, pat_auth}
use crawlerv.Http.Admitted.{IsAdmitted, Served, pat_auth-IsAdmitted}
use crawlerv.Examples.Fixtures.{crawl_db, steady}

-- The digest is a stand-in: one byte before the text.
text : Text
text = record { trim_space = λ b. b; sha256 = λ b. 1 ∷ b }

caps : CapsCodec
caps = record { marshal = λ cs. []; unmarshal = λ b. [] }

request : Request
request = record {
  authorization = codes "Bearer pat";
  forwarded_for = codes "10.0.0.1, 10.0.0.2";
  remote_addr = codes "10.0.0.3:4711";
}

known : WorkerRow
known = record {
  id = 4;
  pat_hash = 1 ∷ codes "pat";
  label = codes "a worker";
  ip_last = none;
  reputation_score = 100;
  banned_at = none;
  created_at = 1;
  capabilities = none;
  max_concurrent = 4;
  last_seen_at = none;
}

workers_db : Db
workers_db = record crawl_db { workers = known ∷ [] }

answer_id : Worker → M (Reply ℕ)
answer_id k = pure (answered k.id)

request_end : World
request_end = (pat_auth text caps 5 request answer_id (steady workers_db)).1

pat_auth-IsAdmitted_example :
    (m : WorkerRow) × IsAdmitted text request workers_db m
    × Served text caps 5 request answer_id 4 m request_end
unfolding request_end pat_auth crawlerv.Prelude.bytes_eq request text crawlerv.Store.World.◌>>=◌
    crawlerv.Store.World.caught crawlerv.Repos.Workers.find_by_pat_hash crawlerv.Store.World.query
    crawlerv.Store.Sql.first workers_db known answer_id pure
pat_auth-IsAdmitted_example =
    pat_auth-IsAdmitted text caps 5 request answer_id 4 (steady workers_db) request_end refl
