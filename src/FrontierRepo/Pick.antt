-- ===== src/FrontierRepo/Pick.antt =====
-- The SELECT of `Reserve`: the eligible rows, ranked within their domain, and `politenessSQL`.
use crawlerv.Prelude.{
  ℕ, suc, ◌+◌, ◌*◌, ◌/◌, Bool, true, ◌&&◌, ◌||◌, Option, none, some, List, [], ◌∷◌, ◌++◌, Bytes,
  contains, bytes_eq, leb, ◌==◌, if◌then◌else◌, take,
}
use mathlib.Core.List.{Permᴰ}
use crawlerv.Store.Rows.{queued, Frontier, Domain, status_eq}
use crawlerv.Store.Sql.{count}
use crawlerv.Store.World.{Db}

pub data Driver : Type 0 where
  sqlite postgres mysql : Driver

-- Instants are microseconds. `db_now` is the reading of the database's own clock, `NOW()`. Postgres
-- and MySQL take the difference of the instants in milliseconds with their fractions; SQLite that of
-- the whole seconds, `strftime('%s', …)`.
unfoldable pub elapsed : Driver → ℕ → ℕ → ℕ → Bool
elapsed Driver.sqlite last now delay_ms =
    leb (last / 1000000 * 1000 + delay_ms) (now / 1000000 * 1000)
elapsed Driver.postgres last now delay_ms = leb (last + delay_ms * 1000) now
elapsed Driver.mysql last now delay_ms = leb (last + delay_ms * 1000) now

unfoldable pub is_polite : Driver → ℕ → Domain → Bool
unfolding elapsed
is_polite driver db_now d = elim d.last_request_at [
  | none ↦ true
  | some last ↦ elapsed driver last db_now d.crawl_delay_ms
]

-- The optional filter: no capabilities, or none required, or the required one among them.
unfoldable pub is_capable : List Bytes → Domain → Bool
is_capable [] d = true
is_capable (c ∷ cs) d = elim d.required_capability [
  | none ↦ true
  | some r ↦ bytes_eq r [] || contains (c ∷ cs) r
]

abbrev pub is_due : ℕ → Option ℕ → Bool
is_due now none = true
is_due now (some t) = leb t now

-- The join condition and the WHERE clause.
unfoldable pub is_eligible : Driver → ℕ → ℕ → List Bytes → Frontier → Domain → Bool
is_eligible driver now db_now caps cf d =
    (d.id == cf.domain_id)
    && status_eq cf.status queued
    && leb cf.scheduled_for now
    && is_due now cf.next_retry_at
    && d.is_active
    && is_polite driver db_now d
    && is_capable caps d

pub record Candidate : Type 0 where
  pub url_hash : Bytes
  pub domain_id : ℕ
  pub pf : ℕ
  pub priority : ℕ
  pub scheduled_for : ℕ

abbrev pub candidate : Frontier → Domain → Candidate
candidate cf d = record {
  url_hash = cf.url_hash;
  domain_id = cf.domain_id;
  pf = d.parallel_fetches;
  priority = cf.priority;
  scheduled_for = cf.scheduled_for;
}

module _ (driver : Driver) (now db_now : ℕ) (caps : List Bytes) where
  unfoldable pub candidates_of : Frontier → List Domain → List Candidate
  candidates_of cf [] = []
  candidates_of cf (d ∷ ds) =
      if is_eligible driver now db_now caps cf d
      then candidate cf d ∷ candidates_of cf ds
      else candidates_of cf ds

  unfoldable pub candidates : List Frontier → List Domain → List Candidate
  unfolding candidates_of
  candidates [] ds = []
  candidates (cf ∷ cfs) ds = candidates_of cf ds ++ candidates cfs ds

-- What the query leaves to the engine: an order of the candidates by priority and schedule, with
-- ties in any order, and the order in which the outer SELECT hands the rows to LIMIT.
pub record Engine : Type 0 where
  pub arrange : List Candidate → List Candidate
  pub arrange-perm : (cs : List Candidate) → Permᴰ cs (arrange cs)
  pub emit : List Candidate → List Candidate
  pub emit-perm : (cs : List Candidate) → Permᴰ cs (emit cs)

abbrev pub of_domain : ℕ → Candidate → Bool
of_domain d c = c.domain_id == d

-- ROW_NUMBER() over the partition of a row is one more than the rows of its domain before it;
-- `seen` holds these. A row stays if its number is at most `pf`.
unfoldable pub ranked : List Candidate → List Candidate → List Candidate
ranked seen [] = []
ranked seen (c ∷ cs) =
    let rest = ranked (c ∷ seen) cs in
    if leb (suc (count (of_domain c.domain_id) seen)) c.pf then c ∷ rest else rest

unfoldable pub picks : Engine → Driver → ℕ → ℕ → List Bytes → ℕ → Db → List Candidate
unfolding candidates ranked
picks e driver now db_now caps batch d =
    take batch (
      e.emit (ranked [] (e.arrange (candidates driver now db_now caps d.crawl_frontier d.domains))))
