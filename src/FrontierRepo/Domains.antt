-- ===== src/FrontierRepo/Domains.antt =====
-- FrontierRepo: the DomainRepo part.
use crawlerv.Prelude.{
  map, List, ℕ, suc, Bool, true, Option, none, some, [], ◌∷◌, ◌++◌, Bytes, bytes_eq, ◌==◌, leb,
  if◌then◌else◌,
}
use crawlerv.Store.Rows.{Domain}
use crawlerv.Store.Sql.{sort_by, first, count, update}
use crawlerv.Store.World.{ok, err, M, pure, ◌>>=◌, query, execute, statement, domain_not_found}

-- frontier.DomainRow, the projection that the services see.
pub record DomainRow : Type 0 where
  pub id : ℕ
  pub host : Bytes
  pub scheme : Bytes
  pub is_active : Bool
  pub crawl_delay_ms : ℕ
  pub parallel_fetches : ℕ
  pub embed_collection : Bytes
  pub required_capability : Bytes

abbrev pub text_or_empty : Option Bytes → Bytes
text_or_empty none = []
text_or_empty (some t) = t

unfoldable pub map_domain : Domain → DomainRow
map_domain d = record {
  id = d.id;
  host = d.host;
  scheme = d.scheme;
  is_active = d.is_active;
  crawl_delay_ms = d.crawl_delay_ms;
  parallel_fetches = d.parallel_fetches;
  embed_collection = text_or_empty d.embed_collection;
  required_capability = text_or_empty d.required_capability;
}

abbrev pub has_host : Bytes → Domain → Bool
has_host h d = bytes_eq d.host h

unfoldable pub new_domain : ℕ → Bytes → Bytes → ℕ → ℕ → Domain
new_domain now host scheme delay_ms id = record {
  id = id;
  host = host;
  scheme = scheme;
  is_active = true;
  crawl_delay_ms = delay_ms;
  parallel_fetches = 1;
  robots_body = none;
  robots_fetched_at = none;
  last_request_at = none;
  created_at = now;
  embed_collection = none;
  required_capability = none;
}

unfoldable pub create_domain : (ℕ → Domain) → M Domain
create_domain make = execute λ d. (
  make d.next_domain_id,
  record d {
    domains = d.domains ++ make d.next_domain_id ∷ [];
    next_domain_id = suc d.next_domain_id;
  },
)

unfoldable pub upsert_by_host : ℕ → Bytes → Bytes → ℕ → M DomainRow
unfolding create_domain
upsert_by_host now host scheme delay_ms = do
  existing ← query (λ d. first (has_host host) d.domains)
  elim existing [
    | some d ↦ pure (map_domain d)
    | none ↦ (create_domain (new_domain now host scheme delay_ms) >>= λ d. pure (map_domain d))
  ]

unfoldable pub find_by_host : Bytes → M (Option DomainRow)
find_by_host host = do
  found ← query (λ d. first (has_host host) d.domains)
  pure (elim found [ none ↦ none | some d ↦ some (map_domain d) ])

unfoldable pub get_by_id : ℕ → M (Option DomainRow)
get_by_id id = do
  found ← query (λ d. first (λ (x : Domain). x.id == id) d.domains)
  pure (elim found [ none ↦ none | some d ↦ some (map_domain d) ])

-- The shape of every update of a domain: no row of that host is an error.
unfoldable pub update_host : Bytes → (Domain → Domain) → M (Unit {0})
update_host host set = statement λ d.
    if count (has_host host) d.domains == 0
    then (err domain_not_found, d)
    else (ok tt, record d { domains = update (has_host host) set d.domains })

unfoldable pub update_crawl_delay : Bytes → ℕ → M (Unit {0})
unfolding update_host
update_crawl_delay host ms = update_host host λ d. record d { crawl_delay_ms = ms }

-- At least 1.
unfoldable pub update_parallel_fetches : Bytes → ℕ → M (Unit {0})
unfolding update_host
update_parallel_fetches host n =
    update_host host λ d. record d { parallel_fetches = if leb n 0 then 1 else n }

unfoldable pub update_scheme : Bytes → Bytes → M (Unit {0})
unfolding update_host
update_scheme host scheme = update_host host λ d. record d { scheme = scheme }

-- The empty string is stored as NULL.
abbrev pub null_if_empty : Bytes → Option Bytes
null_if_empty [] = none
null_if_empty (b ∷ bs) = some (b ∷ bs)

unfoldable pub update_required_capability : Bytes → Bytes → M (Unit {0})
unfolding update_host
update_required_capability host capability =
    update_host host λ d. record d { required_capability = null_if_empty capability }

unfoldable pub update_embed_collection : Bytes → Bytes → M (Unit {0})
unfolding update_host
update_embed_collection host collection =
    update_host host λ d. record d { embed_collection = null_if_empty collection }

unfoldable pub set_active : Bytes → Bool → M (Unit {0})
unfolding update_host
set_active host active = update_host host λ d. record d { is_active = active }

unfoldable pub list_domains : M (List DomainRow)
unfolding map_domain
list_domains = query λ d. map map_domain (sort_by (λ r. r.id) d.domains)
