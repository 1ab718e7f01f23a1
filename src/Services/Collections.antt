-- ===== src/Services/Collections.antt =====
-- CollectionResolver (internal/app/collection.go).
use crawlerv.Prelude.{ℕ, Bool, true, false, Option, none, some, [], ◌∷◌, Bytes}
use crawlerv.Store.World.{Result, ok, err, M, pure, ◌>>=◌, caught}
use crawlerv.FrontierRepo.Queue.{domain_id_by_url_hash}
use crawlerv.FrontierRepo.Domains.{DomainRow, get_by_id}
use crawlerv.Repos.Lake.{Object, get_by_id as get_lake_by_id}

abbrev pub override_or_host : Bytes → Bytes → Bytes
override_or_host [] host = host
override_or_host (b ∷ bs) host = b ∷ bs

abbrev pub collection_of : Option DomainRow → Bytes
collection_of none = []
collection_of (some dom) = override_or_host dom.embed_collection dom.host

unfoldable pub walk_domain : Option Object → M Bytes
walk_domain none = pure []
walk_domain (some o) = do
  id ← domain_id_by_url_hash o.url_hash
  dom ← get_by_id id
  pure (collection_of dom)

abbrev pub or_empty : Result Bytes → Bytes
or_empty (ok name) = name
or_empty (err e) = []

-- Any failure gives the empty name.
unfoldable pub resolve_for_lake_object : ℕ → M Bytes
unfolding walk_domain
resolve_for_lake_object lake_id = do
  r ← caught do o ← get_lake_by_id lake_id; walk_domain o
  pure (or_empty r)

-- The resolver is optional in the services.
unfoldable pub resolve_collection : Bool → ℕ → M Bytes
unfolding resolve_for_lake_object
resolve_collection true lake_id = resolve_for_lake_object lake_id
resolve_collection false lake_id = pure []
