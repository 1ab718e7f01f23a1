-- ===== src/Repos/CollectionConfig.antt =====
-- CollectionConfigRepo (internal/infra/db/gormrepo/collection_config_repo.go) and
-- CollectionConfigResolver (internal/app/collection_config.go).
use crawlerv.Prelude.{
  ℕ, Bool, true, false, Option, none, some, List, [], ◌∷◌, ◌++◌, map, Bytes, bytes_eq, ltb,
  if◌then◌else◌,
}
use crawlerv.Store.Rows.{Collection}
use crawlerv.Store.Sql.{first, update, delete}
use crawlerv.Store.World.{
  Error, Result, ok, err, M, pure, ◌>>=◌, caught, query, execute, statement, collection_not_found,
}
use crawlerv.Chunker.Split.{ℤ, pos, negsuc, Config}

pub record CollectionConfig : Type 0 where
  pub name : Bytes
  pub chunk_tokens : ℤ
  pub overlap_prev : ℤ
  pub overlap_next : ℤ
  pub tokenizer : Bytes

abbrev pub has_name : Bytes → Collection → Bool
has_name name r = bytes_eq r.name name

unfoldable pub map_collection_config : Collection → CollectionConfig
map_collection_config m = record {
  name = m.name;
  chunk_tokens = m.chunk_tokens;
  overlap_prev = m.overlap_prev;
  overlap_next = m.overlap_next;
  tokenizer = m.tokenizer;
}

unfoldable pub get : Bytes → M CollectionConfig
unfolding map_collection_config
get name = statement λ d. elim (first (has_name name) d.collections) [
  | some m ↦ (ok (map_collection_config m), d)
  | none ↦ (err collection_not_found, d)
]

unfoldable pub new_row : ℕ → CollectionConfig → Collection
new_row now cfg = record {
  name = cfg.name;
  chunk_tokens = cfg.chunk_tokens;
  overlap_prev = cfg.overlap_prev;
  overlap_next = cfg.overlap_next;
  tokenizer = cfg.tokenizer;
  created_at = now;
  updated_at = now;
}

-- The columns that a conflict assigns: all but the name and `created_at`.
unfoldable pub reassigned : ℕ → CollectionConfig → Collection → Collection
reassigned now cfg r = record r {
  chunk_tokens = cfg.chunk_tokens;
  overlap_prev = cfg.overlap_prev;
  overlap_next = cfg.overlap_next;
  tokenizer = cfg.tokenizer;
  updated_at = now;
}

unfoldable pub upsert : ℕ → CollectionConfig → M (Unit {0})
unfolding new_row reassigned
upsert now cfg = execute λ d. (
  tt,
  record d {
    collections = elim (first (has_name cfg.name) d.collections) [
      | none ↦ d.collections ++ new_row now cfg ∷ []
      | some r ↦ update (has_name cfg.name) (reassigned now cfg) d.collections
    ];
  },
)

-- `by_name` is the engine's `ORDER BY name`.
unfoldable pub list : (List Collection → List Collection) → M (List CollectionConfig)
unfolding map_collection_config
list by_name = query λ d. map map_collection_config (by_name d.collections)

unfoldable pub delete_name : Bytes → M (Unit {0})
delete_name name =
    execute λ d. (tt, record d { collections = delete (has_name name) d.collections })

abbrev pub if_positive : ℤ → ℤ → ℤ
if_positive (pos n) old = if ltb 0 n then pos n else old
if_positive (negsuc n) old = old

abbrev pub unless_negative : ℤ → ℤ → ℤ
unless_negative (pos n) old = pos n
unless_negative (negsuc n) old = old

unfoldable pub merged : Config → CollectionConfig → Config
merged base cfg = record {
  chunk_tokens = if_positive cfg.chunk_tokens base.chunk_tokens;
  overlap_prev = unless_negative cfg.overlap_prev base.overlap_prev;
  overlap_next = unless_negative cfg.overlap_next base.overlap_next;
}

-- What the resolver answers: the configuration, whether it came from the table, and the error.
pub record Resolved : Type 0 where
  pub config : Config
  pub from_table : Bool
  pub error : Option Error

abbrev pub default_of : Config → Option Error → Resolved
default_of base e = record { config = base; from_table = false; error = e }

unfoldable pub resolved : Config → Result CollectionConfig → Resolved
unfolding merged
resolved base (ok cfg) = record { config = merged base cfg; from_table = true; error = none }
resolved base (err collection_not_found) = default_of base none
resolved base (err e) = default_of base (some e)

-- The resolver is wired; an error of the lookup is part of the answer.
unfoldable pub resolve_config : Config → Bytes → M Resolved
unfolding get resolved
resolve_config base [] = pure (default_of base none)
resolve_config base (b ∷ bs) = do r ← caught (get (b ∷ bs)); pure (resolved base r)
