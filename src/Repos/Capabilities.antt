-- ===== src/Repos/Capabilities.antt =====
-- CapabilityRepo (internal/infra/db/gormrepo/capability_repo.go) and
-- internal/domain/processing/capability.go.
use crawlerv.Prelude.{ℕ, Bool, Option, none, some, List, [], ◌∷◌, ◌++◌, map, Bytes, bytes_eq}
use crawlerv.Store.Rows.{Capability as Row}
use crawlerv.Store.Sql.{first, update, delete}
use crawlerv.Store.World.{M, query, execute}
use crawlerv.FrontierRepo.Domains.{text_or_empty, null_if_empty}

pub record Capability : Type 0 where
  pub name : Bytes
  pub description : Bytes
  pub internal : Bool
  pub created_at : ℕ

abbrev pub has_name : Bytes → Row → Bool
has_name name r = bytes_eq r.name name

unfoldable pub map_capability : Row → Capability
map_capability m = record {
  name = m.name;
  description = text_or_empty m.description;
  internal = m.internal;
  created_at = m.created_at;
}

-- `by_name` is the engine's `ORDER BY name`.
unfoldable pub list : (List Row → List Row) → M (List Capability)
unfolding map_capability
list by_name = query λ d. map map_capability (by_name d.capabilities)

unfoldable pub get : Bytes → M (Option Capability)
unfolding map_capability
get name = query λ d. elim (first (has_name name) d.capabilities) [
  | none ↦ none
  | some m ↦ some (map_capability m)
]

unfoldable pub new_row : ℕ → Capability → Row
new_row now c = record {
  name = c.name;
  description = null_if_empty c.description;
  internal = c.internal;
  created_at = now;
}

-- A conflict assigns the description and the flag.
unfoldable pub upsert : ℕ → Capability → M (Unit {0})
unfolding new_row
upsert now c = execute λ d. (
  tt,
  record d {
    capabilities = elim (first (has_name c.name) d.capabilities) [
      | none ↦ d.capabilities ++ new_row now c ∷ []
      | some r ↦
          update (has_name c.name)
            (λ x. record x { description = null_if_empty c.description; internal = c.internal })
            d.capabilities
    ];
  },
)

unfoldable pub delete_name : Bytes → M (Unit {0})
delete_name name =
    execute λ d. (tt, record d { capabilities = delete (has_name name) d.capabilities })
