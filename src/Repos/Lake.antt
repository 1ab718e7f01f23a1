-- ===== src/Repos/Lake.antt =====
-- LakeRepo (internal/infra/db/gormrepo/lake_repo.go) and internal/domain/lake/object.go.
use crawlerv.Prelude.{
  ℕ, suc, Bool, true, ◌&&◌, Option, none, some, List, [], ◌∷◌, ◌++◌, map, Bytes, bytes_eq, ltb, leb,
  ◌==◌, if◌then◌else◌, take,
}
use crawlerv.Store.Rows.{LakeObject}
use crawlerv.Store.Sql.{first, select, update, sort_by}
use crawlerv.Store.World.{Db, ok, err, M, pure, ◌>>=◌, query, execute, statement, record_not_found}
use crawlerv.FrontierRepo.Domains.{text_or_empty, null_if_empty}

pub record Object : Type 0 where
  pub id : ℕ
  pub url_hash : Bytes
  pub storage_backend : Bytes
  pub storage_key : Bytes
  pub content_type : Bytes
  pub content_sha256 : Bytes
  pub file_size : ℕ
  pub archived_at : ℕ
  pub migrated_from : Bytes

-- The row of an INSERT, with the id that the table's counter gives it.
unfoldable pub new_row : ℕ → Object → ℕ → LakeObject
new_row now o id = record {
  id = id;
  url_hash = o.url_hash;
  storage_backend = o.storage_backend;
  storage_key = o.storage_key;
  content_type = null_if_empty o.content_type;
  content_sha256 = o.content_sha256;
  file_size_bytes = o.file_size;
  archived_at = now;
  migrated_from = null_if_empty o.migrated_from;
}

-- `content_sha256 = ? AND url_hash = ?`, the unique key.
unfoldable pub has_key : Object → LakeObject → Bool
has_key o r = bytes_eq r.content_sha256 o.content_sha256 && bytes_eq r.url_hash o.url_hash

-- `ON CONFLICT DO NOTHING`: no id if the key is taken.
unfoldable pub create_or_nothing : ℕ → Object → Db → Option ℕ × Db
unfolding new_row has_key
create_or_nothing now o d = elim (first (has_key o) d.lake_objects) [
  | some r ↦ (none, d)
  | none ↦ (
    some d.next_lake_id,
    record d {
      lake_objects = d.lake_objects ++ new_row now o d.next_lake_id ∷ [];
      next_lake_id = suc d.next_lake_id;
    },
  )
]

unfoldable pub find_key : Object → M ℕ
unfolding has_key
find_key o = statement λ d. elim (first (has_key o) d.lake_objects) [
  | some r ↦ (ok r.id, d)
  | none ↦ (err record_not_found, d)
]

unfoldable pub insert : ℕ → Object → M ℕ
unfolding create_or_nothing find_key
insert now o = do
  created ← execute (create_or_nothing now o)
  elim created [ some id ↦ pure id | none ↦ find_key o ]

-- What the readers make of a row.
unfoldable pub map_object : LakeObject → Object
map_object m = record {
  id = m.id;
  url_hash = m.url_hash;
  storage_backend = m.storage_backend;
  storage_key = m.storage_key;
  content_type = text_or_empty m.content_type;
  content_sha256 = m.content_sha256;
  file_size = m.file_size_bytes;
  archived_at = m.archived_at;
  migrated_from = text_or_empty m.migrated_from;
}

abbrev pub mapped : Option LakeObject → Option Object
mapped none = none
mapped (some m) = some (map_object m)

unfoldable pub find_by_sha : Bytes → M (Option Object)
unfolding map_object
find_by_sha sha =
    query λ d. mapped (first (λ (r : LakeObject). bytes_eq r.content_sha256 sha) d.lake_objects)

unfoldable pub get_by_id : ℕ → M (Option Object)
unfolding map_object
get_by_id id = query λ d. mapped (first (λ (r : LakeObject). r.id == id) d.lake_objects)

-- `limit <= 0` means 100.
abbrev pub page : ℕ → List LakeObject → List Object
page limit rows =
    map map_object (take (if leb limit 0 then 100 else limit) (sort_by (λ r. r.id) rows))

unfoldable pub list_by_backend : Bytes → ℕ → ℕ → M (List Object)
unfolding map_object
list_by_backend backend limit after = query λ d.
    page limit (select (λ r. bytes_eq r.storage_backend backend && ltb after r.id) d.lake_objects)

pub record ListOpts : Type 0 where
  pub since_id : ℕ
  pub limit : ℕ
  pub backend : Bytes
  pub content_type_prefix : Bytes

-- The optional conditions; `like` is the engine's `content_type LIKE prefix || '%'`.
unfoldable pub is_listed : (Bytes → Bytes → Bool) → ListOpts → LakeObject → Bool
is_listed like opts r =
    ltb opts.since_id r.id
    && (if bytes_eq opts.backend [] then true else bytes_eq r.storage_backend opts.backend)
    && (if bytes_eq opts.content_type_prefix []
        then true
        else elim r.content_type [ none ↦ Bool.false | some ct ↦ like opts.content_type_prefix ct ])

unfoldable pub list_since : (Bytes → Bytes → Bool) → ListOpts → M (List Object)
unfolding map_object is_listed
list_since like opts = query λ d. page opts.limit (select (is_listed like opts) d.lake_objects)

unfoldable pub update_storage : ℕ → Bytes → Bytes → Bytes → M (Unit {0})
update_storage id backend key migrated_from = execute λ d. (
  tt,
  record d {
    lake_objects =
        update (λ (r : LakeObject). r.id == id)
          (λ r. record r {
            storage_backend = backend;
            storage_key = key;
            migrated_from = some migrated_from;
          })
          d.lake_objects;
  },
)
