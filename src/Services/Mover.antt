-- ===== src/Services/Mover.antt =====
-- The migration of blobs between stores: internal/app/migrator.go.
use crawlerv.Prelude.{
  ℕ, zero, suc, Option, none, some, List, [], ◌∷◌, ◌++◌, Bytes, bytes_eq, codes, leb, ◌==◌,
  if◌then◌else◌,
}
use crawlerv.Store.World.{Error, external, refused, Result, ok, err, M, pure, fail, ◌>>=◌, caught}
use crawlerv.Repos.Lake.{Object, list_by_backend, update_storage}
use crawlerv.Services.Storage.{PutMeta}

-- A store of blobs during a run. It changes as the run puts and deletes, so that its answers depend
-- on how many objects the run has seen. `none` is an error; `put` answers the size of what it has
-- stored.
pub record BlobStore : Type 0 where
  pub backend : Bytes
  pub get : ℕ → Bytes → Option Bytes
  pub put : ℕ → Bytes → Bytes → PutMeta → Option ℕ

pub record Mover : Type 0 where
  pub src : BlobStore
  pub dst : BlobStore
  pub batch_size : ℕ

-- `Skipped` is never counted.
pub record Stats : Type 0 where
  pub scanned : ℕ
  pub copied : ℕ
  pub errors : ℕ

abbrev pub or_external : {A : Type 0} → Option A → M A
or_external none = fail external
or_external (some a) = pure a

module _ (m : Mover) where
  abbrev pub migrated_from : Object → Bytes
  migrated_from o = m.src.backend ++ codes ":" ++ o.storage_key

  -- `DeleteSrc` deletes the source's blob after the update; an error of that is only printed.
  unfoldable pub move_one : ℕ → Object → M (Unit {0})
  move_one n o = do
    blob ← or_external (m.src.get n o.storage_key)
    size ← or_external (
        m.dst.put n o.storage_key blob
          (record { content_type = o.content_type; sha256 = o.content_sha256 }))
    if size == o.file_size
        then update_storage o.id m.dst.backend o.storage_key (migrated_from o)
        else fail refused

  abbrev pub counted : Stats → Result (Unit {0}) → Stats
  counted n (ok _) = record n { scanned = suc n.scanned; copied = suc n.copied }
  counted n (err _) = record n { scanned = suc n.scanned; errors = suc n.errors }

  -- The loop over a page: the counters, and the id of the last object.
  unfoldable pub move_each : List Object → Stats → ℕ → M (Stats × ℕ)
  unfolding move_one
  move_each [] n after = pure (n, after)
  move_each (o ∷ os) n after = do r ← caught (move_one n.scanned o); move_each os (counted n r) o.id

  abbrev pub size_of_page : ℕ
  size_of_page = if leb m.batch_size 0 then 100 else m.batch_size

  -- The pages, at most `fuel` of them: `none` if these are not enough. A list that fails ends the
  -- run with the counters so far.
  unfoldable pub move_pages : ℕ → Stats → ℕ → M (Option (Stats × Option Error))
  unfolding move_each
  move_pages zero n after = pure none
  move_pages (suc fuel) n after = do
    page ← caught (list_by_backend m.src.backend size_of_page after)
    elim page [
      | err e ↦ pure (some (n, some e))
      | ok [] ↦ pure (some (n, none))
      | ok (o ∷ os) ↦ (move_each (o ∷ os) n after >>= λ p. move_pages fuel p.0 p.1)
    ]

  unfoldable pub run : ℕ → M (Option (Stats × Option Error))
  unfolding move_pages
  run fuel =
      if bytes_eq m.src.backend m.dst.backend
      then fail refused
      else move_pages fuel (record { scanned = 0; copied = 0; errors = 0 }) 0
