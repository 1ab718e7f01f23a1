-- ===== src/Services/Storage.antt =====
-- Where the services put blobs: storageKey and extFor of internal/app/service.go, and the blob store.
use crawlerv.Prelude.{
  ℕ, suc, ◌||◌, Option, none, some, [], ◌∷◌, ◌++◌, Bytes, bytes_eq, codes, ◌==◌, ltb, if◌then◌else◌,
  take,
}
use crawlerv.Store.World.{M, pure, fail, external, panic}
use crawlerv.Http.Hex.{hex_lower}

-- internal/domain/lake/store.go
pub record PutMeta : Type 0 where
  pub content_type : Bytes
  pub sha256 : Bytes

-- The store of blobs, and two functions of package strings. `put` answers the digest and the size
-- of what it has stored under a key; `none` is an error.
pub record Blobs : Type 0 where
  pub backend : Bytes
  pub put : Bytes → Bytes → PutMeta → Option (Bytes × ℕ)
  pub to_lower : Bytes → Bytes
  pub trim_space : Bytes → Bytes

-- The index of the first ";", from `i` on.
unfoldable pub semicolon : ℕ → Bytes → Option ℕ
semicolon i [] = none
semicolon i (b ∷ bs) = let rest = semicolon (suc i) bs in if b == 59 then some i else rest

module _ (s : Blobs) where
  abbrev pub cut_at : Bytes → Option ℕ → Bytes
  cut_at ct none = ct
  cut_at ct (some i) = if ltb 0 i then s.trim_space (take i ct) else ct

  -- The media type without its parameters.
  unfoldable pub media_type : Bytes → Bytes
  unfolding semicolon
  media_type ct = let plain = s.to_lower (s.trim_space ct) in cut_at plain (semicolon 0 plain)

  unfoldable pub ext_for : Bytes → Bytes
  unfolding media_type
  ext_for ct =
      let m = media_type ct in
      if bytes_eq m (codes "text/html")
      then codes ".html"
      else if bytes_eq m (codes "application/pdf")
      then codes ".pdf"
      else if bytes_eq m (codes "application/json")
      then codes ".json"
      else if bytes_eq m (codes "application/xml") || bytes_eq m (codes "text/xml")
      then codes ".xml"
      else if bytes_eq m (codes "text/plain")
      then codes ".txt"
      else codes ".bin"

  -- Reading the first byte of an empty hash panics. The path has nothing for `path.Join` to clean.
  unfoldable pub storage_key : Bytes → Bytes → Option Bytes
  unfolding ext_for hex_lower
  storage_key [] ct = none
  storage_key (b ∷ bs) ct =
      some (hex_lower (b ∷ []) ++ codes "/" ++ hex_lower (b ∷ bs) ++ ext_for ct)

  abbrev pub or_panic : {A : Type 0} → Option A → M A
  or_panic none = fail panic
  or_panic (some a) = pure a

  abbrev pub or_external : {A : Type 0} → Option A → M A
  or_external none = fail external
  or_external (some a) = pure a
