-- ===== src/Http/Reads.antt =====
-- The readers of internal/infra/http/reads.go and blobs.go. The query's values come parsed.
use crawlerv.Prelude.{
  ℕ, Bool, Option, none, some, List, [], ◌∷◌, ◌++◌, map, take, length, Bytes, bytes_eq, codes,
  if◌then◌else◌,
}
use crawlerv.Store.Rows.{EmbedStatus}
use crawlerv.Store.World.{M, pure}
use crawlerv.LeaseSigner.Token.{unix}
use crawlerv.ChunkRepo.Types.{Chunk}
use crawlerv.ChunkRepo.Leases.{Engine}
use crawlerv.Repos.Lake.{Object, ListOpts, list_since, get_by_id}
use crawlerv.ChunkRepo.Reads
use crawlerv.Repos.Extraction.{Document}
use crawlerv.Workers.Policy.{Worker, can}
use crawlerv.Http.Hex.{hex_lower}
use crawlerv.Http.Tasks.{blob_url, itoa64}
use crawlerv.Http.Replies.{Reply, answered, reject, or_reject}

-- The worker must be there and have the capability.
unfoldable pub with_capability : {A : Type 0} → Bytes → Option Worker → M (Reply A) → M (Reply A)
unfolding can
with_capability kind none m = reject 403 (codes "capability_denied")
with_capability kind (some k) m = if can k kind then m else reject 403 (codes "capability_denied")

pub record LakeItem : Type 0 where
  pub id : ℕ
  pub url_hash : Bytes
  pub content_type : Bytes
  pub content_sha256 : Bytes
  pub file_size_bytes : ℕ
  pub storage_backend : Bytes
  pub storage_key : Bytes
  pub archived_at : ℕ
  pub blob_address : Bytes

unfoldable pub lake_item : Object → LakeItem
unfolding hex_lower blob_url
lake_item o = record {
  id = o.id;
  url_hash = hex_lower o.url_hash;
  content_type = o.content_type;
  content_sha256 = hex_lower o.content_sha256;
  file_size_bytes = o.file_size;
  storage_backend = o.storage_backend;
  storage_key = o.storage_key;
  archived_at = unix o.archived_at;
  blob_address = blob_url o.id;
}

unfoldable pub lake_list :
    (Bytes → Bytes → Bool) → Option Worker → ListOpts → M (Reply (List LakeItem))
unfolding with_capability lake_item
lake_list like k opts = with_capability (codes "lake_read") k (
    or_reject 500 (codes "list_failed") (list_since like opts)
      (λ objs. pure (answered (map lake_item objs))))

pub record ExtractedItem : Type 0 where
  pub id : ℕ
  pub source_lake_object_id : ℕ
  pub language : Bytes
  pub page_count : ℕ
  pub collection : Bytes
  pub extracted_at : ℕ
  pub text_size_bytes : ℕ
  pub text_preview : Bytes
  pub text_address : Bytes

unfoldable pub extracted_item : Document → ExtractedItem
unfolding itoa64
extracted_item d = record {
  id = d.id;
  source_lake_object_id = d.source_lake_object_id;
  language = d.language;
  page_count = d.page_count;
  collection = d.collection;
  extracted_at = unix d.extracted_at;
  text_size_bytes = length d.text;
  text_preview = take 500 d.text;
  text_address = codes "/v1/extracted/" ++ itoa64 d.id ++ codes "/text";
}

unfoldable pub extracted_list : Option Worker → ℕ → ℕ → M (Reply (List ExtractedItem))
unfolding with_capability extracted_item
extracted_list k since limit = with_capability (codes "extracted_read") k (
    or_reject 500 (codes "list_failed") (crawlerv.Repos.Extraction.list_since since limit)
      (λ docs. pure (answered (map extracted_item docs))))

abbrev pub text_reply : Option Document → M (Reply Bytes)
text_reply none = reject 404 (codes "not_found")
text_reply (some d) = pure (answered d.text)

-- `none` is an id that does not parse.
unfoldable pub extracted_text : Option Worker → Option ℕ → M (Reply Bytes)
unfolding with_capability
extracted_text k none = with_capability (codes "extracted_read") k (reject 400 (codes "bad_id"))
extracted_text k (some id) =
    with_capability (codes "extracted_read") k
      (or_reject 500 (codes "lookup_failed") (crawlerv.Repos.Extraction.get_by_id id) text_reply)

pub record ChunkItem : Type 0 where
  pub id : Bytes
  pub document_id : ℕ
  pub chunk_index : ℕ
  pub text : Bytes
  pub token_count : ℕ
  pub vector_id : Bytes
  pub embed_status : EmbedStatus

abbrev pub chunk_item : Chunk → ChunkItem
chunk_item c = record {
  id = c.id;
  document_id = c.document_id;
  chunk_index = c.chunk_index;
  text = c.text;
  token_count = c.token_count;
  vector_id = c.vector_id;
  embed_status = c.embed_status;
}

-- `since` is an instant of whole seconds.
unfoldable pub chunks_list :
    Engine → Option Worker → Option EmbedStatus → ℕ → ℕ → M (Reply (List ChunkItem))
unfolding with_capability
chunks_list e k status since limit = with_capability (codes "chunks_read") k (
    or_reject 500 (codes "list_failed") (crawlerv.ChunkRepo.Reads.list_since e status since limit)
      (λ cs. pure (answered (map chunk_item cs))))

-- The store that blobs are read from; `none` is an error.
pub record BlobSource : Type 0 where
  pub backend : Bytes
  pub get : Bytes → Option Bytes

pub record Download : Type 0 where
  pub content_type : Bytes
  pub content_length : ℕ
  pub body : Bytes

abbrev pub type_or_octets : Bytes → Bytes
type_or_octets [] = codes "application/octet-stream"
type_or_octets (c ∷ cs) = c ∷ cs

module _ (b : BlobSource) where
  -- A length of 0 stands for no header.
  abbrev pub download : Option Object → M (Reply Download)
  download none = reject 404 (codes "not_found")
  download (some o) =
      if bytes_eq o.storage_backend b.backend
      then elim (b.get o.storage_key) [
        | none ↦ reject 500 (codes "blob_read")
        | some body ↦ pure (
            answered (record {
              content_type = type_or_octets o.content_type;
              content_length = o.file_size;
              body = body;
            }))
      ]
      else reject 409 (codes "backend_mismatch")

  unfoldable pub get_blob : Option ℕ → M (Reply Download)
  get_blob none = reject 400 (codes "bad_id")
  get_blob (some id) = or_reject 500 (codes "lookup_failed") (get_by_id id) download
