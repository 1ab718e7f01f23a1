-- ===== src/Urls.antt =====
-- internal/infra/urls/canonical.go, over the packages that it calls.
use crawlerv.Prelude.{
  ℕ, suc, Bool, ◌&&◌, ◌||◌, not, Option, none, some, List, [], ◌∷◌, ◌++◌, Bytes, bytes_eq, codes,
  ◌==◌, if◌then◌else◌, ltb,
}

-- The fields of url.URL that the code reads or sets, and the rest of it.
pub record Url (Rest : Type 0) : Type 0 where
  pub scheme : Bytes
  pub host : Bytes
  pub path : Bytes
  pub raw_query : Bytes
  pub fragment : Bytes
  pub rest : Rest

-- net/url, strings, sort and crypto/sha256. `query` lists the map's keys in any order; an error of
-- `parse` is `none`.
pub record Net : Type 1 where
  pub Rest : Type 0
  pub parse : Bytes → Option (Url Rest)
  pub print : Url Rest → Bytes
  pub query : Bytes → List (Bytes × List Bytes)
  pub query_escape : Bytes → Bytes
  pub sort_keys : List (Bytes × List Bytes) → List (Bytes × List Bytes)
  pub sort_strings : List Bytes → List Bytes
  pub to_lower : Bytes → Bytes
  pub trim_space : Bytes → Bytes
  pub sha256 : Bytes → Bytes

-- `strings.HasSuffix`
unfoldable pub has_suffix : Bytes → Bytes → Bool
has_suffix [] suffix = bytes_eq [] suffix
has_suffix (b ∷ bs) suffix = bytes_eq (b ∷ bs) suffix || has_suffix bs suffix

-- `s[:i]` for `i := strings.LastIndex(s, ":")`, and `none` where that is negative.
unfoldable pub before_last_colon : Bytes → Option Bytes
before_last_colon [] = none
before_last_colon (b ∷ bs) = elim (before_last_colon bs) [
  | some prefix ↦ some (b ∷ prefix)
  | none ↦ if b == 58 then some [] else none
]

abbrev pub or_same : Bytes → Option Bytes → Bytes
or_same s none = s
or_same s (some t) = t

unfoldable pub without_default_port : Bytes → Bytes → Bytes
unfolding has_suffix before_last_colon
without_default_port scheme host =
    if (bytes_eq scheme (codes "http") && has_suffix host (codes ":80"))
      || (bytes_eq scheme (codes "https") && has_suffix host (codes ":443"))
    then or_same host (before_last_colon host)
    else host

module _ (net : Net) where
  open net use {Rest, parse, print, query, query_escape, sort_keys, sort_strings}

  -- The inner loop, over the values of the i-th key; `b` is the builder.
  unfoldable pub write_values : ℕ → Bytes → List Bytes → Bytes → Bytes
  write_values i k [] b = b
  write_values i k (v ∷ vs) b = write_values i k vs (
      b
      ++ (if not (bytes_eq b []) || ltb 0 i then 38 ∷ [] else [])
      ++ query_escape k
      ++ 61 ∷ query_escape v)

  unfoldable pub write_keys : ℕ → List (Bytes × List Bytes) → Bytes → Bytes
  unfolding write_values
  write_keys i [] b = b
  write_keys i (k ∷ ks) b = write_keys (suc i) ks (write_values i k.0 (sort_strings k.1) b)

  abbrev pub sorted_query : Bytes → Bytes
  sorted_query [] = []
  sorted_query (c ∷ cs) = write_keys 0 (sort_keys (query (c ∷ cs))) []

  abbrev pub or_root : Bytes → Bytes
  or_root [] = codes "/"
  or_root (c ∷ cs) = c ∷ cs

  unfoldable pub canonical_url : Url Rest → Url Rest
  unfolding without_default_port write_keys
  canonical_url u = record {
    scheme = u.scheme;
    host = without_default_port u.scheme (net.to_lower u.host);
    path = or_root u.path;
    raw_query = sorted_query u.raw_query;
    fragment = [];
    rest = u.rest;
  }

  unfoldable pub canonical : Bytes → Option Bytes
  unfolding canonical_url
  canonical raw = elim (parse (net.trim_space raw)) [
    | none ↦ none
    | some u ↦ some (print (canonical_url u))
  ]

  unfoldable pub hash : Bytes → Bytes
  hash canon = net.sha256 canon
