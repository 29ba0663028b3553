-- ===== src/Validation/Merge.antt =====
-- src/validation.rs: the headers that a cache forwards, and those that a 304 updates.
pub mod Laws
use trillium_cache.Prelude.{
  Bool, ◌||◌, Option, none, some, List, [], ◌∷◌, keep, not, map, if◌then◌else◌, ◌==◌,
}
use trillium_cache.Text.{Str, split, trim, is_empty_str}
use trillium_cache.Http.{
  Http, connection, content_encoding, content_length, content_range, keep_alive, proxy_authenticate,
  proxy_authorization, te, trailer, transfer_encoding, upgrade,
}

-- The names in a `Connection` header.
unfoldable pub connection_names : Str → List Str
connection_names line = keep (λ s. not (is_empty_str s)) (map trim (split (λ c. c == b',') line))

module _ ⦃http : Http⦄ where
  open http use {
    Headers, HeaderName, HeaderValue, get_str, known, named, name_eq, insert, remove, remove_all,
    iter,
  }

  abbrev pub hop_by_hop : List HeaderName
  hop_by_hop =
      known connection
      ∷ known keep_alive
      ∷ known proxy_authenticate
      ∷ known proxy_authorization
      ∷ known te
      ∷ known trailer
      ∷ known transfer_encoding
      ∷ known upgrade
      ∷ []

  -- the loop over the names that `Connection` lists
  unfoldable pub remove_names : List Str → Headers → Headers
  remove_names [] out = out
  remove_names (name ∷ names) out = remove_names names (remove out (named name))

  -- `if let Some(connection) = …`
  unfoldable pub remove_listed : Option Str → Headers → Headers
  remove_listed none out = out
  remove_listed (some line) out = remove_names (connection_names line) out

  -- `copy_without_hop_by_hop_headers`
  unfoldable pub copy_without_hop_by_hop_headers : Headers → Headers
  copy_without_hop_by_hop_headers headers =
      remove_listed (get_str headers (known connection)) (remove_all headers hop_by_hop)

  -- `is_excluded_from_revalidation_update`
  unfoldable pub is_excluded_from_revalidation_update : HeaderName → Bool
  is_excluded_from_revalidation_update name =
      name_eq name (known content_length)
      || (name_eq name (known content_encoding)
          || (name_eq name (known transfer_encoding) || name_eq name (known content_range)))

  -- the loop of `merge_revalidation_headers`
  unfoldable pub merge_entries : Headers → List (HeaderName × List HeaderValue) → Headers
  merge_entries out [] = out
  merge_entries out ((name, values) ∷ rest) =
      merge_entries
        (if is_excluded_from_revalidation_update name then out else insert out name values) rest

  -- `merge_revalidation_headers`
  unfoldable pub merge_revalidation_headers : Headers → Headers → Headers
  merge_revalidation_headers stored new_headers = merge_entries stored (iter new_headers)
