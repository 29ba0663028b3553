-- ===== src/Http.antt =====
-- What the cache uses of other crates: `Headers`, `HeaderName`, `HeaderValue`, `Method` and `Status`
-- of trillium_http, the parser of trillium_caching_headers and `httpdate`. None of that code is in
-- this repository, so it is one record of types, operations and documented laws, which the modules
-- of the cache take as an instance argument.
pub mod Laws
use trillium_cache.Prelude.{
  ℕ, ◌≡◌, ◌↔◌, Bool, true, Option, none, some, List, [], ◌∷◌, is_some, and_then, if◌then◌else◌, any,
}
use trillium_cache.Text.{Str}
use trillium_cache.Time.{Duration, SystemTime}

-- The variants of `trillium_http::KnownHeaderName` that the cache names.
pub data KnownHeaderName : Type 0 where
  accept_ranges age authorization cache_control cdn_cache_control connection : KnownHeaderName
  content_encoding content_length content_location content_range date etag : KnownHeaderName
  expires if_match if_modified_since if_none_match if_range : KnownHeaderName
  if_unmodified_since keep_alive last_modified location pragma proxy_authenticate : KnownHeaderName
  proxy_authorization set_cookie te trailer transfer_encoding upgrade vary : KnownHeaderName

-- The value of a header with exactly one line.
abbrev pub only {ℓ} : {A : Type ℓ} → List A → Option A
only [] = none
only (x ∷ []) = some x
only (x ∷ y ∷ r) = none

module _ {K V : Type 0} (eq : K → K → Bool) where
  -- The value of the first entry under a key.
  abbrev pub find_entry : K → List (K × V) → Option V
  find_entry k [] = none
  find_entry k ((j, v) ∷ r) = if eq j k then some v else find_entry k r

  -- No key has two entries.
  abbrev pub IsDistinct : List (K × V) → Type 0
  IsDistinct [] = Unit
  IsDistinct ((k, v) ∷ r) = (find_entry k r ≡ none) × IsDistinct r

pub record Http : Type 1 where
  -- trillium_http::Method
  pub Method : Type 0
  pub method_eq : Method → Method → Bool
  pub method_eq_iff : (a b : Method) → (method_eq a b ≡ true) ↔ (a ≡ b)
  pub get : Method
  pub head : Method
  pub post : Method
  pub is_safe : Method → Bool
  -- trillium_http::Status, an enum with its code for each status
  pub Status : Type 0
  pub status_eq : Status → Status → Bool
  pub status_eq_iff : (a b : Status) → (status_eq a b ≡ true) ↔ (a ≡ b)
  pub status_code : Status → ℕ
  pub not_modified : Status
  pub is_success : Status → Bool
  pub is_redirection : Status → Bool
  pub is_server_error : Status → Bool
  -- trillium_http::HeaderName, a known name or another text
  pub HeaderName : Type 0
  pub name_eq : HeaderName → HeaderName → Bool
  pub name_eq_iff : (a b : HeaderName) → (name_eq a b ≡ true) ↔ (a ≡ b)
  pub known : KnownHeaderName → HeaderName
  pub known_injective : (a b : KnownHeaderName) → known a ≡ known b → a ≡ b
  pub named : Str → HeaderName
  -- trillium_http::HeaderValue; one that is not UTF-8 has no text
  pub HeaderValue : Type 0
  pub as_str : HeaderValue → Option Str
  pub value : Str → HeaderValue
  pub as_str-value : (s : Str) → as_str (value s) ≡ some s
  -- trillium_http::Headers, from names to the values of their lines
  pub Headers : Type 0
  pub new : Headers
  pub get_values : Headers → HeaderName → Option (List HeaderValue)
  pub get_str : Headers → HeaderName → Option Str
  pub has_header : Headers → HeaderName → Bool
  pub insert : Headers → HeaderName → List HeaderValue → Headers
  pub remove : Headers → HeaderName → Headers
  pub remove_all : Headers → List HeaderName → Headers
  pub iter : Headers → List (HeaderName × List HeaderValue)
  pub get_values-new : (n : HeaderName) → get_values new n ≡ none
  pub get_values-insert :
      (h : Headers) (n m : HeaderName) (v : List HeaderValue)
      → get_values (insert h n v) m ≡ (if name_eq n m then some v else get_values h m)
  pub get_values-remove :
      (h : Headers) (n m : HeaderName)
      → get_values (remove h n) m ≡ (if name_eq n m then none else get_values h m)
  pub get_values-remove_all :
      (h : Headers) (ns : List HeaderName) (m : HeaderName)
      → get_values (remove_all h ns) m
        ≡ (if any (λ n. name_eq n m) ns then none else get_values h m)
  -- each name is listed once, with its values
  pub find_entry-iter :
      (h : Headers) (n : HeaderName) → find_entry name_eq n (iter h) ≡ get_values h n
  pub iter-IsDistinct : (h : Headers) → IsDistinct name_eq (iter h)
  pub get_str_lem :
      (h : Headers) (n : HeaderName)
      → get_str h n ≡ and_then (and_then (get_values h n) only) as_str
  pub has_header_lem : (h : Headers) (n : HeaderName) → has_header h n ≡ is_some (get_values h n)
  -- trillium_caching_headers::CacheControlHeader, with `From<CacheControlDirective>` at `NoCache`
  pub CacheControlHeader : Type 0
  pub cache_control_of : Headers → Option CacheControlHeader
  pub cdn_cache_control_of : Headers → Option CacheControlHeader
  pub no_cache_header : CacheControlHeader
  pub is_empty : CacheControlHeader → Bool
  pub is_no_cache : CacheControlHeader → Bool
  pub is_no_store : CacheControlHeader → Bool
  pub is_private : CacheControlHeader → Bool
  pub is_public : CacheControlHeader → Bool
  pub is_immutable : CacheControlHeader → Bool
  pub is_proxy_revalidate : CacheControlHeader → Bool
  pub must_revalidate : CacheControlHeader → Bool
  pub max_age : CacheControlHeader → Option Duration
  pub s_maxage : CacheControlHeader → Option Duration
  pub max_stale : CacheControlHeader → Option (Option Duration)
  pub min_fresh : CacheControlHeader → Option Duration
  pub stale_while_revalidate : CacheControlHeader → Option Duration
  pub stale_if_error : CacheControlHeader → Option Duration
  -- `f32`, and the product by which heuristic freshness is rounded to whole seconds
  pub Ratio : Type 0
  pub ratio_of_secs : Ratio → ℕ → ℕ
  -- httpdate::parse_http_date
  pub parse_http_date : Str → Option SystemTime
