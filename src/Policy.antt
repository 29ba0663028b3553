-- ===== src/Policy.antt =====
-- src/policy.rs: the options of a cache and the policy that is stored with a response.
mod Dictionary
pub mod Repr
pub mod Targeted
unfoldable pub use Dictionary.{is_valid_sf_key, looks_like_valid_sf_dictionary}
use trillium_cache.Prelude.{
  ℕ, ◌*◌, Bool, true, false, not, ◌&&◌, Option, none, some, List, [], ◌∷◌, is_some, is_some_and,
  if◌then◌else◌, map, filter_map, flat_map, keep, ◌==◌,
}
use trillium_cache.Text.{
  Str, str_eq, codes, trim, split, contains, to_ascii_lowercase, is_empty_str,
}
use trillium_cache.Time.{Duration, SystemTime, from_secs}
use trillium_cache.Http.{Http, cdn_cache_control, pragma, vary}

abbrev pub no_cache_literal : Str
no_cache_literal = codes "no-cache"

-- The headers that `Vary` names, in lower case, each with its value on the request.
abbrev pub VarySnapshot : Type 0
VarySnapshot = List (Str × Option Str)

-- `==` on `Option<String>`
unfoldable pub option_str_eq : Option Str → Option Str → Bool
option_str_eq none none = true
option_str_eq (some a) (some b) = str_eq a b
option_str_eq _ _ = false

unfoldable pub snapshot_eq : VarySnapshot → VarySnapshot → Bool
unfolding option_str_eq
snapshot_eq [] [] = true
snapshot_eq ((n, v) ∷ a) ((m, w) ∷ b) = str_eq n m && option_str_eq v w && snapshot_eq a b
snapshot_eq _ _ = false

module _ ⦃http : Http⦄ where
  open http use {
    Method, Status, Headers, HeaderValue, CacheControlHeader, Ratio, get_values, get_str, known,
    named, as_str, cache_control_of, cdn_cache_control_of, no_cache_header, is_empty,
  }

  -- `CacheOptions`
  pub record CacheOptions : Type 0 where
    pub shared : Bool
    pub cache_heuristic : Ratio
    pub immutable_min_time_to_live : Duration

  -- `CacheOptions::default`, at the ratio 0.1
  unfoldable pub default_options : Ratio → CacheOptions
  default_options tenth = record {
    shared = false;
    cache_heuristic = tenth;
    immutable_min_time_to_live = from_secs (24 * 3600);
  }

  -- `CachePolicy`
  pub record CachePolicy : Type 0 where
    pub request_method : Method
    pub vary_snapshot : VarySnapshot
    pub response_status : Status
    pub response_headers : Headers
    pub response_cache_control : Option CacheControlHeader
    pub targeted_cc_in_effect : Bool
    pub response_time : SystemTime
    pub options : CacheOptions

  -- `effective_response_cache_control`
  unfoldable pub effective_response_cache_control :
      Headers → CacheOptions → Option CacheControlHeader × Bool
  effective_response_cache_control response_headers options =
      elim (get_str response_headers (known cdn_cache_control)) [
        | none ↦ (cache_control_of response_headers, false)
        | some raw ↦ elim (cdn_cache_control_of response_headers) [
          | none ↦ (cache_control_of response_headers, false)
          | some cdn_cc ↦
              if options.shared && looks_like_valid_sf_dictionary raw && not (is_empty cdn_cc)
              then (some cdn_cc, true)
              else (cache_control_of response_headers, false)
        ]
      ]

  -- `derive_response_cache_control`
  unfoldable pub derive_response_cache_control :
      Headers → CacheOptions → Option CacheControlHeader × Bool
  derive_response_cache_control response_headers options =
      let (response_cache_control, targeted_cc_in_effect) =
        effective_response_cache_control response_headers options in
      if not (is_some response_cache_control)
        && is_some_and (get_str response_headers (known pragma)) (contains no_cache_literal)
      then (some no_cache_header, targeted_cc_in_effect)
      else (response_cache_control, targeted_cc_in_effect)

  -- The names that the lines of `Vary` list.
  unfoldable pub vary_names : List HeaderValue → List Str
  vary_names values =
      keep (λ n. not (is_empty_str n))
        (map trim (flat_map (split (λ c. c == b',')) (filter_map as_str values)))

  -- `build_vary_snapshot`
  unfoldable pub build_vary_snapshot : Headers → Headers → VarySnapshot
  build_vary_snapshot response_headers request_headers =
      elim (get_values response_headers (known vary)) [
        | none ↦ []
        | some values ↦
            map
              (λ name.
                let lower = to_ascii_lowercase name in
                (lower, get_str request_headers (named lower)))
              (vary_names values)
      ]

  -- `CachePolicy::new`
  unfoldable pub new_policy :
      Method → Headers → Status → Headers → SystemTime → CacheOptions → CachePolicy
  new_policy method request_headers status response_headers time options =
      let (response_cache_control, targeted_cc_in_effect) =
        derive_response_cache_control response_headers options in
      record {
        request_method = method;
        vary_snapshot = build_vary_snapshot response_headers request_headers;
        response_status = status;
        response_headers = response_headers;
        response_cache_control = response_cache_control;
        targeted_cc_in_effect = targeted_cc_in_effect;
        response_time = time;
        options = options;
      }

  -- `CachePolicy::same_variant_as`
  unfoldable pub same_variant_as : CachePolicy → CachePolicy → Bool
  unfolding snapshot_eq
  same_variant_as p other = snapshot_eq p.vary_snapshot other.vary_snapshot
