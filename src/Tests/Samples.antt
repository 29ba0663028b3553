-- ===== src/Tests/Samples.antt =====
-- A stored response, requests for it, and what the cache computes of them.
use trillium_cache.Prelude.{◌≡◌, refl, true, [], ◌∷◌}
use trillium_cache.Text.{
  codes, str_eq, split, split_once, trim, trim_start, trim_end, is_whitespace, is_empty_str,
  parse_u64, parse_digits, is_digit, to_ascii_lowercase,
}
use trillium_cache.Time.{SystemTime, done, from_secs}
use trillium_cache.Policy.{
  CacheOptions, CachePolicy, new_policy, derive_response_cache_control,
  effective_response_cache_control, build_vary_snapshot, vary_names,
}
use trillium_cache.Freshness.{current_age, age_header_value, parse_age_value}
use trillium_cache.Validation.{vary_matches}
use trillium_cache.Storage.{CacheKey}
use trillium_cache.Tests.World.{world, Entries}
use trillium_cache.Tests.Backend.{urls}

abbrev pub shared_options : CacheOptions
shared_options = record {
  shared = true;
  cache_heuristic = 10;
  immutable_min_time_to_live = from_secs 86400;
}

abbrev pub request : Entries
request =
    (codes "accept", codes "text/html" ∷ [])
    ∷ (codes "if-none-match", codes "\"v0\", W/\"v1\"" ∷ [])
    ∷ (codes "connection", codes "x-hop" ∷ [])
    ∷ (codes "x-hop", codes "1" ∷ [])
    ∷ []

abbrev pub response : Entries
response =
    (codes "cache-control", codes "max-age=60, stale-while-revalidate=30, stale-if-error=10" ∷ [])
    ∷ (codes "etag", codes "\"v1\"" ∷ [])
    ∷ (codes "vary", codes "Accept" ∷ [])
    ∷ (codes "last-modified", codes "1000" ∷ [])
    ∷ (codes "age", codes "5" ∷ [])
    ∷ []

abbrev pub stored_at : SystemTime
stored_at = from_secs 2000

abbrev pub policy_of : Entries → CachePolicy
policy_of h = new_policy (codes "GET") request 200 h stored_at shared_options

abbrev pub policy : CachePolicy
policy = policy_of response

pub current_age-policy : current_age policy (from_secs 2070) ≡ done (from_secs 75)
unfolding current_age age_header_value parse_age_value new_policy derive_response_cache_control
    effective_response_cache_control build_vary_snapshot vary_names str_eq split split_once trim
    trim_start trim_end is_whitespace parse_u64 parse_digits is_digit
current_age-policy = refl

pub vary_matches-policy : vary_matches policy request ≡ true
unfolding vary_matches new_policy build_vary_snapshot str_eq vary_names mathlib.Core.List.flat_map
    mathlib.Core.List.filter_map split is_empty_str trim to_ascii_lowercase
    trillium_cache.Policy.option_str_eq
vary_matches-policy = refl

abbrev pub home : CacheKey
home = record { method = codes "GET"; url = 26 }
