-- ===== src/Tests/Freshness.antt =====
-- Ages and lifetimes of a response that was stored at second 2000, with `max-age=60` and `Age: 5`.
use trillium_cache.Prelude.{◌≡◌, ◌↔◌, ◌⊎◌, refl, ◌+◌, ◌-◌, ◌≤◌, ◌<◌, true, false, [], ◌∷◌}
use trillium_cache.Text.{codes, str_eq, split, split_once, trim, parse_u64}
use trillium_cache.Time.{done, panic, from_secs, duration_end}
use trillium_cache.Policy.{CachePolicy, new_policy}
use trillium_cache.Freshness.{
  current_age, age_header_value, parse_age_value, is_stale, time_to_live, max_age, is_swr_eligible,
  is_sie_eligible, stale_while_revalidate_window, stale_if_error_window, cc_is,
}
use trillium_cache.Freshness.Age.{current_age-eq-panic_iff, time_to_live-is_stale}
use trillium_cache.Freshness.Serving.{MayServeStale, eligible_exactly_in_window}
use trillium_cache.Tests.World.{world}
use trillium_cache.Tests.Samples.{policy, policy_of, current_age-policy, response}

current_age-eq-panic_iff_example :
    (current_age policy (from_secs 2070) ≡ panic)
    ↔ (duration_end ≤ age_header_value policy + (from_secs 2070 - policy.response_time))
current_age-eq-panic_iff_example = current_age-eq-panic_iff policy (from_secs 2070)

later : current_age policy (from_secs 2070 + from_secs 10) ≡ done (from_secs 85)
unfolding current_age new_policy age_header_value str_eq parse_age_value split parse_u64 trim
later = refl

stale_now : is_stale policy (from_secs 2070) ≡ done true
unfolding is_stale current_age new_policy age_header_value str_eq parse_age_value split parse_u64
    trim max_age trillium_cache.Policy.derive_response_cache_control
    trillium_cache.Policy.effective_response_cache_control split_once
    trillium_cache.Freshness.is_star
stale_now = refl

stale_later : is_stale policy (from_secs 3000) ≡ done true
unfolding is_stale current_age new_policy age_header_value str_eq parse_age_value split parse_u64
    trim max_age trillium_cache.Policy.derive_response_cache_control
    trillium_cache.Policy.effective_response_cache_control split_once
    trillium_cache.Freshness.is_star
stale_later = refl

time_to_live-is_stale_example :
    ((is_stale policy (from_secs 2070) ≡ done true)
      × (time_to_live policy (from_secs 2070) ≡ done 0)
      × (max_age policy ≤ from_secs 75))
    ⊎ ((is_stale policy (from_secs 2070) ≡ done false)
        × (time_to_live policy (from_secs 2070) ≡ done (max_age policy - from_secs 75))
        × (0 < max_age policy - from_secs 75)
        × (from_secs 75 + (max_age policy - from_secs 75) ≡ max_age policy))
time_to_live-is_stale_example =
    time_to_live-is_stale policy (from_secs 2070) (from_secs 75) current_age-policy

eligible_exactly_in_window_example :
    ((is_swr_eligible policy (from_secs 2070) ≡ done true)
      ↔ MayServeStale policy (from_secs 75) (stale_while_revalidate_window policy))
    × ((is_sie_eligible policy (from_secs 2070) ≡ done true)
        ↔ MayServeStale policy (from_secs 75) (stale_if_error_window policy))
eligible_exactly_in_window_example =
    eligible_exactly_in_window policy (from_secs 2070) current_age-policy

-- The same response with `no-cache`.
abbrev uncached : CachePolicy
uncached = policy_of ((codes "cache-control", codes "no-cache" ∷ []) ∷ response)

uncached_no_cache : cc_is uncached world.is_no_cache ≡ true
unfolding new_policy trillium_cache.Policy.derive_response_cache_control
    trillium_cache.Policy.effective_response_cache_control str_eq split split_once trim
uncached_no_cache = refl

uncached_stale : is_stale uncached (from_secs 2001) ≡ done true
unfolding is_stale current_age new_policy age_header_value str_eq parse_age_value split parse_u64
    trim max_age trillium_cache.Policy.derive_response_cache_control
    trillium_cache.Policy.effective_response_cache_control split_once
uncached_stale = refl

-- A response whose targeted field is in effect.
abbrev targeted : CachePolicy
targeted = policy_of ((codes "cdn-cache-control", codes "max-age=20" ∷ []) ∷ response)

targeted_in_effect : targeted.targeted_cc_in_effect ≡ true
unfolding new_policy trillium_cache.Policy.derive_response_cache_control
    trillium_cache.Policy.effective_response_cache_control str_eq
    trillium_cache.Policy.looks_like_valid_sf_dictionary
targeted_in_effect = refl
