-- ===== src/Tests/Policy.antt =====
-- Policies, storability and variants of the sample response.
use trillium_cache.Prelude.{
  ◌≡◌, ◌↔◌, ◌⊎◌, refl, true, false, not, ◌&&◌, some, [], ◌∷◌, is_some, is_some_and,
}
use trillium_cache.Text.{Str, codes}
use trillium_cache.Policy.{
  new_policy, effective_response_cache_control, build_vary_snapshot, same_variant_as,
}
use trillium_cache.Policy.Targeted.{Targets, effective_response_cache_control_lem}
use trillium_cache.Storability.{is_storable}
use trillium_cache.Storability.Rules.{MayStore, is_storable_iff}
use trillium_cache.Validation.{vary_matches}
use trillium_cache.Validation.Variants.{has_star, vary_matches-same_variant_as}
use trillium_cache.Tests.World.{world, Entries}
use trillium_cache.Tests.Samples.{shared_options, request, response, stored_at}

is_storable_iff_example :
    (is_storable (codes "GET") request 200 response shared_options ≡ true)
    ↔ MayStore
        (codes "GET")
        request
        200
        response
        shared_options
        (effective_response_cache_control response shared_options).0
        (effective_response_cache_control response shared_options).1
is_storable_iff_example = is_storable_iff (codes "GET") request 200 response shared_options

untargeted : (effective_response_cache_control response shared_options).1 ≡ false
unfolding effective_response_cache_control trillium_cache.Text.str_eq
untargeted = refl

no_s_maxage :
    is_some_and (world.cache_control_of response) (λ c. is_some (world.s_maxage c)) ≡ false
unfolding trillium_cache.Text.str_eq trillium_cache.Text.split trillium_cache.Text.split_once
    trillium_cache.Text.trim
no_s_maxage = refl

storable : is_storable (codes "GET") request 200 response shared_options ≡ true
unfolding is_storable trillium_cache.Text.str_eq effective_response_cache_control
    trillium_cache.Text.split trillium_cache.Text.split_once trillium_cache.Text.trim
    trillium_cache.Text.parse_u64
storable = refl

effective_response_cache_control_lem_example :
    ((c : world.CacheControlHeader) × Targets response shared_options c
      × (effective_response_cache_control response shared_options ≡ (some c, true)))
    ⊎ (((c : world.CacheControlHeader) → ¬ Targets response shared_options c)
        × (effective_response_cache_control response shared_options
            ≡ (world.cache_control_of response, false)))
effective_response_cache_control_lem_example =
    effective_response_cache_control_lem response shared_options

abbrev request_for_json : Entries
request_for_json = (codes "accept", codes "application/json" ∷ []) ∷ []

vary_matches-same_variant_as_example :
    vary_matches
      (new_policy (codes "GET") request 200 response stored_at shared_options)
      request_for_json
    ≡ (not (has_star (build_vary_snapshot response request))
        && same_variant_as
            (new_policy (codes "GET") request 200 response stored_at shared_options)
            (new_policy (codes "GET") request_for_json 200 response stored_at shared_options))
vary_matches-same_variant_as_example =
    vary_matches-same_variant_as (codes "GET") (codes "GET") request request_for_json response 200
      200 stored_at stored_at shared_options shared_options
