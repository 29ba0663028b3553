-- ===== src/Tests/Validation.antt =====
-- Requests for the sample response, and answers of its origin.
use trillium_cache.Prelude.{
  ◌≡◌, ◌⊎◌, inl, refl, true, false, ◌||◌, none, some, [], ◌∷◌, any, if◌then◌else◌,
}
use trillium_cache.Text.{Str, str_eq, codes, to_string}
use trillium_cache.Time.{done, from_secs, as_secs}
use trillium_cache.Http.{age, if_none_match, if_modified_since, if_range}
use trillium_cache.Policy.{CacheOptions, CachePolicy, new_policy}
use trillium_cache.Freshness.{current_age, max_age, cc_is}
use trillium_cache.Validation.{
  CachedResponse, BeforeRequest, AfterResponse, before_request, after_response, cached_response,
  vary_matches, revalidation_request_headers, demands_revalidation,
}
use trillium_cache.Validation.Etag.{inm_matches}
use trillium_cache.Validation.Etag.Tags.{
  EntityTag, render, render_list, opaques, inm_matches-render_list,
}
use trillium_cache.Validation.Merge.Laws.{is_hop_by_hop, is_listed}
use trillium_cache.Validation.Decision.{is_served, directive, max_stale_overrides_no_cache}
use trillium_cache.Validation.{strong_tags}
use trillium_cache.Validation.Strong.{IsUncut}
use trillium_cache.Prelude.{List, All, keep, not}
use trillium_cache.Validation.Replies.{cached_response_lem}
use trillium_cache.Validation.Update.{Effect, after_response_lem}
use trillium_cache.Validation.Request.{
  forwarded, NeedsStrong, Validators, revalidation_request_headers_lem,
}
use trillium_cache.Tests.World.{world, Entries, wire_name}
use trillium_cache.Tests.Samples.{request, response, policy, policy_of, current_age-policy}

-- The sample response with `no-cache`, and the sample request with `max-stale`.
abbrev uncached : CachePolicy
uncached = policy_of ((codes "cache-control", codes "no-cache" ∷ []) ∷ response)

abbrev lax_request : Entries
lax_request = (codes "cache-control", codes "max-stale" ∷ []) ∷ request

uncached_age : current_age uncached (from_secs 2070) ≡ done (from_secs 75)
unfolding current_age new_policy trillium_cache.Freshness.age_header_value str_eq
    trillium_cache.Freshness.parse_age_value trillium_cache.Text.split trillium_cache.Text.parse_u64
    trillium_cache.Text.trim
uncached_age = refl

uncached_no_cache : cc_is uncached world.is_no_cache ≡ true
unfolding new_policy trillium_cache.Policy.derive_response_cache_control
    trillium_cache.Policy.effective_response_cache_control str_eq trillium_cache.Text.split
    trillium_cache.Text.split_once trillium_cache.Text.trim
uncached_no_cache = refl

uncached_lax : cc_is uncached world.must_revalidate ≡ false
unfolding new_policy trillium_cache.Policy.derive_response_cache_control
    trillium_cache.Policy.effective_response_cache_control str_eq trillium_cache.Text.split
    trillium_cache.Text.split_once trillium_cache.Text.trim
uncached_lax = refl

uncached_matches : vary_matches uncached lax_request ≡ true
unfolding vary_matches new_policy trillium_cache.Policy.build_vary_snapshot str_eq
    trillium_cache.Policy.vary_names mathlib.Core.List.flat_map mathlib.Core.List.filter_map
    trillium_cache.Text.split trillium_cache.Text.is_empty_str trillium_cache.Text.trim
    trillium_cache.Text.to_ascii_lowercase trillium_cache.Policy.option_str_eq
uncached_matches = refl

lax_demands_nothing : demands_revalidation lax_request ≡ false
unfolding demands_revalidation str_eq trillium_cache.Text.split trillium_cache.Text.split_once
    trillium_cache.Text.trim
lax_demands_nothing = refl

lax_max_age : directive lax_request world.max_age ≡ none
unfolding str_eq trillium_cache.Text.split trillium_cache.Text.split_once trillium_cache.Text.trim
lax_max_age = refl

lax_min_fresh : directive lax_request world.min_fresh ≡ none
unfolding str_eq trillium_cache.Text.split trillium_cache.Text.split_once trillium_cache.Text.trim
lax_min_fresh = refl

lax_max_stale : directive lax_request world.max_stale ≡ some none
unfolding str_eq trillium_cache.Text.split trillium_cache.Text.split_once trillium_cache.Text.trim
lax_max_stale = refl

max_stale_overrides_no_cache_example :
    (max_age uncached ≡ 0)
    × ((r : BeforeRequest) × (before_request uncached lax_request (from_secs 2070) ≡ done r)
        × (is_served r ≡ true))
max_stale_overrides_no_cache_example =
    max_stale_overrides_no_cache uncached lax_request (from_secs 2070) (from_secs 75) uncached_age
      (inl uncached_no_cache) uncached_lax uncached_matches lax_demands_nothing lax_max_age
      lax_min_fresh lax_max_stale

abbrev answer : Entries
answer =
    (codes "cache-control", codes "max-age=90" ∷ []) ∷ (codes "content-length", codes "0" ∷ []) ∷ []

after_response_lem_example :
    (r : AfterResponse) × (after_response policy request 304 answer (from_secs 2071) ≡ done r)
    × Effect policy request 304 answer (from_secs 2071) r
after_response_lem_example = after_response_lem policy request 304 answer (from_secs 2071)

cached_response_lem_example :
    (reply : CachedResponse) × (cached_response policy (from_secs 2070) ≡ done reply)
    × (reply.status ≡ 200)
    × ((n : world.HeaderName)
        → world.get_values reply.headers n ≡ (
            if str_eq (wire_name age) n
            then some (to_string (as_secs (from_secs 75)) ∷ [])
            else if is_hop_by_hop n || is_listed response n
            then none
            else world.get_values response n))
unfolding new_policy str_eq
cached_response_lem_example =
    cached_response_lem policy (from_secs 2070) (from_secs 75) current_age-policy

revalidation_request_headers_lem_example :
    ((n : world.HeaderName)
      → (world.get_values (revalidation_request_headers policy request) n ≡ (
          if str_eq (wire_name if_range) n then none else world.get_values (forwarded request) n))
        ⊎ (str_eq (wire_name if_none_match) n ≡ true)
        ⊎ (str_eq (wire_name if_modified_since) n ≡ true))
    × ((NeedsStrong policy request
          × Validators policy request true (revalidation_request_headers policy request))
        ⊎ ((¬ NeedsStrong policy request)
            × Validators policy request false (revalidation_request_headers policy request)))
    × ((t : EntityTag) (ts : List EntityTag)
        → All IsUncut (t ∷ ts)
        → strong_tags (render_list (t ∷ ts)) ≡ render_list (keep (λ u. not u.weak) (t ∷ ts)))
revalidation_request_headers_lem_example = revalidation_request_headers_lem policy request

abbrev weak_a : EntityTag
weak_a = record { weak = true; opaque = codes "a,b" }

abbrev strong_c : EntityTag
strong_c = record { weak = false; opaque = codes "c" }

inm_matches-render_list_example :
    inm_matches (render_list (weak_a ∷ strong_c ∷ [])) (some (render strong_c))
    ≡ any (λ tag. str_eq tag (codes "c")) (opaques (weak_a ∷ strong_c ∷ []))
inm_matches-render_list_example =
    inm_matches-render_list weak_a (strong_c ∷ []) strong_c
      ((refl, (refl, (refl, tt))), ((refl, tt), tt))
