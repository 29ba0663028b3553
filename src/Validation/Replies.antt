-- ===== src/Validation/Replies.antt =====
-- The heads of the responses that are served from the cache.
use trillium_cache.Prelude.{
  ◌≡◌, refl, ◌||◌, Option, none, some, List, [], ◌∷◌, arith, any, if◌then◌else◌, or_else,
  or_else-none,
}
use trillium_cache.Text.{to_string}
use trillium_cache.Time.{Duration, SystemTime, done, as_secs}
use trillium_cache.Http.{Http, KnownHeaderName, age}
use trillium_cache.Policy.{CachePolicy}
use trillium_cache.Freshness.{current_age}
use trillium_cache.Validation.Merge.{copy_without_hop_by_hop_headers}
use trillium_cache.Validation.Merge.Laws.{is_hop_by_hop, is_listed, get_values-copy}
use trillium_cache.Validation.{
  CachedResponse, cached_response, cached_response_304, copy_values, copy_kept, headers_to_keep,
}

module _ ⦃http : Http⦄ where
  open http use {
    Headers, HeaderName, HeaderValue, get_values, known, name_eq, name_eq_iff, value, insert, new,
    get_values-insert, get_values-new, not_modified,
  }

  -- A reply from the cache has the stored status and, as its `Age`, the age in whole seconds; of
  -- the other headers it has the stored ones, but for those of one hop.
  pub cached_response_lem :
      (p : CachePolicy) (now : SystemTime) (a : Duration)
      → current_age p now ≡ done a
      → (reply : CachedResponse) × (cached_response p now ≡ done reply)
        × (reply.status ≡ p.response_status)
        × ((n : HeaderName)
            → get_values reply.headers n ≡ (
                if name_eq (known age) n
                then some (value (to_string (as_secs a)) ∷ [])
                else if is_hop_by_hop n || is_listed p.response_headers n
                then none
                else get_values p.response_headers n))
  unfolding cached_response
  cached_response_lem p now a aged = (
    record {
      status = p.response_status;
      headers =
          insert (copy_without_hop_by_hop_headers p.response_headers) (known age)
            (value (to_string (as_secs a)) ∷ []);
    },
    rw aged,
    refl,
    λ n. simp (get_values-insert, get_values-copy),
  )

  get_values-copy_values :
      (found : Option (List HeaderValue)) (name : HeaderName) (out : Headers) (n : HeaderName)
      → get_values (copy_values found name out) n
        ≡ (if name_eq name n then or_else found (get_values out n) else get_values out n)
  unfolding copy_values
  get_values-copy_values none name out n = ground arith
  get_values-copy_values (some values) name out n = get_values-insert out name n values

  get_values-copy_kept :
      (source : Headers) (names : List KnownHeaderName) (out : Headers) (n : HeaderName)
      → get_values (copy_kept source names out) n ≡ (
          if any (λ k. name_eq (known k) n) names
          then or_else (get_values source n) (get_values out n)
          else get_values out n)
  unfolding copy_kept
  get_values-copy_kept source [] out n = refl
  get_values-copy_kept source (k ∷ names) out n = ground (
    arith,
    get_values-copy_kept source names (copy_values (get_values source (known k)) (known k) out) n,
    get_values-copy_values (get_values source (known k)) (known k) out n,
    name_eq_iff (known k) n,
  )

  -- A 304 from the cache has the age, and of the stored headers exactly the validators, dates and
  -- caching headers that a 304 may carry.
  pub cached_response_304_lem :
      (p : CachePolicy) (now : SystemTime) (a : Duration)
      → current_age p now ≡ done a
      → (reply : CachedResponse) × (cached_response_304 p now ≡ done reply)
        × (reply.status ≡ not_modified)
        × ((n : HeaderName)
            → get_values reply.headers n ≡ (
                if name_eq (known age) n
                then some (value (to_string (as_secs a)) ∷ [])
                else if any (λ k. name_eq (known k) n) headers_to_keep
                then get_values p.response_headers n
                else none))
  unfolding cached_response_304
  cached_response_304_lem p now a aged = (
    record {
      status = not_modified;
      headers =
          insert (copy_kept p.response_headers headers_to_keep new) (known age)
            (value (to_string (as_secs a)) ∷ []);
    },
    rw aged,
    refl,
    λ n. simp (get_values-insert, get_values-copy_kept, get_values-new, or_else-none),
  )
