-- ===== src/Validation/Update.antt =====
-- What the answer of the origin to a revalidation request does to a stored response.
use trillium_cache.Prelude.{◌≡◌, ◌≢◌, refl, if◌then◌else◌, or_else, Bool-cases, inl, inr}
use trillium_cache.Time.{SystemTime, done}
use trillium_cache.Http.{Http}
use trillium_cache.Policy.{
  CachePolicy, new_policy, build_vary_snapshot, derive_response_cache_control,
}
use trillium_cache.Freshness.{age_header_value}
use trillium_cache.Freshness.Age.{current_age-at_response}
use trillium_cache.Validation.Merge.{
  is_excluded_from_revalidation_update, merge_revalidation_headers,
}
use trillium_cache.Validation.Merge.Laws.{get_values-merge}
use trillium_cache.Validation.Replies.{cached_response_lem}
use trillium_cache.Validation.{
  CachedResponse, AfterResponse, modified, after_response, cached_response,
}

module _ ⦃http : Http⦄ where
  open http use {Status, Headers, HeaderName, get_values, status_eq, status_eq_iff, not_modified}

  -- The policy after a 304: the old one with merged headers and a new time.
  pub record IsUpdated (p : CachePolicy) (request_headers new_headers : Headers) (time : SystemTime)
      (p' : CachePolicy) : Type 0 where
    pub request_method : p'.request_method ≡ p.request_method
    pub response_status : p'.response_status ≡ p.response_status
    pub options : p'.options ≡ p.options
    pub response_time : p'.response_time ≡ time
    pub response_headers :
        (n : HeaderName)
        → get_values p'.response_headers n ≡ (
            if is_excluded_from_revalidation_update n
            then get_values p.response_headers n
            else or_else (get_values new_headers n) (get_values p.response_headers n))
    pub vary_snapshot : p'.vary_snapshot ≡ build_vary_snapshot p'.response_headers request_headers
    pub derived :
        (p'.response_cache_control, p'.targeted_cc_in_effect)
        ≡ derive_response_cache_control p'.response_headers p'.options

  -- What an answer with the status `s` may do.
  abbrev pub Effect : CachePolicy → Headers → Status → Headers → SystemTime → AfterResponse → Type 0
  Effect p h s new_headers time modified = s ≢ not_modified
  Effect p h s new_headers time (AfterResponse.not_modified p' reply) =
      (s ≡ not_modified)
      × (cached_response p' time ≡ done reply)
      × IsUpdated p h new_headers time p'

  new_policy-IsUpdated :
      (p : CachePolicy) (h new_headers : Headers) (time : SystemTime)
      → IsUpdated p h new_headers time (
          new_policy p.request_method h p.response_status
            (merge_revalidation_headers p.response_headers new_headers)
            time
            p.options)
  unfolding new_policy
  new_policy-IsUpdated p h new_headers time = record {
    request_method = refl;
    response_status = refl;
    options = refl;
    response_time = refl;
    response_headers = get_values-merge p.response_headers new_headers;
    vary_snapshot = refl;
    derived = refl;
  }

  at_response_time :
      (p : CachePolicy) (time : SystemTime)
      → p.response_time ≡ time
      → (reply : CachedResponse) × (cached_response p time ≡ done reply)
  at_response_time p time e =
      let (reply, ok, _, _) =
        cached_response_lem p time (age_header_value p) (rw (← e) (current_age-at_response p)) in
      (reply, ok)

  -- Any answer but a 304 leaves the stored response alone. A 304 gives a policy with the stored
  -- method, status and options, the time of the answer and the merged headers, from which its `Vary`
  -- values and its directives are computed anew, and the reply that this policy gives. Neither
  -- panics.
  pub after_response_lem :
      (p : CachePolicy) (h : Headers) (s : Status) (new_headers : Headers) (time : SystemTime)
      → (r : AfterResponse) × (after_response p h s new_headers time ≡ done r)
        × Effect p h s new_headers time r
  unfolding after_response
  after_response_lem p h s new_headers time = elim (Bool-cases (status_eq s not_modified)) [
    | inl same ↦
        let updated = new_policy-IsUpdated p h new_headers time in
        let (reply, ok) = at_response_time _ time updated.response_time in
        (
          AfterResponse.not_modified _ reply,
          rw (same, ok),
          ((status_eq_iff s _).0 same, ok, updated),
        )
    | inr other ↦ (modified, rw other, λ e. cc (other, (status_eq_iff s not_modified).1 e))
  ]
