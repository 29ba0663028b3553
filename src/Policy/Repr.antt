-- ===== src/Policy/Repr.antt =====
-- src/policy.rs: the form in which a policy is written to disk.
use trillium_cache.Prelude.{◌≡◌, refl, sym, Bool}
use trillium_cache.Time.{Duration, SystemTime}
use trillium_cache.Http.{Http}
use trillium_cache.Policy.{
  CacheOptions, CachePolicy, VarySnapshot, derive_response_cache_control, new_policy,
}

module _ ⦃http : Http⦄ where
  open http use {Method, Status, Headers, Ratio, CacheControlHeader}

  -- `PolicyRepr`
  pub record PolicyRepr : Type 0 where
    pub request_method : Method
    pub vary_snapshot : VarySnapshot
    pub response_status : Status
    pub response_headers : Headers
    pub response_time : SystemTime
    pub shared : Bool
    pub cache_heuristic : Ratio
    pub immutable_min_time_to_live : Duration

  -- `From<&CachePolicy> for PolicyRepr`
  unfoldable pub to_repr : CachePolicy → PolicyRepr
  to_repr p = record {
    request_method = p.request_method;
    vary_snapshot = p.vary_snapshot;
    response_status = p.response_status;
    response_headers = p.response_headers;
    response_time = p.response_time;
    shared = p.options.shared;
    cache_heuristic = p.options.cache_heuristic;
    immutable_min_time_to_live = p.options.immutable_min_time_to_live;
  }

  -- `From<PolicyRepr> for CachePolicy`
  unfoldable pub from_repr : PolicyRepr → CachePolicy
  from_repr repr =
      let options : CacheOptions = record {
        shared = repr.shared;
        cache_heuristic = repr.cache_heuristic;
        immutable_min_time_to_live = repr.immutable_min_time_to_live;
      } in
      let (response_cache_control, targeted_cc_in_effect) =
        derive_response_cache_control repr.response_headers options in
      record {
        request_method = repr.request_method;
        vary_snapshot = repr.vary_snapshot;
        response_status = repr.response_status;
        response_headers = repr.response_headers;
        response_cache_control = response_cache_control;
        targeted_cc_in_effect = targeted_cc_in_effect;
        response_time = repr.response_time;
        options = options;
      }

  -- The directives of a policy are those that its headers and options give.
  pub record IsDerived (p : CachePolicy) : Type 0 where
    pub cache_control :
        p.response_cache_control ≡ (derive_response_cache_control p.response_headers p.options).0
    pub targeted :
        p.targeted_cc_in_effect ≡ (derive_response_cache_control p.response_headers p.options).1

  pub new_policy-IsDerived :
      (method : Method) (h rs : Headers) (s : Status) (t : SystemTime) (o : CacheOptions)
      → IsDerived (new_policy method h s rs t o)
  unfolding new_policy
  new_policy-IsDerived method h rs s t o = record { cache_control = refl; targeted = refl }

  -- A policy whose directives are derived from its headers and options is read back from its form
  -- on disk as it was.
  pub from_repr-to_repr : (p : CachePolicy) → IsDerived p → from_repr (to_repr p) ≡ p
  unfolding from_repr to_repr
  from_repr-to_repr p d = λ i. record p {
    response_cache_control = sym d.cache_control i;
    targeted_cc_in_effect = sym d.targeted i;
  }

  -- What is read from disk has derived directives and is written back as it was.
  pub to_repr-from_repr : (r : PolicyRepr) → IsDerived (from_repr r) × (to_repr (from_repr r) ≡ r)
  unfolding from_repr to_repr
  to_repr-from_repr r = (record { cache_control = refl; targeted = refl }, refl)
