-- ===== src/Storability/Rules.antt =====
-- The rules of RFC 9111 §3, and the test that decides them.
use trillium_cache.Prelude.{◌≡◌, ◌⊎◌, ◌↔◌, Bool, true, false, Option, arith, is_some_and, is_some}
use trillium_cache.Http.{Http, authorization, expires}
use trillium_cache.Policy.{CacheOptions, effective_response_cache_control}
use trillium_cache.Storability.{
  is_storable, is_cacheable_by_default, response_has_explicit_expiration,
}

module _ ⦃http : Http⦄ where
  open http use {
    Method, Status, Headers, CacheControlHeader, method_eq, method_eq_iff, get, head, post,
    has_header, known, cache_control_of, is_no_store, is_private, is_public, must_revalidate,
    max_age, s_maxage,
  }

  -- The rules, for the directives `cc` and the flag of a targeted field.
  module _ (method : Method) (request_headers : Headers) (status : Status)
      (response_headers : Headers) (o : CacheOptions) (cc : Option CacheControlHeader)
      (targeted : Bool) where
    abbrev HasExpires : Type 0
    HasExpires = (targeted ≡ false) × (has_header response_headers (known expires) ≡ true)

    abbrev HasMaxAge : Type 0
    HasMaxAge = is_some_and cc (λ c. is_some (max_age c)) ≡ true

    abbrev HasSharedMaxAge : Type 0
    HasSharedMaxAge = (o.shared ≡ true) × (is_some_and cc (λ c. is_some (s_maxage c)) ≡ true)

    abbrev IsPublic : Type 0
    IsPublic = is_some_and cc is_public ≡ true

    pub record MayStore : Type 0 where
      pub method_ok :
          (method ≡ get)
          ⊎ (method ≡ head)
          ⊎ ((method ≡ post) × (HasSharedMaxAge ⊎ HasMaxAge ⊎ HasExpires))
      pub request_allows : is_some_and (cache_control_of request_headers) is_no_store ≡ false
      pub response_allows : is_some_and cc is_no_store ≡ false
      pub not_private : (o.shared ≡ false) ⊎ (is_some_and cc is_private ≡ false)
      pub authorized :
          (o.shared ≡ false)
          ⊎ (has_header request_headers (known authorization) ≡ false)
          ⊎ (is_some_and cc must_revalidate ≡ true)
          ⊎ IsPublic
          ⊎ HasSharedMaxAge
      pub has_lifetime :
          HasExpires
          ⊎ HasMaxAge
          ⊎ IsPublic
          ⊎ HasSharedMaxAge
          ⊎ (is_cacheable_by_default status ≡ true)

  -- `is_storable` decides the rules, with the directives of the field that is in effect.
  pub is_storable_iff :
      (method : Method) (request_headers : Headers) (status : Status) (response_headers : Headers)
      (o : CacheOptions)
      → (is_storable method request_headers status response_headers o ≡ true)
        ↔ MayStore method request_headers status response_headers o
            (effective_response_cache_control response_headers o).0
            (effective_response_cache_control response_headers o).1
  unfolding is_storable response_has_explicit_expiration
  is_storable_iff method request_headers status response_headers o =
      ground (arith, method_eq_iff method get, method_eq_iff method head, method_eq_iff method post)

  abbrev pub private_options : CacheOptions → CacheOptions
  private_options o = record o { shared = false }

  -- A private cache may store whatever a shared one may, unless the shared cache goes by a targeted
  -- field or by `s-maxage`, which a private cache ignores.
  pub is_storable-private :
      (method : Method) (request_headers : Headers) (status : Status) (response_headers : Headers)
      (o : CacheOptions)
      → (effective_response_cache_control response_headers o).1 ≡ false
      → is_some_and (cache_control_of response_headers) (λ c. is_some (s_maxage c)) ≡ false
      → is_storable method request_headers status response_headers o ≡ true
      → is_storable method request_headers status response_headers (private_options o) ≡ true
  unfolding is_storable response_has_explicit_expiration effective_response_cache_control
  is_storable-private method request_headers status response_headers o untargeted no_shared ok =
      ground arith
