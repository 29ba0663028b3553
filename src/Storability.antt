-- ===== src/Storability.antt =====
-- src/storability.rs: whether a cache may store an exchange at all.
pub mod Rules
use trillium_cache.Prelude.{
  ℕ, Bool, true, false, not, ◌&&◌, ◌||◌, Option, List, [], ◌∷◌, is_some, is_some_and, any,
  if◌then◌else◌, ◌==◌,
}
use trillium_cache.Http.{Http, authorization, expires}
use trillium_cache.Policy.{CacheOptions, effective_response_cache_control}

-- `STATUS_CODE_CACHEABLE_BY_DEFAULT`
abbrev pub status_code_cacheable_by_default : List ℕ
status_code_cacheable_by_default =
    200 ∷ 203 ∷ 204 ∷ 206 ∷ 300 ∷ 301 ∷ 308 ∷ 404 ∷ 405 ∷ 410 ∷ 414 ∷ 501 ∷ []

module _ ⦃http : Http⦄ where
  open http use {
    Method, Status, Headers, CacheControlHeader, method_eq, get, head, post, status_code,
    has_header, known, cache_control_of, is_no_store, is_private, is_public, must_revalidate,
    max_age, s_maxage,
  }

  -- `is_cacheable_by_default`
  unfoldable pub is_cacheable_by_default : Status → Bool
  is_cacheable_by_default status =
      any (λ c. c == status_code status) status_code_cacheable_by_default

  -- `response_has_explicit_expiration`
  unfoldable pub response_has_explicit_expiration :
      Option CacheControlHeader → Headers → CacheOptions → Bool → Bool
  response_has_explicit_expiration response_cc response_headers options targeted_cc_in_effect =
      if options.shared && is_some_and response_cc (λ cc. is_some (s_maxage cc))
      then true
      else if is_some_and response_cc (λ cc. is_some (max_age cc))
      then true
      else not targeted_cc_in_effect && has_header response_headers (known expires)

  -- `CachePolicy::is_storable`
  unfoldable pub is_storable : Method → Headers → Status → Headers → CacheOptions → Bool
  unfolding is_cacheable_by_default response_has_explicit_expiration
  is_storable method request_headers status response_headers options =
      let request_cc = cache_control_of request_headers in
      let (response_cc, targeted_cc_in_effect) =
        effective_response_cache_control response_headers options in
      let method_ok =
        method_eq method get
        || (method_eq method head
            || (method_eq method post
                && response_has_explicit_expiration response_cc response_headers options
                    targeted_cc_in_effect)) in
      if is_some_and request_cc is_no_store
      then false
      else if not method_ok
      then false
      else if is_some_and response_cc is_no_store
      then false
      else if options.shared && is_some_and response_cc is_private
      then false
      else if options.shared
          && (has_header request_headers (known authorization)
              && not (
                  is_some_and response_cc
                    (λ cc. must_revalidate cc || (is_public cc || is_some (s_maxage cc)))))
      then false
      else (not targeted_cc_in_effect && has_header response_headers (known expires))
        || (is_some_and response_cc (λ cc.
              is_some (max_age cc) || (is_public cc || (options.shared && is_some (s_maxage cc))))
            || is_cacheable_by_default status)
