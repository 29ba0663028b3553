-- ===== src/Freshness/Lifetime.antt =====
-- Which headers decide the lifetime of a response.
use trillium_cache.Prelude.{
  ◌≡◌, ◌≢◌, ◌⊎◌, refl, unwrap_or, if◌then◌else◌, Bool, true, false, none, some, List, arith,
}
use trillium_cache.Text.{codes}
use trillium_cache.Time.{SystemTime, done}
use trillium_cache.Http.{Http, expires, vary, set_cookie}
use trillium_cache.Http.Laws.{header_laws}
use trillium_cache.Policy.{CachePolicy}
use trillium_cache.Freshness.{
  max_age, is_stale, always_stale, directive_lifetime, fallback_lifetime, heuristic_lifetime, cc_is,
  is_star,
}

is_star-codes : is_star (codes "*") ≡ true
unfolding is_star
is_star-codes = refl

module _ ⦃http : Http⦄ where
  open http use {
    HeaderValue, get_str, has_header, insert, known, is_no_cache, is_proxy_revalidate, is_public,
    is_immutable,
  }

  module _ (p : CachePolicy) (v : List HeaderValue) where
    -- The policy with another `Expires`.
    abbrev with_expires : CachePolicy
    with_expires = record p { response_headers = insert p.response_headers (known expires) v }

    always_stale-with_expires : always_stale with_expires ≡ always_stale p
    unfolding always_stale
    always_stale-with_expires = simp header_laws

    heuristic_lifetime-with_expires : heuristic_lifetime with_expires ≡ heuristic_lifetime p
    unfolding heuristic_lifetime
    heuristic_lifetime-with_expires = simp (header_laws, heuristic_lifetime)

    directive_lifetime-with_expires : directive_lifetime with_expires ≡ directive_lifetime p
    unfolding directive_lifetime
    directive_lifetime-with_expires = refl

    fallback_lifetime-targeted :
        p.targeted_cc_in_effect ≡ true → fallback_lifetime p ≡ heuristic_lifetime p
    unfolding fallback_lifetime
    fallback_lifetime-targeted h = rw h refl

  max_age_lem :
      (p : CachePolicy)
      → max_age p
        ≡ (if always_stale p then 0 else unwrap_or (directive_lifetime p) (fallback_lifetime p))
  unfolding max_age
  max_age_lem p = refl

  -- The lifetime does not depend on `Expires` where a targeted field is in effect or a directive
  -- gives a lifetime.
  pub max_age-insert_expires :
      (p : CachePolicy) (v : List HeaderValue)
      → (p.targeted_cc_in_effect ≡ true) ⊎ (directive_lifetime p ≢ none)
      → max_age (record p { response_headers = insert p.response_headers (known expires) v })
        ≡ max_age p
  max_age-insert_expires p v h = ground (
    arith,
    max_age_lem p,
    max_age_lem (with_expires p v),
    always_stale-with_expires p v,
    directive_lifetime-with_expires p v,
    heuristic_lifetime-with_expires p v,
    fallback_lifetime-targeted p,
    fallback_lifetime-targeted (with_expires p v),
  )

  -- What must be revalidated on every use has no lifetime.
  pub max_age-revalidated :
      (p : CachePolicy)
      → (cc_is p is_no_cache ≡ true)
        ⊎ ((p.options.shared ≡ true) × (cc_is p is_proxy_revalidate ≡ true))
      → max_age p ≡ 0
  unfolding max_age always_stale
  max_age-revalidated p h = ground arith

  -- A response that must be revalidated on every use is never fresh: `no-cache`, `Vary: *`, and on a
  -- shared cache `proxy-revalidate` or a cookie that neither `public` nor `immutable` allows.
  pub always_stale-is_stale :
      (p : CachePolicy) (now : SystemTime) {b : Bool}
      → (cc_is p is_no_cache ≡ true)
        ⊎ (get_str p.response_headers (known vary) ≡ some (codes "*"))
        ⊎ ((p.options.shared ≡ true) × (cc_is p is_proxy_revalidate ≡ true))
        ⊎ ((p.options.shared ≡ true)
            × (has_header p.response_headers (known set_cookie) ≡ true)
            × (cc_is p is_public ≡ false)
            × (cc_is p is_immutable ≡ false))
      → is_stale p now ≡ done b
      → b ≡ true
  unfolding is_stale always_stale max_age
  always_stale-is_stale p now h e = ground (arith, is_star-codes)
