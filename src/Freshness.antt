-- ===== src/Freshness.antt =====
-- src/freshness.rs: the age of a stored response and how long it is fresh.
pub mod Age
pub mod AgeHeader
pub mod Lifetime
pub mod Serving
use trillium_cache.Prelude.{
  ℕ, Bool, false, not, ◌&&◌, ◌||◌, Option, none, some, List, [], ◌∷◌, is_some_and, unwrap_or,
  and_then, ltb, leb, max, if◌then◌else◌, ◌==◌,
}
use trillium_cache.Text.{Str, str_eq, codes, trim, split, parse_u64}
use trillium_cache.Text.Pieces.{first_piece}
use trillium_cache.Time.{
  Duration, SystemTime, Run, done, ◌>>=◌, from_secs, as_secs, add, checked_sub, saturating_sub,
  duration_since,
}
use trillium_cache.Http.{Http, age, vary, set_cookie, expires, last_modified, date}
use trillium_cache.Policy.{CachePolicy}

-- `parse_age_value`
unfoldable pub parse_age_value : Str → Option ℕ
parse_age_value raw =
    and_then (first_piece (split (λ c. c == b';' || c == b',') raw)) (λ s. parse_u64 (trim s))

abbrev pub first_of_lines {ℓ} : {A : Type ℓ} → List A → Option A
first_of_lines [] = none
first_of_lines (x ∷ r) = some x

-- Whether a value is a lone `*`.
unfoldable pub is_star : Str → Bool
unfolding str_eq trim
is_star v = str_eq (trim v) (codes "*")

module _ ⦃http : Http⦄ where
  open http use {
    CacheControlHeader, get_values, get_str, has_header, known, as_str, parse_http_date,
    ratio_of_secs, is_no_cache, is_public, is_immutable, is_proxy_revalidate, must_revalidate,
    s_maxage, max_age as cc_max_age, stale_while_revalidate, stale_if_error,
  }

  -- `self.response_cache_control.as_ref().is_some_and(test)`
  abbrev pub cc_is : CachePolicy → (CacheControlHeader → Bool) → Bool
  cc_is p test = is_some_and p.response_cache_control test

  -- `raw_server_date`
  unfoldable pub raw_server_date : CachePolicy → SystemTime
  raw_server_date p =
      unwrap_or (and_then (get_str p.response_headers (known date)) parse_http_date) p.response_time

  -- `age_header_value`
  unfoldable pub age_header_value : CachePolicy → Duration
  age_header_value p = from_secs (
      unwrap_or
        (and_then
          (and_then (and_then (get_values p.response_headers (known age)) first_of_lines) as_str)
          parse_age_value)
        0)

  -- `CachePolicy::age`; the sum of the two durations panics past the range of `Duration`
  unfoldable pub current_age : CachePolicy → SystemTime → Run Duration
  current_age p now = elim (duration_since now p.response_time) [
    | none ↦ done (age_header_value p)
    | some resident_time ↦ add (age_header_value p) resident_time
  ]

  -- The four guards of `max_age` that make a response stale at once.
  unfoldable pub always_stale : CachePolicy → Bool
  always_stale p =
      cc_is p is_no_cache
      || ((p.options.shared
            && (has_header p.response_headers (known set_cookie)
                && not (cc_is p (λ cc. is_public cc || is_immutable cc))))
          || (is_some_and (get_str p.response_headers (known vary)) is_star
              || (p.options.shared && cc_is p is_proxy_revalidate)))

  -- The lifetime by a directive: `s-maxage` on a shared cache, else `max-age`.
  unfoldable pub directive_lifetime : CachePolicy → Option Duration
  directive_lifetime p =
      let of_max_age = and_then p.response_cache_control cc_max_age in
      if p.options.shared
      then elim (and_then p.response_cache_control s_maxage) [ some s ↦ some s | none ↦ of_max_age ]
      else of_max_age

  unfoldable pub default_min_ttl : CachePolicy → Duration
  default_min_ttl p = if cc_is p is_immutable then p.options.immutable_min_time_to_live else 0

  -- §4.2.2: what `Last-Modified` gives, the last resort of `max_age`
  unfoldable pub heuristic_lifetime : CachePolicy → Duration
  unfolding raw_server_date default_min_ttl
  heuristic_lifetime p =
      elim (and_then (and_then (get_str p.response_headers (known last_modified)) parse_http_date)
        (λ lm. duration_since (raw_server_date p) lm)) [
          | none ↦ default_min_ttl p
          | some diff ↦
              max (default_min_ttl p)
                (from_secs (ratio_of_secs p.options.cache_heuristic (as_secs diff)))
        ]

  -- §4.2.1: what `Expires` gives, where there is one that counts
  unfoldable pub fallback_lifetime : CachePolicy → Duration
  unfolding raw_server_date default_min_ttl heuristic_lifetime
  fallback_lifetime p =
      if p.targeted_cc_in_effect
      then heuristic_lifetime p
      else elim (get_str p.response_headers (known expires)) [
        | none ↦ heuristic_lifetime p
        | some expires_str ↦ elim (parse_http_date expires_str) [
          | none ↦ 0
          | some at ↦ max (default_min_ttl p) (unwrap_or (duration_since at (raw_server_date p)) 0)
        ]
      ]

  -- `CachePolicy::max_age`
  unfoldable pub max_age : CachePolicy → Duration
  unfolding always_stale directive_lifetime fallback_lifetime
  max_age p = if always_stale p then 0 else unwrap_or (directive_lifetime p) (fallback_lifetime p)

  -- `CachePolicy::time_to_live`
  unfoldable pub time_to_live : CachePolicy → SystemTime → Run Duration
  time_to_live p now = do
    current ← current_age p now
    done (unwrap_or (checked_sub (max_age p) current) 0)

  -- `CachePolicy::is_stale`
  unfoldable pub is_stale : CachePolicy → SystemTime → Run Bool
  is_stale p now = do current ← current_age p now; done (leb (max_age p) current)

  -- `stale_while_revalidate_window`
  unfoldable pub stale_while_revalidate_window : CachePolicy → Duration
  stale_while_revalidate_window p =
      unwrap_or (and_then p.response_cache_control stale_while_revalidate) 0

  -- `stale_if_error_window`
  unfoldable pub stale_if_error_window : CachePolicy → Duration
  stale_if_error_window p = unwrap_or (and_then p.response_cache_control stale_if_error) 0

  -- `is_eligible_for_stale_serving`
  unfoldable pub is_eligible_for_stale_serving : CachePolicy → SystemTime → Duration → Run Bool
  is_eligible_for_stale_serving p now window = do
    stale ← is_stale p now
    if not stale || window == 0
        then done false
        else if cc_is p must_revalidate
        then done false
        else if p.options.shared && cc_is p is_proxy_revalidate
        then done false
        else do current ← current_age p now; done (ltb (saturating_sub current (max_age p)) window)

  -- `is_swr_eligible`
  unfoldable pub is_swr_eligible : CachePolicy → SystemTime → Run Bool
  unfolding is_eligible_for_stale_serving stale_while_revalidate_window
  is_swr_eligible p now = is_eligible_for_stale_serving p now (stale_while_revalidate_window p)

  -- `is_sie_eligible`
  unfoldable pub is_sie_eligible : CachePolicy → SystemTime → Run Bool
  unfolding is_eligible_for_stale_serving stale_if_error_window
  is_sie_eligible p now = is_eligible_for_stale_serving p now (stale_if_error_window p)
