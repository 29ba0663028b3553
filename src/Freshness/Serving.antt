-- ===== src/Freshness/Serving.antt =====
-- When a stale response may be served.
use trillium_cache.Prelude.{◌+◌, ◌≤◌, ◌<◌, ◌≡◌, ◌↔◌, true, false, ◌&&◌, arith}
use trillium_cache.Time.{Duration, SystemTime, done}
use trillium_cache.Http.{Http}
use trillium_cache.Policy.{CachePolicy}
use trillium_cache.Freshness.{
  current_age, max_age, is_stale, cc_is, is_swr_eligible, is_sie_eligible,
  is_eligible_for_stale_serving, stale_while_revalidate_window, stale_if_error_window,
}

module _ ⦃http : Http⦄ where
  open http use {must_revalidate, is_proxy_revalidate}

  -- The response is stale by less than the window and nothing forbids serving it stale.
  abbrev pub MayServeStale : CachePolicy → Duration → Duration → Type 0
  MayServeStale p current window =
      (max_age p ≤ current)
      × (current < max_age p + window)
      × (cc_is p must_revalidate ≡ false)
      × ((p.options.shared && cc_is p is_proxy_revalidate) ≡ false)

  eligible_iff :
      (p : CachePolicy) (now : SystemTime) (window : Duration) {a : Duration}
      → current_age p now ≡ done a
      → (is_eligible_for_stale_serving p now window ≡ done true) ↔ MayServeStale p a window
  unfolding is_eligible_for_stale_serving is_stale
  eligible_iff p now window e = ground arith

  -- With a computable age, stale-while-revalidate and stale-if-error allow serving exactly in their
  -- windows after the lifetime, unless `must-revalidate`, or `proxy-revalidate` on a shared cache,
  -- forbids it.
  pub eligible_exactly_in_window :
      (p : CachePolicy) (now : SystemTime) {a : Duration}
      → current_age p now ≡ done a
      → ((is_swr_eligible p now ≡ done true) ↔ MayServeStale p a (stale_while_revalidate_window p))
        × ((is_sie_eligible p now ≡ done true) ↔ MayServeStale p a (stale_if_error_window p))
  unfolding is_swr_eligible is_sie_eligible
  eligible_exactly_in_window p now e = (
    eligible_iff p now (stale_while_revalidate_window p) e,
    eligible_iff p now (stale_if_error_window p) e,
  )
