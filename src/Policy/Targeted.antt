-- ===== src/Policy/Targeted.antt =====
-- Which field governs a response: `CDN-Cache-Control` or `Cache-Control`.
use trillium_cache.Prelude.{◌≡◌, ◌⊎◌, inl, inr, true, false, some, arith, Bool-cases}
use trillium_cache.Text.{Str}
use trillium_cache.Http.{Http, cdn_cache_control}
use trillium_cache.Policy.{
  CacheOptions, looks_like_valid_sf_dictionary, effective_response_cache_control,
}

module _ ⦃http : Http⦄ where
  open http use {
    Headers, CacheControlHeader, get_str, known, cache_control_of, cdn_cache_control_of, is_empty,
  }

  -- The cache is shared and the response has a well-formed `CDN-Cache-Control`, which is not empty.
  abbrev pub Targets : Headers → CacheOptions → CacheControlHeader → Type 0
  Targets h o cc =
      (o.shared ≡ true)
      × ((raw : Str) × (get_str h (known cdn_cache_control) ≡ some raw)
          × (looks_like_valid_sf_dictionary raw ≡ true))
      × (cdn_cache_control_of h ≡ some cc)
      × (is_empty cc ≡ false)

  module _ (h : Headers) (o : CacheOptions) where
    targeted_lem :
        (c : CacheControlHeader) (raw : Str)
        → o.shared ≡ true
        → get_str h (known cdn_cache_control) ≡ some raw
        → looks_like_valid_sf_dictionary raw ≡ true
        → cdn_cache_control_of h ≡ some c
        → is_empty c ≡ false
        → effective_response_cache_control h o ≡ (some c, true)
    unfolding effective_response_cache_control
    targeted_lem c raw shared found valid parsed full = ground arith

    untargeted_lem :
        (effective_response_cache_control h o).1 ≡ false
        → effective_response_cache_control h o ≡ (cache_control_of h, false)
    unfolding effective_response_cache_control
    untargeted_lem e = ground arith

    Targets-of_flag :
        (raw : Str) (c : CacheControlHeader)
        → get_str h (known cdn_cache_control) ≡ some raw
        → cdn_cache_control_of h ≡ some c
        → (effective_response_cache_control h o).1 ≡ true
        → Targets h o c
    unfolding effective_response_cache_control
    Targets-of_flag raw c found parsed e =
        (ground arith, (raw, found, ground arith), parsed, ground arith)

    raw_of_flag :
        (effective_response_cache_control h o).1 ≡ true
        → ((raw : Str) × (get_str h (known cdn_cache_control) ≡ some raw))
          × ((c : CacheControlHeader) × (cdn_cache_control_of h ≡ some c))
    unfolding effective_response_cache_control
    raw_of_flag e = ground arith

  -- Either a targeted field is in effect and replaces `Cache-Control`, or none is and the directives
  -- are those of `Cache-Control`.
  pub effective_response_cache_control_lem :
      (h : Headers) (o : CacheOptions)
      → ((c : CacheControlHeader) × Targets h o c
          × (effective_response_cache_control h o ≡ (some c, true)))
        ⊎ (((c : CacheControlHeader) → ¬ Targets h o c)
            × (effective_response_cache_control h o ≡ (cache_control_of h, false)))
  effective_response_cache_control_lem h o =
      elim (Bool-cases (effective_response_cache_control h o).1) [
        | inl flag ↦
            let ((raw, found), (c, parsed)) = raw_of_flag h o flag in
            let t = Targets-of_flag h o raw c found parsed flag in
            inl (c, t, targeted_lem h o c t.1.0 t.0 t.1.1 t.1.2 t.2 t.3)
        | inr unset ↦ inr (
          λ c t. cc (unset, targeted_lem h o c t.1.0 t.0 t.1.1 t.1.2 t.2 t.3),
          untargeted_lem h o unset,
        )
      ]
