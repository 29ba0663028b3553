-- ===== src/Validation/Served.antt =====
-- What a request gets that is answered from the stored response.
use trillium_cache.Prelude.{
  ◌≡◌, ◌≤◌, ◌↔◌, ◌⊎◌, List, [], ◌∷◌, inl, inr, refl, ◌||◌, true, Option, none, some, arith, any,
  if◌then◌else◌, Bool-cases, Option-cases,
}
use trillium_cache.Text.{Str, to_string}
use trillium_cache.Time.{Duration, SystemTime, done, as_secs}
use trillium_cache.Http.{
  Http, KnownHeaderName, age, cache_control, content_location, date, etag, expires,
  if_modified_since, if_none_match, last_modified, vary,
}
use trillium_cache.Policy.{CachePolicy}
use trillium_cache.Freshness.{current_age}
use trillium_cache.Validation.Etag.{inm_matches, ims_matches}
use trillium_cache.Validation.Merge.Laws.{is_hop_by_hop, is_listed}
use trillium_cache.Validation.Replies.{cached_response_lem, cached_response_304_lem}
use trillium_cache.Validation.{
  CachedResponse, BeforeRequest, fresh, serve_stored, inbound_conditional_matches,
}

-- The headers besides `Age` that a 304 carries (RFC 9110 §15.4.5), and the stored `Last-Modified`.
abbrev pub may_be_kept : List KnownHeaderName
may_be_kept = date ∷ etag ∷ last_modified ∷ vary ∷ cache_control ∷ content_location ∷ expires ∷ []

module _ ⦃http : Http⦄ where
  open http use {
    Headers, HeaderName, get_values, get_str, known, name_eq, value, not_modified, parse_http_date,
  }

  -- The stored response, with its age.
  abbrev pub IsStored : CachePolicy → Duration → CachedResponse → Type 0
  IsStored p a reply =
      (reply.status ≡ p.response_status)
      × ((n : HeaderName)
          → get_values reply.headers n ≡ (
              if name_eq (known age) n
              then some (value (to_string (as_secs a)) ∷ [])
              else if is_hop_by_hop n || is_listed p.response_headers n
              then none
              else get_values p.response_headers n))

  -- A 304 for the stored response, with its age.
  abbrev pub IsUnchanged : CachePolicy → Duration → CachedResponse → Type 0
  IsUnchanged p a reply =
      (reply.status ≡ not_modified)
      × ((n : HeaderName)
          → get_values reply.headers n ≡ (
              if name_eq (known age) n
              then some (value (to_string (as_secs a)) ∷ [])
              else if any (λ k. name_eq (known k) n) may_be_kept
              then get_values p.response_headers n
              else none))

  -- The stored date is there and not later than the one of the request.
  abbrev pub IsNotLater : Option Str → Str → Type 0
  IsNotLater stored asked =
      (lm : Str) × (u : SystemTime) × (t : SystemTime) × (stored ≡ some lm)
      × (parse_http_date lm ≡ some u)
      × (parse_http_date asked ≡ some t)
      × (u ≤ t)

  -- The request's own condition holds: one of its tags is the stored one, or it has none, and the stored
  -- response has not been modified since its date.
  abbrev pub ConditionHolds : CachePolicy → Headers → Type 0
  ConditionHolds p h =
      ((inm : Str) × (get_str h (known if_none_match) ≡ some inm)
        × (inm_matches inm (get_str p.response_headers (known etag)) ≡ true))
      ⊎ ((get_str h (known if_none_match) ≡ none)
          × ((ims : Str) × (get_str h (known if_modified_since) ≡ some ims)
              × IsNotLater (get_str p.response_headers (known last_modified)) ims))

  -- A 304 where the request's own condition holds, and else the stored response.
  abbrev pub Serves : CachePolicy → Headers → Duration → BeforeRequest → Type 0
  Serves p h a r =
      ((reply : CachedResponse) × (r ≡ BeforeRequest.not_modified reply)
        × ConditionHolds p h
        × IsUnchanged p a reply)
      ⊎ ((reply : CachedResponse) × (r ≡ fresh reply) × (¬ ConditionHolds p h) × IsStored p a reply)

  stored_iff :
      (asked : Str) (stored : Option Str) (t : SystemTime)
      → parse_http_date asked ≡ some t
      → (ims_matches asked stored ≡ true) ↔ IsNotLater stored asked
  unfolding ims_matches
  stored_iff asked none t e =
      (λ h. absurd (cc (rw (e, ims_matches) at h)), λ (lm, u, t', is, f, g, le). absurd (cc is))
  stored_iff asked (some lm) t e = elim (Option-cases (parse_http_date lm)) [
    | inl f ↦ (
      λ h. absurd (cc (rw f at (rw (e, ims_matches) at h))),
      λ (lm', u, t', is, g, g', le). absurd (cc (g, f, is)),
    )
    | inr (u, f) ↦ (
      λ h. (lm, u, t, refl, f, e, ground (arith, rw f at (rw (e, ims_matches) at h))),
      λ (lm', u', t', is, g, g', le).
          let at_u : u ≡ u' = cc (f, g, is) in
          let at_t : t ≡ t' = cc (e, g') in
          rw (e, ims_matches) (rw f (rw (at_u, at_t) (ground (arith, le)))),
    )
  ]

  ims_matches_iff :
      (asked : Str) (stored : Option Str)
      → (ims_matches asked stored ≡ true) ↔ IsNotLater stored asked
  unfolding ims_matches
  ims_matches_iff asked stored = elim (Option-cases (parse_http_date asked)) [
    | inl e ↦ (
      λ h. absurd (cc (rw (e, ims_matches) at h)),
      λ (lm, u, t, is, f, g, le). absurd (cc (e, g)),
    )
    | inr (t, e) ↦ stored_iff asked stored t e
  ]

  conditional_iff :
      (p : CachePolicy) (h : Headers)
      → (inbound_conditional_matches p h ≡ true) ↔ ConditionHolds p h
  unfolding inbound_conditional_matches
  conditional_iff p h = elim (Option-cases (get_str h (known if_none_match))) [
    | inr (inm, e) ↦ (
      λ m. inl (inm, e, rw (e, inbound_conditional_matches) at m),
      λ c. elim c [
        | inl (inm', f, m) ↦
            let same : inm' ≡ inm = cc (e, f) in rw (e, inbound_conditional_matches) (rw (← same) m)
        | inr (f, _) ↦ absurd (cc (e, f))
      ],
    )
    | inl e ↦ elim (Option-cases (get_str h (known if_modified_since))) [
      | inl f ↦ (
        λ m. absurd (cc (rw f at (rw (e, inbound_conditional_matches) at m))),
        λ c. elim c [
          | inl (inm, g, _) ↦ absurd (cc (e, g))
          | inr (_, (ims, g, _)) ↦ absurd (cc (f, g))
        ],
      )
      | inr (ims, f) ↦
          let date = ims_matches_iff ims (get_str p.response_headers (known last_modified)) in
          (
            λ m. inr (e, (ims, f, date.0 (rw f at (rw (e, inbound_conditional_matches) at m)))),
            λ c. elim c [
              | inl (inm, g, _) ↦ absurd (cc (e, g))
              | inr (_, (ims', g, later)) ↦
                  let same : ims' ≡ ims = cc (f, g) in
                  rw (e, inbound_conditional_matches) (rw f (date.1 (rw (← same) later)))
            ],
          )
    ]
  ]

  pub serve_stored-Serves :
      (p : CachePolicy) (h : Headers) (now : SystemTime) (a : Duration)
      → current_age p now ≡ done a
      → (r : BeforeRequest) × (serve_stored p h now ≡ done r) × Serves p h a r
  unfolding serve_stored
  serve_stored-Serves p h now a aged = elim (Bool-cases (inbound_conditional_matches p h)) [
    | inl e ↦
        let (reply, f, at_status, at_headers) = cached_response_304_lem p now a aged in
        (
          BeforeRequest.not_modified reply,
          rw (e, serve_stored) (rw f refl),
          inl (reply, refl, (conditional_iff p h).0 e, (at_status, at_headers)),
        )
    | inr e ↦
        let (reply, f, at_status, at_headers) = cached_response_lem p now a aged in
        (
          fresh reply,
          rw (e, serve_stored) (rw f refl),
          inr (reply, refl, λ c. cc (e, (conditional_iff p h).1 c), (at_status, at_headers)),
        )
  ]
