-- ===== src/Validation/Decision.antt =====
-- When a stored response is served without asking the origin.
use trillium_cache.Prelude.{
  ◌-◌, ◌≤◌, ◌<◌, ◌≡◌, ◌≢◌, ◌↔◌, ◌⊎◌, inl, inr, refl, Bool, true, false, Option, none, some, arith,
  and_then, leb, if◌then◌else◌, Bool-cases,
}
use mathlib.Core.Path.{subst}
use trillium_cache.Time.{Duration, SystemTime, Run, done, panic}
use trillium_cache.Http.{Http}
use trillium_cache.Policy.{CachePolicy}
use trillium_cache.Freshness.{current_age, max_age, time_to_live, is_stale, cc_is}
use trillium_cache.Freshness.Lifetime.{max_age-revalidated}
use trillium_cache.Validation.{
  BeforeRequest, fresh, stale, before_request, serve_stored, satisfies_without_revalidation,
  allows_stale, is_too_old, is_too_short, demands_revalidation, vary_matches, cached_response,
  cached_response_304, revalidation_request_headers,
}
use trillium_cache.Validation.Served.{Serves, serve_stored-Serves}

Run-cases {ℓ} : {A : Type ℓ} (r : Run A) → (r ≡ panic) ⊎ ((a : A) × (r ≡ done a))
Run-cases (done a) = inr (a, refl)
Run-cases panic = inl refl

-- Four checks one after the other, the last of them only for what is past its lifetime.
checks_lem :
    (d o s t b : Bool) (r : Run Bool) {O S T C : Type 0}
    → (o ≡ false) ↔ O
    → (s ≡ false) ↔ S
    → (t ≡ false) ↔ T
    → (t ≡ true → (c : Bool) → r ≡ done c → (c ≡ true) ↔ C)
    → (if d
        then done false
        else if o
        then done false
        else if s
        then done false
        else if t
        then r
        else done true)
      ≡ done b
    → (b ≡ true) ↔ ((d ≡ false) × O × S × (T ⊎ C))
checks_lem true o s t b r f g k l e = ground arith
checks_lem false true s t b r f g k l e = ground arith
checks_lem false false true t b r f g k l e = ground arith
checks_lem false false false false b r f g k l e = ground arith
checks_lem false false false true b r f g k l e = ground (arith, l refl b e)

module _ ⦃http : Http⦄ where
  open http use {
    Headers, cache_control_of, must_revalidate, min_fresh, max_stale, max_age as cc_max_age,
    is_no_cache, is_proxy_revalidate,
  }

  -- The limits that a request's directives set, for a response of age `current`.
  abbrev pub WithinMaxAge : Option Duration → Duration → Type 0
  WithinMaxAge none current = Unit
  WithinMaxAge (some limit) current = current ≤ limit

  abbrev pub StaysFresh : Option Duration → Duration → Duration → Type 0
  StaysFresh none lifetime current = Unit
  StaysFresh (some least) lifetime current = least ≤ lifetime - current

  abbrev pub CoversStaleness : Option (Option Duration) → Duration → Duration → Type 0
  CoversStaleness none lifetime current = ⊥
  CoversStaleness (some none) lifetime current = Unit
  CoversStaleness (some (some allowed)) lifetime current = current - lifetime < allowed

  abbrev pub directive {ℓ} :
      {A : Type ℓ} → Headers → (http.CacheControlHeader → Option A) → Option A
  directive h f = and_then (cache_control_of h) f

  -- What RFC 9111 asks of a stored response that is served as it is.
  abbrev pub MayServe : CachePolicy → Headers → Duration → Type 0
  MayServe p h current =
      (demands_revalidation h ≡ false)
      × WithinMaxAge (directive h cc_max_age) current
      × StaysFresh (directive h min_fresh) (max_age p) current
      × ((current < max_age p)
          ⊎ ((cc_is p must_revalidate ≡ false)
              × CoversStaleness (directive h max_stale) (max_age p) current))

  -- The answer comes from the stored response.
  abbrev pub is_served : BeforeRequest → Bool
  is_served (fresh reply) = true
  is_served (BeforeRequest.not_modified reply) = true
  is_served (stale headers matches) = false

  module _ (p : CachePolicy) (now : SystemTime) (a : Duration)
      (aged : current_age p now ≡ done a) where
    too_old_iff :
        (limit : Option Duration) (b : Bool)
        → is_too_old p limit now ≡ done b
        → (b ≡ false) ↔ WithinMaxAge limit a
    unfolding is_too_old
    too_old_iff none b e = ground arith
    too_old_iff (some limit) b e = ground arith

    too_short_iff :
        (least : Option Duration) (b : Bool)
        → is_too_short p least now ≡ done b
        → (b ≡ false) ↔ StaysFresh least (max_age p) a
    unfolding is_too_short time_to_live
    too_short_iff none b e = ground arith
    too_short_iff (some least) b e = ground arith

    allows_stale_iff :
        (limit : Option (Option Duration)) (b : Bool)
        → max_age p ≤ a
        → allows_stale p limit now ≡ done b
        → (b ≡ true) ↔ ((cc_is p must_revalidate ≡ false) × CoversStaleness limit (max_age p) a)
    unfolding allows_stale
    allows_stale_iff none b h e = ground arith
    allows_stale_iff (some none) b h e = ground arith
    allows_stale_iff (some (some allowed)) b h e = ground arith

    too_old-ne-panic : (limit : Option Duration) → is_too_old p limit now ≢ panic
    unfolding is_too_old
    too_old-ne-panic none = ground arith
    too_old-ne-panic (some limit) = ground arith

    too_short-ne-panic : (least : Option Duration) → is_too_short p least now ≢ panic
    unfolding is_too_short time_to_live
    too_short-ne-panic none = ground arith
    too_short-ne-panic (some least) = ground arith

    allows_stale-ne-panic :
        (limit : Option (Option Duration)) → max_age p ≤ a → allows_stale p limit now ≢ panic
    unfolding allows_stale
    allows_stale-ne-panic none h = ground arith
    allows_stale-ne-panic (some none) h = ground arith
    allows_stale-ne-panic (some (some allowed)) h = ground arith

    is_stale-done : is_stale p now ≡ done (leb (max_age p) a)
    unfolding is_stale
    is_stale-done = rw aged

    module _ (h : Headers) where
      abbrev limit : Option Duration
      limit = directive h cc_max_age

      abbrev least : Option Duration
      least = directive h min_fresh

      abbrev slack : Option (Option Duration)
      slack = directive h max_stale

      satisfies-ne-panic : satisfies_without_revalidation p h now ≢ panic
      unfolding satisfies_without_revalidation
      satisfies-ne-panic = ground (
        arith,
        too_old-ne-panic limit,
        too_short-ne-panic least,
        allows_stale-ne-panic slack,
        is_stale-done,
      )

      -- the checks one after the other
      satisfies_lem :
          (b : Bool) → satisfies_without_revalidation p h now ≡ done b → (b ≡ true) ↔ MayServe p h a
      unfolding satisfies_without_revalidation
      satisfies_lem b e = elim (Run-cases (is_too_old p limit now)) [
        | inl failed ↦ absurd (too_old-ne-panic limit failed)
        | inr (o, old) ↦ elim (Run-cases (is_too_short p least now)) [
          | inl failed ↦ absurd (too_short-ne-panic least failed)
          | inr (s, short) ↦
              checks_lem (demands_revalidation h) o s (leb (max_age p) a) b
                (allows_stale p slack now) (too_old_iff limit o old) (too_short_iff least s short)
                (ground arith) (λ past c allowed. allows_stale_iff slack c (ground arith) allowed)
                (rw (old, short, is_stale-done, satisfies_without_revalidation) at e)
        ]
      ]

  module _ (p : CachePolicy) (h : Headers) (now : SystemTime) (a : Duration)
      (aged : current_age p now ≡ done a) where
    serve_stored_lem : (r : BeforeRequest) → serve_stored p h now ≡ done r → is_served r ≡ true
    unfolding serve_stored cached_response cached_response_304
    serve_stored_lem r e = ground arith

    serve_stored-ne-panic : serve_stored p h now ≢ panic
    unfolding serve_stored cached_response cached_response_304
    serve_stored-ne-panic = ground arith

    before_request-ne-panic : before_request p h now ≢ panic
    unfolding before_request
    before_request-ne-panic =
        ground (arith, satisfies-ne-panic p now a aged h, serve_stored-ne-panic)

    before_request_lem :
        (r : BeforeRequest)
        → before_request p h now ≡ done r
        → ((is_served r ≡ true) ↔ ((vary_matches p h ≡ true) × MayServe p h a))
          × (is_served r ≡ false → r ≡ stale (revalidation_request_headers p h) (vary_matches p h))
          × (is_served r ≡ true → serve_stored p h now ≡ done r)
    unfolding before_request
    before_request_lem r e = elim (Run-cases (satisfies_without_revalidation p h now)) [
      | inl failed ↦ absurd (satisfies-ne-panic p now a aged h failed)
      | inr (b, satisfied) ↦
          ground (arith, satisfies_lem p now a aged h b satisfied, serve_stored_lem r)
    ]

    answer_of_Serves : (r : BeforeRequest) → serve_stored p h now ≡ done r → Serves p h a r
    answer_of_Serves r e =
        let (r', f, serves) = serve_stored-Serves p h now a aged in
        let same : r' ≡ r = cc (e, f) in subst (Serves p h a) same serves

  pub before_request-is_served :
      (p : CachePolicy) (h : Headers) (now : SystemTime) (a : Duration)
      → current_age p now ≡ done a
      → (r : BeforeRequest) × (before_request p h now ≡ done r)
        × ((Serves p h a r × (vary_matches p h ≡ true) × MayServe p h a)
            ⊎ ((r ≡ stale (revalidation_request_headers p h) (vary_matches p h))
                × ¬ ((vary_matches p h ≡ true) × MayServe p h a)))
  before_request-is_served p h now a aged = elim (Run-cases (before_request p h now)) [
    | inl failed ↦ absurd (before_request-ne-panic p h now a aged failed)
    | inr (r, e) ↦
        let (served, other, stored) = before_request_lem p h now a aged r e in
        (
          r,
          e,
          elim (Bool-cases (is_served r)) [
            | inl yes' ↦
                let (same, may) = served.0 yes' in
                inl (answer_of_Serves p h now a aged r (stored yes'), same, may)
            | inr no' ↦ inr (other no', λ may. cc (no', served.1 may))
          ],
        )
  ]

  is_served_of_Serves :
      (p : CachePolicy) (h : Headers) (a : Duration) (r : BeforeRequest)
      → Serves p h a r
      → is_served r ≡ true
  is_served_of_Serves p h a r (inl (reply, e, _, _)) = rw e refl
  is_served_of_Serves p h a r (inr (reply, e, _, _)) = rw e refl

  served_of_MayServe :
      (p : CachePolicy) (h : Headers) (now : SystemTime) (a : Duration)
      → current_age p now ≡ done a
      → vary_matches p h ≡ true
      → MayServe p h a
      → (r : BeforeRequest) × (before_request p h now ≡ done r) × (is_served r ≡ true)
  served_of_MayServe p h now a aged same may =
      let (r, e, cases) = before_request-is_served p h now a aged in
      (
        r,
        e,
        elim cases [
          | inl (serves, _, _) ↦ is_served_of_Serves p h a r serves
          | inr (_, never) ↦ absurd (never (same, may))
        ],
      )

  -- A stored `no-cache` response, or one with `proxy-revalidate` on a shared cache, is served
  -- without revalidation all the same to a request whose only directive is `max-stale` without a
  -- limit, if the selecting headers match and the response lacks `must-revalidate`.
  pub max_stale_overrides_no_cache :
      (p : CachePolicy) (h : Headers) (now : SystemTime) (a : Duration)
      → current_age p now ≡ done a
      → (cc_is p is_no_cache ≡ true)
        ⊎ ((p.options.shared ≡ true) × (cc_is p is_proxy_revalidate ≡ true))
      → cc_is p must_revalidate ≡ false
      → vary_matches p h ≡ true
      → demands_revalidation h ≡ false
      → directive h cc_max_age ≡ none
      → directive h min_fresh ≡ none
      → directive h max_stale ≡ some none
      → (max_age p ≡ 0)
        × ((r : BeforeRequest) × (before_request p h now ≡ done r) × (is_served r ≡ true))
  max_stale_overrides_no_cache p h now a aged stored lax same asked no_limit no_least slack =
      let within : WithinMaxAge (directive h cc_max_age) a = rw no_limit tt in
      let lasting : StaysFresh (directive h min_fresh) (max_age p) a = rw no_least tt in
      let covered : CoversStaleness (directive h max_stale) (max_age p) a = rw slack tt in
      (
        max_age-revalidated p stored,
        served_of_MayServe p h now a aged same (asked, within, lasting, inr (lax, covered)),
      )
