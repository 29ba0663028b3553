-- ===== src/Validation/Request.antt =====
-- The request that a cache sends to revalidate a stored response.
use trillium_cache.Prelude.{
  ◌≡◌, refl, ◌∙◌, Bool, true, false, Option, none, some, ◌++◌, ap, sym, and_then, is_some, ◌==◌,
  ◌⊎◌, inl, inr, ◌↔◌, List, ◌∷◌, All, keep, not, arith, if◌then◌else◌, Option-cases, Bool-cases,
}
use trillium_cache.Text.{Str, codes, is_empty_str}
use trillium_cache.Http.{
  Http, only, KnownHeaderName, accept_ranges, etag, if_match, if_modified_since, if_none_match,
  if_range, if_unmodified_since, last_modified,
}
use trillium_cache.Http.Laws.{header_laws, index, name_eq-known}
use trillium_cache.Policy.{CachePolicy}
use trillium_cache.Validation.Merge.{copy_without_hop_by_hop_headers}
use trillium_cache.Validation.Etag.Tags.{EntityTag, render_list}
use trillium_cache.Validation.Strong.{IsUncut, strong_tags-render_list}
use trillium_cache.Validation.{
  revalidation_request_headers, add_etag, forbids_weak_validators, drop_weak_validators,
  add_last_modified, strong_tags,
}

-- The stored tag behind those of the request.
abbrev pub joined : Option Str → Option Str → Option Str
joined none asked = asked
joined (some tag) none = some tag
joined (some tag) (some asked) = some (asked ++ (codes ", " ++ tag))

-- The strong tags of a list, if there are any.
abbrev pub only_strong : Option Str → Option Str
only_strong none = none
only_strong (some inm) = if is_empty_str (strong_tags inm) then none else some (strong_tags inm)

module _ ⦃http : Http⦄ where
  open http use {
    Headers, HeaderName, HeaderValue, get_values, get_str, has_header, known, name_eq, insert,
    remove, value, method_eq, get, as_str, as_str-value, get_values-insert, get_values-remove,
    get_str_lem, has_header_lem,
  }

  absent : {h : Headers} {n : HeaderName} → has_header h n ≡ false → get_str h n ≡ none
  absent {h} {n} e = rw (get_str_lem h n) (elim (Option-cases (get_values h n)) [
    | inl f ↦ rw f
    | inr (values, f) ↦ cc (e, has_header_lem h n, ap is_some f)
  ])

  -- The headers of the request that are forwarded.
  abbrev pub forwarded : Headers → Headers
  forwarded h = copy_without_hop_by_hop_headers h

  module _ (p : CachePolicy) (h : Headers) where
    get_str-add_etag :
        get_str (add_etag p h) (known if_none_match)
        ≡ joined (get_str p.response_headers (known etag)) (get_str h (known if_none_match))
    unfolding add_etag
    get_str-add_etag = elim (Option-cases (get_str p.response_headers (known etag))) [
      | inl e ↦ rw (e, add_etag)
      | inr (tag, e) ↦ elim (Option-cases (get_str h (known if_none_match))) [
        | inl f ↦ rw (e, add_etag) (rw f (simp (header_laws, as_str-value)))
        | inr (asked, f) ↦ rw (e, add_etag) (rw f (simp (header_laws, as_str-value)))
      ]
    ]

    -- another header is not touched
    get_values-add_etag :
        (n : HeaderName)
        → name_eq (known if_none_match) n ≡ false
        → get_values (add_etag p h) n ≡ get_values h n
    unfolding add_etag
    get_values-add_etag n ne = elim (Option-cases (get_str p.response_headers (known etag))) [
      | inl e ↦ rw (e, add_etag)
      | inr (tag, e) ↦ rw (e, add_etag) (simp (get_values-insert, ne))
    ]

    get_values-drop :
        (n : HeaderName)
        → name_eq (known if_none_match) n ≡ false
        → name_eq (known if_modified_since) n ≡ false
        → get_values (drop_weak_validators h) n ≡ get_values h n
    unfolding drop_weak_validators
    get_values-drop n ne ne' =
        elim (Option-cases (get_str (remove h (known if_modified_since)) (known if_none_match))) [
          | inl e ↦ rw (e, drop_weak_validators) (simp (get_values-remove, ne'))
          | inr (inm, e) ↦ elim (Bool-cases (is_empty_str (strong_tags inm))) [
            | inl f ↦ rw (e, drop_weak_validators) (rw f (simp (get_values-remove, ne, ne')))
            | inr f ↦
                rw (e, drop_weak_validators)
                  (rw f (simp (get_values-insert, get_values-remove, ne, ne')))
          ]
        ]

    get_values-add_last_modified :
        (n : HeaderName)
        → name_eq (known if_modified_since) n ≡ false
        → get_values (add_last_modified p h) n ≡ get_values h n
    unfolding add_last_modified
    get_values-add_last_modified n ne = elim (Bool-cases (has_header h (known if_modified_since))) [
      | inl e ↦ rw (e, add_last_modified)
      | inr e ↦ elim (Option-cases (get_str p.response_headers (known last_modified))) [
        | inl f ↦ rw (e, add_last_modified) (rw f)
        | inr (lm, f) ↦ rw (e, add_last_modified) (rw f (simp (get_values-insert, ne)))
      ]
    ]

    get_str-drop :
        get_str (drop_weak_validators h) (known if_none_match)
        ≡ only_strong (get_str h (known if_none_match))
    unfolding drop_weak_validators
    get_str-drop =
        let same : get_str (remove h (known if_modified_since)) (known if_none_match)
            ≡ get_str h (known if_none_match) =
          simp header_laws in
        elim (Option-cases (get_str h (known if_none_match))) [
          | inl e ↦ rw (same ∙ e, drop_weak_validators) (rw e (same ∙ e))
          | inr (inm, e) ↦ elim (Bool-cases (is_empty_str (strong_tags inm))) [
            | inl f ↦ rw (same ∙ e, drop_weak_validators) (rw e (rw f (simp header_laws)))
            | inr f ↦
                rw (same ∙ e, drop_weak_validators) (rw e (rw f (simp (header_laws, as_str-value))))
          ]
        ]

    has_header-drop : has_header (drop_weak_validators h) (known if_modified_since) ≡ false
    unfolding drop_weak_validators
    has_header-drop =
        elim (Option-cases (get_str (remove h (known if_modified_since)) (known if_none_match))) [
          | inl e ↦ rw (e, drop_weak_validators) (simp header_laws)
          | inr (inm, e) ↦ elim (Bool-cases (is_empty_str (strong_tags inm))) [
            | inl f ↦ rw (e, drop_weak_validators) (rw f (simp header_laws))
            | inr f ↦ rw (e, drop_weak_validators) (rw f (simp header_laws))
          ]
        ]

    get_str-add_last_modified : get_str (add_last_modified p h) (known if_modified_since) ≡ (
        if has_header h (known if_modified_since)
        then get_str h (known if_modified_since)
        else get_str p.response_headers (known last_modified))
    unfolding add_last_modified
    get_str-add_last_modified = elim (Bool-cases (has_header h (known if_modified_since))) [
      | inl e ↦ rw (e, add_last_modified)
      | inr e ↦ elim (Option-cases (get_str p.response_headers (known last_modified))) [
        | inl f ↦ rw (e, add_last_modified) (rw f (absent e))
        | inr (lm, f) ↦ rw (e, add_last_modified) (rw f (simp (header_laws, as_str-value)))
      ]
    ]

  -- The headers after the stored tag has joined those of the request.
  abbrev tagged : CachePolicy → Headers → Headers
  tagged p h = add_etag p (remove (forwarded h) (known if_range))

  module _ (p : CachePolicy) (h : Headers) where
    get_values-tagged :
        (n : HeaderName)
        → name_eq (known if_none_match) n ≡ false
        → get_values (tagged p h) n
          ≡ (if name_eq (known if_range) n then none else get_values (forwarded h) n)
    get_values-tagged n ne =
        get_values-add_etag p (remove (forwarded h) (known if_range)) n ne
        ∙ get_values-remove (forwarded h) (known if_range) n

    has_header-tagged :
        (k : KnownHeaderName)
        → (index if_none_match == index k) ≡ false
        → (index if_range == index k) ≡ false
        → has_header (tagged p h) (known k) ≡ has_header (forwarded h) (known k)
    has_header-tagged k ne ne' =
        has_header_lem (tagged p h) (known k)
        ∙ ap is_some (
            get_values-tagged (known k) (name_eq-known if_none_match k ∙ ne)
            ∙ rw (name_eq-known if_range k ∙ ne'))
        ∙ sym (has_header_lem (forwarded h) (known k))

    forbids-tagged :
        forbids_weak_validators p (tagged p h) ≡ forbids_weak_validators p (forwarded h)
    unfolding forbids_weak_validators
    forbids-tagged = rw (
      has_header-tagged accept_ranges refl refl,
      has_header-tagged if_match refl refl,
      has_header-tagged if_unmodified_since refl refl,
    )

    get_str-tagged :
        get_str (tagged p h) (known if_none_match)
        ≡ joined
            (get_str p.response_headers (known etag))
            (get_str (forwarded h) (known if_none_match))
    get_str-tagged = get_str-add_etag p (remove (forwarded h) (known if_range)) ∙ simp header_laws

    get_str-tagged_date :
        get_str (tagged p h) (known if_modified_since)
        ≡ get_str (forwarded h) (known if_modified_since)
    get_str-tagged_date =
        get_str_lem (tagged p h) (known if_modified_since)
        ∙ ap (λ v. and_then (and_then v only) as_str)
            (get_values-tagged (known if_modified_since)
                (name_eq-known if_none_match if_modified_since)
              ∙ rw (name_eq-known if_range if_modified_since))
        ∙ sym (get_str_lem (forwarded h) (known if_modified_since))

  -- Which validators a revalidation request carries. Where weak ones are allowed: the stored tag
  -- behind the tags of the request, and the request's date or else the stored one. Where they are
  -- forbidden: no date, and of those tags the strong ones.
  abbrev pub Validators : CachePolicy → Headers → Bool → Headers → Type 0
  Validators p h false sent =
      (get_str sent (known if_none_match)
        ≡ joined (get_str p.response_headers (known etag))
            (get_str (forwarded h) (known if_none_match)))
      × (get_str sent (known if_modified_since) ≡ (
          if has_header (forwarded h) (known if_modified_since)
          then get_str (forwarded h) (known if_modified_since)
          else get_str p.response_headers (known last_modified)))
  Validators p h true sent =
      (get_str sent (known if_none_match)
        ≡ only_strong (
            joined (get_str p.response_headers (known etag))
              (get_str (forwarded h) (known if_none_match))))
      × (has_header sent (known if_modified_since) ≡ false)

  revalidation_others :
      (p : CachePolicy) (h : Headers) (n : HeaderName)
      → name_eq (known if_none_match) n ≡ false
      → name_eq (known if_modified_since) n ≡ false
      → get_values (revalidation_request_headers p h) n
        ≡ (if name_eq (known if_range) n then none else get_values (forwarded h) n)
  unfolding revalidation_request_headers
  revalidation_others p h n ne ne' = elim (Bool-cases (forbids_weak_validators p (tagged p h))) [
    | inl e ↦ rw e (get_values-drop p (tagged p h) n ne ne' ∙ get_values-tagged p h n ne)
    | inr e ↦ rw e (get_values-add_last_modified p (tagged p h) n ne' ∙ get_values-tagged p h n ne)
  ]

  revalidation-Validators :
      (p : CachePolicy) (h : Headers)
      → Validators p h (forbids_weak_validators p (forwarded h)) (revalidation_request_headers p h)
  unfolding revalidation_request_headers
  revalidation-Validators p h = elim (Bool-cases (forbids_weak_validators p (forwarded h))) [
    | inl e ↦ rw (forbids-tagged p h ∙ e) (
        rw e (
          get_str-drop p (tagged p h) ∙ ap only_strong (get_str-tagged p h),
          has_header-drop p (tagged p h),
        ))
    | inr e ↦ rw (forbids-tagged p h ∙ e) (
        rw e (
          get_str_lem _ _
              ∙ ap (λ v. and_then (and_then v only) as_str)
                  (get_values-add_last_modified p (tagged p h) (known if_none_match)
                    (name_eq-known if_modified_since if_none_match))
              ∙ sym (get_str_lem (tagged p h) _)
              ∙ get_str-tagged p h,
          get_str-add_last_modified p (tagged p h)
              ∙ rw (has_header-tagged p h if_modified_since refl refl, get_str-tagged_date p h),
        ))
  ]

  -- Weak validators may not be used: the stored response is not for `GET`, or the request has a range or
  -- a condition that needs a strong one.
  abbrev pub NeedsStrong : CachePolicy → Headers → Type 0
  NeedsStrong p h =
      (method_eq p.request_method get ≡ false)
      ⊎ (has_header (forwarded h) (known accept_ranges) ≡ true)
      ⊎ (has_header (forwarded h) (known if_match) ≡ true)
      ⊎ (has_header (forwarded h) (known if_unmodified_since) ≡ true)

  forbids_iff :
      (p : CachePolicy) (h : Headers)
      → (forbids_weak_validators p (forwarded h) ≡ true) ↔ NeedsStrong p h
  unfolding forbids_weak_validators
  forbids_iff p h = ground arith

  revalidation-needs :
      (p : CachePolicy) (h : Headers)
      → (NeedsStrong p h × Validators p h true (revalidation_request_headers p h))
        ⊎ ((¬ NeedsStrong p h) × Validators p h false (revalidation_request_headers p h))
  revalidation-needs p h = elim (Bool-cases (forbids_weak_validators p (forwarded h))) [
    | inl e ↦ inl ((forbids_iff p h).0 e, rw e at (revalidation-Validators p h))
    | inr e ↦
        inr (λ needs. cc (e, (forbids_iff p h).1 needs), rw e at (revalidation-Validators p h))
  ]

  -- Every header of a revalidation request but the two conditions is the request's own, without those
  -- of one hop and without `If-Range`. The conditions are the stored tag behind the tags of the request,
  -- and the request's date or else the stored one; but where the stored response is not for `GET`, or the
  -- request has `Accept-Ranges`, `If-Match` or `If-Unmodified-Since`, there is no date, and of those tags
  -- only the strong ones are left: of a list of tags without commas inside, all that are not weak, in order.
  pub revalidation_request_headers_lem :
      (p : CachePolicy) (h : Headers)
      → ((n : HeaderName)
          → get_values (revalidation_request_headers p h) n
              ≡ (if name_eq (known if_range) n then none else get_values (forwarded h) n)
            ⊎ (name_eq (known if_none_match) n ≡ true)
            ⊎ (name_eq (known if_modified_since) n ≡ true))
        × ((NeedsStrong p h × Validators p h true (revalidation_request_headers p h))
            ⊎ ((¬ NeedsStrong p h) × Validators p h false (revalidation_request_headers p h)))
        × ((t : EntityTag) (ts : List EntityTag)
            → All IsUncut (t ∷ ts)
            → strong_tags (render_list (t ∷ ts)) ≡ render_list (keep (λ u. not u.weak) (t ∷ ts)))
  revalidation_request_headers_lem p h = (
    λ n. elim (Bool-cases (name_eq (known if_none_match) n)) [
      | inl e ↦ inr (inl e)
      | inr ne ↦ elim (Bool-cases (name_eq (known if_modified_since) n)) [
        | inl e ↦ inr (inr e)
        | inr ne' ↦ inl (revalidation_others p h n ne ne')
      ]
    ],
    revalidation-needs p h,
    strong_tags-render_list,
  )
