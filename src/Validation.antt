-- ===== src/Validation.antt =====
-- src/validation.rs: what to do with a request for which a response is stored, and with the answer
-- of the origin.
pub mod Etag
pub mod Merge
pub mod Decision
pub mod Replies
pub mod Served
pub mod Update
pub mod Request
pub mod Strong
pub mod Variants
use trillium_cache.Prelude.{
  Bool, true, false, not, ◌&&◌, ◌||◌, Option, none, some, List, [], ◌∷◌, ◌++◌, is_some_and,
  and_then, keep, map, ltb, if◌then◌else◌, ◌==◌,
}
use trillium_cache.Text.{
  Str, str_eq, codes, trim, split, starts_with, contains, join, to_string, is_empty_str,
}
use trillium_cache.Time.{Duration, SystemTime, Run, done, ◌>>=◌, as_secs, sub}
use trillium_cache.Http
use trillium_cache.Http.{
  Http, KnownHeaderName, age, accept_ranges, cache_control, content_location, date, etag, expires,
  if_match, if_modified_since, if_none_match, if_range, if_unmodified_since, last_modified, pragma,
  vary,
}
use trillium_cache.Policy.{
  CacheOptions, CachePolicy, VarySnapshot, new_policy, option_str_eq, no_cache_literal,
}
use trillium_cache.Freshness.{current_age, max_age, time_to_live, is_stale, cc_is}
use Etag.{inm_matches, ims_matches, weak_prefix}
use Merge.{copy_without_hop_by_hop_headers, merge_revalidation_headers}

-- the tags of an `If-None-Match` that are not weak
unfoldable pub strong_tags : Str → Str
strong_tags inm =
    join (codes ", ")
      (keep (λ t. not (starts_with weak_prefix t)) (map trim (split (λ c. c == b',') inm)))

-- `HEADERS_TO_KEEP`
abbrev pub headers_to_keep : List KnownHeaderName
headers_to_keep =
    date ∷ etag ∷ last_modified ∷ vary ∷ cache_control ∷ content_location ∷ expires ∷ []

module _ ⦃http : Http⦄ where
  open http use {
    Status, Headers, HeaderName, HeaderValue, get_str, get_values, has_header, insert, remove, new,
    value, known, named, cache_control_of, is_no_cache, must_revalidate, min_fresh, max_stale,
    max_age as cc_max_age, method_eq, get, status_eq, not_modified as status_not_modified,
  }

  -- `CachedResponse`
  pub record CachedResponse : Type 0 where
    pub status : Status
    pub headers : Headers

  -- `BeforeRequest`
  pub data BeforeRequest : Type 0 where
    fresh : CachedResponse → BeforeRequest
    not_modified : CachedResponse → BeforeRequest
    stale : Headers → Bool → BeforeRequest

  -- `AfterResponse`
  pub data AfterResponse : Type 0 where
    not_modified : CachePolicy → CachedResponse → AfterResponse
    modified : AfterResponse

  -- `inbound_conditional_matches`
  unfoldable pub inbound_conditional_matches : CachePolicy → Headers → Bool
  inbound_conditional_matches p request_headers =
      elim (get_str request_headers (known if_none_match)) [
        | some inm ↦ inm_matches inm (get_str p.response_headers (known etag))
        | none ↦ elim (get_str request_headers (known if_modified_since)) [
          | some ims ↦ ims_matches ims (get_str p.response_headers (known last_modified))
          | none ↦ false
        ]
      ]

  -- `if let Some(value) = …`
  unfoldable pub copy_values : Option (List HeaderValue) → HeaderName → Headers → Headers
  copy_values none name headers = headers
  copy_values (some values) name headers = insert headers name values

  -- the loop of `cached_response_304`
  unfoldable pub copy_kept : Headers → List KnownHeaderName → Headers → Headers
  copy_kept source [] headers = headers
  copy_kept source (name ∷ names) headers =
      copy_kept source names (copy_values (get_values source (known name)) (known name) headers)

  -- `headers.insert(Age, age.as_secs().to_string())`
  abbrev pub insert_age : Headers → Duration → Headers
  insert_age headers current = insert headers (known age) (value (to_string (as_secs current)) ∷ [])

  -- `cached_response_304`
  unfoldable pub cached_response_304 : CachePolicy → SystemTime → Run CachedResponse
  cached_response_304 p now = do
    current ← current_age p now
    done (record {
      status = status_not_modified;
      headers = insert_age (copy_kept p.response_headers headers_to_keep new) current;
    })

  -- `cached_response`
  unfoldable pub cached_response : CachePolicy → SystemTime → Run CachedResponse
  cached_response p now = do
    current ← current_age p now
    done (record {
      status = p.response_status;
      headers = insert_age (copy_without_hop_by_hop_headers p.response_headers) current;
    })

  -- the loop of `vary_matches`
  unfoldable pub snapshot_matches : VarySnapshot → Headers → Bool
  snapshot_matches [] request_headers = true
  snapshot_matches ((name, stored_value) ∷ rest) request_headers =
      let later = snapshot_matches rest request_headers in
      if str_eq name (codes "*")
      then false
      else if not (option_str_eq (get_str request_headers (named name)) stored_value)
      then false
      else later

  -- `vary_matches`
  unfoldable pub vary_matches : CachePolicy → Headers → Bool
  unfolding snapshot_matches
  vary_matches p request_headers = snapshot_matches p.vary_snapshot request_headers

  -- §5.2.1.4 and §5.4: the request insists on revalidation
  unfoldable pub demands_revalidation : Headers → Bool
  demands_revalidation request_headers =
      is_some_and (cache_control_of request_headers) is_no_cache
      || is_some_and (get_str request_headers (known pragma)) (contains no_cache_literal)

  -- §5.2.1.1: older than the request's `max-age`
  unfoldable pub is_too_old : CachePolicy → Option Duration → SystemTime → Run Bool
  is_too_old p none now = done false
  is_too_old p (some limit) now = do current ← current_age p now; done (ltb limit current)

  -- §5.2.1.3: stale before the request's `min-fresh` has passed
  unfoldable pub is_too_short : CachePolicy → Option Duration → SystemTime → Run Bool
  is_too_short p none now = done false
  is_too_short p (some least) now = do ttl ← time_to_live p now; done (ltb ttl least)

  -- §5.2.1.2: the request's `max-stale` covers the staleness
  unfoldable pub covers_staleness : CachePolicy → Option (Option Duration) → SystemTime → Run Bool
  covers_staleness p none now = done false
  covers_staleness p (some none) now = done true
  covers_staleness p (some (some allowed)) now = do
    current ← current_age p now
    staleness ← sub current (max_age p)
    done (ltb staleness allowed)

  unfoldable pub allows_stale : CachePolicy → Option (Option Duration) → SystemTime → Run Bool
  unfolding covers_staleness
  allows_stale p limit now =
      if cc_is p must_revalidate then done false else covers_staleness p limit now

  -- `satisfies_without_revalidation`
  unfoldable pub satisfies_without_revalidation : CachePolicy → Headers → SystemTime → Run Bool
  satisfies_without_revalidation p request_headers now =
      let req_cc = cache_control_of request_headers in
      if demands_revalidation request_headers then done false else do
        too_old ← is_too_old p (and_then req_cc cc_max_age) now
        if too_old then done false else do
          too_short ← is_too_short p (and_then req_cc min_fresh) now
          if too_short then done false else do
            is_past ← is_stale p now
            if is_past then allows_stale p (and_then req_cc max_stale) now else done true

  -- the stored `ETag` joins the request's `If-None-Match`
  unfoldable pub add_etag : CachePolicy → Headers → Headers
  add_etag p headers = elim (get_str p.response_headers (known etag)) [
    | none ↦ headers
    | some tag ↦
        let combined : Str = elim (get_str headers (known if_none_match)) [
          | some existing ↦ existing ++ (codes ", " ++ tag)
          | none ↦ tag
        ] in
        insert headers (known if_none_match) (value combined ∷ [])
  ]

  unfoldable pub forbids_weak_validators : CachePolicy → Headers → Bool
  forbids_weak_validators p headers =
      not (method_eq p.request_method get)
      || (has_header headers (known accept_ranges)
          || (has_header headers (known if_match)
              || has_header headers (known if_unmodified_since)))

  unfoldable pub drop_weak_validators : Headers → Headers
  drop_weak_validators headers =
      let headers = remove headers (known if_modified_since) in
      elim (get_str headers (known if_none_match)) [
        | none ↦ headers
        | some inm ↦
            let strong = strong_tags inm in
            if is_empty_str strong
            then remove headers (known if_none_match)
            else insert headers (known if_none_match) (value strong ∷ [])
      ]

  unfoldable pub add_last_modified : CachePolicy → Headers → Headers
  add_last_modified p headers =
      if has_header headers (known if_modified_since)
      then headers
      else elim (get_str p.response_headers (known last_modified)) [
        | none ↦ headers
        | some lm ↦ insert headers (known if_modified_since) (value lm ∷ [])
      ]

  -- `revalidation_request_headers`
  unfoldable pub revalidation_request_headers : CachePolicy → Headers → Headers
  revalidation_request_headers p request_headers =
      let headers =
        add_etag p (remove (copy_without_hop_by_hop_headers request_headers) (known if_range)) in
      if forbids_weak_validators p headers
      then drop_weak_validators headers
      else add_last_modified p headers

  -- the answer from the stored response: a 304 if the request's own conditions hold
  unfoldable pub serve_stored : CachePolicy → Headers → SystemTime → Run BeforeRequest
  serve_stored p request_headers now =
      if inbound_conditional_matches p request_headers
      then (do reply ← cached_response_304 p now; done (BeforeRequest.not_modified reply))
      else (do reply ← cached_response p now; done (fresh reply))

  -- `CachePolicy::before_request`
  unfoldable pub before_request : CachePolicy → Headers → SystemTime → Run BeforeRequest
  before_request p request_headers now =
      let revalidate = stale (revalidation_request_headers p request_headers) in
      if vary_matches p request_headers
      then (do
        satisfied ← satisfies_without_revalidation p request_headers now
        if satisfied then serve_stored p request_headers now else done (revalidate true))
      else done (revalidate false)

  -- `CachePolicy::after_response`
  unfoldable pub after_response :
      CachePolicy → Headers → Status → Headers → SystemTime → Run AfterResponse
  after_response p request_headers new_status new_response_headers response_time =
      if status_eq new_status status_not_modified
      then (let policy =
            new_policy p.request_method request_headers p.response_status
              (merge_revalidation_headers p.response_headers new_response_headers) response_time
              p.options in
          do
            reply ← cached_response policy response_time
            done (AfterResponse.not_modified policy reply))
      else done modified
