-- ===== src/Tests/Server.antt =====
-- The handler of a server over a storage that is a function of the key.
use trillium_cache.Prelude.{ℕ, ◌≡◌, ◌⊎◌, refl, true, false, none, some, List, [], ◌∷◌}
use trillium_cache.Text.{Str, codes}
use trillium_cache.Time.{from_secs, done}
use trillium_cache.Policy.{CachePolicy, new_policy, effective_response_cache_control}
use trillium_cache.Memory.{Variant, InMemoryEntry}
use trillium_cache.Memory.Storage.{memory_storage-IsLawful}
use trillium_cache.Server.{
  Cache, Conn, revalidation, try_entries, after_unsafe, handle_miss, before_send,
}
use trillium_cache.Server.Candidates.{selects, try_entries-append}
use trillium_cache.Server.Invalidation.{IsCleared, Names, after_unsafe-IsCleared}
use trillium_cache.Server.Recovery.{replaced, before_send-stale_if_error}
use trillium_cache.Freshness.{current_age, is_sie_eligible}
use trillium_cache.Freshness.Serving.{eligible_exactly_in_window}
use trillium_cache.Validation.{CachedResponse, cached_response}
use trillium_cache.Server.Storing.{IsAllowed, IsTooLong, IsTeed, handle_miss-MayStore}
use trillium_cache.Http.{location, content_location}
use trillium_cache.Text.{str_eq}
use trillium_cache.Prelude.{inl, arith}
use trillium_cache.Memory.{InMemoryPutHandle}
use trillium_cache.Memory.Storage.{handle_target}
use trillium_cache.Tests.Backend.{ListBody}
use trillium_cache.Validation.Replies.{cached_response_lem}
use trillium_cache.Validation.Merge.{merge_revalidation_headers}
use trillium_cache.Validation.Update.{IsUpdated}
use trillium_cache.Freshness.Age.{current_age-at_response}
use trillium_cache.Freshness.{age_header_value}
use trillium_cache.Server.Revalidation.{waiting, answered, run-before_send}
use trillium_cache.Server.{run, url_from_conn}
use trillium_cache.Validation.{
  AfterResponse, stale, before_request, after_response, revalidation_request_headers,
}
use trillium_cache.Tests.World.{world, Entries}
use trillium_cache.Tests.Backend.{urls, map_of_buckets, lists, http_bodies, storage}
use trillium_cache.Tests.Samples.{
  shared_options, request, response, policy, home, vary_matches-policy,
}

abbrev variant_of : CachePolicy → List ℕ → Variant
variant_of p bytes = record { policy = p; body = bytes; trailers = none }

abbrev stored : CachePolicy → List ℕ → InMemoryEntry
stored p bytes = record { variant = variant_of p bytes; key = home }

abbrev store : storage.Store
store key = some (variant_of policy (104 ∷ 105 ∷ []) ∷ [])

abbrev conn : Conn
conn = record {
  method = codes "GET";
  is_secure = true;
  host = some (codes "example.org");
  path_and_query = codes "/index/";
  request_headers = request;
  response_headers = response;
  status = some 200;
  response_body = some ([], 104 ∷ 105 ∷ [], none);
  halted = false;
  ctx = none;
}

-- A variant for another value of `Accept`.
abbrev other : CachePolicy
other =
    new_policy (codes "GET") ((codes "accept", codes "image/png" ∷ []) ∷ []) 200 response
      (from_secs 2000) shared_options

other_skipped : selects conn (stored other []) ≡ false
unfolding trillium_cache.Validation.vary_matches new_policy
    trillium_cache.Policy.build_vary_snapshot trillium_cache.Text.str_eq
    trillium_cache.Policy.vary_names mathlib.Core.List.flat_map mathlib.Core.List.filter_map
    trillium_cache.Text.split trillium_cache.Text.is_empty_str trillium_cache.Text.trim
    trillium_cache.Text.to_ascii_lowercase trillium_cache.Policy.option_str_eq
other_skipped = refl

try_entries-append_example :
    try_entries store conn home
      (from_secs 2010)
      (stored other [] ∷ stored policy (104 ∷ []) ∷ stored other (7 ∷ []) ∷ [])
    ≡ try_entries store conn home (from_secs 2010) (stored policy (104 ∷ []) ∷ [])
try_entries-append_example =
    try_entries-append store conn home (from_secs 2010) (stored other [] ∷ [])
      (stored policy (104 ∷ [])) (stored other (7 ∷ []) ∷ []) (other_skipped, tt)
      vary_matches-policy

-- The answer to an unsafe method names another URL of the same host.
abbrev created : Conn
created = record conn { response_headers = (codes "location", codes "/new" ∷ []) ∷ [] }

abbrev AtLocation : ℕ → Type 0
AtLocation target = Names memory_storage-IsLawful created.response_headers location 26 target

abbrev AtContentLocation : ℕ → Type 0
AtContentLocation target =
    Names memory_storage-IsLawful created.response_headers content_location 26 target

after_unsafe-IsCleared_example :
    IsCleared memory_storage-IsLawful (after_unsafe store created 26) 26
    × ((target : ℕ)
        → AtLocation target ⊎ AtContentLocation target
        → IsCleared memory_storage-IsLawful (after_unsafe store created 26) target)
    × (((target : ℕ) → (¬ AtLocation target) × (¬ AtContentLocation target))
        → after_unsafe store created 26
          ≡ storage.invalidate
              (storage.invalidate store (record { method = codes "GET"; url = 26 }))
              (record { method = codes "HEAD"; url = 26 }))
after_unsafe-IsCleared_example =
    after_unsafe-IsCleared memory_storage-IsLawful store created 26 200 refl refl

created-location : AtLocation 4
unfolding str_eq
created-location = (codes "/new", refl, refl, refl)

location-IsCleared : IsCleared memory_storage-IsLawful (after_unsafe store created 26) 4
location-IsCleared =
    (after_unsafe-IsCleared memory_storage-IsLawful store created 26 200 refl refl).1 4
      (inl created-location)

abbrev cache : Cache
cache = record { options = shared_options; max_cacheable_size = 1024 }

same_target :
    (w : InMemoryPutHandle) (buf : List ℕ)
    → handle_target (lists.poll_write w buf).1 ≡ handle_target w
unfolding trillium_cache.Memory.write
same_target w buf = refl

abbrev body : ListBody
body = ([], 104 ∷ 105 ∷ [], none)

abbrev new : CachePolicy
new = new_policy (codes "GET") request 200 response (from_secs 2000) shared_options

handle_miss-MayStore_example :
    ((handle_miss cache store conn home 200 (from_secs 2000) ≡ (store, conn))
      × ((¬ IsAllowed cache conn 200) ⊎ IsTooLong cache body))
    ⊎ (IsAllowed cache conn 200
        × (¬ IsTooLong cache body)
        × (handle_miss cache store conn home 200 (from_secs 2000)
            ≡ ((storage.put store home new).1, conn))
        × ((storage.put store home new).0 ≡ none))
    ⊎ (IsAllowed cache conn 200
        × (¬ IsTooLong cache body)
        × IsTeed memory_storage-IsLawful same_target cache store conn home new body
            (2 ∷ 2 ∷ [])
            (handle_miss cache store conn home 200 (from_secs 2000)))
handle_miss-MayStore_example =
    handle_miss-MayStore memory_storage-IsLawful same_target cache store conn home 200
      (from_secs 2000) body (2 ∷ 2 ∷ []) refl refl (omega arith, (omega arith, tt))

-- The other handlers answer a revalidation with an error, within the window of `stale-if-error`.
abbrev failing : Conn
failing = record conn {
  status = some 503;
  ctx = some (revalidation (stored policy (104 ∷ [])) home);
}

failing_age : current_age policy (from_secs 2060) ≡ done (from_secs 65)
unfolding current_age new_policy trillium_cache.Freshness.age_header_value
    trillium_cache.Text.str_eq trillium_cache.Freshness.parse_age_value trillium_cache.Text.split
    trillium_cache.Text.parse_u64 trillium_cache.Text.trim
failing_age = refl

failing_eligible : is_sie_eligible policy (from_secs 2060) ≡ done true
unfolding is_sie_eligible trillium_cache.Freshness.is_stale current_age new_policy
    trillium_cache.Freshness.age_header_value trillium_cache.Text.str_eq
    trillium_cache.Freshness.parse_age_value trillium_cache.Text.split trillium_cache.Text.parse_u64
    trillium_cache.Text.trim trillium_cache.Freshness.max_age
    trillium_cache.Policy.derive_response_cache_control effective_response_cache_control
    trillium_cache.Text.split_once trillium_cache.Freshness.is_star
failing_eligible = refl

before_send-stale_if_error_example :
    (reply : CachedResponse) × (cached_response policy (from_secs 2060) ≡ done reply)
    × (before_send cache store failing (from_secs 2060)
        ≡ done (store, replaced failing reply ([], 104 ∷ [], none)))
unfolding trillium_cache.Memory.open_entry trillium_cache.Memory.read_replay
    trillium_cache.Memory.take_trailers
before_send-stale_if_error_example =
    before_send-stale_if_error cache store failing (from_secs 2060) (stored policy (104 ∷ [])) home
      503 (from_secs 65) ([], 104 ∷ [], none) refl refl refl failing_age
      ((eligible_exactly_in_window policy (from_secs 2060) failing_age).1.0 failing_eligible) refl

-- A revalidation that the other handlers answer with 304.
abbrev sent : Entries
sent = revalidation_request_headers policy request

abbrev updated : CachePolicy
updated =
    new_policy (codes "GET") sent 200 (merge_revalidation_headers response []) (from_secs 2071)
      shared_options

updated_age : current_age updated (from_secs 2071) ≡ done (age_header_value updated)
unfolding new_policy
updated_age = current_age-at_response updated

updated_reply : (reply : CachedResponse) × (cached_response updated (from_secs 2071) ≡ done reply)
updated_reply =
    let (reply, ok, _, _) =
      cached_response_lem updated (from_secs 2071) (age_header_value updated) updated_age in
    (reply, ok)

answers_304 :
    after_response policy sent 304 [] (from_secs 2071)
    ≡ done (AfterResponse.not_modified updated updated_reply.0)
unfolding after_response new_policy
answers_304 = rw updated_reply.1 refl

stale_now : before_request policy request (from_secs 2070) ≡ done (stale sent true)
unfolding before_request trillium_cache.Validation.vary_matches
    trillium_cache.Validation.snapshot_matches
    trillium_cache.Validation.satisfies_without_revalidation
    trillium_cache.Validation.demands_revalidation trillium_cache.Validation.is_too_old
    trillium_cache.Validation.is_too_short trillium_cache.Validation.allows_stale
    trillium_cache.Validation.covers_staleness trillium_cache.Policy.new_policy
    trillium_cache.Policy.build_vary_snapshot trillium_cache.Policy.vary_names
    trillium_cache.Policy.option_str_eq trillium_cache.Policy.derive_response_cache_control
    trillium_cache.Policy.effective_response_cache_control trillium_cache.Text.str_eq
    trillium_cache.Text.split trillium_cache.Text.split_once trillium_cache.Text.is_empty_str
    trillium_cache.Text.trim trillium_cache.Text.trim_start trillium_cache.Text.trim_end
    trillium_cache.Text.is_whitespace trillium_cache.Text.to_ascii_lowercase
    trillium_cache.Text.parse_u64 trillium_cache.Text.parse_digits trillium_cache.Text.is_digit
    mathlib.Core.List.flat_map mathlib.Core.List.filter_map current_age
    trillium_cache.Freshness.age_header_value trillium_cache.Freshness.parse_age_value
    trillium_cache.Freshness.raw_server_date trillium_cache.Freshness.is_stale
    trillium_cache.Freshness.time_to_live trillium_cache.Freshness.max_age
    trillium_cache.Freshness.always_stale trillium_cache.Freshness.is_star
    trillium_cache.Freshness.directive_lifetime trillium_cache.Freshness.default_min_ttl
    trillium_cache.Freshness.fallback_lifetime trillium_cache.Freshness.heuristic_lifetime
stale_now = refl

home_url : url_from_conn conn ≡ some 26
unfolding url_from_conn
home_url = refl

listed : storage.get_entries store home ≡ stored policy (104 ∷ 105 ∷ []) ∷ []
unfolding trillium_cache.Memory.get_entries
listed = refl

abbrev refreshed : InMemoryEntry
refreshed = (storage.refresh_policy store (stored policy (104 ∷ 105 ∷ [])) updated).1

abbrev refreshed_store : storage.Store
refreshed_store = (storage.refresh_policy store (stored policy (104 ∷ 105 ∷ [])) updated).2

reopened : (storage.open_entry refreshed_store refreshed).0 ≡ some ([], 104 ∷ 105 ∷ [], none)
unfolding trillium_cache.Memory.open_entry trillium_cache.Memory.refresh_policy
    trillium_cache.Memory.read_replay trillium_cache.Memory.take_trailers
reopened = refl

run-before_send_example :
    (run store conn (from_secs 2070)
      ≡ done (store, waiting conn 26 (stored policy (104 ∷ 105 ∷ [])) sent))
    × IsUpdated policy sent [] (from_secs 2071) updated
    × (before_send cache store
          (answered (waiting conn 26 (stored policy (104 ∷ 105 ∷ [])) sent) 304 [])
          (from_secs 2071)
        ≡ done (
          refreshed_store,
          record (waiting conn 26 (stored policy (104 ∷ 105 ∷ [])) sent) {
            ctx = none;
            response_headers = updated_reply.0.headers;
            status = some updated_reply.0.status;
            response_body = some ([], 104 ∷ 105 ∷ [], none);
          },
        ))
unfolding trillium_cache.Text.str_eq
run-before_send_example =
    run-before_send cache store conn (from_secs 2070) (from_secs 2071) 26
      (stored policy (104 ∷ 105 ∷ [])) [] sent [] 304 updated updated_reply.0
      ([], 104 ∷ 105 ∷ [], none) home_url refl listed stale_now refl answers_304 reopened
