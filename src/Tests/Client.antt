-- ===== src/Tests/Client.antt =====
-- The handler of a client over the storage in memory.
use trillium_cache.Prelude.{
  inl, ℕ, ◌≡◌, ◌≢◌, ◌⊎◌, sym, ap, refl, true, false, none, some, List, [], ◌∷◌, arith, leb,
}
use trillium_cache.Text.{codes}
use trillium_cache.Time.{from_secs, done}
use trillium_cache.Freshness.{current_age, is_sie_eligible}
use trillium_cache.Freshness.Serving.{eligible_exactly_in_window}
use trillium_cache.Policy.{CachePolicy, effective_response_cache_control}
use trillium_cache.Storability.Rules.{MayStore}
use trillium_cache.Storage.Copied.{Commits}
use trillium_cache.Storage.{CacheKey}
use trillium_cache.Storage.Traits.{Payload}
use trillium_cache.Memory.{Variant, InMemoryEntry, InMemoryPutHandle}
use trillium_cache.Memory.Storage.{MemoryHolds, handle_target, memory_storage-IsLawful}
use trillium_cache.Validation.{CachedResponse, cached_response, revalidation_request_headers}
use trillium_cache.Client.{
  Cache, Conn, Revalidation, miss, revalidation, spawn_background_revalidation,
}
use trillium_cache.Client.Settling.{
  NetworkAnswer, is_over, settle, copy_into_storage, after_unsafe, background_revalidation,
}
use trillium_cache.Client.Serving.{with_stored, settle-stale_if_error}
use trillium_cache.Client.Background.{
  IsReplacement, IsRefreshed, copy_into_storage-completes, copy_into_storage-over_cap,
  background_revalidation-Holds,
}
use trillium_cache.Client.Storing.{Tees, settle-miss}
use trillium_cache.Client.Unsafe.{client-invalidates_as_server}
use trillium_cache.Server.{Conn as ServerConn, after_unsafe as server_after_unsafe}
use trillium_cache.Tests.World.{world, Entries}
use trillium_cache.Tests.Backend.{urls, map_of_buckets, lists, http_bodies, storage, ListBody}
use trillium_cache.Tests.Samples.{shared_options, request, response, policy, home}

abbrev cache : Cache
cache = record { options = shared_options; max_cacheable_size = 1024 }

abbrev variant : Variant
variant = record { policy = policy; body = 104 ∷ 105 ∷ []; trailers = none }

abbrev entry : InMemoryEntry
entry = record { variant = variant; key = home }

abbrev store : storage.Store
store key = some (variant ∷ [])

abbrev nothing : storage.Store
nothing key = none

abbrev conn : Conn
conn = record {
  method = codes "GET";
  url = 26;
  request_headers = request;
  response_headers = [];
  status = none;
  response_body = none;
  failed = false;
  halted = false;
  ctx = none;
}

abbrev sent : Entries
sent = revalidation_request_headers policy request

aged : current_age policy (from_secs 2060) ≡ done (from_secs 65)
unfolding current_age trillium_cache.Policy.new_policy trillium_cache.Freshness.age_header_value
    trillium_cache.Text.str_eq trillium_cache.Freshness.parse_age_value trillium_cache.Text.split
    trillium_cache.Text.parse_u64 trillium_cache.Text.trim
aged = refl

opens : (storage.open_entry store entry).0 ≡ some ([], 104 ∷ 105 ∷ [], none)
unfolding trillium_cache.Memory.open_entry trillium_cache.Memory.read_replay
    trillium_cache.Memory.take_trailers
opens = refl

sie_eligible : is_sie_eligible policy (from_secs 2060) ≡ done true
unfolding is_sie_eligible trillium_cache.Freshness.is_stale current_age
    trillium_cache.Policy.new_policy trillium_cache.Freshness.age_header_value
    trillium_cache.Text.str_eq trillium_cache.Freshness.parse_age_value trillium_cache.Text.split
    trillium_cache.Text.parse_u64 trillium_cache.Text.trim trillium_cache.Freshness.max_age
    trillium_cache.Policy.derive_response_cache_control
    trillium_cache.Policy.effective_response_cache_control trillium_cache.Text.split_once
    trillium_cache.Freshness.is_star
sie_eligible = refl

-- A revalidation that the transport fails.
abbrev unreachable : Conn
unreachable = record conn { failed = true; ctx = some (revalidation entry home) }

settle-stale_if_error_example :
    (reply : CachedResponse) × (cached_response policy (from_secs 2060) ≡ done reply)
    × (settle cache store unreachable (from_secs 2060)
        ≡ done (
          store,
          record (with_stored unreachable reply ([], 104 ∷ 105 ∷ [], none)) {
            ctx = none;
            failed = false;
          },
        ))
unfolding trillium_cache.Client.Settling.origin_failed
settle-stale_if_error_example =
    settle-stale_if_error cache store unreachable (from_secs 2060) entry home (from_secs 65)
      ([], 104 ∷ 105 ∷ [], none) refl (inl refl) aged
      ((eligible_exactly_in_window policy (from_secs 2060) aged).1.0 sie_eligible) opens

abbrev body : ListBody
body = ([], 97 ∷ 98 ∷ 99 ∷ [], some [])

reads : (b : ListBody) → (http_bodies.read_chunk b 8192).0 ≢ none
reads b e = cc e

writes : (w : InMemoryPutHandle) (bytes : List ℕ) → storage.write_all w bytes ≢ none
writes w bytes e = cc e

abbrev handle : InMemoryPutHandle
handle = record { key = home; policy = policy; buffer = [] }

copy_into_storage-completes_example :
    Commits storage
      (λ total. leb total 5)
      memory_storage-IsLawful
      store
      (home, policy)
      (97 ∷ 98 ∷ 99 ∷ [], some [])
      (copy_into_storage store body handle 5)
copy_into_storage-completes_example =
    copy_into_storage-completes memory_storage-IsLawful store body handle 5 reads writes refl refl
      (omega arith) (omega arith)

copy_into_storage-over_cap_example : (copy_into_storage store body handle 2).1 ≡ store
copy_into_storage-over_cap_example =
    copy_into_storage-over_cap store body handle 2 refl (omega arith) (omega arith)

abbrev task : Revalidation
task = spawn_background_revalidation conn entry home sent

abbrev answer : NetworkAnswer
answer = record { sent = sent; status = 200; headers = response; body = some body }

answer_unread : (b : ListBody) → answer.body ≡ some b → b.0 ≡ []
answer_unread b e = let same : body ≡ b = cc e in sym (ap (λ x. x.0) same)

background_revalidation-Holds_example :
    (background_revalidation cache store task none (from_secs 2061) ≡ done store)
    × ((store' : storage.Store) × (background_revalidation cache store task
            (some answer)
            (from_secs 2061)
          ≡ done store')
        × (MemoryHolds store' home policy (97 ∷ [], none)
            → MemoryHolds store home policy (97 ∷ [], none)
              ⊎ IsRefreshed memory_storage-IsLawful store task answer
                  (from_secs 2061)
                  home
                  policy
                  (97 ∷ [], none)
              ⊎ IsReplacement memory_storage-IsLawful cache task answer
                  (from_secs 2061)
                  home
                  policy
                  (97 ∷ [], none)))
background_revalidation-Holds_example =
    background_revalidation-Holds memory_storage-IsLawful cache store task answer (from_secs 2061)
      home policy (97 ∷ [], none) answer_unread

abbrev server_conn : ServerConn
server_conn = record {
  method = codes "POST";
  is_secure = true;
  host = none;
  path_and_query = [];
  request_headers = request;
  response_headers = response;
  status = some 200;
  response_body = none;
  halted = false;
  ctx = none;
}

client-invalidates_as_server_example :
    after_unsafe store (record conn { response_headers = response }) 26 200
    ≡ server_after_unsafe store server_conn 26
client-invalidates_as_server_example =
    client-invalidates_as_server store (record conn { response_headers = response }) server_conn 26
      200 refl refl

same_target :
    (w : InMemoryPutHandle) (buf : List ℕ)
    → handle_target (lists.poll_write w buf).1 ≡ handle_target w
unfolding trillium_cache.Memory.write
same_target w buf = refl

-- A response behind a miss.
abbrev missed : Conn
missed = record conn {
  response_headers = response;
  status = some 200;
  response_body = some body;
  ctx = some (miss home);
}

settle-miss_example :
    ((store' : storage.Store) × (settle cache nothing missed (from_secs 2000)
        ≡ done (store', record missed { ctx = none }))
      × ((k : CacheKey) (p : CachePolicy) (d : Payload)
          → MemoryHolds store' k p d
          → MemoryHolds nothing k p d))
    ⊎ (MayStore
          (codes "GET")
          request
          200
          response
          shared_options
          (effective_response_cache_control response shared_options).0
          (effective_response_cache_control response shared_options).1
        × (is_over cache response ≡ false)
        × Tees memory_storage-IsLawful same_target cache nothing
            (record missed { ctx = none })
            home
            200
            (from_secs 2000)
            body
            (settle cache nothing missed (from_secs 2000))
            (2 ∷ 2 ∷ 2 ∷ []))
settle-miss_example =
    settle-miss memory_storage-IsLawful same_target cache nothing missed (from_secs 2000) home 200
      body (2 ∷ 2 ∷ 2 ∷ []) refl refl refl refl (omega arith, (omega arith, (omega arith, tt)))
