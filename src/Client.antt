-- ===== src/Client.antt =====
-- src/client.rs: the handler that puts a cache in front of the network of a client.
pub mod Settling
pub mod Serving
pub mod Background
pub mod Unsafe
pub mod Storing
use trillium_cache.Prelude.{
  ℕ, ◌*◌, Bool, true, false, not, ◌||◌, Option, none, some, List, [], ◌∷◌, is_some_and, and_then,
  ltb, if◌then◌else◌,
}
use trillium_cache.Time.{SystemTime, Run, done, ◌>>=◌}
use trillium_cache.Http.{Http}
use trillium_cache.Policy.{CacheOptions, default_options}
use trillium_cache.Freshness.{is_swr_eligible}
use trillium_cache.Storage.{Urls, CacheKey}
use trillium_cache.Storage.Traits.{CacheStorage}
use trillium_cache.Tee.Streams.{Streams as TeeStreams}
use trillium_cache.Validation.{
  CachedResponse, BeforeRequest, fresh, stale, before_request, cached_response,
}
use trillium_cache.Bodies.{HttpBodies}

-- `DEFAULT_MAX_CACHEABLE_SIZE`
abbrev pub default_max_cacheable_size : ℕ
default_max_cacheable_size = 16 * 1024 * 1024

module _ ⦃http : Http⦄ ⦃urls : Urls⦄ ⦃streams : TeeStreams⦄ ⦃bodies : HttpBodies⦄
    ⦃storage : CacheStorage streams.Body streams.Writer⦄ where
  open http use {Method, Status, Headers, Ratio, is_safe}
  open urls use {Url}
  open streams use {Body}
  open bodies use {empty_body}
  open storage use {Store, Entry, get_entries, policy, open_entry}

  -- `Cache`, whose storage is the state that the handler passes
  pub record Cache : Type 0 where
    pub options : CacheOptions
    pub max_cacheable_size : ℕ

  -- `Cache::new`, with the setters `with_options`, `shared` and `with_max_cacheable_size`
  unfoldable pub new_cache : Ratio → Cache
  new_cache tenth = record {
    options = default_options tenth;
    max_cacheable_size = default_max_cacheable_size;
  }

  unfoldable pub with_options : Cache → CacheOptions → Cache
  with_options cache options = record cache { options = options }

  unfoldable pub shared : Cache → Cache
  shared cache = record cache { options = record cache.options { shared = true } }

  unfoldable pub with_max_cacheable_size : Cache → ℕ → Cache
  with_max_cacheable_size cache limit = record cache { max_cacheable_size = limit }

  -- `CacheCtx`
  pub data CacheCtx : Type 0 where
    hit : CacheCtx
    revalidation : Entry → CacheKey → CacheCtx
    miss : CacheKey → CacheCtx
    unsafe_method : Url → CacheCtx

  -- What the handler reads and writes of a `Conn`; `failed` says that it holds an error of the transport.
  pub record Conn : Type 0 where
    pub method : Method
    pub url : Url
    pub request_headers : Headers
    pub response_headers : Headers
    pub status : Option Status
    pub response_body : Option Body
    pub failed : Bool
    pub halted : Bool
    pub ctx : Option CacheCtx

  -- The task that `spawn_background_revalidation` hands to the runtime.
  pub record Revalidation : Type 0 where
    pub method : Method
    pub url : Url
    pub request_headers : Headers
    pub stored : Entry
    pub key : CacheKey

  -- `spawn_background_revalidation`
  unfoldable pub spawn_background_revalidation : Conn → Entry → CacheKey → Headers → Revalidation
  spawn_background_revalidation conn stored key request_headers = record {
    method = conn.method;
    url = conn.url;
    request_headers = request_headers;
    stored = stored;
    key = key;
  }

  -- `serve_stale`; whether the stored body could be opened
  unfoldable pub serve_stale : Store → Conn → Entry → SystemTime → Run (Bool × Store × Conn)
  serve_stale store conn stored now = do
    cached ← cached_response (policy stored) now
    let (opened, store') = open_entry store stored in
        elim opened [
          | none ↦ done (false, store', conn)
          | some body ↦ done (
            true,
            store',
            record conn {
              status = some cached.status;
              response_headers = cached.headers;
              response_body = some body;
            },
          )
        ]

  -- What `run` leaves: the storage, the conn and the task that it spawns.
  abbrev pub Ran : Type 0
  Ran = Store × Conn × Option Revalidation

  -- the arm of `run` for a stale candidate that the request selects
  unfoldable pub serve_while_revalidating :
      Store → Conn → CacheKey → SystemTime → Entry → Headers → Run Ran
  serve_while_revalidating store conn key now entry request_headers = do
    eligible ← is_swr_eligible (policy entry) now
    if eligible
        then (do
          out ← serve_stale store conn entry now
          done (
            out.1,
            (if out.0 then record out.2 { halted = true; ctx = some hit } else out.2),
            some (spawn_background_revalidation conn entry key request_headers),
          ))
        else done (
          store,
          record conn { request_headers = request_headers; ctx = some (revalidation entry key) },
          none,
        )

  -- the loop of `run` over the stored candidates
  unfoldable pub try_entries : Store → Conn → CacheKey → SystemTime → List Entry → Run Ran
  try_entries store conn key now [] = done (store, record conn { ctx = some (miss key) }, none)
  try_entries store conn key now (entry ∷ entries) = do
    answer ← before_request (policy entry) conn.request_headers now
    elim answer [
      | fresh cached ↦
          let conn = record conn { response_headers = cached.headers } in
          let (opened, store) = open_entry store entry in
          elim opened [
            | none ↦ done (store, conn, none)
            | some body ↦ done (
              store,
              record conn {
                status = some cached.status;
                response_body = some body;
                halted = true;
                ctx = some hit;
              },
              none,
            )
          ]
      | BeforeRequest.not_modified cached ↦ done (
        store,
        record conn {
          response_headers = cached.headers;
          status = some cached.status;
          response_body = some empty_body;
          halted = true;
          ctx = some hit;
        },
        none,
      )
      | stale request_headers matches ↦ elim matches [
        | true ↦ serve_while_revalidating store conn key now entry request_headers
        | false ↦ try_entries store conn key now entries
      ]
    ]

  -- `ClientHandler::run`
  unfoldable pub run : Store → Conn → SystemTime → Run Ran
  run store conn now =
      let key : CacheKey = record { method = conn.method; url = conn.url } in
      if not (is_safe conn.method)
      then done (store, record conn { ctx = some (unsafe_method conn.url) }, none)
      else try_entries store conn key now (get_entries store key)
