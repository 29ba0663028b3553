-- ===== src/Server.antt =====
-- src/server.rs: the handler that puts a cache in front of the other handlers of a server.
pub mod Candidates
pub mod Invalidation
pub mod Storing
pub mod Recovery
pub mod Revalidation
use trillium_cache.Prelude.{
  ℕ, ◌*◌, Bool, true, false, not, ◌&&◌, ◌||◌, Option, none, some, List, [], ◌∷◌, ◌++◌, is_some_and,
  and_then, ltb, if◌then◌else◌,
}
use trillium_cache.Text.{Str, codes}
use trillium_cache.Time.{SystemTime, Run, done, ◌>>=◌}
use trillium_cache.Http.{Http, KnownHeaderName, location, content_location}
use trillium_cache.Policy.{CacheOptions, CachePolicy, new_policy, default_options, option_str_eq}
use trillium_cache.Freshness.{is_sie_eligible}
use trillium_cache.Storability.{is_storable}
use trillium_cache.Storage.{Urls, CacheKey}
use trillium_cache.Storage.Traits.{CacheStorage}
use trillium_cache.Tee.Streams.{Streams as TeeStreams}
use trillium_cache.Tee.{new_reader}
use trillium_cache.Validation.{
  CachedResponse, BeforeRequest, AfterResponse, fresh, stale, modified, before_request,
  after_response, cached_response,
}
use trillium_cache.Bodies.{HttpBodies}

-- `DEFAULT_MAX_CACHEABLE_SIZE`
abbrev pub default_max_cacheable_size : ℕ
default_max_cacheable_size = 16 * 1024 * 1024

module _ ⦃http : Http⦄ ⦃urls : Urls⦄ ⦃streams : TeeStreams⦄ ⦃bodies : HttpBodies⦄
    ⦃storage : CacheStorage streams.Body streams.Writer⦄ where
  open http use {
    Method, Status, Headers, Ratio, get, head, is_safe, get_str, known, is_success, is_redirection,
    is_server_error,
  }
  open urls use {Url, parse_url, join_url, host_str}
  open streams use {Body}
  open bodies use {empty_body, body_len, without_chunked_framing, body_of_tee}
  open storage use {Store, Entry, get_entries, put, invalidate, policy, refresh_policy, open_entry}

  -- `Cache`, whose storage is the state that the handler passes
  pub record Cache : Type 0 where
    pub options : CacheOptions
    pub max_cacheable_size : ℕ

  -- `Cache::new`, with the setters `with_options`, `shared` and `with_max_cacheable_size`
  unfoldable pub new_cache : Ratio → Cache
  new_cache tenth = record {
    options = default_options tenth;
    max_cacheable_size = default_max_cacheable_size;
  }

  unfoldable pub with_options : Cache → CacheOptions → Cache
  with_options cache options = record cache { options = options }

  unfoldable pub shared : Cache → Cache
  shared cache = record cache { options = record cache.options { shared = true } }

  unfoldable pub with_max_cacheable_size : Cache → ℕ → Cache
  with_max_cacheable_size cache limit = record cache { max_cacheable_size = limit }

  -- `CacheCtx`
  pub data CacheCtx : Type 0 where
    hit : CacheCtx
    revalidation : Entry → CacheKey → CacheCtx
    miss : CacheKey → CacheCtx
    unsafe_method : Url → CacheCtx

  -- What the handler reads and writes of a `Conn`.
  pub record Conn : Type 0 where
    pub method : Method
    pub is_secure : Bool
    pub host : Option Str
    pub path_and_query : Str
    pub request_headers : Headers
    pub response_headers : Headers
    pub status : Option Status
    pub response_body : Option Body
    pub halted : Bool
    pub ctx : Option CacheCtx

  -- `url_from_conn`
  unfoldable pub url_from_conn : Conn → Option Url
  url_from_conn conn =
      let scheme = if conn.is_secure then codes "https" else codes "http" in
      and_then conn.host
        (λ host. parse_url (scheme ++ (codes "://" ++ (host ++ conn.path_and_query))))

  -- the loop of `run` over the stored candidates
  unfoldable pub try_entries :
      Store → Conn → CacheKey → SystemTime → List Entry → Run (Store × Conn)
  try_entries store conn key now [] = done (store, record conn { ctx = some (miss key) })
  try_entries store conn key now (entry ∷ entries) = do
    answer ← before_request (policy entry) conn.request_headers now
    elim answer [
      | fresh cached ↦
          let conn = record conn { response_headers = cached.headers } in
          let (opened, store) = open_entry store entry in
          elim opened [
            | none ↦ done (store, conn)
            | some body ↦ done (
              store,
              record conn {
                ctx = some hit;
                status = some cached.status;
                response_body = some body;
                halted = true;
              },
            )
          ]
      | BeforeRequest.not_modified cached ↦ done (
        store,
        record conn {
          response_headers = cached.headers;
          ctx = some hit;
          status = some cached.status;
          response_body = some empty_body;
          halted = true;
        },
      )
      | stale request_headers matches ↦ elim matches [
        | true ↦ done (
          store,
          record conn { request_headers = request_headers; ctx = some (revalidation entry key) },
        )
        | false ↦ try_entries store conn key now entries
      ]
    ]

  -- `run`
  unfoldable pub run : Store → Conn → SystemTime → Run (Store × Conn)
  run store conn now = elim (url_from_conn conn) [
    | none ↦ done (store, conn)
    | some url ↦
        let key : CacheKey = record { method = conn.method; url = url } in
        if not (is_safe conn.method)
        then done (store, record conn { ctx = some (unsafe_method url) })
        else try_entries store conn key now (get_entries store key)
  ]

  -- `invalidate_url`
  unfoldable pub invalidate_url : Store → Url → Store
  invalidate_url store url =
      invalidate (invalidate store (record { method = get; url = url }))
        (record { method = head; url = url })

  -- what `Location` or `Content-Location` names, where its host is that of the request
  unfoldable pub same_host_target : Url → Option Str → Option Url
  same_host_target url value = and_then value (λ v.
      and_then (join_url url v)
        (λ target. if option_str_eq (host_str target) (host_str url) then some target else none))

  unfoldable pub invalidate_target : Store → Option Url → Store
  invalidate_target store none = store
  invalidate_target store (some target) = invalidate_url store target

  -- the answer to an unsafe method
  unfoldable pub after_unsafe : Store → Conn → Url → Store
  after_unsafe store conn url = elim conn.status [
    | none ↦ store
    | some status ↦
        if is_success status || is_redirection status
        then (let store = invalidate_url store url in
            let store =
              invalidate_target store
                (same_host_target url (get_str conn.response_headers (known location))) in
            invalidate_target store
              (same_host_target url (get_str conn.response_headers (known content_location))))
        else store
  ]

  -- `apply_stale`
  unfoldable pub apply_stale : Store → Conn → Entry → SystemTime → Run (Store × Conn)
  apply_stale store conn stored now = do
    cached ← cached_response (policy stored) now
    let (opened, store') = open_entry store stored in
        elim opened [
          | none ↦ done (store', conn)
          | some body ↦ done (
            store',
            record conn {
              response_headers = cached.headers;
              status = some cached.status;
              response_body = some body;
            },
          )
        ]

  -- the length of the body is known and over the limit
  unfoldable pub is_over : Cache → Option Body → Bool
  is_over cache body =
      is_some_and (and_then body body_len) (λ len. ltb cache.max_cacheable_size len)

  -- `handle_miss`
  unfoldable pub handle_miss : Cache → Store → Conn → CacheKey → Status → SystemTime → Store × Conn
  handle_miss cache store conn key status now =
      if not
        (is_storable conn.method conn.request_headers status conn.response_headers cache.options)
      then (store, conn)
      else if is_over cache conn.response_body
      then (store, conn)
      else (let new =
            new_policy conn.method conn.request_headers status conn.response_headers now
              cache.options in
          let (result, store') = put store key new in
          elim result [
            | none ↦ (store', conn)
            | some put_handle ↦ elim conn.response_body [
              | none ↦ (store', conn)
              | some body ↦
                  let len = body_len body in
                  let tee =
                    new_reader (without_chunked_framing body) put_handle cache.max_cacheable_size in
                  (store', record conn { response_body = some (body_of_tee tee len) })
            ]
          ])

  -- `handle_revalidation`
  unfoldable pub handle_revalidation :
      Cache → Store → Conn → Entry → CacheKey → Status → SystemTime → Run (Store × Conn)
  handle_revalidation cache store conn stored key status now = do
    answer ← after_response (policy stored) conn.request_headers status conn.response_headers now
    elim answer [
      | AfterResponse.not_modified new cached ↦
          let (_, stored, store) = refresh_policy store stored new in
          let (opened, store) = open_entry store stored in
          elim opened [
            | none ↦ done (store, conn)
            | some body ↦ done (
              store,
              record conn {
                response_headers = cached.headers;
                status = some cached.status;
                response_body = some body;
              },
            )
          ]
      | modified ↦ done (handle_miss cache store conn key status now)
    ]

  -- an answer of the other handlers with a status, where a stored entry is to be revalidated
  unfoldable pub after_revalidation :
      Cache → Store → Conn → Entry → CacheKey → Option Status → SystemTime → Run (Store × Conn)
  after_revalidation cache store conn stored key status now = do
    eligible ←
        (if is_some_and status is_server_error
          then is_sie_eligible (policy stored) now
          else done false)
    if eligible then apply_stale store conn stored now else elim status [
      | none ↦ done (store, conn)
      | some s ↦ handle_revalidation cache store conn stored key s now
    ]

  -- `before_send`, at one time for its calls of the clock
  unfoldable pub before_send : Cache → Store → Conn → SystemTime → Run (Store × Conn)
  before_send cache store conn now =
      let taken = record conn { ctx = none } in
      elim conn.ctx [
        | none ↦ done (store, conn)
        | some ctx ↦ elim ctx [
          | hit ↦ done (store, taken)
          | revalidation stored key ↦
              after_revalidation cache store taken stored key conn.status now
          | miss key ↦ elim conn.status [
            | none ↦ done (store, taken)
            | some status ↦ done (handle_miss cache store taken key status now)
          ]
          | unsafe_method url ↦ done (after_unsafe store taken url, taken)
        ]
      ]
