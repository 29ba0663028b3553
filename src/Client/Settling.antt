-- ===== src/Client/Settling.antt =====
-- src/client.rs: what the handler does behind the network.
use trillium_cache.Prelude.{
  ℕ, suc, Bool, false, not, ◌||◌, Option, none, some, is_some_and, and_then, ltb, leb, length,
  if◌then◌else◌,
}
use trillium_cache.Text.{Str, parse_u64}
use trillium_cache.Time.{SystemTime, Run, done, ◌>>=◌}
use trillium_cache.Http.{Http, location, content_location, content_length}
use trillium_cache.Policy.{new_policy, option_str_eq}
use trillium_cache.Freshness.{is_sie_eligible}
use trillium_cache.Storability.{is_storable}
use trillium_cache.Storage.{Urls, CacheKey}
use trillium_cache.Storage.Traits.{CacheStorage}
use trillium_cache.Storage.Copy.{copy_chunks}
use trillium_cache.Tee.Streams.{Streams as TeeStreams}
use trillium_cache.Tee.{new_reader}
use trillium_cache.Validation.{AfterResponse, modified, after_response}
use trillium_cache.Bodies.{HttpBodies}
use trillium_cache.Client.{
  Cache, hit, revalidation, miss, unsafe_method, Conn, Revalidation, serve_stale,
}

module _ ⦃http : Http⦄ ⦃urls : Urls⦄ ⦃streams : TeeStreams⦄ ⦃bodies : HttpBodies⦄
    ⦃storage : CacheStorage streams.Body streams.Writer⦄ where
  open http use {
    Method, Status, Headers, get, head, get_str, known, is_success, is_redirection, is_server_error,
  }
  open urls use {Url, join_url, host_str}
  open streams use {Body, Writer, whole}
  open bodies use {without_chunked_framing, body_of_tee, body_of_response}
  open storage use {Store, Entry, put, invalidate, policy, refresh_policy, open_entry}

  -- `invalidate_url`
  unfoldable pub invalidate_url : Store → Url → Store
  invalidate_url store url =
      invalidate (invalidate store (record { method = get; url = url }))
        (record { method = head; url = url })

  -- what `Location` or `Content-Location` names, where its host is that of the request
  unfoldable pub same_host_target : Url → Option Str → Option Url
  same_host_target url value = and_then value (λ v.
      and_then (join_url url v)
        (λ target. if option_str_eq (host_str target) (host_str url) then some target else none))

  unfoldable pub invalidate_target : Store → Option Url → Store
  invalidate_target store none = store
  invalidate_target store (some target) = invalidate_url store target

  -- the answer to an unsafe method
  unfoldable pub after_unsafe : Store → Conn → Url → Status → Store
  after_unsafe store conn url status =
      if is_success status || is_redirection status
      then (let store = invalidate_url store url in
          let store =
            invalidate_target store
              (same_host_target url (get_str conn.response_headers (known location))) in
          invalidate_target store
            (same_host_target url (get_str conn.response_headers (known content_location))))
      else store

  -- `Content-Length` is over the limit
  unfoldable pub is_over : Cache → Headers → Bool
  is_over cache headers =
      is_some_and (and_then (get_str headers (known content_length)) parse_u64)
        (λ len. ltb cache.max_cacheable_size len)

  -- The body of a response without the framing of the wire, in `handle_miss` and `copy_into_storage`.
  abbrev pub decoded : Body → Body
  decoded body = without_chunked_framing (body_of_response body (bodies.content_length body))

  -- `handle_miss`
  unfoldable pub handle_miss : Cache → Store → Conn → CacheKey → Status → SystemTime → Store × Conn
  handle_miss cache store conn key status now =
      if not
        (is_storable conn.method conn.request_headers status conn.response_headers cache.options)
      then (store, conn)
      else if is_over cache conn.response_headers
      then (store, conn)
      else (let new =
            new_policy conn.method conn.request_headers status conn.response_headers now
              cache.options in
          let (result, store') = put store key new in
          elim result [
            | none ↦ (store', conn)
            | some put_handle ↦ elim conn.response_body [
              | none ↦ (store', conn)
              | some response_body ↦
                  let len = bodies.content_length response_body in
                  let tee =
                    new_reader (decoded response_body) put_handle cache.max_cacheable_size in
                  (store', record conn { response_body = some (body_of_tee tee len) })
            ]
          ])

  -- `handle_revalidation`
  unfoldable pub handle_revalidation :
      Cache → Store → Conn → Entry → CacheKey → Status → SystemTime → Run (Store × Conn)
  handle_revalidation cache store conn stored key status now = do
    answer ← after_response (policy stored) conn.request_headers status conn.response_headers now
    elim answer [
      | AfterResponse.not_modified new cached ↦
          let (_, stored, store) = refresh_policy store stored new in
          let (opened, store) = open_entry store stored in
          elim opened [
            | none ↦ done (store, conn)
            | some body ↦ done (
              store,
              record conn {
                status = some cached.status;
                response_headers = cached.headers;
                response_body = some body;
              },
            )
          ]
      | modified ↦ done (handle_miss cache store conn key status now)
    ]

  -- the request failed, or the origin did
  unfoldable pub origin_failed : Conn → Bool
  origin_failed conn = conn.failed || is_some_and conn.status is_server_error

  -- what `after_response` does where a stored entry is to be revalidated
  unfoldable pub after_revalidation :
      Cache → Store → Conn → Entry → CacheKey → SystemTime → Run (Store × Conn)
  after_revalidation cache store conn stored key now = do
    eligible ← (if origin_failed conn then is_sie_eligible (policy stored) now else done false)
    if eligible
        then (do
          out ← serve_stale store conn stored now
          done (out.1, if out.0 then record out.2 { failed = false } else out.2))
        else elim conn.status [
          | none ↦ done (store, conn)
          | some status ↦ handle_revalidation cache store conn stored key status now
        ]

  -- `ClientHandler::after_response`, at one time for its calls of the clock
  unfoldable pub settle : Cache → Store → Conn → SystemTime → Run (Store × Conn)
  settle cache store conn now =
      let taken = record conn { ctx = none } in
      elim conn.ctx [
        | none ↦ done (store, conn)
        | some ctx ↦ elim ctx [
          | revalidation stored key ↦ after_revalidation cache store taken stored key now
          | hit ↦ done (store, taken)
          | miss key ↦ elim conn.status [
            | none ↦ done (store, taken)
            | some status ↦ done (handle_miss cache store taken key status now)
          ]
          | unsafe_method url ↦ elim conn.status [
            | none ↦ done (store, taken)
            | some status ↦ done (after_unsafe store taken url status, taken)
          ]
        ]
      ]

  -- `copy_into_storage`; `false` is an error
  unfoldable pub copy_into_storage : Store → Body → Writer → ℕ → Bool × Store
  copy_into_storage store response_body put_handle cap =
      let body = decoded response_body in
      copy_chunks storage (λ total. leb total cap) (suc (length (whole body))) store put_handle body
        0

  -- What the network gives to a background request that succeeds: the headers as they were sent, and the
  -- response.
  pub record NetworkAnswer : Type 0 where
    pub sent : Headers
    pub status : Status
    pub headers : Headers
    pub body : Option Body

  -- the arm of `background_revalidation` for a new response
  unfoldable pub replace_stored : Cache → Store → Revalidation → NetworkAnswer → SystemTime → Store
  replace_stored cache store task answer now =
      if not (is_storable task.method answer.sent answer.status answer.headers cache.options)
      then store
      else (let new =
            new_policy task.method answer.sent answer.status answer.headers now cache.options in
          let (result, store') = put store task.key new in
          elim result [
            | none ↦ store'
            | some put_handle ↦ elim answer.body [
              | none ↦ store'
              | some body ↦ (copy_into_storage store' body put_handle cache.max_cacheable_size).1
            ]
          ])

  -- `background_revalidation`, with what the network gives; `none` is an error of the transport
  unfoldable pub background_revalidation :
      Cache → Store → Revalidation → Option NetworkAnswer → SystemTime → Run Store
  background_revalidation cache store task none now = done store
  background_revalidation cache store task (some answer) now = do
    outcome ← after_response (policy task.stored) answer.sent answer.status answer.headers now
    elim outcome [
      | AfterResponse.not_modified new cached ↦ done (refresh_policy store task.stored new).2
      | modified ↦ done (replace_stored cache store task answer now)
    ]
