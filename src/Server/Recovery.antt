-- ===== src/Server/Recovery.antt =====
-- What the handler serves when the other handlers fail.
use trillium_cache.Prelude.{◌≡◌, refl, true, none, some}
use trillium_cache.Time.{Duration, SystemTime, done}
use trillium_cache.Http.{Http}
use trillium_cache.Freshness.{current_age, stale_if_error_window}
use trillium_cache.Freshness.Serving.{MayServeStale, eligible_exactly_in_window}
use trillium_cache.Storage.{Urls, CacheKey}
use trillium_cache.Tee.Streams.{Streams as TeeStreams}
use trillium_cache.Validation.{CachedResponse, cached_response}
use trillium_cache.Validation.Replies.{cached_response_lem}
use trillium_cache.Storage.Traits.{CacheStorage}
use trillium_cache.Bodies.{HttpBodies}
use trillium_cache.Server.{Cache, Conn, revalidation, apply_stale, after_revalidation, before_send}

module _ ⦃http : Http⦄ ⦃urls : Urls⦄ ⦃streams : TeeStreams⦄ ⦃bodies : HttpBodies⦄
    ⦃storage : CacheStorage streams.Body streams.Writer⦄ where
  open http use {Status, is_server_error}
  open streams use {Body}
  open storage use {Store, Entry, policy, open_entry}

  -- The answer of the other handlers with a stored response in its place.
  abbrev pub replaced : Conn → CachedResponse → Body → Conn
  replaced conn reply body = record conn {
    ctx = none;
    response_headers = reply.headers;
    status = some reply.status;
    response_body = some body;
  }

  apply_stale_lem :
      (store : Store) (conn : Conn) (stored : Entry) (now : SystemTime) (reply : CachedResponse)
      (body : Body)
      → cached_response (policy stored) now ≡ done reply
      → (open_entry store stored).0 ≡ some body
      → apply_stale store (record conn { ctx = none }) stored now
        ≡ done ((open_entry store stored).1, replaced conn reply body)
  unfolding apply_stale
  apply_stale_lem store conn stored now reply body e f = rw (e, apply_stale) (rw f refl)

  -- Where the other handlers answer a revalidation with an error of the server, and the stored response
  -- is stale by less than its `stale-if-error` window with nothing to forbid it, the stored response is
  -- sent, if its body can be opened, and nothing but that opening happens to the storage.
  pub before_send-stale_if_error :
      (cache : Cache) (store : Store) (conn : Conn) (now : SystemTime) (stored : Entry)
      (key : CacheKey) (s : Status) (a : Duration) (body : Body)
      → conn.ctx ≡ some (revalidation stored key)
      → conn.status ≡ some s
      → is_server_error s ≡ true
      → current_age (policy stored) now ≡ done a
      → MayServeStale (policy stored) a (stale_if_error_window (policy stored))
      → (open_entry store stored).0 ≡ some body
      → (reply : CachedResponse) × (cached_response (policy stored) now ≡ done reply)
        × (before_send cache store conn now
            ≡ done ((open_entry store stored).1, replaced conn reply body))
  unfolding before_send after_revalidation apply_stale
  before_send-stale_if_error cache store conn now stored key s a body ctx status failed aged may
        opened =
      let (reply, answer, _, _) = cached_response_lem (policy stored) now a aged in
      let eligible = (eligible_exactly_in_window (policy stored) now aged).1.1 may in
      (
        reply,
        answer,
        rw (ctx, before_send)
            (rw
              (
                status,
                failed,
                eligible,
                apply_stale_lem store conn stored now reply body answer opened,
              )
              refl),
      )
