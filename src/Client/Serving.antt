-- ===== src/Client/Serving.antt =====
-- What the handler of a client serves while or instead of revalidating.
use trillium_cache.Prelude.{◌≡◌, ◌⊎◌, inl, inr, arith, refl, true, false, none, some}
use trillium_cache.Time.{Duration, SystemTime, done}
use trillium_cache.Http.{Http}
use trillium_cache.Freshness.{current_age, stale_if_error_window}
use trillium_cache.Freshness.Serving.{MayServeStale, eligible_exactly_in_window}
use trillium_cache.Storage.{Urls, CacheKey}
use trillium_cache.Storage.Traits.{CacheStorage}
use trillium_cache.Tee.Streams.{Streams as TeeStreams}
use trillium_cache.Validation.{CachedResponse, cached_response}
use trillium_cache.Validation.Replies.{cached_response_lem}
use trillium_cache.Bodies.{HttpBodies}
use trillium_cache.Client.{Cache, Conn, revalidation, serve_stale}
use trillium_cache.Client.Settling.{origin_failed, after_revalidation, settle}

module _ ⦃http : Http⦄ ⦃urls : Urls⦄ ⦃streams : TeeStreams⦄ ⦃bodies : HttpBodies⦄
    ⦃storage : CacheStorage streams.Body streams.Writer⦄ where
  open http use {Headers, is_safe}
  open streams use {Body}
  open storage use {Store, Entry, get_entries, policy, open_entry}

  -- The conn with a stored response.
  abbrev pub with_stored : Conn → CachedResponse → Body → Conn
  with_stored conn reply body = record conn {
    status = some reply.status;
    response_headers = reply.headers;
    response_body = some body;
  }

  serve_stale_lem :
      (store : Store) (conn : Conn) (stored : Entry) (now : SystemTime) (reply : CachedResponse)
      (body : Body)
      → cached_response (policy stored) now ≡ done reply
      → (open_entry store stored).0 ≡ some body
      → serve_stale store conn stored now
        ≡ done (true, (open_entry store stored).1, with_stored conn reply body)
  unfolding serve_stale
  serve_stale_lem store conn stored now reply body e f = rw (e, serve_stale) (rw f refl)

  origin_failed_lem :
      (conn : Conn)
      → (conn.failed ≡ true)
        ⊎ ((s : http.Status) × (conn.status ≡ some s) × (http.is_server_error s ≡ true))
      → origin_failed conn ≡ true
  unfolding origin_failed
  origin_failed_lem conn (inl e) = rw e refl
  origin_failed_lem conn (inr (s, e, f)) = rw (e, f) (ground arith)

  -- Where the transport fails on a revalidation, or the origin answers it with an error of the server,
  -- and the stored response is stale by less than its `stale-if-error` window with nothing to forbid it,
  -- the client gets the stored response and no error, if its body opens.
  pub settle-stale_if_error :
      (cache : Cache) (store : Store) (conn : Conn) (now : SystemTime) (stored : Entry)
      (key : CacheKey) (a : Duration) (body : Body)
      → conn.ctx ≡ some (revalidation stored key)
      → (conn.failed ≡ true)
        ⊎ ((s : http.Status) × (conn.status ≡ some s) × (http.is_server_error s ≡ true))
      → current_age (policy stored) now ≡ done a
      → MayServeStale (policy stored) a (stale_if_error_window (policy stored))
      → (open_entry store stored).0 ≡ some body
      → (reply : CachedResponse) × (cached_response (policy stored) now ≡ done reply)
        × (settle cache store conn now
            ≡ done (
              (open_entry store stored).1,
              record (with_stored conn reply body) { ctx = none; failed = false },
            ))
  unfolding settle after_revalidation
  settle-stale_if_error cache store conn now stored key a body ctx failed aged may opened =
      let (reply, ok, _, _) = cached_response_lem (policy stored) now a aged in
      let eligible = (eligible_exactly_in_window (policy stored) now aged).1.1 may in
      (
        reply,
        ok,
        rw (ctx, settle)
            (rw (origin_failed_lem (record conn { ctx = none }) failed, after_revalidation)
              (rw eligible (
                rw
                  (serve_stale_lem store (record conn { ctx = none }) stored now reply body ok
                    opened)
                  refl))),
      )
