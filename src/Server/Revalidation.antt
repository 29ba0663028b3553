-- ===== src/Server/Revalidation.antt =====
-- A revalidation, from `run` in front of the other handlers to `before_send` behind them.
use trillium_cache.Prelude.{◌≡◌, refl, true, false, none, some, List, ◌∷◌}
use mathlib.Core.Path.{subst}
use trillium_cache.Time.{SystemTime, done}
use trillium_cache.Http.{Http}
use trillium_cache.Policy.{CachePolicy}
use trillium_cache.Storage.{Urls}
use trillium_cache.Storage.Traits.{CacheStorage}
use trillium_cache.Tee.Streams.{Streams as TeeStreams}
use trillium_cache.Validation.{CachedResponse, AfterResponse, stale, before_request, after_response}
use trillium_cache.Validation.Update.{IsUpdated, Effect, after_response_lem}
use trillium_cache.Bodies.{HttpBodies}
use trillium_cache.Server.{
  Cache, Conn, revalidation, url_from_conn, try_entries, run, handle_revalidation,
  after_revalidation, before_send,
}

module _ ⦃http : Http⦄ where
  open http use {Status, Headers, not_modified}

  IsUpdated-by :
      (p p' : CachePolicy) (sent new : Headers) (s : Status) (time : SystemTime)
      (reply : CachedResponse)
      → after_response p sent s new time ≡ done (AfterResponse.not_modified p' reply)
      → IsUpdated p sent new time p'
  IsUpdated-by p p' sent new s time reply e =
      let (r, f, effect) = after_response_lem p sent s new time in
      let same : r ≡ AfterResponse.not_modified p' reply = cc (f, e) in
      (subst (Effect p sent s new time) same effect).2

module _ ⦃http : Http⦄ ⦃urls : Urls⦄ ⦃streams : TeeStreams⦄ ⦃bodies : HttpBodies⦄
    ⦃storage : CacheStorage streams.Body streams.Writer⦄ where
  open http use {Status, Headers, is_safe, is_server_error}
  open urls use {Url}
  open streams use {Body}
  open storage use {Store, Entry, get_entries, policy, refresh_policy, open_entry}

  -- The conn that `run` leaves for the other handlers.
  abbrev pub waiting : Conn → Url → Entry → Headers → Conn
  waiting conn url entry sent = record conn {
    request_headers = sent;
    ctx = some (revalidation entry (record { method = conn.method; url = url }));
  }

  -- The conn with the answer of the other handlers.
  abbrev pub answered : Conn → Status → Headers → Conn
  answered conn s new = record conn { status = some s; response_headers = new }

  -- A safe request whose first candidate is stale goes to the other handlers with the headers that
  -- revalidate it. If they answer that it is not modified, and the stored body opens, the response has that
  -- body, and the status and headers that the updated policy gives; the storage has been given that policy.
  pub run-before_send :
      (cache : Cache) (store : Store) (conn : Conn) (now later : SystemTime) (url : Url)
      (entry : Entry) (rest : List Entry) (sent new : Headers) (s : Status) (p' : CachePolicy)
      (reply : CachedResponse) (body : Body)
      → url_from_conn conn ≡ some url
      → is_safe conn.method ≡ true
      → get_entries store (record { method = conn.method; url = url }) ≡ entry ∷ rest
      → before_request (policy entry) conn.request_headers now ≡ done (stale sent true)
      → is_server_error s ≡ false
      → after_response (policy entry) sent s new later ≡ done (AfterResponse.not_modified p' reply)
      → (open_entry (refresh_policy store entry p').2 (refresh_policy store entry p').1).0
        ≡ some body
      → (run store conn now ≡ done (store, waiting conn url entry sent))
        × IsUpdated (policy entry) sent new later p'
        × (before_send cache store (answered (waiting conn url entry sent) s new) later
            ≡ done (
              (open_entry (refresh_policy store entry p').2 (refresh_policy store entry p').1).1,
              record (waiting conn url entry sent) {
                ctx = none;
                response_headers = reply.headers;
                status = some reply.status;
                response_body = some body;
              },
            ))
  unfolding run try_entries before_send after_revalidation handle_revalidation
  run-before_send cache store conn now later url entry rest sent new s p' reply body at_url safe
        found old fine answer opened =
      (
        rw (at_url, run) (rw safe (rw found (rw (old, try_entries) refl))),
        IsUpdated-by (policy entry) p' sent new s later reply answer,
        rw (fine, before_send) (rw (answer, handle_revalidation) (rw opened refl)),
      )
