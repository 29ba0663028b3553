-- ===== src/Client/Unsafe.antt =====
-- What a client invalidates after a request with an unsafe method.
use trillium_cache.Prelude.{◌≡◌, refl, ◌||◌, Option, none, some, Bool-cases, inl, inr}
use trillium_cache.Http.{Http}
use trillium_cache.Storage.{Urls}
use trillium_cache.Storage.Traits.{CacheStorage}
use trillium_cache.Tee.Streams.{Streams as TeeStreams}
use trillium_cache.Bodies.{HttpBodies}
use trillium_cache.Client.{Conn}
use trillium_cache.Client.Settling.{
  invalidate_url, same_host_target, invalidate_target, after_unsafe,
}
use trillium_cache.Server.{
  Conn as ServerConn, invalidate_url as server_invalidate_url,
  same_host_target as server_same_host_target, invalidate_target as server_invalidate_target,
  after_unsafe as server_after_unsafe,
}

module _ ⦃http : Http⦄ ⦃urls : Urls⦄ ⦃streams : TeeStreams⦄ ⦃bodies : HttpBodies⦄
    ⦃storage : CacheStorage streams.Body streams.Writer⦄ where
  open http use {Status, is_success, is_redirection}
  open urls use {Url}
  open storage use {Store}

  same_target :
      (store : Store) (target : Option Url)
      → invalidate_target store target ≡ server_invalidate_target store target
  unfolding invalidate_target server_invalidate_target invalidate_url server_invalidate_url
  same_target store none = refl
  same_target store (some url) = refl

  -- The client and the server invalidate the same after the same answer to an unsafe method.
  pub client-invalidates_as_server :
      (store : Store) (conn : Conn) (server_conn : ServerConn) (url : Url) (s : Status)
      → server_conn.status ≡ some s
      → server_conn.response_headers ≡ conn.response_headers
      → after_unsafe store conn url s ≡ server_after_unsafe store server_conn url
  unfolding after_unsafe server_after_unsafe invalidate_url server_invalidate_url same_host_target
      server_same_host_target
  client-invalidates_as_server store conn server_conn url s e f =
      elim (Bool-cases (is_success s || is_redirection s)) [
        | inl ok ↦ rw (e, server_after_unsafe) (rw ok (rw f (simp same_target)))
        | inr refused ↦ rw (e, server_after_unsafe) (rw refused refl)
      ]
