-- ===== src/Server/Candidates.antt =====
-- Which stored candidate answers a request.
use trillium_cache.Prelude.{◌≡◌, ◌≢◌, refl, Bool, true, false, List, [], ◌∷◌, ◌++◌, arith, All}
use trillium_cache.Time.{SystemTime, Run, done, panic}
use trillium_cache.Http.{Http}
use trillium_cache.Policy.{CachePolicy}
use trillium_cache.Storage.{Urls, CacheKey}
use trillium_cache.Tee.Streams.{Streams as TeeStreams}
use trillium_cache.Validation.{
  BeforeRequest, fresh, stale, before_request, serve_stored, vary_matches,
  revalidation_request_headers, cached_response, cached_response_304,
}
use trillium_cache.Storage.Traits.{CacheStorage}
use trillium_cache.Bodies.{HttpBodies}
use trillium_cache.Server.{Conn, try_entries}

module _ ⦃http : Http⦄ where
  open http use {Headers}

  before_request-mismatch :
      (p : CachePolicy) (h : Headers) (now : SystemTime)
      → vary_matches p h ≡ false
      → (sent : Headers) × (before_request p h now ≡ done (stale sent false))
  unfolding before_request
  before_request-mismatch p h now e = (revalidation_request_headers p h, rw e refl)

  before_request-match :
      (p : CachePolicy) (h sent : Headers) (now : SystemTime)
      → vary_matches p h ≡ true
      → before_request p h now ≢ done (stale sent false)
  unfolding before_request serve_stored cached_response cached_response_304
  before_request-match p h sent now e = ground arith

module _ ⦃http : Http⦄ ⦃urls : Urls⦄ ⦃streams : TeeStreams⦄ ⦃bodies : HttpBodies⦄
    ⦃storage : CacheStorage streams.Body streams.Writer⦄ where
  open storage use {Store, Entry, policy, open_entry}

  -- The request selects the candidate.
  abbrev pub selects : Conn → Entry → Bool
  selects conn entry = vary_matches (policy entry) conn.request_headers

  skip_lem :
      (store : Store) (conn : Conn) (key : CacheKey) (now : SystemTime) (entry : Entry)
      (rest : List Entry)
      → selects conn entry ≡ false
      → try_entries store conn key now (entry ∷ rest) ≡ try_entries store conn key now rest
  unfolding try_entries
  skip_lem store conn key now entry rest e =
      let (sent, answer) = before_request-mismatch (policy entry) conn.request_headers now e in
      rw (answer, try_entries) refl

  decide_lem :
      (store : Store) (conn : Conn) (key : CacheKey) (now : SystemTime) (entry : Entry)
      (rest : List Entry) (answer : Run BeforeRequest)
      → selects conn entry ≡ true
      → before_request (policy entry) conn.request_headers now ≡ answer
      → try_entries store conn key now (entry ∷ rest) ≡ try_entries store conn key now (entry ∷ [])
  unfolding try_entries
  decide_lem store conn key now entry rest panic e f = rw (f, try_entries) refl
  decide_lem store conn key now entry rest (done (fresh cached)) e f = rw (f, try_entries) refl
  decide_lem store conn key now entry rest (done (BeforeRequest.not_modified cached)) e f =
      rw (f, try_entries) refl
  decide_lem store conn key now entry rest (done (stale sent true)) e f = rw (f, try_entries) refl
  decide_lem store conn key now entry rest (done (stale sent false)) e f =
      absurd (before_request-match (policy entry) conn.request_headers sent now e f)

  -- The first candidate whose selecting headers match the request decides alone: those in front of it
  -- are passed over, and those behind it are not looked at.
  pub try_entries-append :
      (store : Store) (conn : Conn) (key : CacheKey) (now : SystemTime) (skipped : List Entry)
      (entry : Entry) (rest : List Entry)
      → All (λ other. selects conn other ≡ false) skipped
      → selects conn entry ≡ true
      → try_entries store conn key now (skipped ++ entry ∷ rest)
        ≡ try_entries store conn key now (entry ∷ [])
  try_entries-append store conn key now [] entry rest h e =
      decide_lem store conn key now entry rest _ e refl
  try_entries-append store conn key now (other ∷ skipped) entry rest h e =
      rw (skip_lem store conn key now other (skipped ++ entry ∷ rest) h.0)
        (try_entries-append store conn key now skipped entry rest h.1 e)
