-- ===== src/Server/Storing.antt =====
-- A response that the server passes on after a miss, down to the calls of `PutHandle::finalize`.
use trillium_cache.Prelude.{
  ℕ, ◌≡◌, ◌⊎◌, ◌<◌, ◌↔◌, inl, inr, refl, true, none, some, List, [], All, arith, Bool-cases,
  Option-cases,
}
use trillium_cache.Time.{SystemTime}
use trillium_cache.Http.{Http}
use trillium_cache.Policy.{CachePolicy, new_policy, effective_response_cache_control}
use trillium_cache.Storability.{is_storable}
use trillium_cache.Storability.Rules.{MayStore, is_storable_iff}
use trillium_cache.Storage.{Urls, CacheKey}
use trillium_cache.Storage.Traits.{CacheStorage, IsLawful, Payload}
use trillium_cache.Storage.Teed.{Adds, put-Adds}
use trillium_cache.Tee.Streams.{Streams as TeeStreams}
use trillium_cache.Tee.{new_reader}
use trillium_cache.Tee.Run.{after, served, calls}
use trillium_cache.Bodies.{HttpBodies}
use trillium_cache.Server.{Cache, Conn, is_over, handle_miss}

module _ ⦃http : Http⦄ ⦃urls : Urls⦄ ⦃streams : TeeStreams⦄ ⦃bodies : HttpBodies⦄
    ⦃storage : CacheStorage streams.Body streams.Writer⦄ where
  open http use {Status}
  open streams use {Body}
  open bodies use {body_len}

  -- RFC 9111 allows storing the exchange.
  abbrev pub IsAllowed : Cache → Conn → Status → Type 0
  IsAllowed cache conn s =
      MayStore conn.method conn.request_headers s conn.response_headers cache.options
        (effective_response_cache_control conn.response_headers cache.options).0
        (effective_response_cache_control conn.response_headers cache.options).1

  -- The body is known to be longer than what the cache takes.
  abbrev pub IsTooLong : Cache → Body → Type 0
  IsTooLong cache body = (n : ℕ) × (body_len body ≡ some n) × (cache.max_cacheable_size < n)

  IsTooLong-iff :
      (cache : Cache) (conn : Conn) (body : Body)
      → conn.response_body ≡ some body
      → (is_over cache conn.response_body ≡ true) ↔ IsTooLong cache body
  unfolding is_over
  IsTooLong-iff cache conn body e = elim (Option-cases (body_len body)) [
    | inl f ↦
        (λ h. absurd (cc (rw f at (rw (e, is_over) at h))), λ (n, g, over). absurd (cc (f, g)))
    | inr (n, f) ↦ (
      λ h. (n, f, ground (arith, rw f at (rw (e, is_over) at h))),
      λ (m, g, over).
          let same : m ≡ n = cc (f, g) in
          rw (e, is_over) (rw f (rw (← same) (ground (arith, over)))),
    )
  ]

module _ ⦃http : Http⦄ ⦃urls : Urls⦄ ⦃streams : TeeStreams⦄ ⦃bodies : HttpBodies⦄
    ⦃storage : CacheStorage streams.Body streams.Writer⦄
    {Holds : storage.Store → CacheKey → CachePolicy → Payload → Type 0}
    {target : streams.Writer → CacheKey × CachePolicy} {Gives : streams.Body → Payload → Type 0}
    (laws : IsLawful storage Holds streams.accepted target Gives)
    (aims : (w : streams.Writer) (buf : List ℕ)
      → target (streams.poll_write w buf).1 ≡ target w) where
  open http use {Status}
  open streams use {Body, Writer, whole, yielded}
  open bodies use {body_len, body_of_tee, without_chunked_framing}
  open storage use {Store, put}

  -- The storage has been opened under the key for the policy of the exchange, and the body goes to the
  -- caller through a tee, which gives what the body gives out and adds the whole body or nothing.
  abbrev pub IsTeed :
      Cache → Store → Conn → CacheKey → CachePolicy → Body → List ℕ → Store × Conn → Type 0
  IsTeed cache store conn key new body ks result =
      let source = without_chunked_framing body in
      (w : Writer) × ((put store key new).0 ≡ some w)
      × (result ≡ (
        (put store key new).1,
        record conn {
          response_body =
              some (body_of_tee (new_reader source w cache.max_cacheable_size) (body_len body));
        },
      ))
      × (served (new_reader source w cache.max_cacheable_size) ks
          ≡ yielded (after (new_reader source w cache.max_cacheable_size) ks).upstream)
      × All (Adds laws key new (whole source))
          (calls (new_reader source w cache.max_cacheable_size) ks)

  -- Where a write leaves what its handle is for, a response with a body of which nothing is read is passed
  -- on with the storage untouched if RFC 9111 forbids storing it, or its body is known to be longer than
  -- the cache takes. Else the storage is opened under the key for the policy of the exchange. If that
  -- fails, the response is passed on; if not, it keeps its status and headers, and its body is passed on
  -- through a tee: over any number of polls with room in their buffers, the tee gives what the body gives
  -- out, and whatever the storage is when the handle is finalized, this adds the whole body for the key
  -- and the policy, or nothing.
  pub handle_miss-MayStore :
      (cache : Cache) (store : Store) (conn : Conn) (key : CacheKey) (s : Status) (now : SystemTime)
      (body : Body) (ks : List ℕ)
      → conn.response_body ≡ some body
      → yielded (without_chunked_framing body) ≡ []
      → All (λ k. 0 < k) ks
      → ((handle_miss cache store conn key s now ≡ (store, conn))
          × ((¬ IsAllowed cache conn s) ⊎ IsTooLong cache body))
        ⊎ (IsAllowed cache conn s
            × (¬ IsTooLong cache body)
            × (handle_miss cache store conn key s now ≡ (
              (put store key (
                  new_policy conn.method conn.request_headers s conn.response_headers now
                    cache.options)).1,
              conn,
            ))
            × ((put store key (
                  new_policy conn.method conn.request_headers s conn.response_headers now
                    cache.options)).0
                ≡ none))
        ⊎ (IsAllowed cache conn s
            × (¬ IsTooLong cache body)
            × IsTeed cache store conn key
                (new_policy conn.method conn.request_headers s conn.response_headers now
                  cache.options)
                body
                ks
                (handle_miss cache store conn key s now))
  unfolding handle_miss
  handle_miss-MayStore cache store conn key s now body ks at_body start pos =
      let new =
        new_policy conn.method conn.request_headers s conn.response_headers now cache.options in
      let allowed =
        is_storable_iff conn.method conn.request_headers s conn.response_headers cache.options in
      let long = IsTooLong-iff cache conn body at_body in
      elim (Bool-cases
        (is_storable conn.method conn.request_headers s conn.response_headers cache.options)) [
          | inr e ↦ inl (rw (e, handle_miss) refl, inl (λ may. cc (e, allowed.1 may)))
          | inl e ↦ elim (Bool-cases (is_over cache conn.response_body)) [
            | inl f ↦ inl (rw (e, handle_miss) (rw f refl), inr (long.0 f))
            | inr f ↦
                let fits : ¬ IsTooLong cache body = λ over. cc (f, long.1 over) in
                elim (Option-cases (put store key new).0) [
                  | inl g ↦ inr (inl (allowed.0 e, fits, rw (e, handle_miss) (rw f (rw g refl)), g))
                  | inr (w, g) ↦
                      let (passed, all) =
                        put-Adds laws aims store key new w (without_chunked_framing body)
                          cache.max_cacheable_size ks g start pos in
                      inr (
                        inr (
                          allowed.0 e,
                          fits,
                          (w, g, rw (e, handle_miss) (rw f (rw g (rw at_body refl))), passed, all),
                        ))
                ]
          ]
        ]
