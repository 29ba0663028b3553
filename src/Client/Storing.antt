-- ===== src/Client/Storing.antt =====
-- A response that the client passes on after a miss, down to the calls of `PutHandle::finalize`.
use trillium_cache.Prelude.{
  ℕ, ◌≡◌, ◌⊎◌, ◌<◌, inl, inr, refl, ap, ◌∙◌, false, Option, none, some, List, [], All, Bool-cases,
  Option-cases,
}
use trillium_cache.Time.{SystemTime, Run, done}
use trillium_cache.Http.{Http}
use trillium_cache.Policy.{CachePolicy, new_policy, effective_response_cache_control}
use trillium_cache.Storability.{is_storable}
use trillium_cache.Storability.Rules.{MayStore, is_storable_iff}
use trillium_cache.Storage.{Urls, CacheKey}
use trillium_cache.Storage.Traits.{CacheStorage, IsLawful, Payload}
use trillium_cache.Tee.Streams.{Streams as TeeStreams}
use trillium_cache.Tee.{new_reader}
use trillium_cache.Storage.Teed.{Adds, put-Adds}
use trillium_cache.Tee.Run.{after, served, calls}
use trillium_cache.Bodies.{HttpBodies}
use trillium_cache.Client.{Cache, Conn, miss}
use trillium_cache.Client.Settling.{is_over, decoded, handle_miss, settle}

module _ ⦃http : Http⦄ ⦃urls : Urls⦄ ⦃streams : TeeStreams⦄ ⦃bodies : HttpBodies⦄
    ⦃storage : CacheStorage streams.Body streams.Writer⦄
    {Holds : storage.Store → CacheKey → CachePolicy → Payload → Type 0}
    {target : streams.Writer → CacheKey × CachePolicy} {Gives : streams.Body → Payload → Type 0}
    (laws : IsLawful storage Holds streams.accepted target Gives) where
  open http use {Status, Headers}
  open streams use {Body, Writer, poll_write, accepted, whole, yielded}
  open bodies use {body_of_tee, content_length}
  open storage use {Store, put, finalize}

  -- Behind a miss, `settle` is `handle_miss`.
  settle_lem :
      (cache : Cache) (store : Store) (conn : Conn) (now : SystemTime) (key : CacheKey) (s : Status)
      → conn.ctx ≡ some (miss key)
      → conn.status ≡ some s
      → settle cache store conn now
        ≡ done (handle_miss cache store (record conn { ctx = none }) key s now)
  unfolding settle
  settle_lem cache store conn now key s e f =
      let passed = record conn { ctx = none } in
      let step : Option Status → Run (Store × Conn) = λ status. elim status [
        | none ↦ done (store, passed)
        | some code ↦ done (handle_miss cache store passed key code now)
      ] in
      rw (e, settle) (ap step f)

  module _ (aims : (w : Writer) (buf : List ℕ) → target (poll_write w buf).1 ≡ target w) where
    -- What `handle_miss` does where it stores: the storage is opened under the key of the miss for the
    -- policy of the exchange, and the body goes to the caller through a tee.
    abbrev pub Tees :
        Cache
        → Store
        → Conn
        → CacheKey
        → Status
        → SystemTime
        → Body
        → Run (Store × Conn)
        → List ℕ
        → Type 0
    Tees cache store conn key s now body result ks =
        let new =
          new_policy conn.method conn.request_headers s conn.response_headers now cache.options in
        (w : Writer) × (result
          ≡ done (
            (put store key new).1,
            record conn {
              response_body = some (
                  body_of_tee (new_reader (decoded body) w cache.max_cacheable_size)
                    (content_length body));
            },
          ))
        × (served (new_reader (decoded body) w cache.max_cacheable_size) ks
            ≡ yielded (after (new_reader (decoded body) w cache.max_cacheable_size) ks).upstream)
        × All (Adds laws key new (whole (decoded body)))
            (calls (new_reader (decoded body) w cache.max_cacheable_size) ks)

    -- Where a write leaves what its handle is for, a response behind a miss with a body of which nothing
    -- is read is passed on as it is, and the storage holds nothing new, or RFC 9111 allows storing it,
    -- it is not known to be too long, and its body is passed on through a tee. Over any number of polls
    -- with room in their buffers, the tee gives what the body gives out, and whatever the storage is when
    -- the handle is finalized, this adds the whole body for the key and the policy of the exchange, or
    -- nothing.
    pub settle-miss :
        (cache : Cache) (store : Store) (conn : Conn) (now : SystemTime) (key : CacheKey)
        (s : Status) (body : Body) (ks : List ℕ)
        → conn.ctx ≡ some (miss key)
        → conn.status ≡ some s
        → conn.response_body ≡ some body
        → yielded (decoded body) ≡ []
        → All (λ k. 0 < k) ks
        → ((store' : Store) × (settle cache store conn now
              ≡ done (store', record conn { ctx = none }))
            × ((k : CacheKey) (p : CachePolicy) (d : Payload)
                → Holds store' k p d
                → Holds store k p d))
          ⊎ (MayStore conn.method conn.request_headers s conn.response_headers cache.options
                (effective_response_cache_control conn.response_headers cache.options).0
                (effective_response_cache_control conn.response_headers cache.options).1
              × (is_over cache conn.response_headers ≡ false)
              × Tees cache store
                  (record conn { ctx = none })
                  key
                  s
                  now
                  body
                  (settle cache store conn now)
                  ks)
    unfolding handle_miss
    settle-miss cache store conn now key s body ks at_ctx at_status at_body start pos =
        let new =
          new_policy conn.method conn.request_headers s conn.response_headers now cache.options in
        let settled = settle_lem cache store conn now key s at_ctx at_status in
        elim (Bool-cases
          (is_storable conn.method conn.request_headers s conn.response_headers cache.options)) [
            | inr e ↦ inl (store, settled ∙ (rw (e, handle_miss) refl), λ k p d h. h)
            | inl e ↦ elim (Bool-cases (is_over cache conn.response_headers)) [
              | inl f ↦ inl (store, settled ∙ (rw (e, handle_miss) (rw f refl)), λ k p d h. h)
              | inr f ↦ elim (Option-cases (put store key new).0) [
                | inl g ↦ inl (
                  (put store key new).1,
                  settled ∙ (rw (e, handle_miss) (rw f (rw g refl))),
                  λ k p d h. laws.put-holds store key k new p d h,
                )
                | inr (w, g) ↦
                    let (passed, all) =
                      put-Adds laws aims store key new w (decoded body) cache.max_cacheable_size ks
                        g start pos in
                    inr (
                      (is_storable_iff conn.method conn.request_headers s conn.response_headers
                            cache.options).0
                          e,
                      f,
                      (
                        w,
                        settled ∙ (rw (e, handle_miss) (rw f (rw g (rw at_body refl)))),
                        passed,
                        all,
                      ),
                    )
              ]
            ]
          ]
