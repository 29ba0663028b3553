-- ===== src/Client/Background.antt =====
-- What a background revalidation leaves in the storage.
use trillium_cache.Prelude.{
  ℕ, suc, ◌≡◌, ◌≢◌, ◌⊎◌, ◌<◌, ◌≤◌, ◌-◌, inl, inr, refl, sym, ap, ◌∙◌, true, none, some, List, [],
  length, leb, arith, Bool-cases, Option-cases,
}
use mathlib.Core.Path.{subst}
use trillium_cache.Text.{u64_mod}
use trillium_cache.Time.{SystemTime, done}
use trillium_cache.Http.{Http}
use trillium_cache.Policy.{
  CachePolicy, new_policy, same_variant_as, effective_response_cache_control,
}
use trillium_cache.Storability.{is_storable}
use trillium_cache.Storability.Rules.{MayStore, is_storable_iff}
use trillium_cache.Storage.{Urls, CacheKey}
use trillium_cache.Storage.Traits.{CacheStorage, IsLawful, Payload}
use trillium_cache.Storage.Cap.{copy_chunks-over_cap}
use trillium_cache.Storage.Copied.{Commits, copy_chunks-Commits, copy_chunks-completes}
use trillium_cache.Tee.Streams.{Streams as TeeStreams}
use trillium_cache.Validation.{AfterResponse, modified, after_response}
use trillium_cache.Validation.Update.{IsUpdated, Effect, after_response_lem}
use trillium_cache.Bodies.{HttpBodies}
use trillium_cache.Client.{Cache, Revalidation}
use trillium_cache.Client.Settling.{
  NetworkAnswer, decoded, copy_into_storage, replace_stored, background_revalidation,
}

module _ ⦃http : Http⦄ ⦃urls : Urls⦄ ⦃streams : TeeStreams⦄ ⦃bodies : HttpBodies⦄
    ⦃storage : CacheStorage streams.Body streams.Writer⦄ where
  open streams use {Body, Writer, whole, yielded}
  open storage use {Store}

  -- Whatever the storage and the network do, a decoded body that is longer than the cap is not stored.
  pub copy_into_storage-over_cap :
      (store : Store) (body : Body) (handle : Writer) (cap : ℕ)
      → yielded (decoded body) ≡ []
      → cap < length (whole (decoded body))
      → cap < u64_mod - 1
      → (copy_into_storage store body handle cap).1 ≡ store
  unfolding copy_into_storage
  copy_into_storage-over_cap store body handle cap start over small =
      copy_chunks-over_cap storage cap (suc (length (whole (decoded body)))) store handle
        (decoded body) 0 (rw start refl) (omega arith) over small

module _ ⦃http : Http⦄ ⦃urls : Urls⦄ ⦃streams : TeeStreams⦄ ⦃bodies : HttpBodies⦄
    ⦃storage : CacheStorage streams.Body streams.Writer⦄
    {Holds : storage.Store → CacheKey → CachePolicy → Payload → Type 0}
    {accepted : streams.Writer → List ℕ} {target : streams.Writer → CacheKey × CachePolicy}
    {Gives : streams.Body → Payload → Type 0}
    (laws : IsLawful storage Holds accepted target Gives) where
  open http use {not_modified}
  open streams use {Body, Writer, whole, yielded}
  open bodies use {ends_with, read_chunk}
  open storage use {Store, put, policy, refresh_policy, write_all, finalize}

  -- Whatever fails on the way, a copy leaves the storage as it was or commits the whole decoded body with
  -- its trailers.
  pub copy_into_storage-Commits :
      (store : Store) (body : Body) (handle : Writer) (cap : ℕ)
      → accepted handle ≡ []
      → yielded (decoded body) ≡ []
      → ((copy_into_storage store body handle cap).1 ≡ store)
        ⊎ Commits storage
            (λ total. leb total cap)
            laws
            store
            (target handle)
            (whole (decoded body), ends_with (decoded body))
            (copy_into_storage store body handle cap)
  unfolding copy_into_storage
  copy_into_storage-Commits store body handle cap empty start =
      copy_chunks-Commits storage (λ total. leb total cap) laws
        (suc (length (whole (decoded body)))) store handle (decoded body) 0 (empty ∙ sym start)

  -- A decoded body that is not longer than the cap is committed where no read and no write fails.
  pub copy_into_storage-completes :
      (store : Store) (body : Body) (handle : Writer) (cap : ℕ)
      → ((b : Body) → (read_chunk b 8192).0 ≢ none)
      → ((w : Writer) (bytes : List ℕ) → write_all w bytes ≢ none)
      → accepted handle ≡ []
      → yielded (decoded body) ≡ []
      → length (whole (decoded body)) ≤ cap
      → cap < u64_mod
      → Commits storage
          (λ total. leb total cap)
          laws
          store
          (target handle)
          (whole (decoded body), ends_with (decoded body))
          (copy_into_storage store body handle cap)
  unfolding copy_into_storage
  copy_into_storage-completes store body handle cap reads writes empty start fits small =
      copy_chunks-completes storage (λ total. leb total cap) laws
        (suc (length (whole (decoded body)))) store handle (decoded body) 0 reads writes
        (λ n le. ground (arith, le, fits)) (omega (arith, fits, small)) (empty ∙ sym start)
        (rw start refl) (omega arith)

  -- What the new response adds: the whole body under the key of the task, with the policy of the exchange,
  -- if RFC 9111 allows storing it.
  abbrev pub IsReplacement :
      Cache → Revalidation → NetworkAnswer → SystemTime → CacheKey → CachePolicy → Payload → Type 0
  IsReplacement cache task answer now k p d =
      MayStore task.method answer.sent answer.status answer.headers cache.options
        (effective_response_cache_control answer.headers cache.options).0
        (effective_response_cache_control answer.headers cache.options).1
      × (k ≡ task.key)
      × (p ≡ new_policy task.method answer.sent answer.status answer.headers now cache.options)
      × ((body : Body) × (answer.body ≡ some body)
          × (d ≡ (whole (decoded body), ends_with (decoded body))))

  copied :
      (store : Store) (key : CacheKey) (new : CachePolicy) (handle : Writer) (body : Body) (cap : ℕ)
      (k : CacheKey) (p : CachePolicy) (d : Payload)
      → (put store key new).0 ≡ some handle
      → yielded (decoded body) ≡ []
      → Holds (copy_into_storage (put store key new).1 body handle cap).1 k p d
      → Holds store k p d
        ⊎ ((k ≡ key) × (p ≡ new) × (d ≡ (whole (decoded body), ends_with (decoded body))))
  copied store key new handle body cap k p d e start h =
      let (empty, place) = laws.put-handle store key new handle e in
      let s = (put store key new).1 in
      elim (copy_into_storage-Commits s body handle cap empty start) [
        | inl same ↦ inl (laws.put-holds store key k new p d (subst (λ x. Holds x k p d) same h))
        | inr (end, all, at_target, result) ↦
            elim (laws.finalize-holds s end (ends_with (decoded body)) k p d
              (subst (λ x. Holds x k p d) (ap (λ r. r.1) result) h)) [
                | inl old ↦ inl (laws.put-holds store key k new p d old)
                | inr (at_place, is) ↦
                    let there = sym at_place ∙ at_target ∙ place in
                    inr (
                      ap (λ x. x.0) there,
                      ap (λ x. x.1) there,
                      is ∙ (λ i. (all i, ends_with (decoded body))),
                    )
              ]
      ]

  replace_stored_lem :
      (cache : Cache) (store : Store) (task : Revalidation) (answer : NetworkAnswer)
      (now : SystemTime) (k : CacheKey) (p : CachePolicy) (d : Payload)
      → ((body : Body) → answer.body ≡ some body → yielded (decoded body) ≡ [])
      → Holds (replace_stored cache store task answer now) k p d
      → Holds store k p d ⊎ IsReplacement cache task answer now k p d
  unfolding replace_stored
  replace_stored_lem cache store task answer now k p d start h =
      let new = new_policy task.method answer.sent answer.status answer.headers now cache.options in
      elim (Bool-cases
        (is_storable task.method answer.sent answer.status answer.headers cache.options)) [
          | inr refused ↦ inl (rw (refused, replace_stored) at h)
          | inl ok ↦ elim (Option-cases (put store task.key new).0) [
            | inl e ↦
                inl
                  (laws.put-holds store task.key k new p d (rw e at (rw (ok, replace_stored) at h)))
            | inr (handle, e) ↦ elim (Option-cases answer.body) [
              | inl f ↦ inl (
                  laws.put-holds store task.key k new p d
                    (rw f at (rw e at (rw (ok, replace_stored) at h))))
              | inr (body, f) ↦
                  elim (copied store task.key new handle body cache.max_cacheable_size k p d e
                    (start body f) (rw f at (rw e at (rw (ok, replace_stored) at h)))) [
                      | inl old ↦ inl old
                      | inr (at_key, at_policy, is) ↦ inr (
                        (is_storable_iff task.method answer.sent answer.status answer.headers
                              cache.options).0
                            ok,
                        at_key,
                        at_policy,
                        (body, f, is),
                      )
                    ]
            ]
          ]
        ]

  -- What a 304 leaves: the payload of a response of the same variant, with the policy of the task's entry
  -- updated by the answer.
  abbrev pub IsRefreshed :
      Store → Revalidation → NetworkAnswer → SystemTime → CacheKey → CachePolicy → Payload → Type 0
  IsRefreshed store task answer now k p d =
      (answer.status ≡ not_modified)
      × IsUpdated (policy task.stored) answer.sent answer.headers now p
      × ((old : CachePolicy) × Holds store k old d × (same_variant_as old p ≡ true))

  settled :
      (cache : Cache) (store : Store) (task : Revalidation) (answer : NetworkAnswer)
      (now : SystemTime) (k : CacheKey) (p : CachePolicy) (d : Payload)
      → ((body : Body) → answer.body ≡ some body → yielded (decoded body) ≡ [])
      → (r : AfterResponse)
      → after_response (policy task.stored) answer.sent answer.status answer.headers now ≡ done r
      → Effect (policy task.stored) answer.sent answer.status answer.headers now r
      → (store' : Store) × (background_revalidation cache store task (some answer) now
          ≡ done store')
        × (Holds store' k p d
            → Holds store k p d
              ⊎ IsRefreshed store task answer now k p d
              ⊎ IsReplacement cache task answer now k p d)
  unfolding background_revalidation
  settled cache store task answer now k p d start modified e effect = (
    replace_stored cache store task answer now,
    rw (e, background_revalidation) refl,
    λ h. elim (replace_stored_lem cache store task answer now k p d start h) [
      | inl old ↦ inl old
      | inr new ↦ inr (inr new)
    ],
  )
  settled cache store task answer now k p d start (AfterResponse.not_modified new reply) e
        (same, ok, updated) =
      (
        (refresh_policy store task.stored new).2,
        rw (e, background_revalidation) refl,
        λ h. elim (laws.refresh-holds store task.stored new k p d h) [
          | inl old ↦ inl old
          | inr (is, (old, held, variant)) ↦ inr (
              inl (
                same,
                subst (λ q. IsUpdated (policy task.stored) answer.sent answer.headers now q)
                    (sym is) updated,
                (old, held, rw is variant),
              ))
        ],
      )

  -- A background revalidation never panics. An error of the transport changes nothing. Else each response
  -- that the storage holds behind it was held before, with its policy or with the one that a 304 updated,
  -- or is the whole body of a new response that RFC 9111 allows storing, under the key of the task.
  pub background_revalidation-Holds :
      (cache : Cache) (store : Store) (task : Revalidation) (answer : NetworkAnswer)
      (now : SystemTime) (k : CacheKey) (p : CachePolicy) (d : Payload)
      → ((body : Body) → answer.body ≡ some body → yielded (decoded body) ≡ [])
      → (background_revalidation cache store task none now ≡ done store)
        × ((store' : Store) × (background_revalidation cache store task (some answer) now
              ≡ done store')
            × (Holds store' k p d
                → Holds store k p d
                  ⊎ IsRefreshed store task answer now k p d
                  ⊎ IsReplacement cache task answer now k p d))
  unfolding background_revalidation
  background_revalidation-Holds cache store task answer now k p d start =
      let (r, e, effect) =
        after_response_lem (policy task.stored) answer.sent answer.status answer.headers now in
      (refl, settled cache store task answer now k p d start r e effect)
