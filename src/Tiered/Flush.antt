-- ===== src/Tiered/Flush.antt =====
-- The write-back from the hot tier to the cold one.
use trillium_cache.Prelude.{
  ℕ, suc, ◌≡◌, ◌≢◌, ◌<◌, arith, ◌⊎◌, inl, inr, refl, Option, sym, ap, ◌∙◌, true, none, some, List,
  [], ◌∷◌, length, All, Bool-cases, Option-cases,
}
use mathlib.Core.Path.{subst}
use trillium_cache.Text.{u64_mod}
use trillium_cache.Http.{Http}
use trillium_cache.Policy.{CachePolicy, same_variant_as}
use trillium_cache.Storage.{Urls, CacheKey}
use trillium_cache.Storage.Traits.{CacheStorage, IsLawful, Payload}
use trillium_cache.Storage.Copy.{copy_chunks}
use trillium_cache.Storage.Copied.{copy_chunks-Commits, copy_chunks-completes}
use trillium_cache.Tee.Streams.{Streams as TeeStreams}
use trillium_cache.Bodies.{HttpBodies, Replays}
use trillium_cache.Tiered.{TieredStore, find_variant, flush_to_cold}
use trillium_cache.Tiered.Opening.{TieredHolds}

module _ ⦃http : Http⦄ ⦃urls : Urls⦄ ⦃streams : TeeStreams⦄ ⦃bodies : HttpBodies⦄
    {ColdHandle : Type 0} {hot : CacheStorage streams.Body streams.Writer}
    {cold : CacheStorage streams.Body ColdHandle}
    {HotHolds : hot.Store → CacheKey → CachePolicy → Payload → Type 0}
    {ColdHolds : cold.Store → CacheKey → CachePolicy → Payload → Type 0}
    {hot_accepted : streams.Writer → List ℕ} {cold_accepted : ColdHandle → List ℕ}
    {hot_target : streams.Writer → CacheKey × CachePolicy}
    {cold_target : ColdHandle → CacheKey × CachePolicy}
    (hots : IsLawful hot HotHolds hot_accepted hot_target Replays)
    (colds : IsLawful cold ColdHolds cold_accepted cold_target Replays) where
  open streams use {Body, whole, yielded}
  open bodies use {ends_with, read_chunk}

  -- What a flush finds in the hot tier: a response for the same variant, with whatever policy it has there,
  -- whose bytes the copy has, with its trailers or none.
  abbrev pub Copied : TieredStore hot cold → CacheKey → CachePolicy → Payload → Type 0
  Copied store key policy d =
      (p : CachePolicy) × (there : Payload) × HotHolds store.hot_store key p there
      × (same_variant_as p policy ≡ true)
      × (there.0 ≡ d.0)
      × ((d.1 ≡ there.1) ⊎ (d.1 ≡ none))

  find_variant_lem :
      (policy : CachePolicy) (P : hot.Entry → Type 0) (es : List hot.Entry) (e : hot.Entry)
      → find_variant hot cold policy es ≡ some e
      → All P es
      → P e × (same_variant_as (hot.policy e) policy ≡ true)
  unfolding find_variant
  find_variant_lem policy P [] e f h = absurd (cc f)
  find_variant_lem policy P (x ∷ es) e f h =
      elim (Bool-cases (same_variant_as (hot.policy x) policy)) [
        | inl g ↦
            let same : x ≡ e = cc (rw (g, find_variant) at f) in
            subst (λ y. P y × (same_variant_as (hot.policy y) policy ≡ true)) same (h.0, g)
        | inr g ↦ find_variant_lem policy P es e (rw (g, find_variant) at f) h.1
      ]

  -- What the cold tier holds behind the copy of a body.
  copied :
      (key : CacheKey) (policy : CachePolicy) (before : cold.Store) (put : ColdHandle) (body : Body)
      (d : Payload) (q : CachePolicy) (j : CacheKey) (e : Payload)
      → (cold.put before key policy).0 ≡ some put
      → Replays body d
      → ColdHolds
          (copy_chunks cold
            (λ total. true)
            (suc (length (whole body)))
            (cold.put before key policy).1
            put
            body
            0).1
          j
          q
          e
      → ColdHolds before j q e ⊎ ((j ≡ key) × (q ≡ policy) × (e ≡ (d.0, ends_with body)))
  copied key policy before put body d q j e f (start, bytes, trailers) h =
      let (empty, place) = colds.put-handle before key policy put f in
      let old : ColdHolds (cold.put before key policy).1 j q e → ColdHolds before j q e =
        colds.put-holds before key j policy q e in
      elim (copy_chunks-Commits cold (λ total. true) colds (suc (length (whole body)))
        (cold.put before key policy).1 put body 0 (empty ∙ sym start)) [
          | inl same ↦ inl (old (subst (λ s. ColdHolds s j q e) same h))
          | inr (end, all, target, result) ↦
              elim (colds.finalize-holds (cold.put before key policy).1 end (ends_with body) j q e
                (subst (λ s. ColdHolds s j q e) (ap (λ r. r.1) result) h)) [
                  | inl there ↦ inl (old there)
                  | inr (at_place, is) ↦ inr (
                    ap (λ x. x.0) (sym at_place ∙ target ∙ place),
                    ap (λ x. x.1) (sym at_place ∙ target ∙ place),
                    is ∙ (λ i. ((all ∙ bytes) i, ends_with body)),
                  )
                ]
        ]

  flush_to_cold-Holds :
      (store : TieredStore hot cold) (key : CacheKey) (policy : CachePolicy) (j : CacheKey)
      (q : CachePolicy) (d : Payload)
      → TieredHolds hots colds (flush_to_cold hot cold store key policy).1 j q d
      → TieredHolds hots colds store j q d ⊎ ((j ≡ key) × (q ≡ policy) × Copied store key policy d)
  unfolding flush_to_cold
  flush_to_cold-Holds store key policy j q d h =
      let hs = store.hot_store in
      let cs = store.cold_store in
      elim (Option-cases (find_variant hot cold policy (hot.get_entries hs key))) [
        | inl e ↦ inl (rw (e, flush_to_cold) at h)
        | inr (entry, e) ↦
            let (opens, same) =
              find_variant_lem policy _ (hot.get_entries hs key) entry e (hots.open-get hs key) in
            elim (Option-cases (hot.open_entry hs entry).0) [
              | inl f ↦ elim (rw f at (rw (e, flush_to_cold) at h)) [
                | inl x ↦ inl (inl (hots.open-holds hs entry j q d x))
                | inr y ↦ inl (inr y)
              ]
              | inr (body, f) ↦ elim (Option-cases (cold.put cs key policy).0) [
                | inl g ↦ elim (rw g at (rw f at (rw (e, flush_to_cold) at h))) [
                  | inl x ↦ inl (inl (hots.open-holds hs entry j q d x))
                  | inr y ↦ inl (inr (colds.put-holds cs key j policy q d y))
                ]
                | inr (put, g) ↦ elim (rw g at (rw f at (rw (e, flush_to_cold) at h))) [
                  | inl x ↦ inl (inl (hots.open-holds hs entry j q d x))
                  | inr y ↦
                      let (there, held, gives) = opens body f in
                      elim (copied key policy cs put body there q j d g gives y) [
                        | inl old ↦ inl (inr old)
                        | inr (at_key, at_policy, is) ↦ inr (
                          at_key,
                          at_policy,
                          (
                            hot.policy entry,
                            there,
                            held,
                            same,
                            sym (ap (λ x. x.0) is),
                            subst (λ t. (t ≡ there.1) ⊎ (t ≡ none)) (sym (ap (λ x. x.1) is))
                                gives.2,
                          ),
                        )
                      ]
                ]
              ]
            ]
      ]

  -- The hot tier is left alone, or one of its entries for the variant has been opened.
  abbrev pub HotAfter : TieredStore hot cold → CachePolicy → hot.Store → Type 0
  HotAfter store policy after =
      (after ≡ store.hot_store)
      ⊎ ((e : hot.Entry) × (after ≡ (hot.open_entry store.hot_store e).1)
          × (same_variant_as (hot.policy e) policy ≡ true))

  -- The cold tier is left alone, or a write has been opened in it and dropped, or this write has been
  -- finalized, for the key and the policy, with what the hot tier holds for the variant.
  abbrev pub ColdAfter : TieredStore hot cold → CacheKey → CachePolicy → cold.Store → Type 0
  ColdAfter store key policy after =
      (after ≡ store.cold_store)
      ⊎ (after ≡ (cold.put store.cold_store key policy).1)
      ⊎ ((end : ColdHandle) × (trailers : Option http.Headers) × (after
            ≡ (cold.finalize (cold.put store.cold_store key policy).1 end trailers).1)
          × (cold_target end ≡ (key, policy))
          × Copied store key policy (cold_accepted end, trailers))

  copy-ColdAfter :
      (store : TieredStore hot cold) (key : CacheKey) (policy : CachePolicy) (entry : hot.Entry)
      (put : ColdHandle) (body : Body) (there : Payload)
      → (cold.put store.cold_store key policy).0 ≡ some put
      → HotHolds store.hot_store key (hot.policy entry) there
      → same_variant_as (hot.policy entry) policy ≡ true
      → Replays body there
      → ColdAfter store key policy
          (copy_chunks cold
            (λ total. true)
            (suc (length (whole body)))
            (cold.put store.cold_store key policy).1
            put
            body
            0).1
  copy-ColdAfter store key policy entry put body there e held same (start, bytes, trailers) =
      let (empty, place) = colds.put-handle store.cold_store key policy put e in
      elim (copy_chunks-Commits cold (λ total. true) colds (suc (length (whole body)))
        (cold.put store.cold_store key policy).1 put body 0 (empty ∙ sym start)) [
          | inl left ↦ inr (inl left)
          | inr (end, all, target, result) ↦ inr (
              inr (
                end,
                ends_with body,
                ap (λ r. r.1) result,
                target ∙ place,
                (hot.policy entry, there, held, same, sym (all ∙ bytes), trailers),
              ))
        ]

  flush_to_cold-After :
      (store : TieredStore hot cold) (key : CacheKey) (policy : CachePolicy)
      → ((flush_to_cold hot cold store key policy).1.flushes ≡ store.flushes)
        × HotAfter store policy (flush_to_cold hot cold store key policy).1.hot_store
        × ColdAfter store key policy (flush_to_cold hot cold store key policy).1.cold_store
  unfolding flush_to_cold
  flush_to_cold-After store key policy =
      let hs = store.hot_store in
      let cs = store.cold_store in
      elim (Option-cases (find_variant hot cold policy (hot.get_entries hs key))) [
        | inl e ↦ rw (e, flush_to_cold) (refl, inl refl, inl refl)
        | inr (entry, e) ↦
            let (opens, same) =
              find_variant_lem policy _ (hot.get_entries hs key) entry e (hots.open-get hs key) in
            elim (Option-cases (hot.open_entry hs entry).0) [
              | inl f ↦ rw (e, flush_to_cold) (rw f (refl, inr (entry, refl, same), inl refl))
              | inr (body, f) ↦ elim (Option-cases (cold.put cs key policy).0) [
                | inl g ↦
                    rw (e, flush_to_cold)
                      (rw f (rw g (refl, inr (entry, refl, same), inr (inl refl))))
                | inr (put, g) ↦
                    let (there, held, gives) = opens body f in
                    rw (e, flush_to_cold)
                      (rw f (
                        rw g (
                          refl,
                          inr (entry, refl, same),
                          copy-ColdAfter store key policy entry put body there g held same gives,
                        )))
              ]
            ]
      ]

  -- A flush does to the hot tier at most that it opens an entry of the variant, and to the cold tier at most
  -- that it opens one write under the key and the policy, which it drops, or finalizes with all bytes of
  -- what the hot tier holds by then for the same variant; what waits to be flushed still waits. So each
  -- response that either tier holds behind it was held before, or is that copy.
  pub flush_to_cold-Copied :
      (store : TieredStore hot cold) (key : CacheKey) (policy : CachePolicy)
      → ((flush_to_cold hot cold store key policy).1.flushes ≡ store.flushes)
        × HotAfter store policy (flush_to_cold hot cold store key policy).1.hot_store
        × ColdAfter store key policy (flush_to_cold hot cold store key policy).1.cold_store
        × ((j : CacheKey) (q : CachePolicy) (d : Payload)
            → TieredHolds hots colds (flush_to_cold hot cold store key policy).1 j q d
            → TieredHolds hots colds store j q d
              ⊎ ((j ≡ key) × (q ≡ policy) × Copied store key policy d))
  flush_to_cold-Copied store key policy =
      let (waiting, at_hot, at_cold) = flush_to_cold-After store key policy in
      (waiting, at_hot, at_cold, flush_to_cold-Holds store key policy)

  -- Where the hot tier still holds the variant, its entry opens, the cold tier opens a write and no read
  -- and no write fails, the cold tier is given all bytes of the body and its trailers, under the key and
  -- the policy of the write.
  pub flush_to_cold-completes :
      (store : TieredStore hot cold) (key : CacheKey) (policy : CachePolicy) (entry : hot.Entry)
      (body : Body) (put : ColdHandle)
      → find_variant hot cold policy (hot.get_entries store.hot_store key) ≡ some entry
      → (hot.open_entry store.hot_store entry).0 ≡ some body
      → (cold.put store.cold_store key policy).0 ≡ some put
      → ((b : Body) → (read_chunk b 8192).0 ≢ none)
      → ((w : ColdHandle) (bytes : List ℕ) → cold.write_all w bytes ≢ none)
      → yielded body ≡ []
      → length (whole body) < u64_mod
      → (end : ColdHandle) × (cold_accepted end ≡ whole body)
        × (cold_target end ≡ (key, policy))
        × ((flush_to_cold hot cold store key policy).1.cold_store
            ≡ (cold.finalize (cold.put store.cold_store key policy).1 end (ends_with body)).1)
  unfolding flush_to_cold
  flush_to_cold-completes store key policy entry body put found opened ready reads writes start
        small =
      let (empty, place) = colds.put-handle store.cold_store key policy put ready in
      let (end, all, target, result) =
        copy_chunks-completes cold (λ total. true) colds (suc (length (whole body)))
          (cold.put store.cold_store key policy).1 put body 0 reads writes (λ n le. refl) small
          (empty ∙ sym start) (rw start refl) (omega arith) in
      (
        end,
        all,
        target ∙ place,
        rw (found, flush_to_cold) (rw opened (rw ready (ap (λ r. r.1) result))),
      )
