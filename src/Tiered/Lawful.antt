-- ===== src/Tiered/Lawful.antt =====
-- The tiered storage keeps the promises of the traits where its tiers do.
use trillium_cache.Prelude.{
  ℕ, ◌≡◌, ◌⊎◌, inl, inr, refl, true, false, Option, some, List, [], ◌∷◌, ◌++◌, All, Bool-cases,
  Option-cases,
}
use mathlib.Core.Path.{subst}
use trillium_cache.Http.{Http}
use trillium_cache.Policy.{CachePolicy, same_variant_as}
use trillium_cache.Storage.{Urls, CacheKey, key_eq}
use trillium_cache.Storage.Traits.{CacheStorage, IsLawful, Payload}
use trillium_cache.Tee.Streams.{Streams as TeeStreams}
use trillium_cache.Bodies.{HttpBodies, Replays}
use trillium_cache.Tiered.Opening.{
  TieredHolds, tiered_accepted, tiered_target, Opens, hot_first-Opens, open_holds,
}
use trillium_cache.Tiered.{
  TieredStore, TieredEntry, in_hot, in_cold, TieredPutHandle, hot_first, get_tiered, put_tiered,
  invalidate_tiered, refresh_tiered, write_all_tiered, finalize_tiered, tiered_storage,
}

module _ ⦃http : Http⦄ ⦃urls : Urls⦄ ⦃streams : TeeStreams⦄ ⦃bodies : HttpBodies⦄
    {ColdHandle : Type 0} {hot : CacheStorage streams.Body streams.Writer}
    {cold : CacheStorage streams.Body ColdHandle}
    {HotHolds : hot.Store → CacheKey → CachePolicy → Payload → Type 0}
    {ColdHolds : cold.Store → CacheKey → CachePolicy → Payload → Type 0}
    {hot_accepted : streams.Writer → List ℕ} {cold_accepted : ColdHandle → List ℕ}
    {hot_target : streams.Writer → CacheKey × CachePolicy}
    {cold_target : ColdHandle → CacheKey × CachePolicy}
    (hots : IsLawful hot HotHolds hot_accepted hot_target Replays)
    (colds : IsLawful cold ColdHolds cold_accepted cold_target Replays) where
  open streams use {Body, whole, yielded}
  open bodies use {body_len, body_of_tee, ends_with, yielded-tee, whole-tee, ends_with-tee}

  put_holds :
      (store : TieredStore hot cold) (j k : CacheKey) (q p : CachePolicy) (d : Payload)
      → TieredHolds hots colds (put_tiered hot cold store j q).1 k p d
      → TieredHolds hots colds store k p d
  unfolding put_tiered
  put_holds store j k q p d h = elim (Option-cases (hot.put store.hot_store j q).0) [
    | inl f ↦ elim (rw (f, put_tiered) at h) [
      | inl x ↦ inl (hots.put-holds store.hot_store j k q p d x)
      | inr y ↦ inr y
    ]
    | inr (w, f) ↦ elim (rw (f, put_tiered) at h) [
      | inl x ↦ inl (hots.put-holds store.hot_store j k q p d x)
      | inr y ↦ inr y
    ]
  ]

  put_handle_lem :
      (store : TieredStore hot cold) (k : CacheKey) (p : CachePolicy) (w : TieredPutHandle hot cold)
      → (put_tiered hot cold store k p).0 ≡ some w
      → (tiered_accepted hots colds w ≡ []) × (tiered_target hots colds w ≡ (k, p))
  unfolding put_tiered
  put_handle_lem store k p w e = elim (Option-cases (hot.put store.hot_store k p).0) [
    | inl f ↦ absurd (cc (rw (f, put_tiered) at e))
    | inr (v, f) ↦
        let new : TieredPutHandle hot cold = record { hot_handle = v; key = k; policy = p } in
        let same : new ≡ w = cc (rw (f, put_tiered) at e) in
        subst (λ x. (tiered_accepted hots colds x ≡ []) × (tiered_target hots colds x ≡ (k, p)))
          same (hots.put-handle store.hot_store k p v f)
  ]

  write_handle_lem :
      (w w' : TieredPutHandle hot cold) (bytes : List ℕ)
      → write_all_tiered hot cold w bytes ≡ some w'
      → (tiered_accepted hots colds w' ≡ tiered_accepted hots colds w ++ bytes)
        × (tiered_target hots colds w' ≡ tiered_target hots colds w)
  unfolding write_all_tiered
  write_handle_lem w w' bytes e = elim (Option-cases (hot.write_all w.hot_handle bytes)) [
    | inl f ↦ absurd (cc (rw (f, write_all_tiered) at e))
    | inr (v, f) ↦
        let same : record w { hot_handle = v } ≡ w' = cc (rw (f, write_all_tiered) at e) in
        subst
          (λ x.
            (tiered_accepted hots colds x ≡ tiered_accepted hots colds w ++ bytes)
            × (tiered_target hots colds x ≡ tiered_target hots colds w))
          same (hots.write-handle w.hot_handle v bytes f)
  ]

  finalize_hot :
      (store : TieredStore hot cold) (w : TieredPutHandle hot cold) (t : Option http.Headers)
      (k : CacheKey) (p : CachePolicy) (d : Payload)
      → HotHolds (hot.finalize store.hot_store w.hot_handle t).1 k p d
        ⊎ ColdHolds store.cold_store k p d
      → TieredHolds hots colds store k p d
        ⊎ ((tiered_target hots colds w ≡ (k, p)) × (d ≡ (tiered_accepted hots colds w, t)))
  finalize_hot store w t k p d (inr h) = inl (inr h)
  finalize_hot store w t k p d (inl h) =
      elim (hots.finalize-holds store.hot_store w.hot_handle t k p d h) [
        | inl old ↦ inl (inl old)
        | inr new ↦ inr new
      ]

  finalize_holds :
      (store : TieredStore hot cold) (w : TieredPutHandle hot cold) (t : Option http.Headers)
      (k : CacheKey) (p : CachePolicy) (d : Payload)
      → TieredHolds hots colds (finalize_tiered hot cold store w t).1 k p d
      → TieredHolds hots colds store k p d
        ⊎ ((tiered_target hots colds w ≡ (k, p)) × (d ≡ (tiered_accepted hots colds w, t)))
  unfolding finalize_tiered
  finalize_holds store w t k p d h =
      elim (Bool-cases (hot.finalize store.hot_store w.hot_handle t).0) [
        | inl f ↦ finalize_hot store w t k p d (rw (f, finalize_tiered) at h)
        | inr f ↦ finalize_hot store w t k p d (rw (f, finalize_tiered) at h)
      ]

  invalidate_holds :
      (store : TieredStore hot cold) (j k : CacheKey) (p : CachePolicy) (d : Payload)
      → TieredHolds hots colds (invalidate_tiered hot cold store j) k p d
      → TieredHolds hots colds store k p d × (key_eq j k ≡ false)
  unfolding invalidate_tiered
  invalidate_holds store j k p d (inl h) =
      let (old, other) = hots.invalidate-holds store.hot_store j k p d h in (inl old, other)
  invalidate_holds store j k p d (inr h) =
      let (old, other) = colds.invalidate-holds store.cold_store j k p d h in (inr old, other)

  -- Nothing is shown where neither tier shows anything, and only there.
  neither :
      (k : CacheKey) (hs : List hot.Entry) (cs : List cold.Entry)
      → hot_first hot cold k hs cs ≡ []
      → (hs ≡ []) × (cs ≡ [])
  neither k [] [] e = (refl, refl)
  neither k [] (c ∷ cs) e = absurd (cc e)
  neither k (h ∷ hs) cs e = absurd (cc e)

  both_empty :
      (store : TieredStore hot cold) (k : CacheKey)
      → hot.get_entries store.hot_store k ≡ []
      → cold.get_entries store.cold_store k ≡ []
      → get_tiered hot cold store k ≡ []
  unfolding get_tiered
  both_empty store k e f = rw (e, f) refl

  invalidate_clears :
      (store : TieredStore hot cold) (k : CacheKey)
      → get_tiered hot cold (invalidate_tiered hot cold store k) k ≡ []
  unfolding invalidate_tiered
  invalidate_clears store k =
      both_empty (invalidate_tiered hot cold store k) k (hots.invalidate-clears store.hot_store k)
        (colds.invalidate-clears store.cold_store k)

  invalidate_keeps :
      (store : TieredStore hot cold) (j k : CacheKey)
      → get_tiered hot cold store k ≡ []
      → get_tiered hot cold (invalidate_tiered hot cold store j) k ≡ []
  unfolding invalidate_tiered get_tiered
  invalidate_keeps store j k e =
      let (h, c) = neither k _ _ e in
      both_empty (invalidate_tiered hot cold store j) k
        (hots.invalidate-keeps store.hot_store j k h)
        (colds.invalidate-keeps store.cold_store j k c)

  -- What a refresh leaves.
  abbrev Kept : TieredStore hot cold → CachePolicy → CacheKey → CachePolicy → Payload → Type 0
  Kept store q k p d =
      TieredHolds hots colds store k p d
      ⊎ ((p ≡ q)
          × ((old : CachePolicy) × TieredHolds hots colds store k old d
              × (same_variant_as old q ≡ true)))

  refresh_holds :
      (store : TieredStore hot cold) (e : TieredEntry hot cold) (q : CachePolicy) (k : CacheKey)
      (p : CachePolicy) (d : Payload)
      → TieredHolds hots colds (refresh_tiered hot cold store e q).2 k p d
      → Kept store q k p d
  unfolding refresh_tiered
  refresh_holds store (in_hot e) q k p d (inl h) =
      elim (hots.refresh-holds store.hot_store e q k p d h) [
        | inl old ↦ inl (inl old)
        | inr (f, (old, held, same)) ↦ inr (f, (old, inl held, same))
      ]
  refresh_holds store (in_hot e) q k p d (inr h) = inl (inr h)
  refresh_holds store (in_cold e key) q k p d (inl h) = inl (inl h)
  refresh_holds store (in_cold e key) q k p d (inr h) =
      elim (colds.refresh-holds store.cold_store e q k p d h) [
        | inl old ↦ inl (inr old)
        | inr (f, (old, held, same)) ↦ inr (f, (old, inr held, same))
      ]

  open_get :
      (store : TieredStore hot cold) (k : CacheKey)
      → All (Opens hots colds store k) (get_tiered hot cold store k)
  unfolding get_tiered
  open_get store k =
      hot_first-Opens hots colds store k (hot.get_entries store.hot_store k)
        (cold.get_entries store.cold_store k) (hots.open-get store.hot_store k)
        (colds.open-get store.cold_store k)

  -- A tiered storage keeps the laws of the traits where its two tiers do. An entry opens to the bytes that
  -- one of them holds for its policy, with their trailers or none, also where it is promoted and its body
  -- goes through the tee. A promotion and an unfinished write show nothing, what is finalized is what its
  -- handle has accepted, a refresh keeps the payload, and an invalidated key shows nothing.
  pub tiered_storage-IsLawful :
      IsLawful
        (tiered_storage hot cold)
        (TieredHolds hots colds)
        (tiered_accepted hots colds)
        (tiered_target hots colds)
        Replays
  tiered_storage-IsLawful = record {
    open-get = open_get;
    open-holds = open_holds hots colds;
    put-holds = put_holds;
    put-handle = put_handle_lem;
    write-handle = write_handle_lem;
    finalize-holds = finalize_holds;
    invalidate-holds = invalidate_holds;
    invalidate-clears = invalidate_clears;
    invalidate-keeps = invalidate_keeps;
    refresh-holds = refresh_holds;
  }
